-- ===== src/Cpu/Decode/Encode.antt =====
-- The fields of an instruction against its parts, cpu.h.
use cube_sim.Common.{arith, ℕ, ◌*◌, ◌+◌, ◌/◌, ◌<◌, ◌^◌, ◌≡◌}
use cube_sim.Common.Bits.{bit_and_low}
use cube_sim.Cpu.Decode.{funct, immed, jumptarg, opcode, rd, rs, rt, shamt}

-- An instruction with register fields, as the manuals of the processor lay it out.
abbrev pub encode : ℕ → ℕ → ℕ → ℕ → ℕ → ℕ → ℕ
encode op s t d sh fn = op * 2 ^ 26 + s * 2 ^ 21 + t * 2 ^ 16 + d * 2 ^ 11 + sh * 2 ^ 6 + fn

-- The fields of an instruction that is put together from parts of their widths are these parts, and
-- the immediate value and the target of a jump are what the lower fields make.
pub fields-encode :
    (op s t d sh fn : ℕ)
    → op < 64
    → s < 32
    → t < 32
    → d < 32
    → sh < 32
    → fn < 64
    → (opcode (encode op s t d sh fn) ≡ op)
      × (rs (encode op s t d sh fn) ≡ s)
      × (rt (encode op s t d sh fn) ≡ t)
      × (rd (encode op s t d sh fn) ≡ d)
      × (shamt (encode op s t d sh fn) ≡ sh)
      × (funct (encode op s t d sh fn) ≡ fn)
      × (immed (encode op s t d sh fn) ≡ d * 2 ^ 11 + sh * 2 ^ 6 + fn)
      × (jumptarg (encode op s t d sh fn) ≡ encode 0 s t d sh fn)
unfolding opcode rs rt rd shamt funct immed jumptarg
fields-encode op s t d sh fn ho hs ht hd hh hf =
    let i = encode op s t d sh fn in
    (
      omega (arith, bit_and_low 6 (i / 2 ^ 26)),
      omega (arith, bit_and_low 5 (i / 2 ^ 21)),
      omega (arith, bit_and_low 5 (i / 2 ^ 16)),
      omega (arith, bit_and_low 5 (i / 2 ^ 11)),
      omega (arith, bit_and_low 5 (i / 2 ^ 6)),
      omega (arith, bit_and_low 6 i),
      omega (arith, bit_and_low 16 i),
      omega (arith, bit_and_low 26 i),
    )
