-- ===== src/Cpu/Decode.antt =====
-- The fields of an instruction, cpu.h, and the tables of ISA.h by which `pre_decode` of cpu.cc chooses the
-- operands and the destination of an instruction.
pub mod Tables
pub mod Flags
pub mod Operands
pub mod Encode
use cube_sim.Common.{bit_and, if◌then◌else◌, leb, ℕ, ◌+◌}
use cube_sim.Common.Bits.{shr}

unfoldable pub opcode : ℕ → ℕ
opcode i = bit_and (shr i 26) 0x3f

unfoldable pub rs : ℕ → ℕ
rs i = bit_and (shr i 21) 0x1f

unfoldable pub rt : ℕ → ℕ
rt i = bit_and (shr i 16) 0x1f

unfoldable pub rd : ℕ → ℕ
rd i = bit_and (shr i 11) 0x1f

unfoldable pub immed : ℕ → ℕ
immed i = bit_and i 0xffff

-- `(uint32) s_immed(i)`: the sign of the 16 bits is repeated.
unfoldable pub s_immed : ℕ → ℕ
unfolding immed
s_immed i = if leb 0x8000 (immed i) then immed i + 0xffff0000 else immed i

unfoldable pub shamt : ℕ → ℕ
shamt i = bit_and (shr i 6) 0x1f

unfoldable pub funct : ℕ → ℕ
funct i = bit_and i 0x3f

unfoldable pub jumptarg : ℕ → ℕ
jumptarg i = bit_and i 0x03ffffff

-- NONE_REG and RA_REG.
abbrev pub none_reg : ℕ
none_reg = 32

abbrev pub ra : ℕ
ra = 31

-- What an entry of a table says; `no_entry` is a null pointer.
pub data Field : Type 0 where
  rs_field rt_field rd_field no_reg ra_reg no_entry : Field

unfoldable pub decode_field : Field → ℕ → ℕ
unfolding rs rt rd
decode_field rs_field i = rs i
decode_field rt_field i = rt i
decode_field rd_field i = rd i
decode_field no_reg i = none_reg
decode_field ra_reg i = ra
decode_field no_entry i = none_reg
