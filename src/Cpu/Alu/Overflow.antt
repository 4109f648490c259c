-- ===== src/Cpu/Alu/Overflow.antt =====
-- Signed sums, differences and comparisons of the processor against the integers, cpu.cc.
use cube_sim.Common.{arith, ℕ, ◌-◌, ◌<◌, ◌^◌, ◌≡◌}
use cube_sim.Common.Int.{negsuc, pos, ℤ, ◌+ℤ◌, ◌-ℤ◌, ◌≤ℤ◌}
use cube_sim.Cpu.Alu.{add_exec, raises_ov, result, signed32, sub_exec, undefined}
use cube_sim.Common.Bits.{add32, sub32}

-- What an `int32` holds.
abbrev pub FitsInt32 : ℤ → Type 0
FitsInt32 x = (negsuc (2 ^ 31 - 1) ≤ℤ x) × (x ≤ℤ pos (2 ^ 31 - 1))

-- On 32-bit operands, where an `int32` holds the sum of the signed operands, add has that sum as its
-- result; where it does not, what the program does is undefined. So add raises Ov on no operands for which
-- the language says what it does.
pub add_exec_lem :
    (a b : ℕ)
    → a < 2 ^ 32
    → b < 2 ^ 32
    → (FitsInt32 (signed32 a +ℤ signed32 b)
        → (s : ℕ) × (add_exec a b ≡ result s) × (signed32 s ≡ signed32 a +ℤ signed32 b))
      × ((¬ FitsInt32 (signed32 a +ℤ signed32 b)) → add_exec a b ≡ undefined)
      × (¬ (add_exec a b ≡ raises_ov))
unfolding add_exec ◌+ℤ◌
add_exec_lem a b ha hb =
    (λ h. (add32 a b, ground arith, ground arith), λ h. ground arith, λ h. ground arith)

-- The same of the difference.
pub sub_exec_lem :
    (a b : ℕ)
    → a < 2 ^ 32
    → b < 2 ^ 32
    → (FitsInt32 (signed32 a -ℤ signed32 b)
        → (s : ℕ) × (sub_exec a b ≡ result s) × (signed32 s ≡ signed32 a -ℤ signed32 b))
      × ((¬ FitsInt32 (signed32 a -ℤ signed32 b)) → sub_exec a b ≡ undefined)
      × (¬ (sub_exec a b ≡ raises_ov))
unfolding sub_exec ◌-ℤ◌
sub_exec_lem a b ha hb =
    (λ h. (sub32 a b, ground arith, ground arith), λ h. ground arith, λ h. ground arith)
