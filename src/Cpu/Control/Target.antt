-- ===== src/Cpu/Control/Target.antt =====
-- Where branches and jumps go, cpu.cc.
use mathlib.Core.Option
use cube_sim.Common.{
  Bool, ap, arith, bit_and, bit_or, false, if◌then◌else◌, none, refl, some, true, ℕ, ◌%◌, ◌*◌, ◌+◌,
  ◌-◌, ◌/◌, ◌<◌, ◌^◌, ◌↔◌, ◌∙◌, ◌≡◌,
}
use cube_sim.Common.Bits.{
  add32, bit_and_bit, bit_and_high, bit_and_low, bit_or_above, bit_or_double, bit_or_ones, shl32,
  sub32,
}
use cube_sim.Cpu.Control.{
  bgez_exec, bgezal_exec, bgtz_exec, blez_exec, bltz_exec, bltzal_exec, branch_target, jump_target,
}
use cube_sim.Cpu.Decode.{jumptarg}
use cube_sim.Common.Int.{pos, ◌≤ℤ◌}
use cube_sim.Cpu.Alu.{is_negative, signed32}
use cube_sim.Cpu.Decode.Operands.{imm_value}

jumptarg-lt : (i : ℕ) → jumptarg i < 2 ^ 26
unfolding jumptarg
jumptarg-lt i = omega (arith, bit_and_low 26 i)

region : (pc : ℕ) → pc < 2 ^ 32 → bit_and pc 0xf0000000 ≡ pc / 2 ^ 28 * 2 ^ 28
region pc h = bit_and_high 28 pc 0xf ∙ omega (arith, bit_and_low 4 (pc / 2 ^ 28))

add32-lt : (a b : ℕ) → add32 a b < 2 ^ 32
add32-lt a b = omega arith

-- All bits but the last two are set.
or_wrapped : (q : ℕ) → q < 16 → bit_or (q * 2 ^ 28) 0xfffffffc ≡ 0xfffffffc
or_wrapped q h =
    let twice : q * 2 ^ 28 ≡ 2 * (2 * (q * 2 ^ 26)) = omega arith in
    rw
      (
        twice,
        bit_or_double (2 * (q * 2 ^ 26)) 0x7ffffffe,
        bit_or_double (q * 2 ^ 26) 0x3fffffff,
        bit_or_ones 30 (q * 2 ^ 26) (omega arith),
      )
      refl

module _ (i pc : ℕ) where
  high : bit_and (add32 pc 4) 0xf0000000 ≡ add32 pc 4 / 2 ^ 28 * 2 ^ 28
  high = region (add32 pc 4) (add32-lt pc 4)

  named : 0 < jumptarg i → jump_target i pc ≡ add32 pc 4 / 2 ^ 28 * 2 ^ 28 + (4 * jumptarg i - 4)
  unfolding jump_target
  named h =
      let low : sub32 (shl32 (jumptarg i) 2) 4 ≡ 4 * jumptarg i - 4 =
        omega (arith, jumptarg-lt i) in
      rw (high, low)
        (bit_or_above 28 (add32 pc 4 / 2 ^ 28) (4 * jumptarg i - 4) (omega (arith, jumptarg-lt i)))

  lost : jumptarg i ≡ 0 → jump_target i pc ≡ 0xfffffffc
  unfolding jump_target
  lost h =
      let low : sub32 (shl32 (jumptarg i) 2) 4 ≡ 0xfffffffc = omega (arith, h) in
      rw (high, low) (or_wrapped (add32 pc 4 / 2 ^ 28) (omega arith))

-- The next instruction after a jump is the one in the region of the delay slot that the target field
-- names, except that a jump to the beginning of its region goes to address 0.
pub jump_target_lem :
    (i pc : ℕ)
    → (0 < jumptarg i → add32 (jump_target i pc) 4 ≡ add32 pc 4 / 2 ^ 28 * 2 ^ 28 + 4 * jumptarg i)
      × (jumptarg i ≡ 0 → add32 (jump_target i pc) 4 ≡ 0)
jump_target_lem i pc = (
  λ h. omega (arith, named i pc h, jumptarg-lt i, add32-lt pc 4),
  λ h. omega (arith, lost i pc h),
)

further : (i pc : ℕ) → add32 (add32 pc 4) (shl32 (imm_value i) 2) ≡ add32 (branch_target i pc) 4
unfolding branch_target
further i pc = omega arith

later :
    (b : Bool) (t u : ℕ)
    → u ≡ add32 t 4
    → (if b then some u else none) ≡ Option.map (λ t. add32 t 4) (if b then some t else none)
later true t u h = ap some h
later false t u h = refl

-- On a 32-bit operand the branches on one operand are taken for the signs that their names say. BGEZAL
-- goes where BGEZ goes, but BLTZAL, when it is taken, goes one instruction further than BLTZ.
pub branch_signs :
    (i pc a : ℕ)
    → a < 2 ^ 32
    → (((blez_exec i pc a).target ≡ some (branch_target i pc)) ↔ (signed32 a ≤ℤ pos 0))
      × (((bgtz_exec i pc a).target ≡ none) ↔ (signed32 a ≤ℤ pos 0))
      × (((bltz_exec i pc a).target ≡ none) ↔ (pos 0 ≤ℤ signed32 a))
      × (((bgez_exec i pc a).target ≡ some (branch_target i pc)) ↔ (pos 0 ≤ℤ signed32 a))
      × ((bgezal_exec i pc a).target ≡ (bgez_exec i pc a).target)
      × ((bltzal_exec i pc a).target ≡ Option.map (λ t. add32 t 4) (bltz_exec i pc a).target)
unfolding blez_exec bgtz_exec bltz_exec bgez_exec bgezal_exec bltzal_exec
branch_signs i pc a h =
    let sign : bit_and a 0x80000000 ≡ a / 2 ^ 31 % 2 * 2 ^ 31 = bit_and_bit 31 a in
    (
      ground (arith, sign),
      ground (arith, sign),
      ground arith,
      ground arith,
      refl,
      later (is_negative a) (branch_target i pc) _ (further i pc),
    )
