-- ===== src/Cpu/Zero/Dispatch.antt =====
-- `cpzero_emulate` of cpzero.cc: the instructions of coprocessor 0. `rt_value` is the register `rt` of
-- the processor. `cpCond` is always true in cpzero.h.
use cube_sim.Common.{Bool, Option, false, if◌then◌else◌, leb, ltb, none, some, true, ℕ, ◌==◌}
use cube_sim.Cpu.Zero.{CpZero, read_reg, write_reg}
use cube_sim.Cpu.Zero.Tlb.{tlbp_emulate, tlbr_emulate, tlbwi_emulate, tlbwr_emulate}
use cube_sim.Cpu.Zero.Trap.{rfe_emulate}
use cube_sim.Cpu.Decode.{funct, rd, rs, rt}

-- What an instruction does: to the coprocessor, to `dst` and `result` of the processor, whether it
-- branches as `CPU::branch` does, and whether it raises RI.
pub record Effect : Type 0 where
  pub zero : CpZero
  pub written : Option (ℕ × ℕ)
  pub branches : Bool
  pub reserved : Bool

abbrev only : CpZero → Effect
only z = record { zero = z; written = none; branches = false; reserved = false }

abbrev refuse : CpZero → Effect
refuse z = record { zero = z; written = none; branches = false; reserved = true }

unfoldable pub mfc0_emulate : ℕ → ℕ → CpZero → Effect
unfolding read_reg rt rd
mfc0_emulate hw i z =
    let (z₁, v) = read_reg hw (rd i) z in
    record { zero = z₁; written = some (rt i, v); branches = false; reserved = false }

unfoldable pub mtc0_emulate : ℕ → ℕ → CpZero → Effect
unfolding write_reg rd
mtc0_emulate i rt_value z = only (write_reg (rd i) rt_value z)

unfoldable pub bc0x_emulate : ℕ → CpZero → Effect
unfolding rt
bc0x_emulate i z =
    if rt i == 1
    then record (only z) { branches = true }
    else (if leb (rt i) 3 then only z else refuse z)

unfoldable pub tlb_function : ℕ → ℕ → CpZero → Effect
unfolding tlbr_emulate tlbwi_emulate tlbwr_emulate tlbp_emulate rfe_emulate
tlb_function hw fn z =
    if fn == 1
    then only (tlbr_emulate z)
    else (if fn == 2
        then only (tlbwi_emulate hw z)
        else (if fn == 6
            then only (tlbwr_emulate hw z)
            else (if fn == 8
                then only (tlbp_emulate z)
                else (if fn == 16 then only (rfe_emulate z) else refuse z))))

unfoldable pub cpzero_emulate : ℕ → ℕ → ℕ → CpZero → Effect
unfolding tlb_function mfc0_emulate mtc0_emulate bc0x_emulate rs funct
cpzero_emulate hw i rt_value z =
    if ltb 15 (rs i)
    then tlb_function hw (funct i) z
    else (if rs i == 0
        then mfc0_emulate hw i z
        else (if rs i == 4
            then mtc0_emulate i rt_value z
            else (if rs i == 8 then bc0x_emulate i z else refuse z)))
