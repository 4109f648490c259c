-- ===== src/Cpu/Control.antt =====
-- Branches and jumps, which cpu.cc executes in the decode stage, as functions of the instruction `i`,
-- its address `pc`, and the operands `a` and `b`. The program adds 4 to the new `pc` later in the cycle.
pub mod Target
use cube_sim.Common.{
  Bool, Option, bit_and, bit_or, if◌then◌else◌, none, not, some, ℕ, ◌&&◌, ◌==◌, ◌||◌,
}
use cube_sim.Common.Bits.{add32, shl32, sub32}
use cube_sim.Cpu.Decode.{funct, jumptarg, opcode, rt}
use cube_sim.Cpu.Decode.Operands.{imm_value}
use cube_sim.Cpu.Alu.{is_negative}

-- The new `pc` of a transfer that is taken, with `delay_slot` set for the next instruction, and the
-- `result` that is written.
pub record Transfer : Type 0 where
  pub target : Option ℕ
  pub link : Option ℕ

abbrev pub stay : Transfer
stay = record { target = none; link = none }

unfoldable pub jump_target : ℕ → ℕ → ℕ
unfolding jumptarg
jump_target i pc = bit_or (bit_and (add32 pc 4) 0xf0000000) (sub32 (shl32 (jumptarg i) 2) 4)

unfoldable pub branch_target : ℕ → ℕ → ℕ
branch_target i pc = add32 pc (shl32 (imm_value i) 2)

abbrev pub branch_if : Bool → ℕ → ℕ → Transfer
branch_if taken i pc = record {
  target = if taken then some (branch_target i pc) else none;
  link = none;
}

abbrev pub link_of : ℕ → Option ℕ
link_of pc = some (add32 pc 8)

unfoldable pub j_exec : ℕ → ℕ → Transfer
j_exec i pc = record { target = some (jump_target i pc); link = none }

unfoldable pub jal_exec : ℕ → ℕ → Transfer
jal_exec i pc = record { target = some (jump_target i pc); link = link_of pc }

unfoldable pub jr_exec : ℕ → Transfer
jr_exec a = record { target = some (sub32 a 4); link = none }

unfoldable pub beq_exec : ℕ → ℕ → ℕ → ℕ → Transfer
beq_exec i pc a b = branch_if (a == b) i pc

unfoldable pub bne_exec : ℕ → ℕ → ℕ → ℕ → Transfer
bne_exec i pc a b = branch_if (not (a == b)) i pc

unfoldable pub blez_exec : ℕ → ℕ → ℕ → Transfer
blez_exec i pc a = branch_if (a == 0 || not (bit_and a 0x80000000 == 0)) i pc

unfoldable pub bgtz_exec : ℕ → ℕ → ℕ → Transfer
bgtz_exec i pc a = branch_if (not (a == 0) && bit_and a 0x80000000 == 0) i pc

unfoldable pub bltz_exec : ℕ → ℕ → ℕ → Transfer
bltz_exec i pc a = branch_if (is_negative a) i pc

unfoldable pub bgez_exec : ℕ → ℕ → ℕ → Transfer
bgez_exec i pc a = branch_if (not (is_negative a)) i pc

unfoldable pub bltzal_exec : ℕ → ℕ → ℕ → Transfer
bltzal_exec i pc a = record {
  target = if is_negative a then some (add32 (add32 pc 4) (shl32 (imm_value i) 2)) else none;
  link = link_of pc;
}

unfoldable pub bgezal_exec : ℕ → ℕ → ℕ → Transfer
bgezal_exec i pc a = record {
  target = if not (is_negative a) then some (branch_target i pc) else none;
  link = link_of pc;
}

-- `execBcondTable`.
unfoldable pub bcond_exec : ℕ → ℕ → ℕ → Transfer
unfolding rt bltz_exec bgez_exec bltzal_exec bgezal_exec
bcond_exec i pc a =
    if rt i == 0
    then bltz_exec i pc a
    else (if rt i == 1
        then bgez_exec i pc a
        else (if rt i == 16
            then bltzal_exec i pc a
            else (if rt i == 17 then bgezal_exec i pc a else stay)))

-- `execSpecialTable` of `funct_ctrl`, which has `jal_exec` at the place of JALR.
unfoldable pub funct_ctrl : ℕ → ℕ → ℕ → Transfer
unfolding funct jr_exec jal_exec
funct_ctrl i pc a =
    if funct i == 8 then jr_exec a else (if funct i == 9 then jal_exec i pc else stay)

-- The branches and jumps of `execTable` in `decode`.
unfoldable pub control : ℕ → ℕ → ℕ → ℕ → Transfer
unfolding opcode funct_ctrl bcond_exec j_exec jal_exec beq_exec bne_exec blez_exec bgtz_exec
control i pc a b =
    if opcode i == 0
    then funct_ctrl i pc a
    else (if opcode i == 1
        then bcond_exec i pc a
        else (if opcode i == 2
            then j_exec i pc
            else (if opcode i == 3
                then jal_exec i pc
                else (if opcode i == 4
                    then beq_exec i pc a b
                    else (if opcode i == 5
                        then bne_exec i pc a b
                        else (if opcode i == 6
                            then blez_exec i pc a
                            else (if opcode i == 7 then bgtz_exec i pc a else stay)))))))
