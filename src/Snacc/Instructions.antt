-- ===== src/Snacc/Instructions.antt =====
-- The instruction set of SNACC, and the execution and write-back stages of snacccore.cc against it.
use cube_sim.Snacc.Mad
use cube_sim.Common.{
  Bool, Bool-cases, List, Option, arith, bit_and, bit_or, bit_xor, false, if◌then◌else◌, inl, inr,
  leb, none, not, refl, set, some, true, ℕ, ◌%◌, ◌&&◌, ◌*◌, ◌+◌, ◌-◌, ◌/◌, ◌==◌, ◌^◌, ◌||◌, ◌≡◌,
}
use cube_sim.Snacc.Fixed.{asr32}
use cube_sim.Snacc.Core.{Core, reg}
use cube_sim.Snacc.Execute.{arithmetic, control, ex_stage, immediate, next_pc, simd, wb_stage}

-- The instructions that write a register or branch; `other` is any instruction that does neither.
pub data Instr : Type 0 where
  mov add sub mul and or xor neg : Instr
  loadi addi subi sll srl sra : Instr
  bneq jump other : Instr

pub arithmetic_of : ℕ → Instr
arithmetic_of f =
    if f == 1
    then mov
    else (if f == 2
        then add
        else (if f == 3
            then sub
            else (if f == 4
                then mul
                else (if f == 5
                    then and
                    else (if f == 6
                        then or
                        else (if f == 7 then xor else (if f == 8 then neg else other)))))))

pub instr_of : ℕ → ℕ → Instr
unfolding arithmetic_of
instr_of op f =
    if op == 0
    then arithmetic_of f
    else (if op == 3
        then loadi
        else (if op == 4
            then bneq
            else (if op == 5
                then jump
                else (if op == 9
                    then addi
                    else (if op == 10
                        then subi
                        else (if op == 11
                            then sll
                            else (if op == 12 then srl else (if op == 13 then sra else other))))))))

-- The value that an instruction writes, from its two registers and its immediate.
pub value_of : Instr → ℕ → ℕ → ℕ → Option ℕ
value_of mov a b n = some b
value_of add a b n = some ((a + b) % 2 ^ 32)
value_of sub a b n = some ((a + 2 ^ 32 - b) % 2 ^ 32)
value_of mul a b n = some (a * b % 2 ^ 32)
value_of and a b n = some (bit_and a b)
value_of or a b n = some (bit_or a b)
value_of xor a b n = some (bit_xor a b)
value_of neg a b n = some (2 ^ 32 - 1 - b)
value_of loadi a b n = some ((bit_and a 0xffffff * 2 ^ 8 % 2 ^ 32 + n) % 2 ^ 32)
value_of addi a b n = some ((a + n) % 2 ^ 32)
value_of subi a b n = some ((a + 2 ^ 32 - n) % 2 ^ 32)
value_of sll a b n = some (a * 2 ^ (n % 32) % 2 ^ 32)
value_of srl a b n = some (a / 2 ^ (n % 32))
value_of sra a b n = some (asr32 a (n % 32))
value_of bneq a b n = none
value_of jump a b n = none
value_of other a b n = none

pub branches : Instr → ℕ → Bool
branches bneq a = not (a == 0)
branches jump a = true
branches _ a = false

-- The registers and the program counter after an instruction that may write `v` to `rd`.
pub regs_after : Option ℕ → ℕ → List ℕ → List ℕ
regs_after none rd regs = regs
regs_after (some v) rd regs = if rd == 15 then regs else set regs rd v

pub next_of : Bool → ℕ → ℕ → ℕ
next_of taken n pc = if taken then (pc + 2 + 2 * n) % 2 ^ 32 else (pc + 2) % 2 ^ 32

pub pc_after : Option ℕ → Bool → ℕ → ℕ → ℕ → ℕ
unfolding next_of
pc_after none taken rd n pc = next_of taken n pc
pc_after (some v) taken rd n pc = if rd == 15 then v else next_of taken n pc

pub is_some : Option ℕ → Bool
is_some none = false
is_some (some v) = true

pub from_option : Option ℕ → ℕ → ℕ
from_option none n = n
from_option (some v) n = v

-- What the execution stage leaves, when the instruction reaches no memory and does not start the unit.
pub record Executed (d e : Core) (v : Option ℕ) (taken : Bool) : Type 0 where
  pub regs_eq : e.regs ≡ d.regs
  pub pc_eq : e.pc ≡ d.pc
  pub rd_eq : e.dec_rd ≡ d.dec_rd
  pub imm_eq : e.dec_imm ≡ d.dec_imm
  pub done_eq : e.done ≡ d.done
  pub halt_eq : e.halt_issued ≡ d.halt_issued
  pub stall_eq : e.stall_cause ≡ d.stall_cause
  pub state_eq : e.mad.state ≡ d.mad.state
  pub next_eq : e.mad.next_state ≡ d.mad.next_state
  pub taken_eq : e.is_branch ≡ taken
  pub write_eq : e.reg_write ≡ is_some v
  pub data_eq : e.reg_write_data ≡ from_option v d.reg_write_data

arithmetic-Executed :
    (f : ℕ) (d : Core)
    → d.reg_write ≡ false
    → d.is_branch ≡ false
    → Executed d
        (arithmetic f d)
        (value_of (arithmetic_of f) (reg d d.dec_rd) (reg d d.dec_rs) d.dec_imm)
        (branches (arithmetic_of f) (reg d d.dec_rd))
unfolding arithmetic arithmetic_of value_of branches is_some from_option
arithmetic-Executed f d w b = record {
  regs_eq = ground arith;
  pc_eq = ground arith;
  rd_eq = ground arith;
  imm_eq = ground arith;
  done_eq = ground arith;
  halt_eq = ground arith;
  stall_eq = ground arith;
  state_eq = ground arith;
  next_eq = ground arith;
  taken_eq = ground arith;
  write_eq = ground arith;
  data_eq = ground arith;
}

immediate-Executed :
    (op : ℕ) (d : Core)
    → d.reg_write ≡ false
    → d.is_branch ≡ false
    → ((op == 3) || leb 9 op && leb op 13) ≡ true
    → Executed d
        (immediate op d)
        (value_of (instr_of op d.dec_func) (reg d d.dec_rd) (reg d d.dec_rs) d.dec_imm)
        (branches (instr_of op d.dec_func) (reg d d.dec_rd))
unfolding immediate instr_of value_of branches is_some from_option
immediate-Executed op d w b h = record {
  regs_eq = ground arith;
  pc_eq = ground arith;
  rd_eq = ground arith;
  imm_eq = ground arith;
  done_eq = ground arith;
  halt_eq = ground arith;
  stall_eq = ground arith;
  state_eq = ground arith;
  next_eq = ground arith;
  taken_eq = ground arith;
  write_eq = ground arith;
  data_eq = ground arith;
}

-- The instructions that neither reach the memory nor start the unit.
abbrev pub is_plain : ℕ → Bool
is_plain op = not (op == 1 || op == 6 || op == 7)

abbrev pub Executes : Core → Core → Type 0
Executes d e =
    Executed d e
      (value_of (instr_of d.dec_opcode d.dec_func) (reg d d.dec_rd) (reg d d.dec_rs) d.dec_imm)
      (branches (instr_of d.dec_opcode d.dec_func) (reg d d.dec_rd))

other-Executed :
    (op : ℕ) (d : Core)
    → d.reg_write ≡ false
    → d.is_branch ≡ false
    → (op == 0) ≡ false
    → (op == 3 || leb 9 op && leb op 13) ≡ false
    → is_plain op ≡ true
    → Executed d
        (if op == 2 then simd d.dec_func d else control op d)
        (value_of (instr_of op d.dec_func) (reg d d.dec_rd) (reg d d.dec_rs) d.dec_imm)
        (branches (instr_of op d.dec_func) (reg d d.dec_rd))
unfolding control instr_of value_of branches is_some from_option simd Mad.set_addr
other-Executed op d w b e h j = record {
  regs_eq = ground arith;
  pc_eq = ground arith;
  rd_eq = ground arith;
  imm_eq = ground arith;
  done_eq = ground arith;
  halt_eq = ground arith;
  stall_eq = ground arith;
  state_eq = ground arith;
  next_eq = ground arith;
  taken_eq = ground arith;
  write_eq = ground arith;
  data_eq = ground arith;
}

ex_arithmetic : (d : Core) → (d.dec_opcode == 0) ≡ true → ex_stage d ≡ arithmetic d.dec_func d
unfolding ex_stage
ex_arithmetic d h = ground arith

ex_immediate :
    (d : Core)
    → (d.dec_opcode == 3 || leb 9 d.dec_opcode && leb d.dec_opcode 13) ≡ true
    → ex_stage d ≡ immediate d.dec_opcode d
unfolding ex_stage
ex_immediate d h = ground arith

ex_other :
    (d : Core)
    → (d.dec_opcode == 0) ≡ false
    → (d.dec_opcode == 3 || leb 9 d.dec_opcode && leb d.dec_opcode 13) ≡ false
    → is_plain d.dec_opcode ≡ true
    → ex_stage d ≡ (if d.dec_opcode == 2 then simd d.dec_func d else control d.dec_opcode d)
unfolding ex_stage
ex_other d e h j = ground arith

instr_of_zero : (op f : ℕ) → (op == 0) ≡ true → instr_of op f ≡ arithmetic_of f
unfolding instr_of
instr_of_zero op f h = rw h refl

pub ex_stage-Executes :
    (d : Core)
    → d.reg_write ≡ false
    → d.is_branch ≡ false
    → is_plain d.dec_opcode ≡ true
    → Executes d (ex_stage d)
ex_stage-Executes d w b h =
    let op = d.dec_opcode in
    elim (Bool-cases (op == 0)) [
      | inl e ↦
          rw (ex_arithmetic d e)
            (rw (instr_of_zero op d.dec_func e) (arithmetic-Executed d.dec_func d w b))
      | inr e ↦ elim (Bool-cases (op == 3 || leb 9 op && leb op 13)) [
        | inl i ↦ rw (ex_immediate d i) (immediate-Executed op d w b i)
        | inr i ↦ rw (ex_other d e i h) (other-Executed op d w b e i h)
      ]
    ]

pub wb_regs :
    (d e : Core) (v : Option ℕ) (taken : Bool)
    → Executed d e v taken
    → (wb_stage e).regs ≡ regs_after v d.dec_rd d.regs
unfolding wb_stage regs_after is_some from_option
wb_regs d e none taken x = ground arith
wb_regs d e (some v) taken x = ground arith

pub wb_pc :
    (d e : Core) (v : Option ℕ) (taken : Bool)
    → Executed d e v taken
    → (wb_stage e).pc ≡ pc_after v taken d.dec_rd d.dec_imm d.pc
unfolding wb_stage next_pc next_of pc_after is_some from_option
wb_pc d e none taken x = ground arith
wb_pc d e (some v) taken x = ground arith
