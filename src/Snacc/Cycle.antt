-- ===== src/Snacc/Cycle.antt =====
-- The four cycles of an instruction of SNACC, `SNACCCore::step` of snacccore.cc.
use cube_sim.Snacc.Mad
use cube_sim.Common.{
  Bool, Option, ap, arith, false, if◌then◌else◌, none, not, refl, true, ℕ, ◌-◌, ◌==◌, ◌||◌, ◌∙◌,
  ◌≡◌,
}
use cube_sim.Snacc.Core.{
  Core, Stall, Status, accesses_mem, decode, decode_imm, find_mem, func, id_stage, if_stage, locate,
  next_stall, no_stall, opcode, reg, reg_dst, reg_src, stall_handle, stat_ex, stat_id, stat_if,
  stat_wb,
}
use cube_sim.Snacc.Execute.{
  end_halt, ex_stage, is_stall, next_pc, not_stalled, run_stage, step, step_mad, wb_stage,
}
use cube_sim.Snacc.Instructions.{
  branches, ex_stage-Executes, Executes, instr_of, is_plain, pc_after, regs_after, value_of, wb_pc,
  wb_regs,
}

-- A core between two instructions, whose unit is at rest.
pub record Rests (c : Core) : Type 0 where
  pub at_if : c.status ≡ stat_if
  pub not_done : c.done ≡ false
  pub no_halt : c.halt_issued ≡ false
  pub unstalled : c.stall_cause ≡ no_stall
  pub nothing_written : c.reg_write ≡ false
  pub no_branch : c.is_branch ≡ false
  pub unit_idle : c.mad.state ≡ Mad.idle
  pub unit_stays : c.mad.next_state ≡ Mad.idle

-- The core after a stage, when the unit is at rest.
abbrev rested : Core → Core
rested c = record c {
  mad = record c.mad { wait_data_cycle = c.mad.wait_data_cycle - 1; state = c.mad.next_state };
}

step_mad_at : Mad.MadState → Core → Core
unfolding Mad.step_state
step_mad_at st c =
    let (m, regs) = Mad.step_state st c.mems c.simd_mask c.regs c.mad in
    record c {
      mad = record m { wait_data_cycle = m.wait_data_cycle - 1; state = m.next_state };
      regs = regs;
    }

step_mad-idle : (c : Core) → c.mad.state ≡ Mad.idle → step_mad c ≡ rested c
unfolding step_mad Mad.step step_mad_at
step_mad-idle c h = ap (λ (st : Mad.MadState). step_mad_at st c) h

step_at : ℕ → Bool → Status → Core → Core
step_at n b s c = step_mad (if b then stall_handle n c else run_stage n s c)

not_stalling : (c : Core) → c.done ≡ false → c.stall_cause ≡ no_stall → is_stall c ≡ false
unfolding is_stall
not_stalling c d l =
    ap (λ (b : Bool). b || not (not_stalled c.stall_cause)) d
    ∙ ap (λ (s : Stall). not (not_stalled s)) l

step_in :
    (n : ℕ) (c : Core) (s : Status)
    → c.status ≡ s
    → c.done ≡ false
    → c.stall_cause ≡ no_stall
    → (run_stage n s c).mad.state ≡ Mad.idle
    → step n c ≡ rested (run_stage n s c)
unfolding step step_at
step_in n c s h d l i =
    ap (λ (b : Bool). step_at n b c.status c) (not_stalling c d l)
    ∙ ap (λ (st : Status). step_at n false st c) h
    ∙ step_mad-idle (run_stage n s c) i

-- The core before the execution stage.
before_ex : Core → Core
before_ex c = record (decode c) { access_mem = none; stall_cause = no_stall }

find_mem-none :
    (c : Core) → (c.dec_opcode == 1) ≡ false → find_mem c ≡ record c { access_mem = none }
unfolding find_mem
find_mem-none c h =
    ap
      (λ (b : Bool).
        if b
        then (if accesses_mem c.dec_func then locate (reg c c.dec_rs) c else c)
        else record c { access_mem = none })
      h

stall_handle-none :
    (n : ℕ) (c : Core)
    → c.stall_cause ≡ no_stall
    → stall_handle n c ≡ record c { stall_cause = no_stall }
unfolding stall_handle next_stall
stall_handle-none n c h = ap (λ (s : Stall). record c { stall_cause = next_stall n s c }) h

id_stage-plain :
    (n : ℕ) (c : Core)
    → c.stall_cause ≡ no_stall
    → (opcode c.fetch_instr == 1) ≡ false
    → id_stage n c ≡ before_ex c
unfolding id_stage before_ex decode
id_stage-plain n c h j =
    ap (stall_handle n) (find_mem-none (decode c) j)
    ∙ stall_handle-none n (record (decode c) { access_mem = none }) h

end_halt-none : (c : Core) → c.halt_issued ≡ false → end_halt c ≡ c
end_halt-none c h =
    ap (λ (b : Bool). if b then record c { done = true; halt_issued = false } else c) h

plain-no_memory : (op : ℕ) → is_plain op ≡ true → (op == 1) ≡ false
plain-no_memory op h = ground arith

-- The core after each of the first three cycles.
after_if : Core → Core
after_if c = rested (record (if_stage c) { status = stat_id })

after_id : Core → Core
after_id c = rested (record (before_ex (after_if c)) { status = stat_ex })

after_ex : Core → Core
after_ex c = rested (record (ex_stage (after_id c)) { status = stat_wb })

after_wb : Core → Core
after_wb c = rested (record (wb_stage (after_ex c)) { status = stat_if })

-- The instruction that is fetched, its first operand and the immediate.
abbrev pub fetched : Core → ℕ
fetched c = (if_stage c).fetch_instr

-- The value that the fetched instruction writes, and whether it branches.
pub written : Core → Option ℕ
written c =
    let i = fetched c in
    value_of (instr_of (opcode i) (func i)) (reg c (reg_dst i)) (reg c (reg_src i))
      (decode_imm (opcode i) i)

pub is_taken : Core → Bool
is_taken c = let i = fetched c in branches (instr_of (opcode i) (func i)) (reg c (reg_dst i))

module _ (c : Core) (r : Rests c) (plain : is_plain (opcode (fetched c)) ≡ true) where
  step_if : (n : ℕ) → step n c ≡ after_if c
  unfolding run_stage if_stage after_if
  step_if n = step_in n c stat_if r.at_if r.not_done r.unstalled r.unit_idle

  run_id :
      (n : ℕ)
      → run_stage n stat_id (after_if c) ≡ record (before_ex (after_if c)) { status = stat_ex }
  unfolding run_stage after_if if_stage
  run_id n =
      ap (λ (x : Core). record x { status = stat_ex })
        (id_stage-plain n (after_if c) r.unstalled (plain-no_memory (opcode (fetched c)) plain))

  step_id : (n : ℕ) → step n (after_if c) ≡ after_id c
  unfolding after_if if_stage after_id before_ex decode
  step_id n =
      step_in n (after_if c) stat_id refl r.not_done r.unstalled
        (ap (λ (x : Core). x.mad.state) (run_id n) ∙ r.unit_stays)
      ∙ ap rested (run_id n)

  runs : Executes (after_id c) (ex_stage (after_id c))
  unfolding after_if if_stage after_id before_ex decode
  runs = ex_stage-Executes (after_id c) r.nothing_written r.no_branch plain

  step_ex : (n : ℕ) → step n (after_id c) ≡ after_ex c
  unfolding run_stage after_if if_stage after_id before_ex decode after_ex
  step_ex n = step_in n (after_id c) stat_ex refl r.not_done refl (runs.state_eq ∙ r.unit_stays)

  run_wb :
      (n : ℕ)
      → run_stage n stat_wb (after_ex c) ≡ record (wb_stage (after_ex c)) { status = stat_if }
  unfolding run_stage after_if if_stage after_id before_ex decode after_ex wb_stage
  run_wb n =
      end_halt-none (record (wb_stage (after_ex c)) { status = stat_if }) (runs.halt_eq ∙ r.no_halt)

  step_wb : (n : ℕ) → step n (after_ex c) ≡ after_wb c
  unfolding after_if if_stage after_id before_ex decode after_ex after_wb wb_stage
  step_wb n =
      step_in n (after_ex c) stat_wb refl (runs.done_eq ∙ r.not_done) runs.stall_eq
        (ap (λ (x : Core). x.mad.state) (run_wb n) ∙ (runs.next_eq ∙ r.unit_stays))
      ∙ ap rested (run_wb n)

  four_steps : (n₀ n₁ n₂ n₃ : ℕ) → step n₃ (step n₂ (step n₁ (step n₀ c))) ≡ after_wb c
  four_steps n₀ n₁ n₂ n₃ = rw (step_if n₀) (rw (step_id n₁) (rw (step_ex n₂) (step_wb n₃)))

  stays : Rests (after_wb c)
  unfolding after_if if_stage after_id before_ex decode after_ex after_wb wb_stage
  stays = record {
    at_if = refl;
    not_done = runs.done_eq ∙ r.not_done;
    no_halt = runs.halt_eq ∙ r.no_halt;
    unstalled = runs.stall_eq;
    nothing_written = refl;
    no_branch = refl;
    unit_idle = runs.next_eq ∙ r.unit_stays;
    unit_stays = runs.next_eq ∙ r.unit_stays;
  }

  regs_lem : (after_wb c).regs ≡ regs_after (written c) (reg_dst (fetched c)) c.regs
  unfolding after_if if_stage after_id before_ex decode after_ex after_wb written is_taken wb_stage
  regs_lem = wb_regs (after_id c) (ex_stage (after_id c)) (written c) (is_taken c) runs

  pc_lem :
      (after_wb c).pc
      ≡ pc_after
          (written c)
          (is_taken c)
          (reg_dst (fetched c))
          (decode_imm (opcode (fetched c)) (fetched c))
          c.pc
  unfolding after_if if_stage after_id before_ex decode after_ex after_wb written is_taken wb_stage
      next_pc
  pc_lem = wb_pc (after_id c) (ex_stage (after_id c)) (written c) (is_taken c) runs

-- Four cycles of a core that rests execute the fetched instruction as the instruction set has it, when
-- it is neither an instruction of the memory group nor one that starts the unit, whatever the counter of
-- the shared buffer's arbiter: the core rests again, with the registers and the program counter of the
-- instruction set.
pub step-executes :
    (c : Core) (n₀ n₁ n₂ n₃ : ℕ)
    → Rests c
    → is_plain (opcode (fetched c)) ≡ true
    → Rests (step n₃ (step n₂ (step n₁ (step n₀ c))))
      × ((step n₃ (step n₂ (step n₁ (step n₀ c)))).regs
          ≡ regs_after (written c) (reg_dst (fetched c)) c.regs)
      × ((step n₃ (step n₂ (step n₁ (step n₀ c)))).pc
          ≡ pc_after
              (written c)
              (is_taken c)
              (reg_dst (fetched c))
              (decode_imm (opcode (fetched c)) (fetched c))
              c.pc)
step-executes c n₀ n₁ n₂ n₃ r plain =
    rw (four_steps c r plain n₀ n₁ n₂ n₃) (stays c r plain, regs_lem c r plain, pc_lem c r plain)
