-- ===== src/Snacc/Execute.antt =====
-- The execution and the write-back of the cores of SNACC, and their steps, snacccore.cc. The shared
-- buffer's arbiter is read as its counter. Dbchange and Dma are not implemented in the source.
use cube_sim.Snacc.Mad
use cube_sim.Accelerator.DoubleBuffer.{
  DoubleBuffer, fetch_half_from_inner, fetch_word_from_inner, store_half_from_inner,
  store_word_from_inner,
}
use cube_sim.Common.{
  Bool, List, [], bit_and, bit_or, bit_xor, false, if◌then◌else◌, leb, none, not, replicate, set,
  some, suc, true, zero, ℕ, ◌%◌, ◌&&◌, ◌*◌, ◌+◌, ◌==◌, ◌^◌, ◌||◌, ◌∷◌,
}
use cube_sim.Common.Bits.{add32, not32, shl32, shr, sub32}
use cube_sim.Snacc.Fixed.{asr32}
use cube_sim.Snacc.Core.{
  Core, Stall, Status, id_stage, if_stage, mad_stall, mem_of, no_stall, reg, stall_handle, stat_ex,
  stat_id, stat_if, stat_wb, with_mem,
}

abbrev pub writes : ℕ → Core → Core
writes v c = record c { reg_write_data = v; reg_write = true }

-- Loadi, Addi, Subi, Sll, Srl and Sra.
unfoldable pub immediate : ℕ → Core → Core
unfolding asr32
immediate op c =
    let a = reg c c.dec_rd in
    let n = c.dec_imm in
    if op == 3
    then writes (add32 (shl32 (bit_and a 0x00ffffff) 8) n) c
    else (if op == 9
        then writes (add32 a n) c
        else (if op == 10
            then writes (sub32 a n) c
            else (if op == 11
                then writes (shl32 a (n % 32)) c
                else (if op == 12
                    then writes (shr a (n % 32)) c
                    else writes (asr32 a (n % 32)) c))))

-- `kRTypeArithmeticTable`
unfoldable pub arithmetic : ℕ → Core → Core
arithmetic f c =
    let a = reg c c.dec_rd in
    let b = reg c c.dec_rs in
    if f == 1
    then writes b c
    else (if f == 2
        then writes (add32 a b) c
        else (if f == 3
            then writes (sub32 a b) c
            else (if f == 4
                then writes (a * b % 2 ^ 32) c
                else (if f == 5
                    then writes (bit_and a b) c
                    else (if f == 6
                        then writes (bit_or a b) c
                        else (if f == 7
                            then writes (bit_xor a b) c
                            else (if f == 8 then writes (not32 b) c else c)))))))

abbrev pub in_mem : Core → (DoubleBuffer → DoubleBuffer) → Core
in_mem c f = elim c.access_mem [
  | none ↦ c
  | some m ↦ record c { mems = with_mem m (f (mem_of m c.mems)) c.mems }
]

-- Loadw, Storew, Loadh and Storeh. A load through no memory writes what the register was to be
-- written with last.
unfoldable pub loadw : Core → Core
unfolding mem_of
loadw c = elim c.access_mem [
  | none ↦ record c { reg_write = true }
  | some m ↦ writes (fetch_word_from_inner c.access_address (mem_of m c.mems)) c
]

unfoldable pub storew : Core → Core
unfolding mem_of with_mem
storew c = in_mem c (store_word_from_inner c.access_address (reg c c.dec_rd))

unfoldable pub loadh : Core → Core
unfolding mem_of
loadh c = elim c.access_mem [
  | none ↦ record c { reg_write = true }
  | some m ↦
      let h = fetch_half_from_inner (bit_xor c.access_address 0x2) (mem_of m c.mems) in
      writes (if c.access_mode == 0 then shl32 h 16 else h) c
]

unfoldable pub storeh : Core → Core
unfolding mem_of with_mem
storeh c =
    let a = reg c c.dec_rd in
    in_mem c (
      store_half_from_inner (bit_xor c.access_address 0x2)
        (if c.access_mode == 0 then shr a 16 % 2 ^ 16 else a % 2 ^ 16))

-- The lanes of a mask as a number, and back.
unfoldable pub mask_word : ℕ → List Bool → ℕ
mask_word i [] = 0
mask_word i (b ∷ bs) = (if b then 2 ^ i else 0) + mask_word (i + 1) bs

unfoldable pub word_mask : ℕ → ℕ → ℕ → List Bool
word_mask i zero w = []
word_mask i (suc n) w = not (bit_and w (2 ^ i) == 0) ∷ word_mask (i + 1) n w

-- Readcr
unfoldable pub readcr : ℕ → Core → Core
unfolding mask_word
readcr n c =
    if n == 0
    then writes c.core_id c
    else (if n == 1
        then writes (mask_word 0 c.simd_mask) c
        else (if n == 2
            then writes c.dmem_step c
            else (if n == 3
                then writes c.rbuf_step c
                else (if n == 4
                    then writes c.fp_pos c
                    else (if n == 5
                        then writes c.wbuf_arb_mode c
                        else (if n == 6
                            then writes (c.mad_mode + c.access_mode * 2 ^ 4) c
                            else writes 0 c))))))

-- Setcr; no other register is written.
unfoldable pub setcr : ℕ → ℕ → Core → Core
unfolding word_mask
setcr n v c =
    if n == 1
    then record c { simd_mask = word_mask 0 8 v }
    else (if n == 2
        then record c { dmem_step = v }
        else (if n == 3
            then record c { rbuf_step = v }
            else (if n == 4
                then record c { fp_pos = v }
                else (if n == 5
                    then record c { wbuf_arb_mode = v }
                    else (if n == 6
                        then record c {
                          mad_mode = bit_and v 0xf;
                          access_mode = shr (bit_and v 0xf0) 4;
                        }
                        else c)))))

-- Mad and Madlp.
unfoldable pub start_mad : ℕ → Core → Core
start_mad loops c = record c {
  mad =
      Mad.start c.dec_imm c.simd_mask c.dmem_step c.rbuf_step (c.mad_mode == 0xf) loops c.regs
        c.mad;
  stall_cause = mad_stall;
}

-- `kRTypeMemoryTable`
unfoldable pub memory : ℕ → Core → Core
unfolding loadw storew loadh storeh readcr
memory f c =
    if f == 0
    then record c { halt_issued = true }
    else (if f == 1
        then loadw c
        else (if f == 2
            then storew c
            else (if f == 3
                then loadh c
                else (if f == 4 then storeh c else (if f == 7 then readcr c.dec_rs c else c)))))

-- `kRTypeSimdTable`
unfoldable pub simd : ℕ → Core → Core
simd f c =
    if f == 1 then record c { mad = Mad.set_addr (reg c c.dec_rd) (reg c c.dec_rs) c.mad } else c

-- `kOpcodeTable`, from Bneq on.
unfoldable pub control : ℕ → Core → Core
unfolding start_mad setcr
control op c =
    if op == 4
    then (if reg c c.dec_rd == 0 then c else record c { is_branch = true })
    else (if op == 5
        then record c { is_branch = true }
        else (if op == 6
            then start_mad 0 c
            else (if op == 7
                then start_mad (reg c c.dec_rd) c
                else (if op == 8 then setcr c.dec_rd c.dec_imm c else c))))

unfoldable pub ex_stage : Core → Core
unfolding arithmetic memory simd immediate control
ex_stage c =
    let op = c.dec_opcode in
    if op == 0
    then arithmetic c.dec_func c
    else (if op == 1
        then memory c.dec_func c
        else (if op == 2
            then simd c.dec_func c
            else (if op == 3 || leb 9 op && leb op 13 then immediate op c else control op c)))

-- SNACC_REG_PC_INDEX
abbrev pub pc_index : ℕ
pc_index = 15

-- The next `pc`.
unfoldable pub next_pc : Core → ℕ
next_pc c =
    if c.reg_write && c.dec_rd == pc_index
    then c.reg_write_data
    else (if c.is_branch then (c.pc + 2 + 2 * c.dec_imm) % 2 ^ 32 else add32 c.pc 2)

unfoldable pub wb_stage : Core → Core
unfolding next_pc
wb_stage c = record c {
  regs =
      if c.reg_write && not (c.dec_rd == pc_index)
      then set c.regs c.dec_rd c.reg_write_data
      else c.regs;
  pc = next_pc c;
  is_branch = false;
  reg_write = false;
}

abbrev pub end_halt : Core → Core
end_halt c = if c.halt_issued then record c { done = true; halt_issued = false } else c

-- `step` without the unit.
unfoldable pub run_stage : ℕ → Status → Core → Core
unfolding if_stage id_stage ex_stage wb_stage
run_stage counter stat_if c = record (if_stage c) { status = stat_id }
run_stage counter stat_id c = record (id_stage counter c) { status = stat_ex }
run_stage counter stat_ex c = record (ex_stage c) { status = stat_wb }
run_stage counter stat_wb c = end_halt (record (wb_stage c) { status = stat_if })

abbrev pub not_stalled : Stall → Bool
not_stalled no_stall = true
not_stalled _ = false

unfoldable pub is_stall : Core → Bool
is_stall c = c.done || not (not_stalled c.stall_cause)

unfoldable pub step_mad : Core → Core
step_mad c =
    let (m, regs) = Mad.step c.mems c.simd_mask c.regs c.mad in record c { mad = m; regs = regs }

unfoldable pub step : ℕ → Core → Core
unfolding run_stage is_stall step_mad
step counter c =
    step_mad (if is_stall c then stall_handle counter c else run_stage counter c.status c)

-- `reset`; what is stalled on is kept.
unfoldable pub reset : Core → Core
reset c = record c {
  pc = 0;
  regs = replicate 16 0;
  done = false;
  status = stat_if;
  reg_write = false;
  is_branch = false;
  halt_issued = false;
  mad_mode = 0;
  access_mode = 0;
  wbuf_arb_mode = 0;
  dmem_step = 0;
  rbuf_step = 0;
  fp_pos = 4;
  simd_mask = replicate 8 true;
  mad = Mad.reset c.mad;
}
