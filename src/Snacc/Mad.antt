-- ===== src/Snacc/Mad.antt =====
-- The multiply-and-add unit of SNACC, `MadUnit` of snaccmodules.h and snaccmodules.cc. The four
-- registers that it has pointers to are those of its core at the indices of snacccore.h, and the mask
-- that it has a pointer to is the core's, so they are arguments. The addresses stay below 2 ^ 31.
-- Average pooling is not implemented in the source, where it prints a message.
use cube_sim.Accelerator.DoubleBuffer.{DoubleBuffer, fetch_byte_from_inner, fetch_half_from_inner}
use cube_sim.Common.{
  Bool, List, [], bit_and, bit_xor, drop, false, get_or, if◌then◌else◌, leb, ltb, not, set, suc,
  take, true, zero, ℕ, ◌%◌, ◌&&◌, ◌*◌, ◌+◌, ◌-◌, ◌/◌, ◌==◌, ◌||◌, ◌∷◌,
}
use cube_sim.Common.Bits.{add32, shr, sub32}
use cube_sim.Snacc.Fixed.{
  fixed16_of_byte, from_register, is_positive, less, plus, times, to_fixed32, to_lut_index,
  to_register,
}

-- The buffers of a core; the last one is shared by all cores.
pub record Mems : Type 0 where
  pub dmem_u : DoubleBuffer
  pub dmem_l : DoubleBuffer
  pub rbuf_u : DoubleBuffer
  pub rbuf_l : DoubleBuffer
  pub lut : DoubleBuffer
  pub imem : DoubleBuffer
  pub wbuf : DoubleBuffer

-- SNACC_MAD_STAT_IDLE and the others.
pub data MadState : Type 0 where
  idle dstall ex wb lutstall fu : MadState

pub record MadUnit : Type 0 where
  pub state : MadState
  pub next_state : MadState
  pub mode : ℕ
  pub eight_bit : Bool
  pub loop_count : ℕ
  pub simd_data_width : ℕ
  pub sram_latency : ℕ
  pub wait_data_cycle : ℕ
  pub dmem_step : ℕ
  pub rbuf_step : ℕ
  pub second_lut_done : Bool
  pub data_addr : ℕ
  pub rbuf_addr : ℕ
  pub tr0 : ℕ
  pub tr1 : ℕ
  pub fr0 : ℕ
  pub fr1 : ℕ

-- SNACC_REG_FR0_INDEX and the others.
abbrev pub fr0_index : ℕ
fr0_index = 11

abbrev pub fr1_index : ℕ
fr1_index = 12

abbrev pub tr0_index : ℕ
tr0_index = 13

abbrev pub tr1_index : ℕ
tr1_index = 14

unfoldable pub reset : MadUnit → MadUnit
reset m = record m { state = idle; next_state = idle }

unfoldable pub is_idle : MadState → Bool
is_idle idle = true
is_idle _ = false

unfoldable pub running : MadUnit → Bool
unfolding is_idle
running m = not (is_idle m.state) || is_idle m.state && not (is_idle m.next_state)

unfoldable pub set_addr : ℕ → ℕ → MadUnit → MadUnit
set_addr d r m = record m {
  data_addr = bit_and d 0xffff;
  rbuf_addr = bit_and r 0xffff;
  wait_data_cycle = m.sram_latency;
}

-- `overDmemBoundary` and `overRbufBoundary`.
unfoldable pub over_boundary : ℕ → MadUnit → Bool
over_boundary addr m = ltb 8 (addr % 8 + m.simd_data_width)

unfoldable pub over_any : MadUnit → Bool
unfolding over_boundary
over_any m = over_boundary m.data_addr m || over_boundary m.rbuf_addr m

-- The loop that counts the lanes up to the last one in the mask.
unfoldable pub mask_count : ℕ → List Bool → ℕ
mask_count zero mask = 0
mask_count (suc n) mask = if get_or mask n false then suc n else mask_count n mask

unfoldable pub width_of : Bool → List Bool → ℕ
unfolding mask_count
width_of eight mask = if eight then mask_count 8 mask else mask_count 8 mask % 4 * 2

-- The part of `start` that chooses the next state.
unfoldable pub await_data : MadUnit → MadUnit
unfolding over_any
await_data m =
    if ltb 0 m.wait_data_cycle
    then record m { next_state = dstall }
    else (if over_any m
        then record m { next_state = dstall; wait_data_cycle = 1 }
        else record m { next_state = ex })

unfoldable pub start : ℕ → List Bool → ℕ → ℕ → Bool → ℕ → List ℕ → MadUnit → MadUnit
unfolding width_of await_data
start mode mask d_step r_step eight loops regs m =
    if leb 4 mode
    then m
    else (let m₁ = await_data (record m {
      mode = mode;
      eight_bit = eight;
      loop_count = loops;
      dmem_step = d_step;
      rbuf_step = r_step;
      simd_data_width = width_of eight mask;
    }) in
        record m₁ {
          tr0 = from_register (get_or regs tr0_index 0);
          tr1 = from_register (get_or regs tr1_index 0);
          fr0 = from_register (get_or regs fr0_index 0);
          fr1 = from_register (get_or regs fr1_index 0);
        })

unfoldable pub update_address : MadUnit → MadUnit
update_address m = record m {
  data_addr = add32 m.data_addr m.dmem_step;
  rbuf_addr = add32 m.rbuf_addr m.rbuf_step;
}

-- The place of an address in one of two buffers that share the words in turn.
unfoldable pub access_addr : ℕ → ℕ
access_addr addr = bit_xor (shr addr 3 * 4 + addr % 4) 0x3

unfoldable pub upper_turn : ℕ → Bool
upper_turn addr = addr / 4 % 2 == 0

-- `loadWeight` and `loadData` from lane `n` lanes before the last on.
unfoldable pub load_halves : ℕ → ℕ → DoubleBuffer → DoubleBuffer → List ℕ
unfolding access_addr upper_turn
load_halves zero addr u l = []
load_halves (suc n) addr u l =
    fetch_half_from_inner (access_addr addr) (if upper_turn addr then u else l)
    ∷ load_halves n (addr + 2) u l

unfoldable pub load_bytes : ℕ → ℕ → DoubleBuffer → DoubleBuffer → List ℕ
unfolding access_addr upper_turn fixed16_of_byte
load_bytes zero addr u l = []
load_bytes (suc n) addr u l =
    fixed16_of_byte (fetch_byte_from_inner (access_addr addr) (if upper_turn addr then u else l))
    ∷ load_bytes n (addr + 1) u l

unfoldable pub load_weight : Mems → MadUnit → List ℕ
unfolding load_halves
load_weight s m = load_halves 4 m.rbuf_addr s.rbuf_u s.rbuf_l

unfoldable pub load_data : Mems → MadUnit → List ℕ
unfolding load_halves load_bytes
load_data s m =
    if m.eight_bit
    then load_bytes 8 m.data_addr s.dmem_u s.dmem_l
    else load_halves 4 m.data_addr s.dmem_u s.dmem_l

-- The sum over the lanes of the mask.
unfoldable pub sum_lanes : List Bool → List ℕ → List ℕ → ℕ → ℕ
unfolding times plus
sum_lanes (b ∷ bs) (w ∷ ws) (d ∷ ds) acc =
    sum_lanes bs ws ds (if b then plus acc (times w d) else acc)
sum_lanes _ _ _ acc = acc

unfoldable pub do_mad : Mems → List Bool → MadUnit → MadUnit
unfolding load_weight load_data sum_lanes
do_mad s mask m =
    let ws = load_weight s m in
    let ds = load_data s m in
    record m {
      tr0 = sum_lanes mask ws ds m.tr0;
      tr1 = if m.eight_bit then sum_lanes (drop 4 mask) ws (drop 4 ds) m.tr1 else m.tr1;
    }

-- The greatest over the lanes of the mask.
unfoldable pub max_lanes : List Bool → List ℕ → ℕ → ℕ
unfolding less to_fixed32
max_lanes (b ∷ bs) (d ∷ ds) acc =
    max_lanes bs ds (if b && less acc (to_fixed32 d) then to_fixed32 d else acc)
max_lanes _ _ acc = acc

unfoldable pub do_max_pool : Mems → List Bool → MadUnit → MadUnit
unfolding load_data max_lanes
do_max_pool s mask m =
    let ds = load_data s m in
    record m {
      tr0 = max_lanes mask (take 4 ds) m.tr0;
      tr1 = if m.eight_bit then max_lanes (drop 4 mask) (drop 4 ds) m.tr1 else m.tr1;
    }

-- `madModePtr`
unfoldable pub do_mode : ℕ → Mems → List Bool → MadUnit → MadUnit
unfolding do_mad do_max_pool
do_mode mode s mask m =
    if ltb mode 2 then do_mad s mask m else (if mode == 2 then do_max_pool s mask m else m)

unfoldable pub apply_fu : Mems → ℕ → ℕ
unfolding to_lut_index to_fixed32
apply_fu s n = to_fixed32 (fetch_half_from_inner (bit_xor (to_lut_index n) 0x3) s.lut)

-- `--loop_count > 0` of an `int`.
unfoldable pub goes_on : ℕ → Bool
goes_on count = is_positive (sub32 count 1)

-- SNACC_MAD_STAT_EX, after the mode's operation.
unfoldable pub next_round : MadUnit → MadUnit
unfolding update_address over_any goes_on
next_round m =
    let m₁ = record m { loop_count = sub32 m.loop_count 1 } in
    let m₂ = update_address m₁ in
    if goes_on m.loop_count
    then (if ltb 1 m.sram_latency
        then record m₂ {
          wait_data_cycle = if over_any m₂ then m.sram_latency else m.sram_latency - 1;
          next_state = dstall;
        }
        else m₂)
    else (if m.mode == 1
        then record m₁ {
          second_lut_done = false;
          next_state = lutstall;
          wait_data_cycle = m.sram_latency;
        }
        else record m₁ { next_state = wb })

-- SNACC_MAD_STAT_FU
unfoldable pub do_fu : Mems → MadUnit → MadUnit
unfolding apply_fu
do_fu s m =
    if m.eight_bit && not m.second_lut_done
    then record m {
      wait_data_cycle = sub32 m.sram_latency 1;
      next_state = lutstall;
      second_lut_done = true;
      fr0 = apply_fu s m.tr0;
    }
    else (if m.eight_bit
        then record m { fr1 = apply_fu s m.tr1; next_state = wb }
        else record m { fr0 = apply_fu s m.tr0; next_state = wb })

-- SNACC_MAD_STAT_WB: what is written to the registers.
unfoldable pub write_back : MadUnit → List ℕ → List ℕ
unfolding to_register
write_back m regs =
    let regs₁ =
      if m.eight_bit
      then set (set regs tr1_index (to_register m.tr1)) fr1_index (to_register m.fr1)
      else regs in
    set (set regs₁ tr0_index (to_register m.tr0)) fr0_index (to_register m.fr0)

unfoldable pub step_state : MadState → Mems → List Bool → List ℕ → MadUnit → MadUnit × List ℕ
unfolding do_mode next_round do_fu write_back
step_state idle s mask regs m = (m, regs)
step_state dstall s mask regs m =
    (if m.wait_data_cycle == 0 then record m { next_state = ex } else m, regs)
step_state lutstall s mask regs m =
    (if m.wait_data_cycle == 0 then record m { next_state = fu } else m, regs)
step_state ex s mask regs m = (next_round (do_mode m.mode s mask m), regs)
step_state fu s mask regs m = (do_fu s m, regs)
step_state wb s mask regs m = (record m { next_state = idle }, write_back m regs)

unfoldable pub step : Mems → List Bool → List ℕ → MadUnit → MadUnit × List ℕ
unfolding step_state
step s mask regs m =
    let (m₁, regs₁) = step_state m.state s mask regs m in
    (record m₁ { wait_data_cycle = m₁.wait_data_cycle - 1; state = m₁.next_state }, regs₁)
