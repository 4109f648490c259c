-- ===== src/Snacc/Core.antt =====
-- The cores of SNACC, snacccore.h and snacccore.cc, with the arbiter of the buffer that they share,
-- `WbufArb` of snaccmodules.cc. The registers are a list of 16 words. The messages are left out. A shift
-- by more than 31 is undefined in the source; here the count is taken modulo 32.
use cube_sim.Snacc.Mad
use cube_sim.Accelerator.DoubleBuffer.{DoubleBuffer, fetch_half_from_inner}
use cube_sim.Common.{
  Bool, List, Option, bit_and, bit_xor, false, get_or, if◌then◌else◌, leb, ltb, none, not, some,
  true, ℕ, ◌%◌, ◌&&◌, ◌*◌, ◌+◌, ◌-◌, ◌/◌, ◌==◌, ◌^◌, ◌||◌,
}
use cube_sim.Common.Bits.{shr}
use cube_sim.Snacc.Mad.{MadUnit, Mems}

-- SNACC_CORE_STAT_IF and the others.
pub data Status : Type 0 where
  stat_if stat_id stat_ex stat_wb : Status

-- SNACC_CORE_NO_STALL and the others; the stalls of Dbchange and Dma are not set.
pub data Stall : Type 0 where
  no_stall wbuf_stall mad_stall : Stall

-- What `access_mem` points to.
pub data MemId : Type 0 where
  dmem_u dmem_l rbuf_u rbuf_l lut imem wbuf : MemId

pub record Core : Type 0 where
  pub core_id : ℕ
  pub regs : List ℕ
  pub pc : ℕ
  pub halt_issued : Bool
  pub done : Bool
  pub fetch_instr : ℕ
  pub dec_opcode : ℕ
  pub dec_rd : ℕ
  pub dec_rs : ℕ
  pub dec_func : ℕ
  pub dec_imm : ℕ
  pub reg_write : Bool
  pub is_branch : Bool
  pub reg_write_data : ℕ
  pub status : Status
  pub stall_cause : Stall
  pub access_address : ℕ
  pub access_mem : Option MemId
  pub mems : Mems
  pub mad : MadUnit
  pub mad_mode : ℕ
  pub access_mode : ℕ
  pub wbuf_arb_mode : ℕ
  pub fp_pos : ℕ
  pub dmem_step : ℕ
  pub rbuf_step : ℕ
  pub simd_mask : List Bool

abbrev pub reg : Core → ℕ → ℕ
reg c n = get_or c.regs n 0

unfoldable pub mem_of : MemId → Mems → DoubleBuffer
mem_of dmem_u s = s.dmem_u
mem_of dmem_l s = s.dmem_l
mem_of rbuf_u s = s.rbuf_u
mem_of rbuf_l s = s.rbuf_l
mem_of lut s = s.lut
mem_of imem s = s.imem
mem_of wbuf s = s.wbuf

unfoldable pub with_mem : MemId → DoubleBuffer → Mems → Mems
with_mem dmem_u b s = record s { dmem_u = b }
with_mem dmem_l b s = record s { dmem_l = b }
with_mem rbuf_u b s = record s { rbuf_u = b }
with_mem rbuf_l b s = record s { rbuf_l = b }
with_mem lut b s = record s { lut = b }
with_mem imem b s = record s { imem = b }
with_mem wbuf b s = record s { wbuf = b }

-- `opcode`, `reg_dst`, `reg_src`, `func` and `imm`.
unfoldable pub opcode : ℕ → ℕ
opcode i = shr (bit_and i 0xf000) 12

unfoldable pub reg_dst : ℕ → ℕ
reg_dst i = shr (bit_and i 0x0f00) 8

unfoldable pub reg_src : ℕ → ℕ
reg_src i = shr (bit_and i 0x00f0) 4

unfoldable pub func : ℕ → ℕ
func i = bit_and i 0x000f

unfoldable pub imm : ℕ → ℕ
imm i = bit_and i 0x00ff

-- An `int8` as a `uint32`.
unfoldable pub sign_extend8 : ℕ → ℕ
sign_extend8 n = if leb 0x80 n then n + 2 ^ 32 - 2 ^ 8 else n

-- `WbufArb::isAcquired`; `store` is the access mode SNACC_WBUF_STORE.
unfoldable pub is_acquired : ℕ → ℕ → ℕ → Bool → Bool
is_acquired counter core_id arb_mode store =
    let load_acquire = counter % 2 == 1 in
    let core_acquire =
      if arb_mode == 0
      then core_id == counter / 2 % 4
      else (if arb_mode == 2 then core_id == counter / 2 % 2 else false) in
    if arb_mode == 1 then true else (if store then core_acquire else core_acquire && load_acquire)

unfoldable pub arb_step : ℕ → ℕ
arb_step counter = (counter + 1) % 2 ^ 8

unfoldable pub if_stage : Core → Core
if_stage c = record c { fetch_instr = fetch_half_from_inner (bit_xor c.pc 0x3) c.mems.imem }

unfoldable pub decode_imm : ℕ → ℕ → ℕ
unfolding imm sign_extend8
decode_imm op i = if op == 4 || op == 5 then sign_extend8 (imm i) else imm i

-- LW, SW, LH and SH.
unfoldable pub accesses_mem : ℕ → Bool
accesses_mem f = leb 1 f && leb f 4

-- The place in one of two buffers that share the words in turn.
abbrev pub half_place : ℕ → ℕ
half_place a = shr a 3 * 4 + a % 4

abbrev pub to_mem : MemId → ℕ → Core → Core
to_mem m a c = record c { access_mem = some m; access_address = a }

abbrev pub within : ℕ → ℕ → ℕ → Bool
within lo size addr = leb lo addr && ltb addr (lo + size)

-- The address calculation of `id_stage`. The address is an `int`, so that none of 2 ^ 31 on is mapped.
unfoldable pub locate : ℕ → Core → Core
locate addr c =
    if within 0 0x800 addr
    then to_mem imem addr c
    else (if within 0x01000000 0x1000 addr
        then to_mem (if addr / 4 % 2 == 0 then dmem_l else dmem_u) (half_place (addr - 0x01000000))
            c
        else (if within 0x05000000 0x1000 addr
            then to_mem (if addr / 4 % 2 == 0 then rbuf_l else rbuf_u)
                (half_place (addr - 0x05000000)) c
            else (if within 0x07000000 0x800 addr
                then to_mem lut (addr - 0x07000000) c
                else (if within 0x09000000 0x800 addr
                    then record (to_mem wbuf (addr - 0x09000000) c) { stall_cause = wbuf_stall }
                    else record c { access_mem = none }))))

unfoldable pub is_wbuf : Option MemId → Bool
is_wbuf (some wbuf) = true
is_wbuf _ = false

-- The stall on the shared buffer is over, or goes on.
unfoldable pub wbuf_waits : ℕ → Core → Bool
unfolding is_acquired is_wbuf
wbuf_waits counter c =
    if c.dec_func == 1 || c.dec_func == 3
    then is_wbuf c.access_mem && not (is_acquired counter c.core_id c.wbuf_arb_mode false)
    else (if c.dec_func == 2 || c.dec_func == 4
        then is_wbuf c.access_mem && not (is_acquired counter c.core_id c.wbuf_arb_mode true)
        else false)

unfoldable pub next_stall : ℕ → Stall → Core → Stall
unfolding wbuf_waits
next_stall counter no_stall c = no_stall
next_stall counter wbuf_stall c = if wbuf_waits counter c then wbuf_stall else no_stall
next_stall counter mad_stall c = if Mad.running c.mad then mad_stall else no_stall

unfoldable pub stall_handle : ℕ → Core → Core
unfolding next_stall
stall_handle counter c = record c { stall_cause = next_stall counter c.stall_cause c }

unfoldable pub decode : Core → Core
unfolding opcode reg_dst reg_src func decode_imm
decode c =
    let i = c.fetch_instr in
    record c {
      dec_opcode = opcode i;
      dec_rd = reg_dst i;
      dec_rs = reg_src i;
      dec_func = func i;
      dec_imm = decode_imm (opcode i) i;
    }

-- For the memory instructions that access no memory `access_mem` keeps its value.
unfoldable pub find_mem : Core → Core
unfolding accesses_mem locate
find_mem c =
    if c.dec_opcode == 1
    then (if accesses_mem c.dec_func then locate (reg c c.dec_rs) c else c)
    else record c { access_mem = none }

unfoldable pub id_stage : ℕ → Core → Core
unfolding decode find_mem stall_handle
id_stage counter c = stall_handle counter (find_mem (decode c))
