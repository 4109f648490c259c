-- ===== src/Snacc/Conf.antt =====
-- The configuration registers of SNACC and what they switch, `ConfRegCtrl` of snaccmodules.h and
-- snaccmodules.cc. There are fewer than 31 cores. The words of `dma_info` have no value at first in the
-- source, and nothing writes them.
use cube_sim.Accelerator.DoubleBuffer
use cube_sim.Common.{
  Bool, List, [], bit_and, bit_or, false, get_or, if◌then◌else◌, leb, length, ltb, set, suc, zero,
  ℕ, ◌%◌, ◌*◌, ◌+◌, ◌-◌, ◌/◌, ◌==◌, ◌^◌, ◌∷◌,
}
use cube_sim.Common.Bits.{not32}
use cube_sim.Snacc.Core.{Core, MemId, mem_of, with_mem}

-- `dmainfo_t`
pub record DmaInfo : Type 0 where
  pub upper : ℕ
  pub lower : ℕ

pub record ConfReg : Type 0 where
  pub start : ℕ
  pub done : ℕ
  pub donemask : ℕ
  pub data_db_sel : ℕ
  pub wbuf_db_sel : ℕ
  pub inst_mux_sel : ℕ
  pub lut_mux_sel : ℕ
  pub rbuf_mux_sel : ℕ
  pub data_query : ℕ
  pub rbuf_query : ℕ
  pub data_status : ℕ
  pub rbuf_status : ℕ
  pub dma_done_clear : ℕ
  pub dma_request : ℕ
  pub pending_clr : List Bool
  pub dma_info : List DmaInfo

unfoldable pub get_flag : ℕ → ℕ → Bool
get_flag w i = w / 2 ^ i % 2 == 1

unfoldable pub assert_flag : ℕ → ℕ → ℕ
assert_flag w i = bit_or w (2 ^ i)

unfoldable pub negate_flag : ℕ → ℕ → ℕ
negate_flag w i = bit_and w (not32 (2 ^ i))

-- `isStart`, `isDoneClr`, `negateDoneClr` and `setDone`.
unfoldable pub is_start : ConfReg → ℕ → Bool
unfolding get_flag
is_start r i = get_flag r.start i

unfoldable pub is_done_clr : ConfReg → ℕ → Bool
is_done_clr r i = get_or r.pending_clr i false

unfoldable pub negate_done_clr : ℕ → ConfReg → ConfReg
unfolding negate_flag
negate_done_clr i r = record r {
  pending_clr = set r.pending_clr i false;
  done = negate_flag r.done i;
}

unfoldable pub set_done : ℕ → ConfReg → ConfReg
unfolding assert_flag
set_done i r = record r { done = assert_flag r.done i }

unfoldable pub fetch_dma_info : ℕ → ConfReg → ℕ
fetch_dma_info offset r =
    let i = get_or r.dma_info (offset / 8) (record { upper = 0; lower = 0 }) in
    if offset % 8 == 0 then i.upper else (if offset % 8 == 4 then i.lower else 0)

-- The registers by their offsets; the reset word of SNACC_CONF_REG_DONECLR_OFFSET reads as 0.
unfoldable pub fetch_word : ℕ → ConfReg → ℕ
unfolding fetch_dma_info
fetch_word offset r =
    if leb 0x40 offset
    then (if ltb (offset - 0x40) (8 * length r.pending_clr)
        then fetch_dma_info (offset - 0x40) r
        else 0)
    else get_or
        (r.start ∷ r.done ∷ r.donemask ∷ 0 ∷ r.data_db_sel ∷ r.wbuf_db_sel ∷ r.inst_mux_sel
          ∷ r.lut_mux_sel ∷ r.rbuf_mux_sel ∷ 0 ∷ r.data_query ∷ r.rbuf_query ∷ r.data_status
          ∷ r.rbuf_status ∷ r.dma_done_clear ∷ r.dma_request ∷ [])
        (if offset % 4 == 0 then offset / 4 else 9) 0

-- `getFlag` of the word for each core from `i` on, of `n` cores.
unfoldable pub flags : ℕ → ℕ → ℕ → List Bool
unfolding get_flag
flags i zero w = []
flags i (suc n) w = get_flag w i ∷ flags (i + 1) n w

abbrev pub switch : MemId → Core → Core
switch m c = record c { mems = with_mem m (DoubleBuffer.buf_switch (mem_of m c.mems)) c.mems }

-- `dbuf_switch` of the buffers `m` of the cores, from core `i` on.
unfoldable pub dbuf_switch : MemId → ℕ → ℕ → List Core → List Core
unfolding get_flag mem_of with_mem
dbuf_switch m i bitmap [] = []
dbuf_switch m i bitmap (c ∷ cs) =
    (if get_flag bitmap i then switch m c else c) ∷ dbuf_switch m (i + 1) bitmap cs
