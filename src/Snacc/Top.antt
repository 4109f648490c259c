-- ===== src/Snacc/Top.antt =====
-- SNACC as an accelerator, snacc.h and snacc.cc, with the accesses to its configuration registers and
-- its broadcast ranges, `ConfRegCtrl` and `BCastRange` of snaccmodules.cc. The buffer that all cores
-- share is a part of the accelerator, and stands in each core during that core's step.
use cube_sim.Accelerator.DoubleBuffer
use cube_sim.Accelerator.DoubleBuffer.{DoubleBuffer}
use cube_sim.Common.{
  List, [], bit_xor, get_elem?, if◌then◌else◌, length, map, none, set, some, ℕ, ◌%◌, ◌+◌, ◌==◌, ◌^◌,
  ◌∷◌,
}
use cube_sim.Snacc.Conf
use cube_sim.Snacc.Execute
use cube_sim.Snacc.Conf.{
  ConfReg, dbuf_switch, flags, is_done_clr, is_start, negate_done_clr, set_done,
}
use cube_sim.Snacc.Core.{
  Core, MemId, arb_step, dmem_l, dmem_u, imem, lut, mem_of, rbuf_l, rbuf_u, with_mem,
}

pub record Snacc : Type 0 where
  pub cores : List Core
  pub shared_wbuf : DoubleBuffer
  pub wbuf_arb : ℕ
  pub conf : ConfReg

abbrev pub with_wbuf : DoubleBuffer → Core → Core
with_wbuf b c = record c { mems = record c.mems { wbuf = b } }

-- The loop of `core_step` from core `i` on.
unfoldable pub step_cores :
    ℕ → ℕ → List Core → DoubleBuffer → ConfReg → List Core × DoubleBuffer × ConfReg
unfolding is_start is_done_clr negate_done_clr set_done
step_cores arb i [] b r = ([], b, r)
step_cores arb i (c ∷ cs) b r =
    let stepped = Execute.step arb (with_wbuf b c) in
    let running = is_start r i in
    let c₁ = if running then stepped else (if is_done_clr r i then Execute.reset c else c) in
    let b₁ = if running then stepped.mems.wbuf else b in
    let r₁ =
      if running
      then (if stepped.done then set_done i r else r)
      else (if is_done_clr r i then negate_done_clr i r else r) in
    let (cs₁, b₂, r₂) = step_cores arb (i + 1) cs b₁ r₁ in (c₁ ∷ cs₁, b₂, r₂)

unfoldable pub core_step : Snacc → Snacc
unfolding step_cores
core_step s =
    let (cs, b, r) = step_cores s.wbuf_arb 0 s.cores s.shared_wbuf s.conf in
    record s { cores = cs; shared_wbuf = b; conf = r; wbuf_arb = arb_step s.wbuf_arb }

unfoldable pub core_reset : Snacc → Snacc
core_reset s = record s { cores = map Execute.reset s.cores }

-- The registers that are written, SNACC_CONF_REG_START_OFFSET and the others.
pub data Register : Type 0 where
  conf_start conf_done conf_donemask conf_doneclr conf_ddbsel conf_wdbsel conf_imuxsel : Register
  conf_lmuxsel conf_rbmuxsel conf_dstat conf_rbstat conf_dmadone_clr conf_none : Register

unfoldable pub register_at : ℕ → Register
register_at offset =
    if offset == 0x00
    then conf_start
    else (if offset == 0x04
        then conf_done
        else (if offset == 0x08
            then conf_donemask
            else (if offset == 0x0c
                then conf_doneclr
                else (if offset == 0x10
                    then conf_ddbsel
                    else (if offset == 0x14
                        then conf_wdbsel
                        else (if offset == 0x18
                            then conf_imuxsel
                            else (if offset == 0x1c
                                then conf_lmuxsel
                                else (if offset == 0x20
                                    then conf_rbmuxsel
                                    else (if offset == 0x30
                                        then conf_dstat
                                        else (if offset == 0x34
                                            then conf_rbstat
                                            else (if offset == 0x38
                                                then conf_dmadone_clr
                                                else (conf_none))))))))))))

-- `ConfRegCtrl::store_word`
unfoldable pub store_register : Register → ℕ → Snacc → Snacc
unfolding flags dbuf_switch
store_register conf_start w s = record s { conf = record s.conf { start = w } }
store_register conf_done w s = record s { conf = record s.conf { done = w } }
store_register conf_donemask w s = record s { conf = record s.conf { donemask = w } }
store_register conf_doneclr w s = record s {
  conf = record s.conf { pending_clr = flags 0 (length s.cores) w };
}
store_register conf_ddbsel w s =
    let changed = bit_xor s.conf.data_db_sel w in
    record s {
      cores = dbuf_switch dmem_l 0 changed (dbuf_switch dmem_u 0 changed s.cores);
      conf = record s.conf { data_db_sel = w };
    }
store_register conf_wdbsel w s = record s {
  shared_wbuf =
      if bit_xor s.conf.wbuf_db_sel w == 0
      then s.shared_wbuf
      else DoubleBuffer.buf_switch s.shared_wbuf;
  conf = record s.conf { wbuf_db_sel = w };
}
store_register conf_imuxsel w s = record s {
  cores = dbuf_switch imem 0 (bit_xor s.conf.inst_mux_sel w) s.cores;
  conf = record s.conf { inst_mux_sel = w };
}
store_register conf_lmuxsel w s = record s {
  cores = dbuf_switch lut 0 (bit_xor s.conf.lut_mux_sel w) s.cores;
  conf = record s.conf { lut_mux_sel = w };
}
store_register conf_rbmuxsel w s =
    let changed = bit_xor s.conf.rbuf_mux_sel w in
    record s {
      cores = dbuf_switch rbuf_l 0 changed (dbuf_switch rbuf_u 0 changed s.cores);
      conf = record s.conf { rbuf_mux_sel = w };
    }
store_register conf_dstat w s = record s { conf = record s.conf { data_status = w } }
store_register conf_rbstat w s = record s { conf = record s.conf { rbuf_status = w } }
store_register conf_dmadone_clr w s = record s { conf = record s.conf { dma_done_clear = w } }
store_register conf_none w s = s

-- `bitmap_mask` keeps a bit for each core.
unfoldable pub store_conf : ℕ → ℕ → Snacc → Snacc
unfolding register_at store_register
store_conf offset w s = store_register (register_at offset) (w % 2 ^ length s.cores) s

unfoldable pub store_in : MemId → ℕ → ℕ → Core → Core
unfolding mem_of with_mem
store_in m offset w c = record c {
  mems = with_mem m (DoubleBuffer.store_word offset w (mem_of m c.mems)) c.mems;
}

-- `BCastRange::store_word` on the buffers `m`.
unfoldable pub bcast_store : MemId → ℕ → ℕ → Snacc → Snacc
unfolding store_in
bcast_store m offset w s = record s { cores = map (store_in m offset w) s.cores }

-- What the ranges of `setup` are: the buffers of a core, and the others.
pub data Place : Type 0 where
  own : ℕ → MemId → Place
  shared conf_reg : Place
  bcast : MemId → Place

unfoldable pub store_place : Place → ℕ → ℕ → Snacc → Snacc
unfolding store_in bcast_store store_conf
store_place (own i m) offset w s = elim (get_elem? s.cores i) [
  | none ↦ s
  | some c ↦ record s { cores = set s.cores i (store_in m offset w c) }
]
store_place shared offset w s = record s {
  shared_wbuf = DoubleBuffer.store_word offset w s.shared_wbuf;
}
store_place conf_reg offset w s = store_conf offset w s
store_place (bcast m) offset w s = bcast_store m offset w s

unfoldable pub fetch_place : Place → ℕ → Snacc → ℕ
unfolding mem_of
fetch_place (own i m) offset s = elim (get_elem? s.cores i) [
  | none ↦ 0
  | some c ↦ DoubleBuffer.fetch_word offset (mem_of m c.mems)
]
fetch_place shared offset s = DoubleBuffer.fetch_word offset s.shared_wbuf
fetch_place conf_reg offset s = Conf.fetch_word offset s.conf
fetch_place (bcast m) offset s = 0
