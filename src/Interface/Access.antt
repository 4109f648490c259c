-- ===== src/Interface/Access.antt =====
-- The accesses of the processor to the router interface, `RouterIOReg` and `RouterRange` of
-- routerinterface.cc. An access that raises an exception in its client says so in its result; the
-- messages are left out.
use cube_sim.Interface.Top
use cube_sim.Common.{
  Bool, Option, bit_and, false, get_or, if◌then◌else◌, none, not, set, some, true, ℕ, ◌&&◌, ◌==◌,
  ◌||◌,
}
use cube_sim.Common.Bits.{sub32}
use cube_sim.Interface.Config.{
  Config, Register, abort_offset, bin2bool, bool2bin, channels, clear_flags, dmac_mask_offset,
  dmac_stat_offset, done_mask_offset, done_stat_offset, dvch_offset, intvch_offset, iready_offset,
  node_count, other_offset, register_at, router_id_offset,
}
use cube_sim.Interface.Machine.{
  Interface, is_busy, is_data_arrived, is_under_setup, start_load, start_store,
}
use cube_sim.Interface.Top.{RouterInterface, reset}
use cube_sim.Memory.Mapper.{AccessMode, dataload, datastore, instfetch}

pub record IoReg : Type 0 where
  pub rt : RouterInterface
  pub abort : ℕ

abbrev pub config_of : IoReg → Config
config_of r = r.rt.iface.config

abbrev pub with_config : Config → IoReg → IoReg
with_config c r = record r { rt = record r.rt { iface = record r.rt.iface { config = c } } }

-- `RouterIOReg::ready`
unfoldable pub io_ready : ℕ → IoReg → Bool
unfolding is_busy
io_ready offset r = offset == 0x30 || not (is_busy r.rt.iface)

-- `none` is the exception DBE, after which the result is all ones.
unfoldable pub read_register : Register → IoReg → Option ℕ
unfolding bool2bin
read_register router_id_offset r = some (config_of r).router_id
read_register (dvch_offset n) r = some (get_or (config_of r).data_vch n 0)
read_register iready_offset r = some (bool2bin 0 (config_of r).iready)
read_register (intvch_offset n) r = some (get_or (config_of r).int_vch n 0)
read_register done_stat_offset r = some (bool2bin 0 (config_of r).done_status)
read_register done_mask_offset r = some (bool2bin 0 (config_of r).done_mask)
read_register dmac_stat_offset r = some (bool2bin 0 (config_of r).dmac_status)
read_register dmac_mask_offset r = some (bool2bin 0 (config_of r).dmac_mask)
read_register abort_offset r = some r.abort
read_register other_offset r = none

-- The first test is `data & ROUTER_ABORT_BITMASK & (ROUTER_RESET_BIT == 0)`, as C reads it.
unfoldable pub falling_reset : ℕ → ℕ → Bool
falling_reset old w =
    not (bit_and old 1 == 0) && not (bit_and (bit_and w 0x7) (if 1 == 0 then 1 else 0) == 0)

unfoldable pub falling_abort : ℕ → ℕ → Bool
falling_abort old w = not (bit_and old 1 == 0) && bit_and (bit_and w 0x7) 1 == 0

unfoldable pub store_abort : ℕ → ℕ → IoReg → IoReg
unfolding falling_reset falling_abort
store_abort cycle w r = record {
  rt =
      if falling_reset r.abort w
      then reset cycle r.rt
      else (if falling_abort r.abort w then Top.abort r.rt else r.rt);
  abort = bit_and w 0x7;
}

unfoldable pub write_register : Register → ℕ → ℕ → IoReg → Option IoReg
unfolding bin2bool clear_flags store_abort
write_register router_id_offset cycle w r =
    some (with_config (record (config_of r) { router_id = bit_and w 0x3 }) r)
write_register (dvch_offset n) cycle w r =
    let c = config_of r in
    some (with_config (record c { data_vch = set c.data_vch n (bit_and w 0x7) }) r)
write_register iready_offset cycle w r =
    some (with_config (record (config_of r) { iready = bin2bool 0 channels (bit_and w 0xff) }) r)
write_register (intvch_offset n) cycle w r =
    let c = config_of r in
    some (with_config (record c { int_vch = set c.int_vch n (bit_and w 0x7) }) r)
write_register done_stat_offset cycle w r =
    let c = config_of r in
    some (
      with_config
        (record c {
          done_status = clear_flags (bin2bool 0 node_count (bit_and w 0x7)) c.done_status;
        })
        r)
write_register done_mask_offset cycle w r =
    some
      (with_config (record (config_of r) { done_mask = bin2bool 0 node_count (bit_and w 0x7) }) r)
write_register dmac_stat_offset cycle w r =
    let c = config_of r in
    some (
      with_config
        (record c {
          dmac_status = clear_flags (bin2bool 0 node_count (bit_and w 0x7)) c.dmac_status;
        })
        r)
write_register dmac_mask_offset cycle w r =
    some
      (with_config (record (config_of r) { dmac_mask = bin2bool 0 node_count (bit_and w 0x7) }) r)
write_register abort_offset cycle w r = some (store_abort cycle w r)
write_register other_offset cycle w r = none

unfoldable pub fetch_word : ℕ → IoReg → Option ℕ
unfolding register_at read_register
fetch_word offset r = read_register (register_at offset) r

unfoldable pub store_word : ℕ → ℕ → ℕ → IoReg → Option IoReg
unfolding register_at write_register
store_word cycle offset w r = write_register (register_at offset) cycle w r

-- `RouterRange::ready` of a load, a store, and a fetch of an instruction, which raises IBE. `offset` is
-- that of the transfer; `block` is the mode of the range.
unfoldable pub ready_load : Bool → ℕ → Interface → Interface × Bool
unfolding is_busy is_data_arrived start_load
ready_load block offset i =
    if is_busy i then (i, is_data_arrived i) else (start_load offset block i, false)

unfoldable pub ready_store : Bool → ℕ → Interface → Interface × Bool
unfolding is_busy is_under_setup start_store
ready_store block offset i =
    if is_busy i then (i, is_under_setup i) else (start_store offset block i, true)

unfoldable pub range_ready : Bool → ℕ → ℕ → AccessMode → Interface → Option (Interface × Bool)
unfolding ready_load ready_store
range_ready block offset base dataload i = some (ready_load block (sub32 offset base) i)
range_ready block offset base datastore i = some (ready_store block (sub32 offset base) i)
range_ready block offset base instfetch i = none
