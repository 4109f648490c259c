-- ===== src/Interface/Config.antt =====
-- The registers of the router interface, `RTConfig_t` and the register accesses of `RouterIOReg`,
-- routerinterface.h and routerinterface.cc. The three nodes and the eight virtual channels are indices
-- of lists.
use cube_sim.Common.{
  Bool, List, [], bit_and, false, if◌then◌else◌, not, replicate, suc, zero, ℕ, ◌+◌, ◌==◌, ◌^◌, ◌∷◌,
}

pub record Config : Type 0 where
  pub router_id : ℕ
  pub data_vch : List ℕ
  pub iready : List Bool
  pub int_vch : List ℕ
  pub done_status : List Bool
  pub dmac_status : List Bool
  pub done_mask : List Bool
  pub dmac_mask : List Bool

-- REMOTE_NODE_COUNT
abbrev pub node_count : ℕ
node_count = 3

abbrev pub channels : ℕ
channels = 8

-- `clear_reg`, without the register `abort`.
unfoldable pub clear_config : Config
clear_config = record {
  router_id = 0;
  data_vch = replicate node_count 0;
  iready = replicate channels false;
  int_vch = replicate node_count 0;
  done_status = replicate node_count false;
  dmac_status = replicate node_count false;
  done_mask = replicate node_count false;
  dmac_mask = replicate node_count false;
}

-- `bin2bool`: the bits from `i` on, `len` of them.
unfoldable pub bin2bool : ℕ → ℕ → ℕ → List Bool
bin2bool i zero w = []
bin2bool i (suc len) w = not (bit_and w (2 ^ i) == 0) ∷ bin2bool (i + 1) len w

-- `bool2bin`: the sum of the bits from `i` on.
unfoldable pub bool2bin : ℕ → List Bool → ℕ
bool2bin i [] = 0
bool2bin i (b ∷ bs) = (if b then 2 ^ i else 0) + bool2bin (i + 1) bs

-- The loops that clear the status flags that are written as 1.
unfoldable pub clear_flags : List Bool → List Bool → List Bool
clear_flags [] flags = flags
clear_flags (c ∷ cs) [] = []
clear_flags (c ∷ cs) (f ∷ fs) = (if c then false else f) ∷ clear_flags cs fs

-- The registers, by the offsets of routerinterface.h.
pub data Register : Type 0 where
  router_id_offset : Register
  dvch_offset : ℕ → Register
  iready_offset : Register
  intvch_offset : ℕ → Register
  done_stat_offset done_mask_offset dmac_stat_offset dmac_mask_offset : Register
  abort_offset other_offset : Register

unfoldable pub upper_register : ℕ → Register
upper_register o =
    if o == 0x20
    then done_stat_offset
    else (if o == 0x24
        then done_mask_offset
        else (if o == 0x28
            then dmac_stat_offset
            else (if o == 0x2c
                then dmac_mask_offset
                else (if o == 0x30 then abort_offset else other_offset))))

unfoldable pub middle_register : ℕ → Register
unfolding upper_register
middle_register o =
    if o == 0x10
    then iready_offset
    else (if o == 0x14
        then intvch_offset 0
        else (if o == 0x18
            then intvch_offset 1
            else (if o == 0x1c then intvch_offset 2 else upper_register o)))

unfoldable pub register_at : ℕ → Register
unfolding middle_register
register_at o =
    if o == 0x0
    then router_id_offset
    else (if o == 0x4
        then dvch_offset 0
        else (if o == 0x8
            then dvch_offset 1
            else (if o == 0xc then dvch_offset 2 else middle_register o)))
