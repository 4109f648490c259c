-- ===== src/Accelerator/LocalBus.antt =====
use cube_sim.Accelerator.Config
use cube_sim.Common.{
  Bool, List, Option, [], false, get_elem?, if◌then◌else◌, map, none, some, true, ℕ, ◌++◌, ◌∷◌,
}
use cube_sim.Common.Bits.{sub32}
use cube_sim.Memory.Range.{Range}
use cube_sim.Memory.Mapper.{find_from, overlaps_any, try_last}
use cube_sim.Accelerator.Config.{NifConfig}

-- `LocalMapper`, accelerator.h and accelerator.cc: the ranges of the bus inside an accelerator. One
-- of them holds the registers of the network interface, which the interface also reads directly; the
-- others belong to the accelerator's core, are numbered by it, and share its state. A pointer to a
-- range is its index. The messages are left out.

-- What a subclass of `AcceleratorBase` brings: its ranges, `core_step`, with the argument of a call of
-- `done_signal`, and `core_reset`.
pub record Core (C : Type 0) : Type 0 where
  pub fetch_word : ℕ → ℕ → C → C × ℕ
  pub store_word : ℕ → ℕ → ℕ → C → C
  pub core_step : C → C × Option Bool
  pub core_reset : C → C

pub data Target : Type 0 where
  nif_config : Target
  core_range : ℕ → Target

-- The base and extent of a range, and what answers there.
pub record Placed : Type 0 where
  pub range : Range
  pub target : Target

pub record LocalBus (C : Type 0) : Type 0 where
  pub ranges : List Placed
  pub last_used : Option ℕ
  pub config : NifConfig
  pub core : C

abbrev pub spans : List Placed → List Range
spans ps = map (λ (p : Placed). p.range) ps

abbrev pub placed_at : Option ℕ → List Placed → Option Placed
placed_at none ps = none
placed_at (some i) ps = get_elem? ps i

module _ {C : Type 0} where
  -- The result is whether the range was added (0) or not (-1).
  unfoldable pub add_range : Placed → LocalBus C → LocalBus C × Bool
  add_range p b =
      if overlaps_any p.range (spans b.ranges)
      then (b, false)
      else (record b { ranges = b.ranges ++ p ∷ [] }, true)

  unfoldable pub note_found : Option ℕ → LocalBus C → LocalBus C
  note_found none b = b
  note_found (some i) b = record b { last_used = some i }

  -- `find_mapping_range`: the range that was used last is tried first.
  unfoldable pub search_for : Option ℕ → ℕ → LocalBus C → LocalBus C × Option ℕ
  unfolding note_found
  search_for (some i) laddr b = (b, some i)
  search_for none laddr b =
      let found = find_from laddr 0 (spans b.ranges) in (note_found found b, found)

  unfoldable pub find_mapping_range : ℕ → LocalBus C → LocalBus C × Option ℕ
  unfolding search_for
  find_mapping_range laddr b = search_for (try_last b.last_used (spans b.ranges) laddr) laddr b

module _ {C : Type 0} (k : Core C) where
  unfoldable pub fetch_target : Target → ℕ → LocalBus C → LocalBus C × ℕ
  fetch_target nif_config offset b = (b, Config.fetch_word offset b.config)
  fetch_target (core_range n) offset b =
      let (c, w) = k.fetch_word n offset b.core in (record b { core = c }, w)

  -- An address that no range has reads as all ones.
  unfoldable pub fetch_placed : Option Placed → ℕ → LocalBus C → LocalBus C × ℕ
  unfolding fetch_target
  fetch_placed none laddr b = (b, 0xffffffff)
  fetch_placed (some p) laddr b = fetch_target p.target (sub32 laddr p.range.base) b

  unfoldable pub fetch_word : ℕ → LocalBus C → LocalBus C × ℕ
  fetch_word laddr b =
      let (b', found) = find_mapping_range laddr b in
      fetch_placed (placed_at found b'.ranges) laddr b'

  unfoldable pub store_target : Target → ℕ → ℕ → LocalBus C → LocalBus C
  store_target nif_config offset w b = record b { config = Config.store_word offset w b.config }
  store_target (core_range n) offset w b = record b { core = k.store_word n offset w b.core }

  unfoldable pub store_placed : Option Placed → ℕ → ℕ → LocalBus C → LocalBus C
  unfolding store_target
  store_placed none laddr w b = b
  store_placed (some p) laddr w b = store_target p.target (sub32 laddr p.range.base) w b

  unfoldable pub store_word : ℕ → ℕ → LocalBus C → LocalBus C
  store_word laddr w b =
      let (b', found) = find_mapping_range laddr b in
      store_placed (placed_at found b'.ranges) laddr w b'
