-- ===== src/Memory/Tests.antt =====
-- Concrete runs of the bus arbiter and of the mapper, busarbiter.cc and mapper.cc.
use mathlib.Core.Option
use cube_sim.Memory.Access
use cube_sim.Common.{[], ap, arith, false, none, refl, some, suc, true, zero, ℕ, ◌∙◌, ◌∷◌, ◌≡◌}
use cube_sim.Memory.Bus.{
  BusArbiter, OthersRefused, acquire, acquire_bus, bus_exclusive, call, grant, release, release_bus,
  run,
}
use cube_sim.Memory.Range.{Range, incorporates}
use cube_sim.Memory.Mapper.{
  Key, Mapper, add_range, after_last, bus_error, find_from, find_mapping_range, find_request,
  instfetch, note_found, ready, request_word, try_last,
}
use cube_sim.Memory.Mapper.Lookup.{Distinct, Has, find_mapping_range-eq}
use cube_sim.Memory.Mapper.Ranges.{add_range-Distinct}
use cube_sim.Memory.Mapper.Requests.{ready-request_word}
use cube_sim.Memory.Access.Unmapped.{accesses_unmapped}
use cube_sim.Memory.Access.Narrow
use cube_sim.Memory.Access.Narrow.{load_key, store_key}

abbrev free_bus : BusArbiter
free_bus = record { last_released_cycle = 0; bus_holder = none }

abbrev busy_bus : BusArbiter
busy_bus = record { last_released_cycle = 0; bus_holder = some 3 }

bus_exclusive_example :
    ((run (acquire 5 4 ∷ release 6 4 ∷ acquire 7 9 ∷ []) busy_bus).0.bus_holder ≡ some 3)
    × OthersRefused 3 (acquire 5 4 ∷ release 6 4 ∷ acquire 7 9 ∷ []) (false ∷ false ∷ false ∷ [])
unfolding run call acquire_bus release_bus grant
bus_exclusive_example =
    bus_exclusive (acquire 5 4 ∷ release 6 4 ∷ acquire 7 9 ∷ []) busy_bus 3 refl (omega arith, tt)

abbrev rom : Range
rom = record {
  base = 0x1fc00000;
  extent = 0x100;
  words = 7 ∷ 8 ∷ [];
  readable = true;
  writable = false;
  latency = 2;
  read_count = 0;
  write_count = 0;
}

abbrev ram : Range
ram = record rom { base = 0; extent = 0x1000; writable = true; latency = 0 }

abbrev mapper : Mapper
mapper = record {
  byteswapped = true;
  bus_latency = 1;
  requests = [];
  bus = free_bus;
  last_berr = none;
  last_used = none;
  ranges = rom ∷ [];
  debug_mode = false;
  raised = [];
}

rom_Distinct : Distinct mapper.ranges
rom_Distinct p zero zero a b = refl
rom_Distinct p zero (suc j) a b = let none_there = b.is_there in cc
rom_Distinct p (suc i) j a b = let none_there = a.is_there in cc

find_mapping_range-eq_example :
    ((find_mapping_range 0x1fc00004 mapper).1 ≡ find_from 0x1fc00004 0 mapper.ranges)
    × ((find_mapping_range 0x1fc00004 mapper).0.ranges ≡ rom ∷ [])
find_mapping_range-eq_example = find_mapping_range-eq 0x1fc00004 mapper rom_Distinct

add_range-Distinct_example : Distinct (add_range ram mapper).0.ranges
add_range-Distinct_example =
    add_range-Distinct ram mapper (omega arith) (omega arith) (omega arith, omega arith, tt)
      rom_Distinct

abbrev a_word : Key
a_word = record { addr = 0x1fc00004; mode = instfetch; client = 3 }

ready-request_word_example :
    (Option.map (λ r. r.1) (ready 4 a_word mapper) ≡ some false)
    × (Option.map (λ r. r.1) (ready 4 a_word (request_word 1 a_word mapper)) ≡ some true)
unfolding find_from incorporates find_request
ready-request_word_example = ready-request_word 1 4 a_word mapper rom_Distinct refl refl

nothing_there : (i : ℕ) → ¬ (Has mapper.ranges i 8)
unfolding incorporates
nothing_there zero h =
    let same : rom ≡ h.range = cc (h.is_there) in
    let has : incorporates rom 8 ≡ true = ap (λ (r : Range). incorporates r 8) same ∙ h.has in
    cc (has)
nothing_there (suc i) h = let none_there = h.is_there in cc

accesses_unmapped_example :
    (Access.fetch_word 4 (record a_word { addr = 8 }) mapper ≡ none)
    × (Access.store_word 4 8 99 3 mapper ≡ none)
    × (Narrow.fetch_halfword 4 8 3 mapper ≡ none)
    × (Narrow.store_halfword 4 8 99 3 mapper ≡ none)
    × (Narrow.fetch_byte 4 8 3 mapper ≡ some (bus_error (load_key 8 3) mapper, 0xff))
    × (Narrow.store_byte 4 8 99 3 mapper ≡ some (bus_error (store_key 8 3) mapper))
unfolding find_mapping_range try_last after_last note_found find_from incorporates
accesses_unmapped_example =
    accesses_unmapped 4 99 (record a_word { addr = 8 }) mapper rom_Distinct refl nothing_there
