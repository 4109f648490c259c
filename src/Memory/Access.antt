-- ===== src/Memory/Access.antt =====
-- The accesses to words of `Mapper`, mapper.cc; those to half words and bytes follow in Narrow. `none`
-- is a null pointer that is followed: the address has no range.
pub mod Narrow
pub mod Words
pub mod Frame
pub mod Unmapped
use cube_sim.Memory.Range
use cube_sim.Common.{
  Bool, Option, bit_and, bit_or, false, if◌then◌else◌, none, set, some, true, ℕ, ◌%◌, ◌==◌,
}
use cube_sim.Common.Bits.{shl32, shr, sub32}
use cube_sim.Memory.Range.{Range}
use cube_sim.Memory.Mapper.{
  Key, Mapper, adel, ades, bus_error, datastore, erase_request, find_mapping_range, raise, range_at,
  ready,
}

-- Bytes of a word in the other order.
unfoldable pub swap_word : ℕ → ℕ
swap_word w =
    bit_or
      (bit_or (bit_or (shl32 (bit_and w 0xff) 24) (shl32 (bit_and (shr w 8) 0xff) 16))
        (shl32 (bit_and (shr w 16) 0xff) 8))
      (bit_and (shr w 24) 0xff)

-- `mips_to_host_word` and `host_to_mips_word`.
unfoldable pub swap_if : Bool → ℕ → ℕ
swap_if swapped w = if swapped then swap_word w else w

abbrev pub all_ones : ℕ
all_ones = 0xffffffff

-- What `fetch_word` does with the range `r`, of index `i`, once it is readable and asked `ready`.
unfoldable pub fetch_ready : Key → ℕ → Range → Option (Mapper × Bool) → Option (Mapper × ℕ)
fetch_ready k i r none = none
fetch_ready k i r (some (m, false)) = some (bus_error k m, all_ones)
fetch_ready k i r (some (m, true)) =
    let (r₁, w) = Range.fetch_word (sub32 k.addr r.base) r in
    some (
      record m { requests = erase_request k m.requests; ranges = set m.ranges i r₁ },
      swap_if m.byteswapped w,
    )

unfoldable pub fetch_from : ℕ → Key → Mapper → ℕ → Option Range → Option (Mapper × ℕ)
fetch_from cycle k m i none = none
fetch_from cycle k m i (some r) =
    if r.readable then fetch_ready k i r (ready cycle k m) else some (m, all_ones)

abbrev pub index_or : Option ℕ → ℕ
index_or none = 0
index_or (some i) = i

unfoldable pub fetch_word : ℕ → Key → Mapper → Option (Mapper × ℕ)
fetch_word cycle k m =
    if k.addr % 4 == 0
    then (let (m₁, i) = find_mapping_range k.addr m in
        fetch_from cycle k m₁ (index_or i) (range_at i m₁.ranges))
    else some (raise k.client adel k.mode m, all_ones)

-- `store_word` likewise; its key's mode is DATASTORE.
unfoldable pub store_ready : Key → ℕ → ℕ → Range → Option (Mapper × Bool) → Option Mapper
store_ready k value i r none = none
store_ready k value i r (some (m, false)) = some (bus_error k m)
store_ready k value i r (some (m, true)) = some (record m {
  requests = erase_request k m.requests;
  ranges = set m.ranges i (Range.store_word (sub32 k.addr r.base) (swap_if m.byteswapped value) r);
})

unfoldable pub store_to : ℕ → Key → ℕ → Mapper → ℕ → Option Range → Option Mapper
store_to cycle k value m i none = none
store_to cycle k value m i (some r) =
    if r.writable then store_ready k value i r (ready cycle k m) else some m

unfoldable pub store_word : ℕ → ℕ → ℕ → ℕ → Mapper → Option Mapper
store_word cycle addr value client m =
    if addr % 4 == 0
    then (let k : Key = record { addr = addr; mode = datastore; client = client } in
        let (m₁, i) = find_mapping_range addr m in
        store_to cycle k value m₁ (index_or i) (range_at i m₁.ranges))
    else some (raise client ades datastore m)
