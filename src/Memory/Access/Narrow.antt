-- ===== src/Memory/Access/Narrow.antt =====
-- The accesses to half words and bytes of `Mapper`, mapper.cc. `none` is a null pointer that is
-- followed; the accesses to bytes test for it.
use cube_sim.Memory.Range
use cube_sim.Common.{
  Bool, Option, bit_and, bit_or, false, if◌then◌else◌, none, set, some, true, ℕ, ◌%◌, ◌==◌,
}
use cube_sim.Common.Bits.{shl32, shr, sub32}
use cube_sim.Memory.Range.{Range}
use cube_sim.Memory.Mapper.{
  Key, Mapper, adel, ades, bus_error, dataload, datastore, erase_request, find_mapping_range, raise,
  range_at, ready,
}
use cube_sim.Memory.Access.{index_or}

unfoldable pub swap_halfword : ℕ → ℕ
swap_halfword h = bit_or (shl32 (bit_and h 0xff) 8) (bit_and (shr h 8) 0xff)

-- `mips_to_host_halfword` and `host_to_mips_halfword`.
unfoldable pub swap_half_if : Bool → ℕ → ℕ
unfolding swap_halfword
swap_half_if swapped h = if swapped then swap_halfword h else h

abbrev pub load_key : ℕ → ℕ → Key
load_key addr client = record { addr = addr; mode = dataload; client = client }

abbrev pub store_key : ℕ → ℕ → Key
store_key addr client = record { addr = addr; mode = datastore; client = client }

-- What a fetch does with the range `r`, of index `i`, once it is asked `ready`; `read` is the range's
-- method, and `ones` is returned with a bus error.
unfoldable pub load_ready :
    (Range → Range × ℕ) → ℕ → Key → ℕ → Range → Option (Mapper × Bool) → Option (Mapper × ℕ)
load_ready read ones k i r none = none
load_ready read ones k i r (some (m, false)) = some (bus_error k m, ones)
load_ready read ones k i r (some (m, true)) =
    let (r₁, v) = read r in
    some (record m { requests = erase_request k m.requests; ranges = set m.ranges i r₁ }, v)

unfoldable pub load_from :
    ℕ → (Range → Range × ℕ) → ℕ → Key → Mapper → ℕ → Range → Option (Mapper × ℕ)
unfolding load_ready
load_from cycle read ones k m i r =
    if r.readable then load_ready read ones k i r (ready cycle k m) else some (m, ones)

unfoldable pub halfword_from : ℕ → Key → Mapper → ℕ → Option Range → Option (Mapper × ℕ)
unfolding load_from
halfword_from cycle k m i none = none
halfword_from cycle k m i (some r) =
    load_from cycle
      (λ (s : Range).
        let (s₁, h) = Range.fetch_halfword (sub32 k.addr r.base) s in
        (s₁, swap_half_if m.byteswapped h))
      0xffff k m i r

unfoldable pub fetch_halfword : ℕ → ℕ → ℕ → Mapper → Option (Mapper × ℕ)
unfolding halfword_from
fetch_halfword cycle addr client m =
    if addr % 2 == 0
    then (let (m₁, i) = find_mapping_range addr m in
        halfword_from cycle (load_key addr client) m₁ (index_or i) (range_at i m₁.ranges))
    else some (raise client adel dataload m, 0xffff)

unfoldable pub byte_from : ℕ → Key → Mapper → ℕ → Option Range → Option (Mapper × ℕ)
unfolding load_from
byte_from cycle k m i none = some (bus_error k m, 0xff)
byte_from cycle k m i (some r) =
    load_from cycle (Range.fetch_byte (sub32 k.addr r.base)) 0xff k m i r

unfoldable pub fetch_byte : ℕ → ℕ → ℕ → Mapper → Option (Mapper × ℕ)
unfolding byte_from
fetch_byte cycle addr client m =
    let (m₁, i) = find_mapping_range addr m in
    byte_from cycle (load_key addr client) m₁ (index_or i) (range_at i m₁.ranges)

unfoldable pub write_ready :
    (Range → Range) → Key → ℕ → Range → Option (Mapper × Bool) → Option Mapper
write_ready write k i r none = none
write_ready write k i r (some (m, false)) = some (bus_error k m)
write_ready write k i r (some (m, true)) =
    some (record m { requests = erase_request k m.requests; ranges = set m.ranges i (write r) })

unfoldable pub write_to : ℕ → (Range → Range) → Key → Mapper → ℕ → Range → Option Mapper
unfolding write_ready
write_to cycle write k m i r =
    if r.writable then write_ready write k i r (ready cycle k m) else some m

unfoldable pub halfword_to : ℕ → Key → ℕ → Mapper → ℕ → Option Range → Option Mapper
unfolding write_to
halfword_to cycle k value m i none = none
halfword_to cycle k value m i (some r) =
    write_to cycle (Range.store_halfword (sub32 k.addr r.base) (swap_half_if m.byteswapped value)) k
      m i r

unfoldable pub store_halfword : ℕ → ℕ → ℕ → ℕ → Mapper → Option Mapper
unfolding halfword_to
store_halfword cycle addr value client m =
    if addr % 2 == 0
    then (let (m₁, i) = find_mapping_range addr m in
        halfword_to cycle (store_key addr client) value m₁ (index_or i) (range_at i m₁.ranges))
    else some (raise client ades datastore m)

unfoldable pub byte_to : ℕ → Key → ℕ → Mapper → ℕ → Option Range → Option Mapper
unfolding write_to
byte_to cycle k value m i none = some (bus_error k m)
byte_to cycle k value m i (some r) =
    write_to cycle (Range.store_byte (sub32 k.addr r.base) value) k m i r

unfoldable pub store_byte : ℕ → ℕ → ℕ → ℕ → Mapper → Option Mapper
unfolding byte_to
store_byte cycle addr value client m =
    let (m₁, i) = find_mapping_range addr m in
    byte_to cycle (store_key addr client) value m₁ (index_or i) (range_at i m₁.ranges)
