-- ===== src/Memory/Mapper.antt =====
-- `Mapper`, mapper.h and mapper.cc: the ranges of physical memory, the requests that wait for their
-- latency, the byte order, and the bus arbiter. A pointer to a range is its index in `ranges`.
-- The exceptions that are raised in the clients are logged. `none` is a null pointer that is followed,
-- for an address that no range has.
-- Cycle numbers do not wrap, and a request is not made after the present cycle.
pub mod Lookup
pub mod Ranges
pub mod Requests
use mathlib.Core.Option
use cube_sim.Common.{
  Bool, List, Option, [], false, get_elem?, if◌then◌else◌, leb, none, some, true, ℕ, ◌&&◌, ◌++◌,
  ◌+◌, ◌-◌, ◌==◌, ◌∷◌,
}
use cube_sim.Memory.Range.{Range, incorporates, overlaps}
use cube_sim.Memory.Bus.{BusArbiter}

pub data AccessMode : Type 0 where
  instfetch dataload datastore : AccessMode

unfoldable pub same_mode : AccessMode → AccessMode → Bool
same_mode instfetch instfetch = true
same_mode dataload dataload = true
same_mode datastore datastore = true
same_mode _ _ = false

-- `RequestsKey` and `RequestsKeyEqual`.
pub record Key : Type 0 where
  pub addr : ℕ
  pub mode : AccessMode
  pub client : ℕ

unfoldable pub key_eq : Key → Key → Bool
unfolding same_mode
key_eq a b = a.addr == b.addr && same_mode a.mode b.mode && a.client == b.client

pub data ExcCode : Type 0 where
  adel ades ibe dbe : ExcCode

pub record Raised : Type 0 where
  pub client : ℕ
  pub code : ExcCode
  pub mode : AccessMode

pub record Mapper : Type 0 where
  pub byteswapped : Bool
  pub bus_latency : ℕ
  pub requests : List (Key × ℕ)
  pub bus : BusArbiter
  pub last_berr : Option Key
  pub last_used : Option ℕ
  pub ranges : List Range
  pub debug_mode : Bool
  pub raised : List Raised

-- `find` and `erase` of the unordered map.
unfoldable pub find_request : Key → List (Key × ℕ) → Option ℕ
find_request k [] = none
find_request k ((j, t) ∷ m) = if key_eq j k then some t else find_request k m

unfoldable pub erase_request : Key → List (Key × ℕ) → List (Key × ℕ)
erase_request k [] = []
erase_request k ((j, t) ∷ m) =
    let rest = erase_request k m in if key_eq j k then rest else (j, t) ∷ rest

unfoldable pub insert_request : Option ℕ → ℕ → Key → List (Key × ℕ) → List (Key × ℕ)
insert_request none cycle k m = (k, cycle) ∷ m
insert_request (some t) cycle k m = m

unfoldable pub request_word : ℕ → Key → Mapper → Mapper
request_word cycle k m = record m {
  requests = insert_request (find_request k m.requests) cycle k m.requests;
}

abbrev pub berr_code : AccessMode → ExcCode
berr_code instfetch = ibe
berr_code _ = dbe

unfoldable pub raise : ℕ → ExcCode → AccessMode → Mapper → Mapper
raise client code mode m = record m {
  raised = m.raised ++ record { client = client; code = code; mode = mode } ∷ [];
}

unfoldable pub bus_error : Key → Mapper → Mapper
unfolding raise
bus_error k m = raise k.client (berr_code k.mode) k.mode (record m { last_berr = some k })

-- The loop of `find_mapping_range` and of `add_range`, from index `i` on.
unfoldable pub find_from : ℕ → ℕ → List Range → Option ℕ
find_from p i [] = none
find_from p i (r ∷ rs) = if incorporates r p then some i else find_from p (i + 1) rs

unfoldable pub overlaps_any : Range → List Range → Bool
overlaps_any r [] = false
overlaps_any r (s ∷ rs) = if overlaps r s then true else overlaps_any r rs

-- The result is whether the range was added (0) or not (-1).
unfoldable pub add_range : Range → Mapper → Mapper × Bool
add_range r m =
    if overlaps_any r m.ranges then (m, false) else (record m { ranges = m.ranges ++ r ∷ [] }, true)

-- The index that is remembered, if its range has the address.
unfoldable pub try_last : Option ℕ → List Range → ℕ → Option ℕ
try_last none rs p = none
try_last (some i) rs p = elim (get_elem? rs i) [
  | none ↦ none
  | some r ↦ (if incorporates r p then some i else none)
]

unfoldable pub note_found : Option ℕ → Mapper → Mapper × Option ℕ
note_found none m = (m, none)
note_found (some i) m = (record m { last_used = some i }, some i)

unfoldable pub after_last : Option ℕ → ℕ → Mapper → Mapper × Option ℕ
unfolding note_found
after_last (some i) p m = (m, some i)
after_last none p m = note_found (find_from p 0 m.ranges) m

unfoldable pub find_mapping_range : ℕ → Mapper → Mapper × Option ℕ
find_mapping_range p m = after_last (try_last m.last_used m.ranges p) p m

-- `num_cycles - issue_time >= bus_latency + l->extra_latency()`; a range itself is always ready.
unfoldable pub latency_over : ℕ → ℕ → Option Range → Mapper → Option Bool
latency_over cycle issued none m = none
latency_over cycle issued (some r) m = some (leb (m.bus_latency + r.latency) (cycle - issued))

abbrev pub range_at : Option ℕ → List Range → Option Range
range_at none rs = none
range_at (some i) rs = get_elem? rs i

-- `ready`, for a request that was made at `issued`.
unfoldable pub ready_since : ℕ → Key → Option ℕ → Mapper → Option (Mapper × Bool)
ready_since cycle k none m = some (m, false)
ready_since cycle k (some issued) m =
    let (m₁, i) = find_mapping_range k.addr m in
    Option.map (λ ok. (m₁, ok)) (latency_over cycle issued (range_at i m₁.ranges) m₁)

unfoldable pub ready : ℕ → Key → Mapper → Option (Mapper × Bool)
ready cycle k m =
    if m.debug_mode then some (m, true) else ready_since cycle k (find_request k m.requests) m
