-- ===== src/Memory/Mapper/Requests.antt =====
-- When a memory access that was requested is ready, mapper.cc.
use mathlib.Core.Option
use mathlib.Core.Path.{ap₂}
use cube_sim.Common.{
  Bool, List, Option, ap, arith, false, if◌then◌else◌, leb, none, refl, some, true, ℕ, ◌+◌, ◌-◌,
  ◌↔◌, ◌∙◌, ◌≡◌,
}
use cube_sim.Memory.Range.{Range}
use cube_sim.Memory.Mapper.{
  AccessMode, Key, Mapper, dataload, datastore, find_from, find_mapping_range, find_request,
  insert_request, instfetch, key_eq, latency_over, range_at, ready, ready_since, request_word,
  same_mode,
}
use cube_sim.Memory.Mapper.Lookup.{Distinct, find_mapping_range-eq, find_mapping_range_latency}

same_mode_refl : (a : AccessMode) → same_mode a a ≡ true
unfolding same_mode
same_mode_refl instfetch = refl
same_mode_refl dataload = refl
same_mode_refl datastore = refl

same_mode→eq : (a b : AccessMode) → same_mode a b ≡ true → a ≡ b
unfolding same_mode
same_mode→eq instfetch instfetch h = refl
same_mode→eq dataload dataload h = refl
same_mode→eq datastore datastore h = refl
same_mode→eq _ _ h = cc

-- The test of `RequestsKeyEqual` is equality.
pub key_eq_iff : (a b : Key) → (key_eq a b ≡ true) ↔ (a ≡ b)
unfolding key_eq
key_eq_iff a b = (
  λ h. ground (arith, same_mode→eq a.mode b.mode),
  λ h. rw h (ground (arith, same_mode_refl b.mode)),
)

key_eq_refl : (k : Key) → key_eq k k ≡ true
key_eq_refl k = (key_eq_iff k k).1 refl

-- A request that waits is found, and a second request for the same access does not restart its time.
find-insert :
    (k : Key) (cycle : ℕ) (q : List (Key × ℕ)) (o : Option ℕ)
    → find_request k q ≡ o
    → find_request k (insert_request o cycle k q) ≡ some (elim o [ none ↦ cycle | some t ↦ t ])
unfolding find_request insert_request
find-insert k cycle q none h = rw (key_eq_refl k)
find-insert k cycle q (some t) h = h

-- A second request for an access that waits changes nothing, in whatever cycle it is made.
pub request_word_again :
    (cycle later : ℕ) (k : Key) (m : Mapper)
    → request_word later k (request_word cycle k m) ≡ request_word cycle k m
unfolding request_word insert_request
request_word_again cycle later k m =
    let q = insert_request (find_request k m.requests) cycle k m.requests in
    ap (λ (o : Option ℕ). record m { requests = insert_request o later k q })
      (find-insert k cycle m.requests (find_request k m.requests) refl)

latency_over-map :
    (cycle issued : ℕ) (o : Option Range) (m : Mapper)
    → Option.map
        (λ r. r.1)
        (Option.map {B = Mapper × Bool} (λ ok. (m, ok)) (latency_over cycle issued o m))
      ≡ Option.map (λ (r : Range). leb (m.bus_latency + r.latency) (cycle - issued)) o
unfolding latency_over
latency_over-map cycle issued none m = refl
latency_over-map cycle issued (some r) m = refl

ready_since-some :
    (issued cycle : ℕ) (k : Key) (m : Mapper)
    → Distinct m.ranges
    → Option.map (λ r. r.1) (ready_since cycle k (some issued) m)
      ≡ Option.map
          (λ (r : Range). leb (m.bus_latency + r.latency) (cycle - issued))
          (range_at (find_from k.addr 0 m.ranges) m.ranges)
unfolding ready_since
ready_since-some issued cycle k m d =
    let found = find_mapping_range k.addr m in
    let e = find_mapping_range-eq k.addr m d in
    latency_over-map cycle issued (range_at found.1 found.0.ranges) found.0
    ∙ ap
        (λ (l : ℕ).
          Option.map (λ (r : Range). leb (l + r.latency) (cycle - issued))
            (range_at found.1 found.0.ranges))
        (find_mapping_range_latency k.addr m)
    ∙ ap₂
        (λ (i : Option ℕ) (rs : List Range).
          Option.map (λ (r : Range). leb (m.bus_latency + r.latency) (cycle - issued))
            (range_at i rs))
        e.0 e.1

waiting :
    (issued cycle : ℕ) (k : Key) (m : Mapper)
    → Distinct m.ranges
    → find_request k m.requests ≡ none
    → Option.map
        (λ r. r.1)
        (ready_since cycle k
          (find_request k (request_word issued k m).requests)
          (request_word issued k m))
      ≡ Option.map
          (λ (r : Range). leb (m.bus_latency + r.latency) (cycle - issued))
          (range_at (find_from k.addr 0 m.ranges) m.ranges)
unfolding request_word
waiting issued cycle k m d fresh =
    let q = insert_request (find_request k m.requests) issued k m.requests in
    let m' : Mapper = record m { requests = q } in
    let e : find_request k q ≡ some issued =
      ap (λ o. find_request k (insert_request o issued k m.requests)) fresh
      ∙ find-insert k issued m.requests none fresh in
    ap (λ o. Option.map (λ r. r.1) (ready_since cycle k o m')) e
    ∙ ready_since-some issued cycle k m' d

ready_off :
    (cycle : ℕ) (k : Key) (m : Mapper)
    → m.debug_mode ≡ false
    → ready cycle k m ≡ ready_since cycle k (find_request k m.requests) m
unfolding ready
ready_off cycle k m off =
    ap
      (λ (b : Bool).
        if b then some (m, true) else ready_since cycle k (find_request k m.requests) m)
      off

-- Where no address belongs to two ranges and the mapper is not in debug mode, an access for which
-- no request waits is not ready. Once it is requested, in cycle `issued`, it is ready in a later
-- cycle exactly if the latency of the bus and that of its range have passed since; for an address
-- that no range has, a null pointer is followed.
pub ready-request_word :
    (issued cycle : ℕ) (k : Key) (m : Mapper)
    → Distinct m.ranges
    → m.debug_mode ≡ false
    → find_request k m.requests ≡ none
    → (Option.map (λ r. r.1) (ready cycle k m) ≡ some false)
      × (Option.map (λ r. r.1) (ready cycle k (request_word issued k m))
          ≡ Option.map
              (λ (r : Range). leb (m.bus_latency + r.latency) (cycle - issued))
              (range_at (find_from k.addr 0 m.ranges) m.ranges))
unfolding request_word ready_since
ready-request_word issued cycle k m d off fresh = (
  ap (Option.map (λ r. r.1)) (ready_off cycle k m off ∙ ap (λ o. ready_since cycle k o m) fresh),
  ap (Option.map (λ r. r.1)) (ready_off cycle k (request_word issued k m) off)
      ∙ waiting issued cycle k m d fresh,
)
