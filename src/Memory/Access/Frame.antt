-- ===== src/Memory/Access/Frame.antt =====
-- The accesses to memory, mapper.cc, do not touch the bus arbiter.
use mathlib.Core.Option
use cube_sim.Memory.Access
use cube_sim.Common.{Bool, Option, false, if◌then◌else◌, none, refl, some, true, ℕ, ◌%◌, ◌==◌, ◌≡◌}
use cube_sim.Memory.Bus.{BusArbiter}
use cube_sim.Memory.Range.{Range}
use cube_sim.Memory.Mapper.{
  Key, Mapper, after_last, bus_error, datastore, find_from, find_mapping_range, find_request,
  latency_over, note_found, raise, range_at, ready, ready_since, try_last,
}
use cube_sim.Memory.Access.{fetch_from, fetch_ready, index_or, store_ready, store_to}

-- A property of a result, if there is one.
abbrev pub OnSome {ℓ} : {A : Type ℓ} → (A → Type 0) → Option A → Type 0
OnSome P none = Unit
OnSome P (some a) = P a

pub if-OnSome {ℓ} :
    {A : Type ℓ} (P : A → Type 0) (b : Bool) (x y : Option A)
    → OnSome P x
    → OnSome P y
    → OnSome P (if b then x else y)
if-OnSome P true x y h k = h
if-OnSome P false x y h k = k

note_found_bus : (o : Option ℕ) (m : Mapper) → (note_found o m).0.bus ≡ m.bus
unfolding note_found
note_found_bus none m = refl
note_found_bus (some i) m = refl

after_last_bus : (o : Option ℕ) (p : ℕ) (m : Mapper) → (after_last o p m).0.bus ≡ m.bus
unfolding after_last
after_last_bus none p m = note_found_bus (find_from p 0 m.ranges) m
after_last_bus (some i) p m = refl

pub find_mapping_range_bus : (p : ℕ) (m : Mapper) → (find_mapping_range p m).0.bus ≡ m.bus
unfolding find_mapping_range
find_mapping_range_bus p m = after_last_bus (try_last m.last_used m.ranges p) p m

map-OnSome :
    (m : Mapper) (b : BusArbiter) (o : Option Bool)
    → m.bus ≡ b
    → OnSome (λ (r : Mapper × Bool). r.0.bus ≡ b) (Option.map (λ ok. (m, ok)) o)
map-OnSome m b none h = tt
map-OnSome m b (some ok) h = h

ready_since_bus :
    (cycle : ℕ) (k : Key) (o : Option ℕ) (m : Mapper)
    → OnSome (λ (r : Mapper × Bool). r.0.bus ≡ m.bus) (ready_since cycle k o m)
unfolding ready_since
ready_since_bus cycle k none m = refl
ready_since_bus cycle k (some issued) m =
    let m₁ = (find_mapping_range k.addr m).0 in
    let i = (find_mapping_range k.addr m).1 in
    map-OnSome m₁ m.bus (latency_over cycle issued (range_at i m₁.ranges) m₁)
      (find_mapping_range_bus k.addr m)

pub ready_bus :
    (cycle : ℕ) (k : Key) (m : Mapper)
    → OnSome (λ (r : Mapper × Bool). r.0.bus ≡ m.bus) (ready cycle k m)
unfolding ready
ready_bus cycle k m =
    if-OnSome (λ (r : Mapper × Bool). r.0.bus ≡ m.bus) m.debug_mode _ _ refl
      (ready_since_bus cycle k (find_request k m.requests) m)

fetch_ready_bus :
    (k : Key) (i : ℕ) (r : Range) (b : BusArbiter) (o : Option (Mapper × Bool))
    → OnSome (λ (r : Mapper × Bool). r.0.bus ≡ b) o
    → OnSome (λ (r : Mapper × ℕ). r.0.bus ≡ b) (fetch_ready k i r o)
unfolding fetch_ready bus_error raise
fetch_ready_bus k i r b none h = tt
fetch_ready_bus k i r b (some (m, false)) h = h
fetch_ready_bus k i r b (some (m, true)) h = h

fetch_from_bus :
    (cycle : ℕ) (k : Key) (m : Mapper) (i : ℕ) (o : Option Range) (b : BusArbiter)
    → m.bus ≡ b
    → OnSome (λ (r : Mapper × ℕ). r.0.bus ≡ b) (fetch_from cycle k m i o)
unfolding fetch_from
fetch_from_bus cycle k m i none b h = tt
fetch_from_bus cycle k m i (some r) b h =
    if-OnSome (λ (r : Mapper × ℕ). r.0.bus ≡ b) r.readable _ _
      (fetch_ready_bus k i r b (ready cycle k m) (rw (← h) (ready_bus cycle k m))) h

pub fetch_word_bus :
    (cycle : ℕ) (k : Key) (m : Mapper)
    → OnSome (λ (r : Mapper × ℕ). r.0.bus ≡ m.bus) (Access.fetch_word cycle k m)
unfolding Access.fetch_word raise
fetch_word_bus cycle k m =
    let m₁ = (find_mapping_range k.addr m).0 in
    let i = (find_mapping_range k.addr m).1 in
    if-OnSome (λ (r : Mapper × ℕ). r.0.bus ≡ m.bus) (k.addr % 4 == 0) _ _
      (fetch_from_bus cycle k m₁ (index_or i) (range_at i m₁.ranges) m.bus
        (find_mapping_range_bus k.addr m))
      refl

store_ready_bus :
    (k : Key) (value i : ℕ) (r : Range) (b : BusArbiter) (o : Option (Mapper × Bool))
    → OnSome (λ (r : Mapper × Bool). r.0.bus ≡ b) o
    → OnSome (λ (m : Mapper). m.bus ≡ b) (store_ready k value i r o)
unfolding store_ready bus_error raise
store_ready_bus k value i r b none h = tt
store_ready_bus k value i r b (some (m, false)) h = h
store_ready_bus k value i r b (some (m, true)) h = h

store_to_bus :
    (cycle : ℕ) (k : Key) (value : ℕ) (m : Mapper) (i : ℕ) (o : Option Range) (b : BusArbiter)
    → m.bus ≡ b
    → OnSome (λ (m : Mapper). m.bus ≡ b) (store_to cycle k value m i o)
unfolding store_to
store_to_bus cycle k value m i none b h = tt
store_to_bus cycle k value m i (some r) b h =
    if-OnSome (λ (m : Mapper). m.bus ≡ b) r.writable _ _
      (store_ready_bus k value i r b (ready cycle k m) (rw (← h) (ready_bus cycle k m))) h

pub store_word_bus :
    (cycle addr value client : ℕ) (m : Mapper)
    → OnSome (λ (m' : Mapper). m'.bus ≡ m.bus) (Access.store_word cycle addr value client m)
unfolding Access.store_word raise
store_word_bus cycle addr value client m =
    let k : Key = record { addr = addr; mode = datastore; client = client } in
    let m₁ = (find_mapping_range addr m).0 in
    let i = (find_mapping_range addr m).1 in
    if-OnSome (λ (m' : Mapper). m'.bus ≡ m.bus) (addr % 4 == 0) _ _
      (store_to_bus cycle k value m₁ (index_or i) (range_at i m₁.ranges) m.bus
        (find_mapping_range_bus addr m))
      refl
