-- ===== src/Memory/Mapper/Lookup.antt =====
-- `find_mapping_range` with its remembered range against the plain search, mapper.cc.
use cube_sim.Common.{
  Bool-cases, List, Option, Option-cases, [], ap, arith, get_elem?, inl, inr, none, refl, some, suc,
  sym, true, zero, ℕ, ◌+◌, ◌↔◌, ◌∙◌, ◌∷◌, ◌≡◌,
}
use cube_sim.Memory.Range.{Range, incorporates}
use cube_sim.Memory.Mapper.{Mapper, after_last, find_from, find_mapping_range, note_found, try_last}

-- Range `i` of the list has the address.
pub record Has (rs : List Range) (i p : ℕ) : Type 0 where
  pub range : Range
  pub is_there : get_elem? rs i ≡ some range
  pub has : incorporates range p ≡ true

-- No address belongs to two ranges.
abbrev pub Distinct : List Range → Type 0
Distinct rs = (p i j : ℕ) → Has rs i p → Has rs j p → i ≡ j

pub Has-cons : (r : Range) (rs : List Range) (i p : ℕ) → Has rs i p → Has (r ∷ rs) (suc i) p
Has-cons r rs i p h = record { range = h.range; is_there = h.is_there; has = h.has }

-- The plain search, from an index on, finds the first range that has the address.
find_from_sound :
    (p k : ℕ) (rs : List Range) {j : ℕ}
    → find_from p k rs ≡ some j
    → (i : ℕ) × (j ≡ k + i) × Has rs i p
unfolding find_from
find_from_sound p k [] h = cc
find_from_sound p k (r ∷ rs) {j} h = elim (Bool-cases (incorporates r p)) [
  | inl e ↦ (0, ground arith, record { range = r; is_there = refl; has = e })
  | inr e ↦
      let (i, q, w) = find_from_sound p (k + 1) rs {j = j} (rw e at h) in
      (suc i, omega arith, Has-cons r rs i p w)
]

find_from_complete : (p k : ℕ) (rs : List Range) (i : ℕ) → find_from p k rs ≡ none → ¬ (Has rs i p)
unfolding find_from
find_from_complete p k [] i h w = cc (w.is_there)
find_from_complete p k (r ∷ rs) zero h w =
    let e : r ≡ w.range = cc (w.is_there) in ground (arith, rw (← e) at w.has)
find_from_complete p k (r ∷ rs) (suc i) h w = elim (Bool-cases (incorporates r p)) [
  | inl e ↦ ground arith
  | inr e ↦
      find_from_complete p (k + 1) rs i (rw e at h)
        (record { range = w.range; is_there = w.is_there; has = w.has })
]

-- A range that is remembered and has the address.
try_last_sound :
    (last : Option ℕ) (rs : List Range) (p : ℕ) {i : ℕ} → try_last last rs p ≡ some i → Has rs i p
unfolding try_last
try_last_sound none rs p h = cc
try_last_sound (some k) rs p {i} h = elim (Option-cases (get_elem? rs k)) [
  | inl e ↦ ground arith
  | inr (r, e) ↦ elim (Bool-cases (incorporates r p)) [
    | inr b ↦ ground arith
    | inl b ↦
        let same : k ≡ i = ground arith in record { range = r; is_there = rw (← same) e; has = b }
  ]
]

note_found_result : (o : Option ℕ) (m : Mapper) → (note_found o m).1 ≡ o
unfolding note_found
note_found_result none m = refl
note_found_result (some i) m = refl

note_found_ranges : (o : Option ℕ) (m : Mapper) → (note_found o m).0.ranges ≡ m.ranges
unfolding note_found
note_found_ranges none m = refl
note_found_ranges (some i) m = refl

note_found_latency : (o : Option ℕ) (m : Mapper) → (note_found o m).0.bus_latency ≡ m.bus_latency
unfolding note_found
note_found_latency none m = refl
note_found_latency (some i) m = refl

after_last_latency :
    (o : Option ℕ) (p : ℕ) (m : Mapper) → (after_last o p m).0.bus_latency ≡ m.bus_latency
unfolding after_last
after_last_latency none p m = note_found_latency (find_from p 0 m.ranges) m
after_last_latency (some i) p m = refl

pub find_mapping_range_latency :
    (p : ℕ) (m : Mapper) → (find_mapping_range p m).0.bus_latency ≡ m.bus_latency
unfolding find_mapping_range
find_mapping_range_latency p m = after_last_latency (try_last m.last_used m.ranges p) p m

after_last-eq :
    (o : Option ℕ) (p : ℕ) (m : Mapper)
    → Distinct m.ranges
    → try_last m.last_used m.ranges p ≡ o
    → ((after_last o p m).1 ≡ find_from p 0 m.ranges) × ((after_last o p m).0.ranges ≡ m.ranges)
unfolding after_last
after_last-eq none p m d e =
    (note_found_result (find_from p 0 m.ranges) m, note_found_ranges (find_from p 0 m.ranges) m)
after_last-eq (some i) p m d e = (
  elim (Option-cases (find_from p 0 m.ranges)) [
    | inl f ↦ absurd (find_from_complete p 0 m.ranges i f (try_last_sound m.last_used m.ranges p e))
    | inr (j, f) ↦
        let (k, q, w) = find_from_sound p 0 m.ranges f in
        let same : i ≡ j = d p i k (try_last_sound m.last_used m.ranges p e) w ∙ omega arith in
        ap some same ∙ sym f
  ],
  refl,
)

-- The remembered range makes no difference: where no address belongs to two ranges,
-- `find_mapping_range` returns what the plain search of the list returns, whatever it remembers, and
-- leaves the ranges as they are.
pub find_mapping_range-eq :
    (p : ℕ) (m : Mapper)
    → Distinct m.ranges
    → ((find_mapping_range p m).1 ≡ find_from p 0 m.ranges)
      × ((find_mapping_range p m).0.ranges ≡ m.ranges)
unfolding find_mapping_range
find_mapping_range-eq p m d = after_last-eq (try_last m.last_used m.ranges p) p m d refl

-- The plain search of the ranges fails exactly if no range has the address.
pub find_from_iff :
    (p : ℕ) (rs : List Range) → (find_from p 0 rs ≡ none) ↔ ((i : ℕ) → ¬ (Has rs i p))
find_from_iff p rs = (
  λ h i. find_from_complete p 0 rs i h,
  λ h. elim (Option-cases (find_from p 0 rs)) [
    | inl e ↦ e
    | inr (j, e) ↦ let (k, q, w) = find_from_sound p 0 rs e in absurd (h k w)
  ],
)
