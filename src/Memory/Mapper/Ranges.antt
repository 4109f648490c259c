-- ===== src/Memory/Mapper/Ranges.antt =====
-- The ranges that `add_range` accepts, mapper.cc.
use cube_sim.Common.{
  Bool-cases, List, [], ap, arith, false, get_elem?, inl, inr, length, refl, some, suc, sym, true,
  zero, ℕ, ◌++◌, ◌<◌, ◌∙◌, ◌∷◌, ◌≡◌, ◌⊎◌,
}
use cube_sim.Memory.Range.{Fits, Range, incorporates}
use cube_sim.Memory.Range.Overlap.{overlaps_iff}
use cube_sim.Memory.Mapper.{Mapper, add_range, overlaps_any}
use cube_sim.Memory.Mapper.Lookup.{Distinct, Has, Has-cons}

-- Every range of the list ends below the end of the address space and is not empty.
abbrev pub AllSound : List Range → Type 0
AllSound [] = Unit
AllSound (r ∷ rs) = Fits r × (0 < r.extent) × AllSound rs

get-AllSound :
    (rs : List Range) (i : ℕ) {r : Range}
    → AllSound rs
    → get_elem? rs i ≡ some r
    → Fits r × (0 < r.extent)
get-AllSound [] i a h = cc
get-AllSound (s ∷ rs) zero {r} a h = let e : s ≡ r = cc in rw (← e) (a.0, a.1)
get-AllSound (s ∷ rs) (suc i) a h = get-AllSound rs i a.2 h

overlaps_none :
    (r : Range) (rs : List Range) (i p : ℕ)
    → overlaps_any r rs ≡ false
    → Fits r
    → 0 < r.extent
    → AllSound rs
    → incorporates r p ≡ true
    → ¬ (Has rs i p)
unfolding overlaps_any
overlaps_none r [] i p h f x a e w = cc (w.is_there)
overlaps_none r (s ∷ rs) zero p h f x a e w =
    let same : s ≡ w.range = cc (w.is_there) in
    let both = (overlaps_iff r s f a.0 x a.1).1 (p, e, rw same w.has) in ground arith
overlaps_none r (s ∷ rs) (suc i) p h f x a e w =
    overlaps_none r rs i p (ground arith) f x a.2 e
      (record { range = w.range; is_there = w.is_there; has = w.has })

Has-append :
    (rs : List Range) (r : Range) (i p : ℕ)
    → Has (rs ++ r ∷ []) i p
    → Has rs i p ⊎ ((i ≡ length rs) × (incorporates r p ≡ true))
Has-append [] r zero p w = let e : r ≡ w.range = cc (w.is_there) in inr (refl, rw e w.has)
Has-append [] r (suc i) p w = cc (w.is_there)
Has-append (s ∷ rs) r zero p w =
    inl (record { range = w.range; is_there = w.is_there; has = w.has })
Has-append (s ∷ rs) r (suc i) p w =
    elim (Has-append rs r i p (record { range = w.range; is_there = w.is_there; has = w.has })) [
      | inl v ↦ inl (Has-cons s rs i p v)
      | inr q ↦ inr (ap suc q.0, q.1)
    ]

append-Distinct :
    (r : Range) (rs : List Range)
    → Fits r
    → 0 < r.extent
    → AllSound rs
    → overlaps_any r rs ≡ false
    → Distinct rs
    → Distinct (rs ++ r ∷ [])
append-Distinct r rs f x a e d p i j u v = elim (Has-append rs r i p u) [
  | inl u' ↦ elim (Has-append rs r j p v) [
    | inl v' ↦ d p i j u' v'
    | inr w ↦ absurd (overlaps_none r rs i p e f x a w.1 u')
  ]
  | inr w ↦ elim (Has-append rs r j p v) [
    | inl v' ↦ absurd (overlaps_none r rs j p e f x a w.1 v')
    | inr w' ↦ w.0 ∙ sym w'.0
  ]
]

-- `add_range` keeps the ranges apart: where the new range and the ranges of the mapper are not
-- empty and end below the end of the address space, if no address belonged to two ranges, then
-- none does after it, whether or not the new range was accepted.
pub add_range-Distinct :
    (r : Range) (m : Mapper)
    → Fits r
    → 0 < r.extent
    → AllSound m.ranges
    → Distinct m.ranges
    → Distinct (add_range r m).0.ranges
unfolding add_range
add_range-Distinct r m f x a d = elim (Bool-cases (overlaps_any r m.ranges)) [
  | inl e ↦ rw e d
  | inr e ↦ rw e (append-Distinct r m.ranges f x a e d)
]
