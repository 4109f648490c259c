-- ===== src/Cache/Hit.antt =====
-- What a hit of the cache means, cache.cc, and which writes leave the hits as they are.
use cube_sim.Common.{
  Bool-cases, List, Option-cases, [], arith, false, get_or, inl, inr, length, none, some, suc, true,
  zero, ℕ, ◌+◌, ◌<◌, ◌↔◌, ◌∷◌, ◌≡◌,
}
use cube_sim.Cache.{
  Cache, Entry, cache_hit, entry_at, find_way, index_of, matches, no_entry, tag_of,
}

-- The way that `find_way` finds, from way `k` on: it matches, and no way before it does.
record Found (tag index k : ℕ) (bs : List (List Entry)) (w : ℕ) : Type 0 where
  place : ℕ
  at_place : w ≡ k + place
  in_ways : place < length bs
  match : matches tag (entry_at bs place index) ≡ true
  first : (j : ℕ) → j < place → matches tag (entry_at bs j index) ≡ false

find_way-Found :
    (tag index k : ℕ) (bs : List (List Entry)) {w : ℕ}
    → find_way tag index k bs ≡ some w
    → Found tag index k bs w
unfolding find_way
find_way-Found tag index k [] h = cc
find_way-Found tag index k (b ∷ bs) {w} h =
    elim (Bool-cases (matches tag (get_or b index no_entry))) [
      | inl e ↦ record {
        place = 0;
        at_place = ground arith;
        in_ways = omega arith;
        match = e;
        first = λ j lt. absurd (omega arith);
      }
      | inr e ↦ later b bs e (find_way-Found tag index (k + 1) bs (rw e at h))
    ]
  where
    later :
        (b : List Entry) (bs : List (List Entry))
        → matches tag (get_or b index no_entry) ≡ false
        → Found tag index (k + 1) bs w
        → Found tag index k (b ∷ bs) w
    later b bs e f = record {
      place = suc f.place;
      at_place = omega (arith, f.at_place);
      in_ways = omega (arith, f.in_ways);
      match = f.match;
      first = λ j lt. before j lt;
    }
      where
        before : (j : ℕ) → j < suc f.place → matches tag (entry_at (b ∷ bs) j index) ≡ false
        before zero lt = e
        before (suc j) lt = f.first j (omega arith)

find_way-none :
    (tag index k : ℕ) (bs : List (List Entry)) (j : ℕ)
    → find_way tag index k bs ≡ none
    → matches tag (entry_at bs j index) ≡ false
unfolding find_way
find_way-none tag index k [] j h = unfold matches in ground arith
find_way-none tag index k (b ∷ bs) zero h =
    elim (Bool-cases (matches tag (get_or b index no_entry))) [ inl e ↦ ground arith | inr e ↦ e ]
find_way-none tag index k (b ∷ bs) (suc j) h =
    elim (Bool-cases (matches tag (get_or b index no_entry))) [
      | inl e ↦ ground arith
      | inr e ↦ find_way-none tag index (k + 1) bs j (rw e at h)
    ]

-- A hit names the first way whose entry at the address's index is valid and has its tag.
pub cache_hit-some :
    (c : Cache) (addr : ℕ) {w : ℕ}
    → cache_hit c addr ≡ some w
    → (w < length c.blocks)
      × (matches (tag_of c addr) (entry_at c.blocks w (index_of c addr)) ≡ true)
      × ((j : ℕ) → j < w → matches (tag_of c addr) (entry_at c.blocks j (index_of c addr)) ≡ false)
unfolding cache_hit
cache_hit-some c addr {w} h =
    let f = find_way-Found (tag_of c addr) (index_of c addr) 0 c.blocks h in
    let e : f.place ≡ w = omega (arith, f.at_place) in
    (omega (arith, f.in_ways), rw (← e) f.match, λ j lt. f.first j (omega arith))

-- A miss means exactly that no way has a valid entry with the address's tag at its index.
pub cache_hit-none :
    (c : Cache) (addr : ℕ)
    → (cache_hit c addr ≡ none)
      ↔ ((w : ℕ) → matches (tag_of c addr) (entry_at c.blocks w (index_of c addr)) ≡ false)
unfolding cache_hit
cache_hit-none c addr = (
  λ h w. find_way-none (tag_of c addr) (index_of c addr) 0 c.blocks w h,
  λ all. elim (Option-cases (find_way (tag_of c addr) (index_of c addr) 0 c.blocks)) [
    | inl e ↦ e
    | inr (w, e) ↦
        let f = find_way-Found (tag_of c addr) (index_of c addr) 0 c.blocks e in
        cc (f.match, all f.place)
  ],
)
