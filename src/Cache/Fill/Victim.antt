-- ===== src/Cache/Fill/Victim.antt =====
-- Which block `Cache::request_block`, cache.cc, replaces.
use cube_sim.Common.{
  Bool-cases, List, [], ap, arith, dec_lt, false, get_or, if◌then◌else◌, inl, inr, length, ltb,
  refl, suc, sym, true, zero, ℕ, ◌+◌, ◌<◌, ◌∙◌, ◌∷◌, ◌≡◌, ◌≤◌, ◌⊎◌,
}
use cube_sim.Cache.{Entry, entry_at, no_entry}
use cube_sim.Cache.Fill.{find_victim, scan_ways}

-- The search stopped at a free way.
record Free (index k w : ℕ) (bs : List (List Entry)) : Type 0 where
  place : ℕ
  at_place : w ≡ k + place
  in_ways : place < length bs
  free : (entry_at bs place index).valid ≡ false
  first : (j : ℕ) → j < place → (entry_at bs j index).valid ≡ true

Free-cons :
    (index k w : ℕ) (b : List Entry) (bs : List (List Entry))
    → (get_or b index no_entry).valid ≡ true
    → Free index (k + 1) w bs
    → Free index k w (b ∷ bs)
Free-cons index k w b bs v f = record {
  place = suc f.place;
  at_place = omega (arith, f.at_place);
  in_ways = omega (arith, f.in_ways);
  free = f.free;
  first = valid_before;
}
  where
    valid_before : (j : ℕ) → j < suc f.place → (entry_at (b ∷ bs) j index).valid ≡ true
    valid_before zero lt = v
    valid_before (suc j) lt = f.first j (omega arith)

scan_ways-Free :
    (index k lru time : ℕ) (bs : List (List Entry))
    → (scan_ways index k lru time bs).0 ≡ true
    → Free index k (scan_ways index k lru time bs).1 bs
unfolding scan_ways
scan_ways-Free index k lru time [] h = cc
scan_ways-Free index k lru time (b ∷ bs) h =
    let e = get_or b index no_entry in
    let older = ltb e.last_access time in
    elim (Bool-cases e.valid) [
      | inl v ↦ rw v (
          Free-cons index k _ b bs v (
            scan_ways-Free index (k + 1) (if older then k else lru)
              (if older then e.last_access else time) bs (rw v at h)))
      | inr v ↦ rw v (record {
        place = 0;
        at_place = omega arith;
        in_ways = omega arith;
        free = v;
        first = λ j lt. absurd (omega arith);
      })
    ]

-- The search found no free way: way `w`, whose last access was at `oldest`, was used least recently
-- of the ways from `k` on and of `lru`.
record Oldest (index k lru time w : ℕ) (bs : List (List Entry)) : Type 0 where
  oldest : ℕ
  bounded : oldest ≤ time
  from :
      ((w ≡ lru) × (oldest ≡ time))
      ⊎ ((i : ℕ) × (w ≡ k + i) × (i < length bs) × (oldest ≡ (entry_at bs i index).last_access))
  least :
      (j : ℕ)
      → j < length bs
      → ((entry_at bs j index).valid ≡ true) × (oldest ≤ (entry_at bs j index).last_access)

Oldest-cons :
    (index k lru time w : ℕ) (b : List Entry) (bs : List (List Entry))
    → let e = get_or b index no_entry in
      let older = ltb e.last_access time in
      e.valid ≡ true
      → Oldest index (k + 1) (if older then k else lru) (if older then e.last_access else time) w bs
      → Oldest index k lru time w (b ∷ bs)
Oldest-cons index k lru time w b bs v o = record {
  oldest = o.oldest;
  bounded = ground (arith, o.bounded);
  from = elim o.from [
    | inl p ↦ elim (dec_lt (get_or b index no_entry).last_access time) [
      | yes lt ↦ inr (0, ground (arith, p.0), omega arith, ground (arith, p.1))
      | no ge ↦ inl (ground (arith, p.0), ground (arith, p.1))
    ]
    | inr q ↦ inr (suc q.0, omega (arith, q.1), omega (arith, q.2), q.3)
  ];
  least = bounds;
}
  where
    bounds :
        (j : ℕ)
        → j < length (b ∷ bs)
        → ((entry_at (b ∷ bs) j index).valid ≡ true)
          × (o.oldest ≤ (entry_at (b ∷ bs) j index).last_access)
    bounds zero lt = (v, ground (arith, o.bounded))
    bounds (suc j) lt = o.least j (omega arith)

scan_ways-Oldest :
    (index k lru time : ℕ) (bs : List (List Entry))
    → (scan_ways index k lru time bs).0 ≡ false
    → Oldest index k lru time (scan_ways index k lru time bs).1 bs
unfolding scan_ways
scan_ways-Oldest index k lru time [] h = record {
  oldest = time;
  bounded = omega arith;
  from = inl (refl, refl);
  least = λ j lt. absurd (omega arith);
}
scan_ways-Oldest index k lru time (b ∷ bs) h =
    let e = get_or b index no_entry in
    let older = ltb e.last_access time in
    elim (Bool-cases e.valid) [
      | inl v ↦ rw v (
          Oldest-cons index k lru time _ b bs v (
            scan_ways-Oldest index (k + 1) (if older then k else lru)
              (if older then e.last_access else time) bs (rw v at h)))
      | inr v ↦ let no_way : ¬ (true ≡ false) = λ q. cc in absurd (no_way (rw v at h))
    ]

-- If the search for a block to replace says that it found a free way, then that is the first way
-- that has no valid block at the index.
pub find_victim-free :
    (index : ℕ) (blocks : List (List Entry))
    → (find_victim index blocks).0 ≡ true
    → let w = (find_victim index blocks).1 in
      (w < length blocks)
      × ((entry_at blocks w index).valid ≡ false)
      × ((j : ℕ) → j < w → (entry_at blocks j index).valid ≡ true)
unfolding find_victim
find_victim-free index blocks h =
    let f = scan_ways-Free index 0 0 (entry_at blocks 0 index).last_access blocks h in
    let e : f.place ≡ (scan_ways index 0 0 (entry_at blocks 0 index).last_access blocks).1 =
      omega (arith, f.at_place) in
    (rw (← e) f.in_ways, rw (← e) f.free, λ j lt. f.first j (omega arith))

-- If the search for a block to replace finds no free way, then every way has a valid block at the
-- index, and none of them was accessed before the block that the search chooses.
pub find_victim-oldest :
    (index : ℕ) (blocks : List (List Entry))
    → (find_victim index blocks).0 ≡ false
    → (j : ℕ) → j < length blocks
    → ((entry_at blocks j index).valid ≡ true)
      × ((entry_at blocks (find_victim index blocks).1 index).last_access
          ≤ (entry_at blocks j index).last_access)
unfolding find_victim
find_victim-oldest index blocks h j lt =
    let o = scan_ways-Oldest index 0 0 (entry_at blocks 0 index).last_access blocks h in
    let w = (scan_ways index 0 0 (entry_at blocks 0 index).last_access blocks).1 in
    let e : (entry_at blocks w index).last_access ≡ o.oldest = elim o.from [
      | inl p ↦ ap (λ (i : ℕ). (entry_at blocks i index).last_access) p.0 ∙ sym p.1
      | inr q ↦
          ap (λ (i : ℕ). (entry_at blocks i index).last_access)
            (let z : w ≡ q.0 = omega (arith, q.1) in z)
          ∙ sym q.3
    ] in
    ((o.least j lt).0, omega (arith, e, (o.least j lt).1))
