-- ===== src/Cache/Write.antt =====
-- Writing an entry of the cache, cache.cc, without changing its tag or whether it is valid.
use cube_sim.Common.{
  Bool, List, Option, [], ap, dec_lt, get_or, get_or-set_ne, get_or-set_self, if◌then◌else◌, inl,
  inr, length, refl, set, set_outside, some, suc, zero, ℕ, ℕ_discrete, ◌+◌, ◌<◌, ◌∙◌, ◌∷◌, ◌≡◌, ◌≢◌,
  ◌⊎◌,
}
use cube_sim.Cache.{Entry, entry_at, find_way, matches, no_entry, set_entry}

module _ (tag j : ℕ) where
  matches_row :
      (row : List Entry) (i : ℕ) (e : Entry)
      → e.tag ≡ (get_or row i no_entry).tag
      → e.valid ≡ (get_or row i no_entry).valid
      → matches tag (get_or (set row i e) j no_entry) ≡ matches tag (get_or row j no_entry)
  unfolding matches
  matches_row row i e t v = elim (ℕ_discrete i j) [
    | no ne ↦ ap (matches tag) (get_or-set_ne row i j e no_entry ne)
    | yes same ↦ elim (dec_lt i (length row)) [
      | yes lt ↦ rw (← same, get_or-set_self row i e no_entry lt, t, v) refl
      | no ge ↦ ap (λ (r : List Entry). matches tag (get_or r j no_entry)) (set_outside row i e ge)
    ]
  ]

  -- The ways that match are the same after the write.
  pub find_way-set :
      (k w i : ℕ) (e : Entry) (bs : List (List Entry))
      → e.tag ≡ (entry_at bs w i).tag
      → e.valid ≡ (entry_at bs w i).valid
      → find_way tag j k (set_entry bs w i e) ≡ find_way tag j k bs
  unfolding find_way
  find_way-set k w i e [] t v = refl
  find_way-set k zero i e (b ∷ bs) t v =
      ap (λ (m : Bool). if m then some k else find_way tag j (k + 1) bs) (matches_row b i e t v)
  find_way-set k (suc w) i e (b ∷ bs) t v =
      ap (λ (o : Option ℕ). if matches tag (get_or b j no_entry) then some k else o)
        (find_way-set (k + 1) w i e bs t v)

-- The entry that was written, and any other.
pub entry_at-set_self :
    (bs : List (List Entry)) (w i : ℕ) (e : Entry)
    → w < length bs
    → i < length (get_or bs w [])
    → entry_at (set_entry bs w i e) w i ≡ e
entry_at-set_self bs w i e hw hi =
    ap (λ row. get_or row i no_entry) (get_or-set_self bs w (set (get_or bs w []) i e) [] hw)
    ∙ get_or-set_self (get_or bs w []) i e no_entry hi

entry_at-other_way :
    (bs : List (List Entry)) (w i v j : ℕ) (e : Entry)
    → w ≢ v
    → entry_at (set_entry bs w i e) v j ≡ entry_at bs v j
entry_at-other_way bs w i v j e ne =
    ap (λ row. get_or row j no_entry) (get_or-set_ne bs w v (set (get_or bs w []) i e) [] ne)

entry_at-same_way :
    (bs : List (List Entry)) (w i j : ℕ) (e : Entry)
    → i ≢ j
    → entry_at (set_entry bs w i e) w j ≡ entry_at bs w j
entry_at-same_way bs w i j e ne = elim (dec_lt w (length bs)) [
  | yes lt ↦
      ap (λ row. get_or row j no_entry) (get_or-set_self bs w (set (get_or bs w []) i e) [] lt)
      ∙ get_or-set_ne (get_or bs w []) i j e no_entry ne
  | no ge ↦
      ap (λ (b : List (List Entry)). entry_at b w j)
        (set_outside bs w (set (get_or bs w []) i e) ge)
]

pub entry_at-set_ne :
    (bs : List (List Entry)) (w i v j : ℕ) (e : Entry)
    → (w ≢ v) ⊎ (i ≢ j)
    → entry_at (set_entry bs w i e) v j ≡ entry_at bs v j
entry_at-set_ne bs w i v j e (inl ne) = entry_at-other_way bs w i v j e ne
entry_at-set_ne bs w i v j e (inr ne) = elim (ℕ_discrete w v) [
  | no nw ↦ entry_at-other_way bs w i v j e nw
  | yes same ↦ rw (← same) (entry_at-same_way bs w i j e ne)
]
