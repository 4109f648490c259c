-- ===== src/Cache/LoadStore.antt =====
-- The cache as a memory of words, cache.cc: what the processor stores is what it fetches.
use cube_sim.Common.{
  Option-cases, ap, arith, get_or-set_ne, inl, inr, some, sym, ℕ, ℕ_discrete, ◌%◌, ◌∙◌, ◌≡◌, ◌≢◌,
}
use cube_sim.Common.Bits.{shr}
use cube_sim.Cache.{
  Cache, Entry, cache_hit, entry_at, fetch_word, index_of, offset_of, store_word, word_at,
}
use cube_sim.Cache.Address.{index-offset-lt}
use cube_sim.Cache.Hit.{cache_hit-some}
use cube_sim.Cache.Write.{entry_at-set_ne, entry_at-set_self}
use cube_sim.Cache.Words.{
  IsShaped, after, cache_hit-after, fetch_word_hit, fetch_word_miss, store_word_hit, stored,
  word_after_same, words_differ,
}

word_after_other :
    (cycle a b value : ℕ) (c : Cache) (w v : ℕ)
    → IsShaped c
    → a % 4 ≡ 0
    → b % 4 ≡ 0
    → cache_hit c a ≡ some w
    → cache_hit c b ≡ some v
    → a ≢ b
    → word_at (offset_of c b) (entry_at (after cycle a value c w).blocks v (index_of c b))
      ≡ word_at (offset_of c b) (entry_at c.blocks v (index_of c b))
word_after_other cycle a b value c w v s al bl ha hb ne = elim (ℕ_discrete w v) [
  | no nw ↦
      ap (word_at (offset_of c b))
        (entry_at-set_ne c.blocks w (index_of c a) v (index_of c b) e (inl nw))
  | yes sw ↦ elim (ℕ_discrete (index_of c a) (index_of c b)) [
    | no ni ↦
        ap (word_at (offset_of c b))
          (entry_at-set_ne c.blocks w (index_of c a) v (index_of c b) e (inr ni))
    | yes si ↦
        let ma = cache_hit-some c a ha in
        let mb = cache_hit-some c b hb in
        let d = words_differ c a b w s al bl ma.1 (rw sw mb.1) si ne in
        rw (← sw, ← si)
          (ap (word_at (offset_of c b)) (
              entry_at-set_self c.blocks w (index_of c a) e ma.0
                (omega (arith, s.rows w ma.0, index-offset-lt c a)))
            ∙ get_or-set_ne (entry_at c.blocks w (index_of c a)).words (shr (offset_of c a) 2)
                (shr (offset_of c b) 2) value 0 d)
  ]
]
  where
    e : Entry
    e = stored cycle a value c w

-- The fetch after a store, by what `b` hits.
fetch_after :
    (cycle a b value : ℕ) (cycle' : ℕ) (c : Cache) (w : ℕ)
    → IsShaped c
    → a % 4 ≡ 0
    → b % 4 ≡ 0
    → cache_hit c a ≡ some w
    → a ≢ b
    → (fetch_word cycle' b (after cycle a value c w)).1 ≡ (fetch_word cycle' b c).1
fetch_after cycle a b value cycle' c w s al bl ha ne = elim (Option-cases (cache_hit c b)) [
  | inl miss ↦
      fetch_word_miss cycle' b (after cycle a value c w) bl
        (cache_hit-after cycle a value c b w ∙ miss)
      ∙ sym (fetch_word_miss cycle' b c bl miss)
  | inr (v, hb) ↦
      fetch_word_hit cycle' b (after cycle a value c w) bl
        (cache_hit-after cycle a value c b w ∙ hb)
      ∙ unfold offset_of index_of in
        word_after_other cycle a b value c w v s al bl ha hb ne
        ∙ sym (fetch_word_hit cycle' b c bl hb)
]

-- In a cache whose arrays have the sizes that the constructor gives them, after a store to an
-- aligned address that hits, a fetch from that address returns the value, and a fetch from any
-- other aligned address returns what it returned before, whether it hits or misses.
pub fetch_word-store_word :
    (cycle cycle' a b value : ℕ) (c : Cache) {w : ℕ}
    → IsShaped c
    → a % 4 ≡ 0
    → b % 4 ≡ 0
    → cache_hit c a ≡ some w
    → let c' = (store_word cycle a value c).0 in
      ((fetch_word cycle' a c').1 ≡ value)
      × (a ≢ b → (fetch_word cycle' b c').1 ≡ (fetch_word cycle' b c).1)
fetch_word-store_word cycle cycle' a b value c {w} s al bl ha =
    let e = store_word_hit cycle a value c al ha in
    (
      ap (λ (d : Cache). (fetch_word cycle' a d).1) e
          ∙ fetch_word_hit cycle' a (after cycle a value c w) al
              (cache_hit-after cycle a value c a w ∙ ha)
          ∙ unfold offset_of index_of in
            word_after_same cycle a value c w s (cache_hit-some c a ha).0,
      λ ne.
          ap (λ (d : Cache). (fetch_word cycle' b d).1) e
          ∙ fetch_after cycle a b value cycle' c w s al bl ha ne,
    )
