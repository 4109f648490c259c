-- ===== src/Cache/Words.antt =====
-- The accesses of the processor to words that are in the cache, cache.cc.
use cube_sim.Common.{
  [], ap, arith, get_or, get_or-set_self, length, none, refl, some, true, ℕ, ◌%◌, ◌*◌, ◌+◌, ◌<◌,
  ◌^◌, ◌∙◌, ◌≡◌, ◌≢◌,
}
use cube_sim.Common.Bits.{shr}
use cube_sim.Cache.{
  Cache, Entry, access, access_way, cache_hit, entry_at, fetch_word, index_of, matches, offset_of,
  set_entry, store_word, tag_of, word_at, write_with,
}
use cube_sim.Cache.Address.{index-offset-lt, mod-mod_mul, offset_of_lem, parts_injective}
use cube_sim.Cache.Write.{entry_at-set_self, find_way-set}

-- The arrays have the sizes that the constructor gives them.
pub record IsShaped (c : Cache) : Type 0 where
  pub rows : (w : ℕ) → w < length c.blocks → length (get_or c.blocks w []) ≡ 2 ^ c.index_len
  pub blocks_full :
      (w i : ℕ)
      → w < length c.blocks
      → i < 2 ^ c.index_len
      → length (entry_at c.blocks w i).words ≡ c.word_size
  pub block_bytes : 4 * c.word_size ≡ 2 ^ c.offset_len

-- The word of the block that an address means is in the block.
word_index-lt : (c : Cache) (addr : ℕ) → IsShaped c → shr (offset_of c addr) 2 < c.word_size
word_index-lt c addr s = omega (arith, index-offset-lt c addr, s.block_bytes)

-- The entry after a store.
abbrev pub stored : ℕ → ℕ → ℕ → Cache → ℕ → Entry
stored cycle addr value c w =
    (write_with cycle (offset_of c addr) (λ x. value) (entry_at c.blocks w (index_of c addr))).0

pub store_word_hit :
    (cycle addr value : ℕ) (c : Cache) {w : ℕ}
    → addr % 4 ≡ 0
    → cache_hit c addr ≡ some w
    → (store_word cycle addr value c).0 ≡ record c {
      hit_counts = c.hit_counts + 1;
      blocks = set_entry c.blocks w (index_of c addr) (stored cycle addr value c w);
    }
unfolding store_word access access_way
store_word_hit cycle addr value c a h = rw (a, h)

pub fetch_word_hit :
    (cycle addr : ℕ) (c : Cache) {w : ℕ}
    → addr % 4 ≡ 0
    → cache_hit c addr ≡ some w
    → (fetch_word cycle addr c).1
      ≡ word_at (offset_of c addr) (entry_at c.blocks w (index_of c addr))
unfolding fetch_word access access_way
fetch_word_hit cycle addr c a h = rw (a, h)

pub fetch_word_miss :
    (cycle addr : ℕ) (c : Cache)
    → addr % 4 ≡ 0
    → cache_hit c addr ≡ none
    → (fetch_word cycle addr c).1 ≡ 0xffffffff
unfolding fetch_word access access_way
fetch_word_miss cycle addr c a h = rw (a, h)

-- The cache after a store that hits.
abbrev pub after : ℕ → ℕ → ℕ → Cache → ℕ → Cache
after cycle addr value c w = record c {
  hit_counts = c.hit_counts + 1;
  blocks = set_entry c.blocks w (index_of c addr) (stored cycle addr value c w);
}

-- A store leaves every address's hit as it was.
pub cache_hit-after :
    (cycle addr value : ℕ) (c : Cache) (b w : ℕ)
    → cache_hit (after cycle addr value c w) b ≡ cache_hit c b
unfolding cache_hit tag_of index_of
cache_hit-after cycle addr value c b w =
    find_way-set (tag_of c b) (index_of c b) 0 w (index_of c addr) (stored cycle addr value c w)
      c.blocks refl refl

-- An aligned address has an aligned offset.
offset_aligned : (c : Cache) (addr : ℕ) → IsShaped c → addr % 4 ≡ 0 → offset_of c addr % 4 ≡ 0
offset_aligned c addr s a =
    ap (λ (k : ℕ). k % 4) (offset_of_lem c addr ∙ ap (λ (k : ℕ). addr % k) width)
    ∙ mod-mod_mul addr c.word_size 4
    ∙ a
  where
    width : 2 ^ c.offset_len ≡ c.word_size * 4
    width = omega (arith, s.block_bytes)

pub word_after_same :
    (cycle addr value : ℕ) (c : Cache) (w : ℕ)
    → IsShaped c
    → w < length c.blocks
    → word_at (offset_of c addr) (entry_at (after cycle addr value c w).blocks w (index_of c addr))
      ≡ value
word_after_same cycle addr value c w s lt =
    ap (word_at (offset_of c addr)) (
      entry_at-set_self c.blocks w (index_of c addr) (stored cycle addr value c w) lt
        (omega (arith, s.rows w lt, index-offset-lt c addr)))
    ∙ get_or-set_self (entry_at c.blocks w (index_of c addr)).words (shr (offset_of c addr) 2) value
        0
        (omega (
          arith,
          s.blocks_full w (index_of c addr) lt (index-offset-lt c addr).0,
          word_index-lt c addr s,
        ))

-- Two aligned addresses that hit one entry and differ mean different words of it.
pub words_differ :
    (c : Cache) (a b w : ℕ)
    → IsShaped c
    → a % 4 ≡ 0
    → b % 4 ≡ 0
    → matches (tag_of c a) (entry_at c.blocks w (index_of c a)) ≡ true
    → matches (tag_of c b) (entry_at c.blocks w (index_of c b)) ≡ true
    → index_of c a ≡ index_of c b
    → a ≢ b
    → shr (offset_of c a) 2 ≢ shr (offset_of c b) 2
unfolding matches
words_differ c a b w s al bl ma mb i ne same =
    let t : tag_of c a ≡ tag_of c b = ground (arith, ap (λ k. (entry_at c.blocks w k).tag) i) in
    let o : offset_of c a ≡ offset_of c b =
      omega (arith, offset_aligned c a s al, offset_aligned c b s bl) in
    ne (parts_injective c a b t i o)
