-- ===== src/Cache/Address.antt =====
-- How the cache splits an address into tag, index and offset, and puts it together, cache.cc.
use native.Mathlib.Nat.{
  pow-suc, one-le-pow, add-mul-mod_self_right, div-add-mod, div-add-mod', div-lt_iff_lt-mul,
  mod-eq_of_lt, mod-lt,
}
use cube_sim.Common.{ap, arith, suc, sym, zero, ℕ, ◌%◌, ◌*◌, ◌+◌, ◌/◌, ◌<◌, ◌^◌, ◌∙◌, ◌≡◌, ◌≤◌}
use cube_sim.Common.Bits.{bit_and_low}
use cube_sim.Cache.{Cache, calc_addr, entry_at, index_of, offset_of, tag_of}

pow-add : (a b : ℕ) → 2 ^ (a + b) ≡ 2 ^ a * 2 ^ b
pow-add zero b = ap (λ (k : ℕ). 2 ^ k) e ∙ omega arith
  where
    e : 0 + b ≡ b
    e = omega arith
pow-add (suc a) b =
    ap (λ (k : ℕ). 2 ^ k) e
    ∙ pow-suc 2 (a + b)
    ∙ omega (arith, pow-add a b, ap (λ (k : ℕ). k * 2 ^ b) (pow-suc 2 a))
  where
    e : suc a + b ≡ suc (a + b)
    e = omega arith

-- The remainder by a multiple of `q` has the same remainder by `q`.
pub mod-mod_mul : (a r q : ℕ) → a % (r * q) % q ≡ a % q
mod-mod_mul a r q =
    sym (add-mul-mod_self_right (a % (r * q)) (a / (r * q) * r) q)
    ∙ ap (λ (k : ℕ). k % q) (grind (arith, div-add-mod a (r * q)))

-- The three parts as numbers.
pub offset_of_lem : (c : Cache) (addr : ℕ) → offset_of c addr ≡ addr % 2 ^ c.offset_len
unfolding offset_of
offset_of_lem c addr = bit_and_low c.offset_len addr

index_of_lem :
    (c : Cache) (addr : ℕ)
    → index_of c addr ≡ addr % 2 ^ (c.index_len + c.offset_len) / 2 ^ c.offset_len
unfolding index_of
index_of_lem c addr =
    ap (λ (k : ℕ). k / 2 ^ c.offset_len) (bit_and_low (c.index_len + c.offset_len) addr)

-- A number is put together from its parts by `r q`, by `q` and below `q`.
split_parts : (a r q : ℕ) → a / (r * q) * (r * q) + a % (r * q) / q * q + a % q ≡ a
split_parts a r q =
    omega (arith, div-add-mod' a (r * q), div-add-mod' (a % (r * q)) q, mod-mod_mul a r q)

width_eq : (c : Cache) → 2 ^ (c.offset_len + c.index_len) ≡ 2 ^ c.index_len * 2 ^ c.offset_len
width_eq c = ap (λ (k : ℕ). 2 ^ k) (omega arith) ∙ pow-add c.index_len c.offset_len

tag_part : (c : Cache) (addr : ℕ) → tag_of c addr ≡ addr / (2 ^ c.index_len * 2 ^ c.offset_len)
unfolding tag_of
tag_part c addr = ap (λ (k : ℕ). addr / k) (width_eq c)

index_part :
    (c : Cache) (addr : ℕ)
    → index_of c addr ≡ addr % (2 ^ c.index_len * 2 ^ c.offset_len) / 2 ^ c.offset_len
index_part c addr =
    index_of_lem c addr
    ∙ ap (λ (k : ℕ). addr % k / 2 ^ c.offset_len) (pow-add c.index_len c.offset_len)

-- The index is one of the `2 ^ index_len` blocks of a way, and the offset lies in a block.
pub index-offset-lt :
    (c : Cache) (addr : ℕ)
    → (index_of c addr < 2 ^ c.index_len) × (offset_of c addr < 2 ^ c.offset_len)
index-offset-lt c addr =
    let pq : 1 ≤ 2 ^ c.offset_len = one-le-pow c.offset_len 2 (omega arith) in
    let pr : 1 ≤ 2 ^ c.index_len = one-le-pow c.index_len 2 (omega arith) in
    (
      rw (index_part c addr) ((div-lt_iff_lt-mul pq).1 (mod-lt addr (grind arith))),
      rw (offset_of_lem c addr) (mod-lt addr pq),
    )

parts_of :
    (c : Cache) (addr : ℕ)
    → tag_of c addr * 2 ^ (c.offset_len + c.index_len)
        + index_of c addr * 2 ^ c.offset_len
        + offset_of c addr
      ≡ addr
parts_of c addr =
    rw (tag_part c addr, index_part c addr, offset_of_lem c addr, width_eq c)
      (split_parts addr (2 ^ c.index_len) (2 ^ c.offset_len))

-- `calc_addr` undoes `addr_separete`: the address of a block that holds the tag of a 32-bit address
-- at its index is that address less the offset in the block.
pub calc_addr_lem :
    (c : Cache) (way addr : ℕ)
    → addr < 2 ^ 32
    → (entry_at c.blocks way (index_of c addr)).tag ≡ tag_of c addr
    → calc_addr c way (index_of c addr) + offset_of c addr ≡ addr
unfolding calc_addr
calc_addr_lem c way addr h e =
    let p = parts_of c addr in
    let t : tag_of c addr * 2 ^ (c.offset_len + c.index_len) < 2 ^ 32 = omega arith in
    let i : index_of c addr * 2 ^ c.offset_len < 2 ^ 32 = omega arith in
    rw
      (
        e,
        mod-eq_of_lt t,
        mod-eq_of_lt i,
        mod-eq_of_lt
            {n = tag_of c addr * 2 ^ (c.offset_len + c.index_len)
              + index_of c addr * 2 ^ c.offset_len}
            {m = 2 ^ 32} (omega arith),
      )
      p

-- Two addresses with the same tag, index and offset are one address.
pub parts_injective :
    (c : Cache) (a b : ℕ)
    → tag_of c a ≡ tag_of c b
    → index_of c a ≡ index_of c b
    → offset_of c a ≡ offset_of c b
    → a ≡ b
parts_injective c a b t i o = sym (parts_of c a) ∙ rw (t, i, o) (parts_of c b)
