-- ===== src/Memory/Range/Bytes.antt =====
-- The bytes of a range of memory, range.cc.
use cube_sim.Common.{
  ap, arith, get_or, get_or-set_ne, get_or-set_self, if◌then◌else◌, length, set, suc, sym, zero, ℕ,
  ℕ_discrete, ◌%◌, ◌/◌, ◌<◌, ◌==◌, ◌^◌, ◌∙◌, ◌≡◌, ◌≢◌,
}
use cube_sim.Common.Bits.{byte_of, with_byte}
use cube_sim.Memory.Range.{Range, fetch_byte, store_byte, word_of}

four : (P : ℕ → Type 0) → P 0 → P 1 → P 2 → P 3 → (n : ℕ) → n < 4 → P n
four P a b c d zero h = a
four P a b c d (suc zero) h = b
four P a b c d (suc (suc zero)) h = c
four P a b c d (suc (suc (suc zero))) h = d
four P a b c d (suc (suc (suc (suc n)))) h = absurd (omega arith)

byte_of-with_byte :
    (v w n : ℕ)
    → n < 4
    → (m : ℕ) → m < 4
    → byte_of m (with_byte n v w) ≡ (if m == n then v % 2 ^ 8 else byte_of m w)
unfolding byte_of with_byte
byte_of-with_byte v w =
    four
      (λ n.
        (m : ℕ) → m < 4 → byte_of m (with_byte n v w) ≡ (if m == n then v % 2 ^ 8 else byte_of m w))
      (four (λ m. byte_of m (with_byte 0 v w) ≡ (if m == 0 then v % 2 ^ 8 else byte_of m w))
        (omega arith) (omega arith) (omega arith) (omega arith))
      (four (λ m. byte_of m (with_byte 1 v w) ≡ (if m == 1 then v % 2 ^ 8 else byte_of m w))
        (omega arith) (omega arith) (omega arith) (omega arith))
      (four (λ m. byte_of m (with_byte 2 v w) ≡ (if m == 2 then v % 2 ^ 8 else byte_of m w))
        (omega arith) (omega arith) (omega arith) (omega arith))
      (four (λ m. byte_of m (with_byte 3 v w) ≡ (if m == 3 then v % 2 ^ 8 else byte_of m w))
        (omega arith) (omega arith) (omega arith) (omega arith))

-- The same word and the same byte of it is the same offset.
same_byte :
    (o p x y z : ℕ)
    → o / 4 ≡ p / 4
    → y ≡ z
    → (if p % 4 == o % 4 then x else y) ≡ (if p == o then x else z)
same_byte o p x y z e h = ground arith

other_byte : (o p x z : ℕ) → o / 4 ≢ p / 4 → z ≡ (if p == o then x else z)
other_byte o p x z e = elim (ℕ_discrete p o) [
  | yes same ↦ absurd (e (ap (λ (k : ℕ). k / 4) (sym same)))
  | no other ↦ ground arith
]

-- After the store of a byte inside the array of a range, a fetch from the same offset returns the low
-- eight bits of what was stored, and a fetch from every other offset what it returned before.
pub fetch_byte-store_byte :
    (r : Range) (o p v : ℕ)
    → o / 4 < length r.words
    → (fetch_byte p (store_byte o v r)).1 ≡ (if p == o then v % 2 ^ 8 else (fetch_byte p r).1)
unfolding fetch_byte store_byte
fetch_byte-store_byte r o p v h = elim (ℕ_discrete (o / 4) (p / 4)) [
  | yes e ↦
      let w = with_byte (o % 4) v (word_of o r) in
      let there : word_of p (store_byte o v r) ≡ w =
        ap (λ (k : ℕ). get_or (set r.words (o / 4) w) k 0) (sym e)
        ∙ get_or-set_self r.words (o / 4) w 0 h in
      let before : word_of o r ≡ word_of p r = ap (λ (k : ℕ). get_or r.words k 0) e in
      ap (byte_of (p % 4)) there
      ∙ byte_of-with_byte v (word_of o r) (o % 4) (omega arith) (p % 4) (omega arith)
      ∙ same_byte o p (v % 2 ^ 8) (byte_of (p % 4) (word_of o r)) (byte_of (p % 4) (word_of p r)) e
          (ap (byte_of (p % 4)) before)
  | no ne ↦
      ap (byte_of (p % 4))
        (get_or-set_ne r.words (o / 4) (p / 4) (with_byte (o % 4) v (word_of o r)) 0 ne)
      ∙ other_byte o p (v % 2 ^ 8) (byte_of (p % 4) (word_of p r)) ne
]
