-- ===== src/Memory/Access/Words.antt =====
-- The byte order of words, mapper.cc.
use cube_sim.Common.{
  Bool, ap, arith, bit_and, bit_or, false, refl, true, ℕ, ◌%◌, ◌*◌, ◌+◌, ◌/◌, ◌<◌, ◌^◌, ◌∙◌, ◌≡◌,
}
use cube_sim.Common.Bits.{bit_and_low, bit_or_above, shl32}
use cube_sim.Memory.Access.{swap_if, swap_word}

low_byte : (x : ℕ) → bit_and x 0xff ≡ x % 256
low_byte x = bit_and_low 8 x

-- Four bytes that are shifted to their places and joined.
join_bytes :
    (a b c d : ℕ)
    → a < 256
    → b < 256
    → c < 256
    → d < 256
    → bit_or (bit_or (bit_or (shl32 a 24) (shl32 b 16)) (shl32 c 8)) d
      ≡ a * 2 ^ 24 + b * 2 ^ 16 + c * 2 ^ 8 + d
join_bytes a b c d ha hb hc hd =
    let pa : shl32 a 24 ≡ a * 2 ^ 24 = omega arith in
    let pb : shl32 b 16 ≡ b * 2 ^ 16 = omega arith in
    let pc : shl32 c 8 ≡ c * 2 ^ 8 = omega arith in
    ap (λ x. bit_or (bit_or (bit_or x (shl32 b 16)) (shl32 c 8)) d) pa
    ∙ ap (λ x. bit_or (bit_or (bit_or (a * 2 ^ 24) x) (shl32 c 8)) d) pb
    ∙ ap (λ x. bit_or (bit_or x (shl32 c 8)) d)
        (bit_or_above 24 a (b * 2 ^ 16) (omega arith) ∙ regroup₁)
    ∙ ap (λ x. bit_or (bit_or ((a * 256 + b) * 2 ^ 16) x) d) pc
    ∙ ap (λ x. bit_or x d) (bit_or_above 16 (a * 256 + b) (c * 2 ^ 8) (omega arith) ∙ regroup₂)
    ∙ bit_or_above 8 (a * 2 ^ 16 + b * 256 + c) d hd
    ∙ regroup₃
  where
    regroup₁ : a * 2 ^ 24 + b * 2 ^ 16 ≡ (a * 256 + b) * 2 ^ 16
    regroup₁ = omega arith

    regroup₂ : (a * 256 + b) * 2 ^ 16 + c * 2 ^ 8 ≡ (a * 2 ^ 16 + b * 256 + c) * 2 ^ 8
    regroup₂ = omega arith

    regroup₃ : (a * 2 ^ 16 + b * 256 + c) * 2 ^ 8 + d ≡ a * 2 ^ 24 + b * 2 ^ 16 + c * 2 ^ 8 + d
    regroup₃ = omega arith

-- The swapped word as a number with four digits.
swap_word_lem :
    (w : ℕ)
    → swap_word w
      ≡ w % 256 * 2 ^ 24 + w / 256 % 256 * 2 ^ 16 + w / 2 ^ 16 % 256 * 2 ^ 8 + w / 2 ^ 24 % 256
unfolding swap_word
swap_word_lem w =
    rw (low_byte w, low_byte (w / 2 ^ 8), low_byte (w / 2 ^ 16), low_byte (w / 2 ^ 24))
      (join_bytes (w % 256) (w / 256 % 256) (w / 2 ^ 16 % 256) (w / 2 ^ 24 % 256) (omega arith)
        (omega arith) (omega arith) (omega arith))

-- Swapping the bytes of a 32-bit word twice gives it back.
pub swap_word-swap_word : (w : ℕ) → w < 2 ^ 32 → swap_word (swap_word w) ≡ w
swap_word-swap_word w h = omega (arith, swap_word_lem w, swap_word_lem (swap_word w))

pub swap_if-swap_if :
    (swapped : Bool) (w : ℕ) → w < 2 ^ 32 → swap_if swapped (swap_if swapped w) ≡ w
unfolding swap_if
swap_if-swap_if true w h = swap_word-swap_word w h
swap_if-swap_if false w h = refl
