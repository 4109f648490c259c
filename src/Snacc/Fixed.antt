-- ===== src/Snacc/Fixed.antt =====
-- The fixed-point numbers of SNACC, `Fixed16` and `Fixed32` of snaccmodules.h and snaccmodules.cc. An
-- `int16` and an `int32` are bit patterns. A sum of two `int32` is taken to wrap, which the language leaves
-- undefined.
use cube_sim.Common.{
  Bool, ap, arith, bit_and, if◌then◌else◌, leb, ltb, not, ℕ, ◌%◌, ◌&&◌, ◌*◌, ◌+◌, ◌-◌, ◌/◌, ◌<◌,
  ◌==◌, ◌^◌, ◌||◌, ◌∙◌, ◌≡◌,
}
use cube_sim.Common.Int.{leb_ℤ, negsuc, pos, ℤ, ◌+ℤ◌}
use cube_sim.Common.Bits.{add32, bit_and_high, bit_and_low, shl32, shr}
use cube_sim.Cpu.Alu.{is_negative, signed32}

-- An `int16` as an `int32`.
unfoldable pub sign_extend16 : ℕ → ℕ
sign_extend16 n = if leb (2 ^ 15) n then n + 2 ^ 32 - 2 ^ 16 else n

-- `n >> k` of an `int32`, for a `k` up to 32.
unfoldable pub asr32 : ℕ → ℕ → ℕ
asr32 n k = if is_negative n then n / 2 ^ k + (2 ^ 32 - 2 ^ (32 - k)) else n / 2 ^ k

-- `Fixed16(uint8)`
unfoldable pub fixed16_of_byte : ℕ → ℕ
fixed16_of_byte b = b * 2 ^ 8 % 2 ^ 16

-- `Fixed16::ToFixed32`
unfoldable pub to_fixed32 : ℕ → ℕ
unfolding sign_extend16 asr32
to_fixed32 n = asr32 (shl32 (sign_extend16 n) 16) 4

-- `operator*` of two `Fixed16`.
unfoldable pub times : ℕ → ℕ → ℕ
unfolding sign_extend16
times a b = sign_extend16 a * sign_extend16 b % 2 ^ 32

abbrev pub is_positive : ℕ → Bool
is_positive a = ltb 0 a && not (is_negative a)

-- `operator+` of two `Fixed32`.
unfoldable pub plus : ℕ → ℕ → ℕ
plus a b =
    let sum = add32 a b in
    if is_positive a && is_positive b && is_negative sum
    then 0x7fffffff
    else (if is_negative a && is_negative b && is_positive sum then 0x80000000 else sum)

-- `operator<` of two `Fixed32`.
unfoldable pub less : ℕ → ℕ → Bool
less a b = not (leb_ℤ (signed32 b) (signed32 a))

-- `SignedClipMostSignificant4Bits`
unfoldable pub clip : ℕ → ℕ
clip n =
    let top = bit_and n 0xf8000000 in
    if top == 0 || top == 0xf8000000
    then shl32 n 4
    else (if is_negative n then 0x80000000 else 0x7fffffff)

-- `Fixed32::FromRegisterFormat` and `ToRegisterFormat`.
unfoldable pub from_register : ℕ → ℕ
unfolding asr32
from_register n = asr32 n 4

unfoldable pub to_register : ℕ → ℕ
unfolding clip
to_register n = clip n

-- `ToLutIndex`
unfoldable pub to_lut_index : ℕ → ℕ
unfolding clip
to_lut_index n = shr (clip n) 22 * 2

top_bits : (n : ℕ) → bit_and n 0xf8000000 ≡ n / 2 ^ 27 % 32 * 2 ^ 27
top_bits n = bit_and_high 27 n 31 ∙ ap (λ (m : ℕ). m * 2 ^ 27) (bit_and_low 5 (n / 2 ^ 27))

-- A register that is read into the unit and written back keeps all but its low four bits.
pub to_register-from_register : (n : ℕ) → n < 2 ^ 32 → to_register (from_register n) ≡ n - n % 16
unfolding to_register from_register asr32 clip
to_register-from_register n h = ground (arith, top_bits (n / 16), top_bits (n / 16 + 4026531840))

-- The least and the greatest `int32` bound the sum.
abbrev pub saturated : ℤ → ℤ
saturated z =
    if leb_ℤ (pos (2 ^ 31)) z
    then pos (2 ^ 31 - 1)
    else (if leb_ℤ z (negsuc (2 ^ 31)) then negsuc (2 ^ 31 - 1) else z)

-- The sum is the sum of the signed numbers, cut to the range of an `int32`, unless both are the least
-- number, whose sum is 0.
pub plus-saturated :
    (a b : ℕ)
    → a < 2 ^ 32
    → b < 2 ^ 32
    → signed32 (plus a b)
      ≡ (if a == 2 ^ 31 && b == 2 ^ 31 then pos 0 else saturated (signed32 a +ℤ signed32 b))
unfolding plus ◌+ℤ◌
plus-saturated a b h j = ground arith
