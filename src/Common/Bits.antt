-- ===== src/Common/Bits.antt =====
-- Machine words as native numbers: `<<` keeps 32 bits, `>>` divides, and `&` and `|` are the native
-- bit operations, with the laws that turn masks and disjoint fields into arithmetic.
use Prim.Native.Nat.{
  ℕ, zero, suc, ◌+◌, ◌-◌, ◌*◌, ◌/◌, ◌%◌, ◌^◌, ◌≤◌, ◌<◌, min, max, bit_and, bit_or, digits,
  bit_and-bitwise, bit_or-bitwise, bit_xor, bit_xor-bitwise, differ,
}
use mathlib.Core.Path.{◌≡◌, ◌∙◌, refl, sym, ap}
use native.Mathlib.Nat.{pow-suc, one-le-pow, div-div-eq-div-mul, mod-eq_of_lt}
use native.Mathlib.Omega.{arith}

-- uint32 x << k
abbrev pub shl32 : ℕ → ℕ → ℕ
shl32 x k = x * 2 ^ k % 2 ^ 32

-- uint32 x >> k
abbrev pub shr : ℕ → ℕ → ℕ
shr x k = x / 2 ^ k

-- uint32 a + b and a - b
abbrev pub add32 : ℕ → ℕ → ℕ
add32 a b = (a + b) % 2 ^ 32

abbrev pub sub32 : ℕ → ℕ → ℕ
sub32 a b = (a + 2 ^ 32 - b) % 2 ^ 32

-- uint32 ~x
abbrev pub not32 : ℕ → ℕ
not32 x = 2 ^ 32 - 1 - x

-- The `n`-th half word and the `n`-th byte of a word, from the low end, and a word with one replaced.
unfoldable pub half_of : ℕ → ℕ → ℕ
half_of n w = shr w (16 * n) % 2 ^ 16

unfoldable pub byte_of : ℕ → ℕ → ℕ
byte_of n w = shr w (8 * n) % 2 ^ 8

unfoldable pub with_half : ℕ → ℕ → ℕ → ℕ
unfolding half_of
with_half n v w = w - half_of n w * 2 ^ (16 * n) + v % 2 ^ 16 * 2 ^ (16 * n)

unfoldable pub with_byte : ℕ → ℕ → ℕ → ℕ
unfolding byte_of
with_byte n v w = w - byte_of n w * 2 ^ (8 * n) + v % 2 ^ 8 * 2 ^ (8 * n)

-- An operation that goes through the binary digits of two numbers: `f` joins two digits, and `z` says
-- what is left of the second number when the first has no more digits.
module _ (z : ℕ → ℕ) (f : ℕ → ℕ → ℕ) where
  -- Every bound on the digits that is high enough gives the same result.
  digits_any_bound : (x y k l : ℕ) → x ≤ k → x ≤ l → digits z f k x y ≡ digits z f l x y
  digits_any_bound zero y zero zero hk hl = refl
  digits_any_bound zero y zero (suc l) hk hl = refl
  digits_any_bound zero y (suc k) zero hk hl = refl
  digits_any_bound zero y (suc k) (suc l) hk hl = refl
  digits_any_bound (suc x) y zero l hk hl = absurd (omega arith)
  digits_any_bound (suc x) y (suc k) zero hk hl = absurd (omega arith)
  digits_any_bound (suc x) y (suc k) (suc l) hk hl =
      let upper = digits_any_bound (suc x / 2) (y / 2) k l (omega arith) (omega arith) in
      ap (λ (q : ℕ). q * 2 + f (suc x % 2) (y % 2)) upper

  digits_split :
      (x y : ℕ)
      → digits z f (suc x) (suc x) y
        ≡ digits z f (suc x / 2) (suc x / 2) (y / 2) * 2 + f (suc x % 2) (y % 2)
  digits_split x y =
      let upper = digits_any_bound (suc x / 2) (y / 2) x (suc x / 2) (omega arith) (omega arith) in
      ap (λ (q : ℕ). q * 2 + f (suc x % 2) (y % 2)) upper

-- What holds of 0, and of a number when it holds of its half, holds of every number.
by_halves : (P : ℕ → Type 0) → P 0 → ((x : ℕ) → P (suc x / 2) → P (suc x)) → (n x : ℕ) → x ≤ n → P x
by_halves P base half n zero h = base
by_halves P base half zero (suc x) h = absurd (omega arith)
by_halves P base half (suc n) (suc x) h = half x (by_halves P base half n (suc x / 2) (omega arith))

pub zero-bit_and : (y : ℕ) → bit_and 0 y ≡ 0
zero-bit_and y = bit_and-bitwise 0 y

pub zero-bit_or : (y : ℕ) → bit_or 0 y ≡ y
zero-bit_or y = bit_or-bitwise 0 y

-- Only the last digit and the half of each number matter.
pub bit_and_step : (x y : ℕ) → bit_and x y ≡ bit_and (x / 2) (y / 2) * 2 + min (x % 2) (y % 2)
bit_and_step zero y = omega (arith, zero-bit_and y, zero-bit_and (y / 2))
bit_and_step (suc x) y =
    bit_and-bitwise (suc x) y
    ∙ digits_split (λ b. zero) min x y
    ∙ ap (λ (q : ℕ). q * 2 + min (suc x % 2) (y % 2)) (sym (bit_and-bitwise (suc x / 2) (y / 2)))

pub bit_or_step : (x y : ℕ) → bit_or x y ≡ bit_or (x / 2) (y / 2) * 2 + max (x % 2) (y % 2)
bit_or_step zero y = omega (arith, zero-bit_or y, zero-bit_or (y / 2))
bit_or_step (suc x) y =
    bit_or-bitwise (suc x) y
    ∙ digits_split (λ b. b) max x y
    ∙ ap (λ (q : ℕ). q * 2 + max (suc x % 2) (y % 2)) (sym (bit_or-bitwise (suc x / 2) (y / 2)))

pub zero-bit_xor : (y : ℕ) → bit_xor 0 y ≡ y
zero-bit_xor y = bit_xor-bitwise 0 y

differ_bits : (x y : ℕ) → x < 2 → y < 2 → differ x y ≡ (x + y) % 2
differ_bits zero y h j = omega arith
differ_bits (suc x) zero h j = omega arith
differ_bits (suc zero) (suc zero) h j = refl
differ_bits (suc (suc x)) (suc y) h j = absurd (omega arith)
differ_bits (suc zero) (suc (suc y)) h j = absurd (omega arith)

pub bit_xor_step : (x y : ℕ) → bit_xor x y ≡ bit_xor (x / 2) (y / 2) * 2 + (x % 2 + y % 2) % 2
bit_xor_step zero y = omega (arith, zero-bit_xor y, zero-bit_xor (y / 2))
bit_xor_step (suc x) y =
    bit_xor-bitwise (suc x) y
    ∙ digits_split (λ b. b) differ x y
    ∙ ap (λ (q : ℕ). q * 2 + differ (suc x % 2) (y % 2)) (sym (bit_xor-bitwise (suc x / 2) (y / 2)))
    ∙ ap (λ (q : ℕ). bit_xor (suc x / 2) (y / 2) * 2 + q)
        (differ_bits (suc x % 2) (y % 2) (omega arith) (omega arith))

pub bit_and_zero : (x : ℕ) → bit_and x 0 ≡ 0
bit_and_zero x =
    by_halves (λ n. bit_and n 0 ≡ 0) (zero-bit_and 0)
      (λ n half. omega (arith, half, bit_and_step (suc n) 0)) x x (omega arith)

pub bit_or_zero : (x : ℕ) → bit_or x 0 ≡ x
bit_or_zero x =
    by_halves (λ n. bit_or n 0 ≡ n) (zero-bit_or 0)
      (λ n half. omega (arith, half, bit_or_step (suc n) 0)) x x (omega arith)

pow_double : (k : ℕ) → 2 ^ suc k ≡ 2 * 2 ^ k
pow_double k = omega (arith, pow-suc 2 k)

div_pow_suc : (a k : ℕ) → a / 2 / 2 ^ k ≡ a / 2 ^ suc k
div_pow_suc a k = rw (div-div-eq-div-mul, pow_double)

half-bit_xor : (a b : ℕ) → bit_xor a b / 2 ≡ bit_xor (a / 2) (b / 2)
half-bit_xor a b = omega (arith, bit_xor_step a b)

pub bit_xor_at : (i a b : ℕ) → bit_xor a b / 2 ^ i % 2 ≡ (a / 2 ^ i % 2 + b / 2 ^ i % 2) % 2
bit_xor_at zero a b = omega (arith, bit_xor_step a b)
bit_xor_at (suc i) a b =
    ap (λ (n : ℕ). n % 2) (sym (div_pow_suc (bit_xor a b) i))
    ∙ ap (λ (n : ℕ). n / 2 ^ i % 2) (half-bit_xor a b)
    ∙ bit_xor_at i (a / 2) (b / 2)
    ∙ rw (div_pow_suc a i) (rw (div_pow_suc b i) refl)

-- The remainder by `2 p` is that of the half by `p`, and the last digit.
mod_double : (a p : ℕ) → 0 < p → a % (2 * p) ≡ a / 2 % p * 2 + a % 2
mod_double a p h = grind arith

bit_and_odd : (a m : ℕ) → bit_and a (2 * m + 1) ≡ bit_and (a / 2) m * 2 + a % 2
bit_and_odd a m =
    let half : (2 * m + 1) / 2 ≡ m = omega arith in
    rw (bit_and_step a (2 * m + 1), half) (omega arith)

bit_and_even : (a m : ℕ) → bit_and a (2 * m) ≡ bit_and (a / 2) m * 2
bit_and_even a m =
    let half : 2 * m / 2 ≡ m = omega arith in rw (bit_and_step a (2 * m), half) (omega arith)

bit_or_even : (a m : ℕ) → bit_or a (2 * m) ≡ bit_or (a / 2) m * 2 + a % 2
bit_or_even a m =
    let half : 2 * m / 2 ≡ m = omega arith in rw (bit_or_step a (2 * m), half) (omega arith)

-- A mask of `k` low bits is the remainder by `2 ^ k`.
pub bit_and_low : (k a : ℕ) → bit_and a (2 ^ k - 1) ≡ a % 2 ^ k
bit_and_low zero a = omega (arith, bit_and_zero a)
bit_and_low (suc k) a =
    let pos : 1 ≤ 2 ^ k = one-le-pow k 2 (omega arith) in
    let e : 2 ^ suc k - 1 ≡ 2 * (2 ^ k - 1) + 1 = omega (arith, pow_double k) in
    rw (e, bit_and_odd, bit_and_low k (a / 2), pow_double k) (sym (mod_double a (2 ^ k) pos))

mul_pow_suc : (q k : ℕ) → q * 2 ^ suc k ≡ 2 * (q * 2 ^ k)
mul_pow_suc q k = omega (arith, ap (λ (t : ℕ). q * t) (pow_double k))

-- A mask that ends in `k` zeros looks at the bits above them.
pub bit_and_high : (k a m : ℕ) → bit_and a (m * 2 ^ k) ≡ bit_and (a / 2 ^ k) m * 2 ^ k
bit_and_high zero a m = ground arith
bit_and_high (suc k) a m =
    rw (mul_pow_suc m k, bit_and_even, bit_and_high k (a / 2) m, div_pow_suc, mul_pow_suc)
      (omega arith)

-- `r | (q << k)` is a sum when `r` fits `k` bits.
pub bit_or_fields : (k q r : ℕ) → r < 2 ^ k → bit_or r (q * 2 ^ k) ≡ q * 2 ^ k + r
bit_or_fields zero q r h = let e : r ≡ 0 = omega arith in rw (e, zero-bit_or) (omega arith)
bit_or_fields (suc k) q r h =
    let fits : r / 2 < 2 ^ k = omega (arith, pow_double k) in
    rw (mul_pow_suc q k, bit_or_even, bit_or_fields k q (r / 2) fits) (omega arith)

pub or_shl32 : (k q r : ℕ) → r < 2 ^ k → q * 2 ^ k < 2 ^ 32 → bit_or r (shl32 q k) ≡ q * 2 ^ k + r
or_shl32 k q r fits small = rw (mod-eq_of_lt small) (bit_or_fields k q r fits)

bit_or_even_left : (m b : ℕ) → bit_or (2 * m) b ≡ bit_or m (b / 2) * 2 + b % 2
bit_or_even_left m b =
    let half : 2 * m / 2 ≡ m = omega arith in rw (bit_or_step (2 * m) b, half) (omega arith)

-- `(q << k) | r` is a sum when `r` fits `k` bits.
pub bit_or_above : (k q r : ℕ) → r < 2 ^ k → bit_or (q * 2 ^ k) r ≡ q * 2 ^ k + r
bit_or_above zero q r h = let e : r ≡ 0 = omega arith in rw (e, bit_or_zero) (omega arith)
bit_or_above (suc k) q r h =
    let fits : r / 2 < 2 ^ k = omega (arith, pow_double k) in
    rw (mul_pow_suc q k, bit_or_even_left, bit_or_above k q (r / 2) fits) (omega arith)

-- What is or-ed in above `k` bits leaves the low bits alone.
pub bit_or_low : (k q r : ℕ) → bit_or (q * 2 ^ k) r % 2 ^ k ≡ r % 2 ^ k
bit_or_low zero q r = omega arith
bit_or_low (suc k) q r =
    let pos : 1 ≤ 2 ^ k = one-le-pow k 2 (omega arith) in
    let a = bit_or (q * 2 ^ k) (r / 2) * 2 + r % 2 in
    let half : a / 2 ≡ bit_or (q * 2 ^ k) (r / 2) = omega arith in
    let last : a % 2 ≡ r % 2 = omega arith in
    rw
      (
        mul_pow_suc q k,
        bit_or_even_left,
        pow_double k,
        mod_double a (2 ^ k) pos,
        half,
        last,
        bit_or_low k q (r / 2),
        mod_double r (2 ^ k) pos,
      )
      refl

-- A test of the one bit `k`.
pub bit_and_bit : (k a : ℕ) → bit_and a (2 ^ k) ≡ a / 2 ^ k % 2 * 2 ^ k
bit_and_bit k a =
    let one : 2 ^ k ≡ 1 * 2 ^ k = omega arith in
    ap (bit_and a) one ∙ bit_and_high k a 1 ∙ ap (λ (b : ℕ). b * 2 ^ k) (bit_and_low 1 (a / 2 ^ k))

-- A number of `k` bits is lost in `k` ones.
pub bit_or_ones : (k q : ℕ) → q < 2 ^ k → bit_or q (2 ^ k - 1) ≡ 2 ^ k - 1
bit_or_ones zero q h = let e : q ≡ 0 = omega arith in rw (e, zero-bit_or) refl
bit_or_ones (suc k) q h =
    let pos : 1 ≤ 2 ^ k = one-le-pow k 2 (omega arith) in
    let half : (2 ^ suc k - 1) / 2 ≡ 2 ^ k - 1 = omega (arith, pow_double k) in
    let rest = bit_or_ones k (q / 2) (omega (arith, pow_double k)) in
    rw (bit_or_step q (2 ^ suc k - 1), half, rest) (omega (arith, pow_double k))

pub bit_or_double : (a b : ℕ) → bit_or (2 * a) (2 * b) ≡ 2 * bit_or a b
bit_or_double a b =
    let left : 2 * a / 2 ≡ a = omega arith in
    let right : 2 * b / 2 ≡ b = omega arith in
    rw (bit_or_step (2 * a) (2 * b), left, right) (omega arith)

-- Bit `k` of a number, and of `a | b`.
abbrev pub bit_at : ℕ → ℕ → ℕ
bit_at k a = a / 2 ^ k % 2

pub bit_at-bit_or : (k a b : ℕ) → bit_at k (bit_or a b) ≡ max (bit_at k a) (bit_at k b)
bit_at-bit_or zero a b = omega (arith, bit_or_step a b)
bit_at-bit_or (suc k) a b =
    let half : bit_or a b / 2 ≡ bit_or (a / 2) (b / 2) = omega (arith, bit_or_step a b) in
    rw (← div_pow_suc (bit_or a b) k, ← div_pow_suc a k, ← div_pow_suc b k, half)
      (bit_at-bit_or k (a / 2) (b / 2))

-- A mask that is applied twice.
pub bit_and_twice : (x m : ℕ) → bit_and (bit_and x m) m ≡ bit_and x m
bit_and_twice x =
    by_halves (λ n. (m : ℕ) → bit_and (bit_and n m) m ≡ bit_and n m)
      (λ m. omega (arith, zero-bit_and m, ap (λ (k : ℕ). bit_and k m) (zero-bit_and m)))
      (λ n half m. twice n m (half (m / 2))) x x (omega arith)
  where
    twice :
        (n m : ℕ)
        → bit_and (bit_and (suc n / 2) (m / 2)) (m / 2) ≡ bit_and (suc n / 2) (m / 2)
        → bit_and (bit_and (suc n) m) m ≡ bit_and (suc n) m
    twice n m h =
        let one = bit_and_step (suc n) m in
        let upper : bit_and (suc n) m / 2 ≡ bit_and (suc n / 2) (m / 2) = omega (arith, one) in
        let again : bit_and (bit_and (suc n) m / 2) (m / 2) ≡ bit_and (suc n / 2) (m / 2) =
          ap (λ (k : ℕ). bit_and k (m / 2)) upper ∙ h in
        omega (arith, one, again, bit_and_step (bit_and (suc n) m) m)
