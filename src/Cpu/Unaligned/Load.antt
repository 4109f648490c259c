-- ===== src/Cpu/Unaligned/Load.antt =====
-- A word at an address that is not aligned, through `lwr`, `lwl`, `swr` and `swl` of cpu.cc.
use cube_sim.Common.{
  Bool, arith, bit_and, bit_or, false, suc, true, zero, ℕ, ◌%◌, ◌*◌, ◌+◌, ◌-◌, ◌/◌, ◌<◌, ◌^◌, ◌∙◌,
  ◌≡◌,
}
use cube_sim.Common.Bits.{bit_and_high, bit_and_low, bit_or_above, shl32, shr}
use cube_sim.Cpu.Unaligned.{lwl, lwr}

-- The masks of the program as arithmetic.
pub keep_24 : (a : ℕ) → a < 2 ^ 32 → bit_and a 0xff000000 ≡ a / 2 ^ 24 * 2 ^ 24
keep_24 a h = bit_and_high 24 a 0xff ∙ omega (arith, bit_and_low 8 (a / 2 ^ 24))

pub keep_16 : (a : ℕ) → a < 2 ^ 32 → bit_and a 0xffff0000 ≡ a / 2 ^ 16 * 2 ^ 16
keep_16 a h = bit_and_high 16 a 0xffff ∙ omega (arith, bit_and_low 16 (a / 2 ^ 16))

pub keep_8 : (a : ℕ) → a < 2 ^ 32 → bit_and a 0xffffff00 ≡ a / 2 ^ 8 * 2 ^ 8
keep_8 a h = bit_and_high 8 a 0xffffff ∙ omega (arith, bit_and_low 24 (a / 2 ^ 8))

-- A value that fits below the shift is joined to it as a sum.
pub or_24 : (q r : ℕ) → r < 2 ^ 24 → bit_or (q * 2 ^ 24) r ≡ q * 2 ^ 24 + r
or_24 = bit_or_above 24

pub or_16 : (q r : ℕ) → r < 2 ^ 16 → bit_or (q * 2 ^ 16) r ≡ q * 2 ^ 16 + r
or_16 = bit_or_above 16

pub or_8 : (q r : ℕ) → r < 2 ^ 8 → bit_or (q * 2 ^ 8) r ≡ q * 2 ^ 8 + r
or_8 = bit_or_above 8

-- `(x & mask) << k` where the mask leaves the bits that the shift does not lose.
shifted_24 : (x : ℕ) → shl32 (bit_and x 0xff) 24 ≡ x % 2 ^ 8 * 2 ^ 24
shifted_24 x = omega (arith, bit_and_low 8 x)

shifted_16 : (x : ℕ) → shl32 (bit_and x 0xffff) 16 ≡ x % 2 ^ 16 * 2 ^ 16
shifted_16 x = omega (arith, bit_and_low 16 x)

shifted_8 : (x : ℕ) → shl32 (bit_and x 0xffffff) 8 ≡ x % 2 ^ 24 * 2 ^ 8
shifted_8 x = omega (arith, bit_and_low 24 x)

-- The results of the loads as arithmetic, by the number of bits that change places.
lwl_8 :
    (r m : ℕ)
    → bit_or (shl32 (bit_and m 0xffffff) 8) (bit_and r 0xff) ≡ m % 2 ^ 24 * 2 ^ 8 + r % 2 ^ 8
lwl_8 r m = rw (shifted_8 m, bit_and_low 8 r) (or_8 (m % 2 ^ 24) (r % 2 ^ 8) (omega arith))

lwl_16 :
    (r m : ℕ)
    → bit_or (shl32 (bit_and m 0xffff) 16) (bit_and r 0xffff) ≡ m % 2 ^ 16 * 2 ^ 16 + r % 2 ^ 16
lwl_16 r m = rw (shifted_16 m, bit_and_low 16 r) (or_16 (m % 2 ^ 16) (r % 2 ^ 16) (omega arith))

lwl_24 :
    (r m : ℕ)
    → bit_or (shl32 (bit_and m 0xff) 24) (bit_and r 0xffffff) ≡ m % 2 ^ 8 * 2 ^ 24 + r % 2 ^ 24
lwl_24 r m = rw (shifted_24 m, bit_and_low 24 r) (or_24 (m % 2 ^ 8) (r % 2 ^ 24) (omega arith))

lwr_8 :
    (r m : ℕ)
    → r < 2 ^ 32
    → m < 2 ^ 32
    → bit_or (bit_and r 0xff000000) (shr (bit_and m 0xffffff00) 8) ≡ r / 2 ^ 24 * 2 ^ 24 + m / 2 ^ 8
lwr_8 r m hr hm =
    let low : m / 2 ^ 8 * 2 ^ 8 / 2 ^ 8 ≡ m / 2 ^ 8 = omega arith in
    rw (keep_24 r hr, keep_8 m hm, low) (or_24 (r / 2 ^ 24) (m / 2 ^ 8) (omega arith))

lwr_16 :
    (r m : ℕ)
    → r < 2 ^ 32
    → m < 2 ^ 32
    → bit_or (bit_and r 0xffff0000) (shr (bit_and m 0xffff0000) 16)
      ≡ r / 2 ^ 16 * 2 ^ 16 + m / 2 ^ 16
lwr_16 r m hr hm =
    let low : m / 2 ^ 16 * 2 ^ 16 / 2 ^ 16 ≡ m / 2 ^ 16 = omega arith in
    rw (keep_16 r hr, keep_16 m hm, low) (or_16 (r / 2 ^ 16) (m / 2 ^ 16) (omega arith))

lwr_24 :
    (r m : ℕ)
    → r < 2 ^ 32
    → m < 2 ^ 32
    → bit_or (bit_and r 0xffffff00) (shr (bit_and m 0xff000000) 24) ≡ r / 2 ^ 8 * 2 ^ 8 + m / 2 ^ 24
lwr_24 r m hr hm =
    let low : m / 2 ^ 24 * 2 ^ 24 / 2 ^ 24 ≡ m / 2 ^ 24 = omega arith in
    rw (keep_8 r hr, keep_24 m hm, low) (or_8 (r / 2 ^ 8) (m / 2 ^ 24) (omega arith))

-- The two instructions that load the word at offset `off` of the first of two words of memory.
abbrev pub load_pair : Bool → ℕ → ℕ → ℕ → ℕ → ℕ
load_pair true r first second off = lwr true (lwl true r first off) second (off - 1)
load_pair false r first second off = lwl false (lwr false r first off) second (off - 1)

-- On a 32-bit register and 32-bit words, lwl and lwr together load the word that begins one, two or
-- three bytes inside the first of two words, whatever the register had, on little-endian and on
-- big-endian machines.
pub lwl-lwr :
    (r first second k : ℕ)
    → r < 2 ^ 32
    → first < 2 ^ 32
    → second < 2 ^ 32
    → k < 3
    → (load_pair false r first second (suc k)
        ≡ (first + second * 2 ^ 32) / 2 ^ (8 * suc k) % 2 ^ 32)
      × (load_pair true r first second (suc k)
          ≡ (first * 2 ^ 32 + second) / 2 ^ (32 - 8 * suc k) % 2 ^ 32)
unfolding lwl lwr
lwl-lwr r first second zero hr hf hs h = (
  rw (lwr_8 r first hr hf, lwl_24 (r / 2 ^ 24 * 2 ^ 24 + first / 2 ^ 8) second) (omega arith),
  rw (lwl_8 r first, lwr_24 (first % 2 ^ 24 * 2 ^ 8 + r % 2 ^ 8) second (omega arith) hs)
      (omega arith),
)
lwl-lwr r first second (suc zero) hr hf hs h = (
  rw (lwr_16 r first hr hf, lwl_16 (r / 2 ^ 16 * 2 ^ 16 + first / 2 ^ 16) second) (omega arith),
  rw (lwl_16 r first, lwr_16 (first % 2 ^ 16 * 2 ^ 16 + r % 2 ^ 16) second (omega arith) hs)
      (omega arith),
)
lwl-lwr r first second (suc (suc zero)) hr hf hs h = (
  rw (lwr_24 r first hr hf, lwl_8 (r / 2 ^ 8 * 2 ^ 8 + first / 2 ^ 24) second) (omega arith),
  rw (lwl_24 r first, lwr_8 (first % 2 ^ 8 * 2 ^ 24 + r % 2 ^ 24) second (omega arith) hs)
      (omega arith),
)
lwl-lwr r first second (suc (suc (suc k))) hr hf hs h = absurd (omega arith)
