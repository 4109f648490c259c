-- ===== src/Cpu/Stores/Merge.antt =====
-- The bytes that are stored for SWL and SWR, against the words that `swl` and `swr` of cpu.cc make.
use cube_sim.Common.{
  Bool, List, [], arith, bit_and, false, if◌then◌else◌, suc, sym, true, zero, ℕ, ◌%◌, ◌*◌, ◌+◌, ◌-◌,
  ◌/◌, ◌<◌, ◌^◌, ◌∙◌, ◌∷◌, ◌≡◌,
}
use cube_sim.Common.Bits.{bit_and_low, byte_of, shl32, with_byte}
use cube_sim.Cpu.Stores.{bytes_from, swl_bytes, swr_bytes}
use cube_sim.Cpu.Unaligned.{swl, swr}
use cube_sim.Cpu.Unaligned.Load.{keep_16, keep_24, keep_8, or_16, or_24, or_8}

-- The word of memory after the bytes were stored; the byte with the least address is the highest of
-- the word on a big-endian machine.
abbrev pub store_all : Bool → List (ℕ × ℕ) → ℕ → ℕ
store_all big [] w = w
store_all big ((i, b) ∷ bs) w = store_all big bs (with_byte (if big then 3 - i else i) b w)

byte_low : (x : ℕ) → bit_and x 0xff ≡ x % 2 ^ 8
byte_low x = bit_and_low 8 x

-- What the stores leave in a word of memory, as arithmetic.
abbrev merged_high : ℕ → ℕ → ℕ → ℕ
merged_high n r m = m / 2 ^ (32 - n) * 2 ^ (32 - n) + r / 2 ^ n

abbrev merged_low : ℕ → ℕ → ℕ → ℕ
merged_low n r m = r * 2 ^ n % 2 ^ 32 + m % 2 ^ n

swl_bytes_little :
    (r m k : ℕ)
    → r < 2 ^ 32
    → m < 2 ^ 32
    → k < 4
    → store_all false (swl_bytes false r k) m ≡ merged_high (24 - 8 * k) r m
unfolding swl_bytes bytes_from with_byte byte_of
swl_bytes_little r m zero hr hm h = simp byte_low (omega arith)
swl_bytes_little r m (suc zero) hr hm h = simp byte_low (omega arith)
swl_bytes_little r m (suc (suc zero)) hr hm h = simp byte_low (omega arith)
swl_bytes_little r m (suc (suc (suc zero))) hr hm h = simp byte_low (omega arith)
swl_bytes_little r m (suc (suc (suc (suc k)))) hr hm h = absurd (omega arith)

swr_bytes_little :
    (r m k : ℕ)
    → r < 2 ^ 32
    → m < 2 ^ 32
    → k < 4
    → store_all false (swr_bytes false r k) m ≡ merged_low (8 * k) r m
unfolding swr_bytes bytes_from with_byte byte_of
swr_bytes_little r m zero hr hm h = simp byte_low (omega arith)
swr_bytes_little r m (suc zero) hr hm h = simp byte_low (omega arith)
swr_bytes_little r m (suc (suc zero)) hr hm h = simp byte_low (omega arith)
swr_bytes_little r m (suc (suc (suc zero))) hr hm h = simp byte_low (omega arith)
swr_bytes_little r m (suc (suc (suc (suc k)))) hr hm h = absurd (omega arith)

swr_bytes_big :
    (r m k : ℕ)
    → r < 2 ^ 32
    → m < 2 ^ 32
    → k < 4
    → store_all true (swr_bytes true r k) m ≡ merged_low (24 - 8 * k) r m
unfolding swr_bytes bytes_from with_byte byte_of
swr_bytes_big r m zero hr hm h = simp byte_low (omega arith)
swr_bytes_big r m (suc zero) hr hm h = simp byte_low (omega arith)
swr_bytes_big r m (suc (suc zero)) hr hm h = simp byte_low (omega arith)
swr_bytes_big r m (suc (suc (suc zero))) hr hm h = simp byte_low (omega arith)
swr_bytes_big r m (suc (suc (suc (suc k)))) hr hm h = absurd (omega arith)

swl_bytes_big :
    (r m k : ℕ)
    → r < 2 ^ 32
    → m < 2 ^ 32
    → k < 4
    → store_all true (swl_bytes true r k) m
      ≡ m / 2 ^ (32 - 8 * k) * 2 ^ (32 - 8 * k) + r % 2 ^ (32 - 8 * k)
unfolding swl_bytes bytes_from with_byte byte_of
swl_bytes_big r m zero hr hm h = simp byte_low (omega arith)
swl_bytes_big r m (suc zero) hr hm h = simp byte_low (omega arith)
swl_bytes_big r m (suc (suc zero)) hr hm h = simp byte_low (omega arith)
swl_bytes_big r m (suc (suc (suc zero))) hr hm h = simp byte_low (omega arith)
swl_bytes_big r m (suc (suc (suc (suc k)))) hr hm h = absurd (omega arith)

swl_little :
    (r m k : ℕ) → r < 2 ^ 32 → m < 2 ^ 32 → k < 4 → swl false r m k ≡ merged_high (24 - 8 * k) r m
unfolding swl
swl_little r m zero hr hm h =
    rw (keep_8 m hm, bit_and_low 8 (r / 2 ^ 24))
      (or_8 (m / 2 ^ 8) (r / 2 ^ 24 % 2 ^ 8) (omega arith) ∙ omega arith)
swl_little r m (suc zero) hr hm h =
    rw (keep_16 m hm, bit_and_low 16 (r / 2 ^ 16))
      (or_16 (m / 2 ^ 16) (r / 2 ^ 16 % 2 ^ 16) (omega arith) ∙ omega arith)
swl_little r m (suc (suc zero)) hr hm h =
    rw (keep_24 m hm, bit_and_low 24 (r / 2 ^ 8))
      (or_24 (m / 2 ^ 24) (r / 2 ^ 8 % 2 ^ 24) (omega arith) ∙ omega arith)
swl_little r m (suc (suc (suc zero))) hr hm h = omega arith
swl_little r m (suc (suc (suc (suc k)))) hr hm h = absurd (omega arith)

swl_big : (r m k : ℕ) → r < 2 ^ 32 → m < 2 ^ 32 → k < 4 → swl true r m k ≡ merged_high (8 * k) r m
unfolding swl
swl_big r m zero hr hm h = omega arith
swl_big r m (suc zero) hr hm h =
    rw (keep_24 m hm, bit_and_low 24 (r / 2 ^ 8))
      (or_24 (m / 2 ^ 24) (r / 2 ^ 8 % 2 ^ 24) (omega arith) ∙ omega arith)
swl_big r m (suc (suc zero)) hr hm h =
    rw (keep_16 m hm, bit_and_low 16 (r / 2 ^ 16))
      (or_16 (m / 2 ^ 16) (r / 2 ^ 16 % 2 ^ 16) (omega arith) ∙ omega arith)
swl_big r m (suc (suc (suc zero))) hr hm h =
    rw (keep_8 m hm, bit_and_low 8 (r / 2 ^ 24))
      (or_8 (m / 2 ^ 8) (r / 2 ^ 24 % 2 ^ 8) (omega arith) ∙ omega arith)
swl_big r m (suc (suc (suc (suc k)))) hr hm h = absurd (omega arith)

swr_little :
    (r m k : ℕ) → r < 2 ^ 32 → m < 2 ^ 32 → k < 4 → swr false r m k ≡ merged_low (8 * k) r m
unfolding swr
swr_little r m zero hr hm h = omega arith
swr_little r m (suc zero) hr hm h =
    rw (keep_8 (shl32 r 8) (omega arith), bit_and_low 8 m)
      (or_8 (shl32 r 8 / 2 ^ 8) (m % 2 ^ 8) (omega arith) ∙ omega arith)
swr_little r m (suc (suc zero)) hr hm h =
    rw (keep_16 (shl32 r 16) (omega arith), bit_and_low 16 m)
      (or_16 (shl32 r 16 / 2 ^ 16) (m % 2 ^ 16) (omega arith) ∙ omega arith)
swr_little r m (suc (suc (suc zero))) hr hm h =
    rw (keep_24 (shl32 r 24) (omega arith), bit_and_low 24 m)
      (or_24 (shl32 r 24 / 2 ^ 24) (m % 2 ^ 24) (omega arith) ∙ omega arith)
swr_little r m (suc (suc (suc (suc k)))) hr hm h = absurd (omega arith)

swr_big :
    (r m k : ℕ) → r < 2 ^ 32 → m < 2 ^ 32 → k < 4 → swr true r m k ≡ merged_low (24 - 8 * k) r m
unfolding swr
swr_big r m zero hr hm h =
    rw (keep_24 (shl32 r 24) (omega arith), bit_and_low 24 m)
      (or_24 (shl32 r 24 / 2 ^ 24) (m % 2 ^ 24) (omega arith) ∙ omega arith)
swr_big r m (suc zero) hr hm h =
    rw (keep_16 (shl32 r 16) (omega arith), bit_and_low 16 m)
      (or_16 (shl32 r 16 / 2 ^ 16) (m % 2 ^ 16) (omega arith) ∙ omega arith)
swr_big r m (suc (suc zero)) hr hm h =
    rw (keep_8 (shl32 r 8) (omega arith), bit_and_low 8 m)
      (or_8 (shl32 r 8 / 2 ^ 8) (m % 2 ^ 8) (omega arith) ∙ omega arith)
swr_big r m (suc (suc (suc zero))) hr hm h = omega arith
swr_big r m (suc (suc (suc (suc k)))) hr hm h = absurd (omega arith)

-- On a 32-bit register and a 32-bit word of memory, at each of the four offsets, the bytes that are
-- stored for SWR, and those for SWL on a little-endian machine, leave the word that `swr` and `swl`
-- make. On a big-endian machine SWL keeps the right part of the word, but puts the low bytes of the
-- register there, where `swl` puts the high ones.
pub stores_lem :
    (r m k : ℕ)
    → r < 2 ^ 32
    → m < 2 ^ 32
    → k < 4
    → (store_all false (swr_bytes false r k) m ≡ swr false r m k)
      × (store_all true (swr_bytes true r k) m ≡ swr true r m k)
      × (store_all false (swl_bytes false r k) m ≡ swl false r m k)
      × (store_all true (swl_bytes true r k) m
          ≡ m / 2 ^ (32 - 8 * k) * 2 ^ (32 - 8 * k) + r % 2 ^ (32 - 8 * k))
      × (swl true r m k ≡ m / 2 ^ (32 - 8 * k) * 2 ^ (32 - 8 * k) + r / 2 ^ (8 * k))
stores_lem r m k hr hm h = (
  swr_bytes_little r m k hr hm h ∙ sym (swr_little r m k hr hm h),
  swr_bytes_big r m k hr hm h ∙ sym (swr_big r m k hr hm h),
  swl_bytes_little r m k hr hm h ∙ sym (swl_little r m k hr hm h),
  swl_bytes_big r m k hr hm h,
  swl_big r m k hr hm h,
)
