-- ===== src/Cpu/Stores.antt =====
-- The bytes that `mem_access` of cpu.cc stores in the cache for SWL and SWR: pairs of a byte of the
-- word of memory, counted by address, and its value.
pub mod Merge
use cube_sim.Common.{Bool, List, [], bit_and, false, suc, true, zero, ℕ, ◌*◌, ◌+◌, ◌-◌, ◌∷◌}
use cube_sim.Common.Bits.{shr}

-- `byte = (...) & 0xFF` for the bytes from `i` on.
unfoldable pub bytes_from : (ℕ → ℕ) → ℕ → ℕ → List (ℕ × ℕ)
bytes_from shifted i zero = []
bytes_from shifted i (suc n) = (i, bit_and (shifted i) 0xff) ∷ bytes_from shifted (i + 1) n

-- `which` is `vaddr & 0x03`; the first argument is `opt_bigendian`.
unfoldable pub swl_bytes : Bool → ℕ → ℕ → List (ℕ × ℕ)
unfolding bytes_from
swl_bytes true word which = bytes_from (λ i. shr word (8 * (3 - i))) which (4 - which)
swl_bytes false word which = bytes_from (λ i. shr word (8 * i + 24 - 8 * which)) 0 (which + 1)

unfoldable pub swr_bytes : Bool → ℕ → ℕ → List (ℕ × ℕ)
unfolding bytes_from
swr_bytes true word which = bytes_from (λ i. shr word (8 * (which - i))) 0 (which + 1)
swr_bytes false word which = bytes_from (λ i. shr word (8 * (i - which))) which (4 - which)
