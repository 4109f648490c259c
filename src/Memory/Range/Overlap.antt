-- ===== src/Memory/Range/Overlap.antt =====
-- What the tests of a range, range.cc, decide.
use cube_sim.Common.{arith, false, max, true, ℕ, ◌+◌, ◌<◌, ◌^◌, ◌↔◌, ◌≡◌, ◌≤◌}
use cube_sim.Memory.Range.{Fits, Range, incorporates, overlaps}

-- A range that does not reach the end of the address space incorporates exactly its addresses.
pub incorporates_iff :
    (r : Range) (addr : ℕ)
    → Fits r
    → (incorporates r addr ≡ true) ↔ ((r.base ≤ addr) × (addr < r.base + r.extent))
unfolding incorporates
incorporates_iff r addr h = ground arith

-- Two ranges that are not empty and do not reach the end of the address space overlap, by the four
-- tests of `overlaps`, exactly if some address belongs to both.
pub overlaps_iff :
    (a b : Range)
    → Fits a
    → Fits b
    → 0 < a.extent
    → 0 < b.extent
    → (overlaps a b ≡ true)
      ↔ ((addr : ℕ) × (incorporates a addr ≡ true) × (incorporates b addr ≡ true))
unfolding overlaps incorporates
overlaps_iff a b ha hb pa pb = (
  λ h. (max a.base b.base, ground arith, ground arith),
  λ h. let (addr, p, q) = h in ground arith,
)

-- A range that ends exactly where the 32-bit addresses end has no address: its end wraps to 0.
pub incorporates_top :
    (r : Range) (addr : ℕ) → r.base + r.extent ≡ 2 ^ 32 → incorporates r addr ≡ false
unfolding incorporates
incorporates_top r addr h = ground arith
