-- ===== src/Interrupts/Lines.antt =====
-- Which lines the controller shows, intctrl.cc and deviceint.cc.
use cube_sim.Common.{List, [], arith, get_or, inl, inr, ℕ, ◌↔◌, ◌∷◌, ◌≡◌, ◌≤◌, ◌⊎◌}
use cube_sim.Common.Bits.{bit_at, bit_at-bit_or}
use cube_sim.Interrupts.{DeviceInt, calculate_ip, no_device}

-- Some device of the controller has line `k` asserted.
abbrev pub SomeAsserts : ℕ → List DeviceInt → List ℕ → Type 0
SomeAsserts k all [] = ⊥
SomeAsserts k all (i ∷ devs) =
    (bit_at k (get_or all i no_device).lines_asserted ≡ 1) ⊎ SomeAsserts k all devs

bit_cases : (k a : ℕ) → (bit_at k a ≡ 0) ⊎ (bit_at k a ≡ 1)
bit_cases k a = ground arith

bit_bound : (k a : ℕ) → bit_at k a ≤ 1
bit_bound k a = omega arith

bit_zero : (k : ℕ) → bit_at k 0 ≡ 0
bit_zero k = grind arith

-- A line is up in the word of the controller exactly when a device that is connected to it asserts
-- that line.
pub calculate_ip_iff :
    (k : ℕ) (all : List DeviceInt) (devs : List ℕ)
    → (bit_at k (calculate_ip all devs) ≡ 1) ↔ SomeAsserts k all devs
unfolding calculate_ip
calculate_ip_iff k all [] = (λ h. absurd (omega (arith, bit_zero k, h)), λ h. absurd h)
calculate_ip_iff k all (i ∷ devs) =
    let own = (get_or all i no_device).lines_asserted in
    let others = calculate_ip all devs in
    let both = bit_at-bit_or k others own in
    let rest = calculate_ip_iff k all devs in
    (
      λ h. elim (bit_cases k own) [
        | inl z ↦ inr (rest.0 (omega (arith, both, z, h)))
        | inr o ↦ inl o
      ],
      λ h. elim h [
        | inl o ↦ omega (arith, both, o, bit_bound k others)
        | inr r ↦ omega (arith, both, rest.1 r, bit_bound k own)
      ],
    )
