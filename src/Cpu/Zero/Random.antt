-- ===== src/Cpu/Zero/Random.antt =====
-- The register Random of `CPZero`, which `adjust_random` of cpzero.cc moves in every cycle and which
-- names the entry that tlbwr writes.
use cube_sim.Common.{
  Bool-cases, ap, arith, get_or-set_ne, get_or-set_self, inl, inr, leb, leb→le, length, length-set,
  refl, suc, zero, ℕ, ◌%◌, ◌+◌, ◌-◌, ◌<◌, ◌∙◌, ◌≡◌, ◌≢◌, ◌≤◌,
}
use cube_sim.Common.Bits.{shl32, shr}
use cube_sim.Cpu.Zero.{CpZero, put_reg, reg_of, reg_random}
use cube_sim.Cpu.Zero.Trap.{adjust_random}

-- The entry that Random names.
abbrev pub random_of : CpZero → ℕ
random_of z = shr (reg_of z reg_random) 8

-- The registers are there, and Random is in its bounds.
abbrev pub IsValid : CpZero → Type 0
IsValid z = (length z.reg ≡ 32) × ((8 ≤ random_of z) × (random_of z ≤ 63))

pub length-put_reg : (z : CpZero) (r v : ℕ) → length (put_reg r v z).reg ≡ length z.reg
length-put_reg z r v = length-set z.reg r v

pub reg_of-put_reg : (z : CpZero) (r v : ℕ) → r < length z.reg → reg_of (put_reg r v z) r ≡ v
reg_of-put_reg z r v h = get_or-set_self z.reg r v 0 h

pub reg_of-put_reg_other : (z : CpZero) (r q v : ℕ) → r ≢ q → reg_of (put_reg r v z) q ≡ reg_of z q
reg_of-put_reg_other z r q v h = get_or-set_ne z.reg r q v 0 h

-- A cycle counts down and starts again above.
random_of-adjust_random :
    (z : CpZero) → IsValid z → random_of (adjust_random z) ≡ 63 - (64 - random_of z) % 56
unfolding adjust_random
random_of-adjust_random z h =
    rw
      (reg_of-put_reg z reg_random (shl32 (63 - (63 - shr (reg_of z reg_random) 8 + 1) % 56) 8)
        (omega (arith, h.0)))
      (omega (arith, h.1.0, h.1.1))

length-adjust_random : (z : CpZero) → length (adjust_random z).reg ≡ length z.reg
unfolding adjust_random
length-adjust_random z =
    length-put_reg z reg_random (shl32 (63 - (63 - shr (reg_of z reg_random) 8 + 1) % 56) 8)

-- Where there are 32 registers and Random is between 8 and 63, a cycle leaves both so: tlbwr never
-- writes one of the first eight entries of the TLB nor past the last of the 64.
pub adjust_random-IsValid : (z : CpZero) → IsValid z → IsValid (adjust_random z)
adjust_random-IsValid z h = (
  length-adjust_random z ∙ h.0,
  (
    omega (arith, random_of-adjust_random z h, h.1.0, h.1.1),
    omega (arith, random_of-adjust_random z h, h.1.0, h.1.1),
  ),
)

abbrev pub cycles : ℕ → CpZero → CpZero
cycles zero z = z
cycles (suc n) z = cycles n (adjust_random z)

-- From entry `r` the count goes down to `e` when `e` is not above it.
comes_down :
    (n : ℕ) (z : CpZero)
    → IsValid z
    → n + 8 ≤ random_of z
    → random_of (cycles n z) ≡ random_of z - n
comes_down zero z h k = omega arith
comes_down (suc n) z h k =
    let next = random_of-adjust_random z h in
    let rest =
      comes_down n (adjust_random z) (adjust_random-IsValid z h) (omega (arith, next, k, h.1.1)) in
    omega (arith, rest, next, k, h.1.1)

cycles-IsValid : (n : ℕ) (z : CpZero) → IsValid z → IsValid (cycles n z)
cycles-IsValid zero z h = h
cycles-IsValid (suc n) z h = cycles-IsValid n (adjust_random z) (adjust_random-IsValid z h)

cycles_add : (n m k : ℕ) (z : CpZero) → n + m ≡ k → cycles k z ≡ cycles m (cycles n z)
cycles_add zero m k z e = let same : k ≡ m = omega arith in rw (same)
cycles_add (suc n) m zero z e = absurd (omega arith)
cycles_add (suc n) m (suc k) z e = cycles_add n m k (adjust_random z) (omega arith)

down_to :
    (z : CpZero) (e : ℕ)
    → IsValid z
    → 8 ≤ e
    → e ≤ random_of z
    → random_of (cycles (random_of z - e) z) ≡ e
down_to z e h lo le = omega (arith, comes_down (random_of z - e) z h (omega arith))

starts_again :
    (z : CpZero) → IsValid z → random_of (adjust_random (cycles (random_of z - 8) z)) ≡ 63
starts_again z h =
    let bottom = down_to z 8 h (omega arith) h.1.0 in
    let valid = cycles-IsValid (random_of z - 8) z h in
    random_of-adjust_random (cycles (random_of z - 8) z) valid
    ∙ ap (λ (r : ℕ). 63 - (64 - r) % 56) bottom

-- Past the lowest entry the count starts again from the highest.
round_to :
    (z : CpZero) (e : ℕ)
    → IsValid z
    → 8 ≤ e
    → e ≤ 63
    → random_of (cycles (random_of z - 8 + suc (63 - e)) z) ≡ e
round_to z e h lo hi =
    let w = adjust_random (cycles (random_of z - 8) z) in
    let valid = adjust_random-IsValid _ (cycles-IsValid (random_of z - 8) z h) in
    let top : random_of w ≡ 63 = starts_again z h in
    let down = comes_down (63 - e) w valid (omega (arith, top)) in
    rw (cycles_add (random_of z - 8) (suc (63 - e)) _ z refl) (omega (arith, down, top))

-- From every state with 32 registers where Random is between 8 and 63, each entry from 8 to 63 is named
-- by Random after less than 56 cycles.
pub entry_comes :
    (z : CpZero) (e : ℕ)
    → IsValid z
    → 8 ≤ e
    → e ≤ 63
    → (n : ℕ) × ((n < 56) × (random_of (cycles n z) ≡ e))
entry_comes z e h lo hi = elim (Bool-cases (leb e (random_of z))) [
  | inl below ↦
      let le : e ≤ random_of z = leb→le e (random_of z) below in
      (random_of z - e, (omega (arith, h.1.1, lo), down_to z e h lo le))
  | inr above ↦
      let gt : random_of z < e = ground arith in
      (random_of z - 8 + suc (63 - e), (omega (arith, gt, h.1.0), round_to z e h lo hi))
]
