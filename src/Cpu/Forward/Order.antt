-- ===== src/Cpu/Forward/Order.antt =====
-- Forwarding against the order of the program, cpu.cc.
use cube_sim.Common.{
  Bool-cases, List, ap, arith, get_or, get_or-set_ne, get_or-set_self, if◌then◌else◌, inl, inr,
  length, length-set, refl, set, sym, ℕ, ℕ_discrete, ◌<◌, ◌==◌, ◌∙◌, ◌≡◌,
}
use cube_sim.Cpu.Forward.{
  InFlight, Source, Stages, forward, forward_late, of_ex, of_mem, of_reg, of_wb, reg_commit,
}
use cube_sim.Cpu.Decode.{none_reg}

-- The results of the older instructions.
pub record Results : Type 0 where
  pub ex : ℕ
  pub mem : ℕ
  pub wb : ℕ

-- What a pointer leads to.
abbrev pub value_of : Source → List ℕ → Results → ℕ
value_of (of_reg r) reg v = get_or reg r 0
value_of of_ex reg v = v.ex
value_of of_mem reg v = v.mem
value_of of_wb reg v = v.wb

-- The register file once the older instructions have written, the oldest first.
abbrev pub after_all : Stages → Results → List ℕ → List ℕ
after_all s v reg = reg_commit s.ex v.ex (reg_commit s.mem v.mem (reg_commit s.wb v.wb reg))

length-reg_commit : (p : InFlight) (x : ℕ) (reg : List ℕ) → length (reg_commit p x reg) ≡ length reg
unfolding reg_commit
length-reg_commit p x reg = elim (Bool-cases (p.dst == none_reg)) [
  | inl e ↦ simp e refl
  | inr e ↦ simp e (length-set reg p.dst x)
]

-- A register after one more instruction has written.
get_or-reg_commit :
    (p : InFlight) (x src : ℕ) (reg : List ℕ)
    → src < 32
    → length reg ≡ 32
    → get_or (reg_commit p x reg) src 0 ≡ (if src == p.dst then x else get_or reg src 0)
unfolding reg_commit
get_or-reg_commit p x src reg small h = elim (ℕ_discrete p.dst src) [
  | yes e ↦
      let self : get_or (set reg p.dst x) src 0 ≡ x =
        ap (λ (k : ℕ). get_or (set reg p.dst x) k 0) (sym e)
        ∙ get_or-set_self reg p.dst x 0 (omega (arith, e, small, h)) in
      ground (arith, e, self)
  | no ne ↦ let other = get_or-set_ne reg p.dst src x 0 ne in ground (arith, ne, other)
]

-- The pointer that the decode stage chooses for a register leads to what the program means: the value
-- that the register has once all three older instructions have written theirs, in their order. The
-- later pointer, for stored and merged words, leads there once those of MEM and WB have.
pub forward_lem :
    (s : Stages) (v : Results) (reg : List ℕ) (src : ℕ)
    → src < 32
    → length reg ≡ 32
    → (value_of (forward src s) reg v ≡ get_or (after_all s v reg) src 0)
      × (value_of (forward_late src s) (reg_commit s.mem v.mem (reg_commit s.wb v.wb reg)) v
          ≡ get_or (after_all s v reg) src 0)
unfolding forward forward_late
forward_lem s v reg src small h =
    let one = reg_commit s.wb v.wb reg in
    let two = reg_commit s.mem v.mem one in
    let h₁ : length one ≡ 32 = length-reg_commit s.wb v.wb reg ∙ h in
    let h₂ : length two ≡ 32 = length-reg_commit s.mem v.mem one ∙ h₁ in
    let e₀ = get_or-reg_commit s.wb v.wb src reg small h in
    let e₁ = get_or-reg_commit s.mem v.mem src one small h₁ in
    let e₂ = get_or-reg_commit s.ex v.ex src two small h₂ in
    (ground (arith, e₀, e₁, e₂), ground (arith, e₂))
