-- ===== src/Cpu/Zero/Translate.antt =====
-- What the translation of addresses lets through, cpzero.cc.
use cube_sim.Common.{
  Bool, Bool-cases, List, Option, Option-cases, [], arith, bit_and, bit_or, false, get_or, inl, inr,
  length, some, suc, true, zero, ℕ, ◌&&◌, ◌+◌, ◌<◌, ◌==◌, ◌||◌, ◌∷◌, ◌≡◌,
}
use cube_sim.Cpu.Zero.{
  CpZero, TlbEntry, kernel_mode, mask_asid, mask_vpn, reg_entry_hi, reg_of, test_bits, tlb_asid,
  tlb_dirty, tlb_global, tlb_pfn, tlb_valid, tlb_vpn,
}
use cube_sim.Cpu.Zero.Tlb.{
  address_trans, entry_of, find_entry, find_matching_tlb_entry, is_store, mapped, no_entry,
  tlb_entry, tlb_found, tlb_refuse, tlb_translate,
}
use cube_sim.Common.Bits.{not32}
use cube_sim.Memory.Mapper.{AccessMode}

-- What the search looks for in an entry.
unfoldable pub fits : ℕ → ℕ → TlbEntry → Bool
unfolding tlb_vpn tlb_asid tlb_global test_bits
fits vpn asid e = tlb_vpn e == vpn && (tlb_global e || tlb_asid e == asid)

-- The entry at `i` fits, and none before it does.
abbrev pub IsFirst : ℕ → ℕ → List TlbEntry → ℕ → Type 0
IsFirst vpn asid es i =
    (i < length es)
    × (fits vpn asid (get_or es i no_entry) ≡ true)
    × ((j : ℕ) → j < i → fits vpn asid (get_or es j no_entry) ≡ false)

IsFirst-later :
    (vpn asid : ℕ) (e : TlbEntry) (es : List TlbEntry) (i : ℕ)
    → fits vpn asid e ≡ false
    → IsFirst vpn asid es i
    → IsFirst vpn asid (e ∷ es) (suc i)
IsFirst-later vpn asid e es i f h = (omega (arith, h.0), h.1, before)
  where
    before : (j : ℕ) → j < suc i → fits vpn asid (get_or (e ∷ es) j no_entry) ≡ false
    before zero k = f
    before (suc j) k = h.2 j (omega (arith, k))

find_entry-IsFirst :
    (vpn asid x y : ℕ) (es : List TlbEntry)
    → find_entry vpn asid x es ≡ some y
    → (i : ℕ) × (y ≡ x + i) × IsFirst vpn asid es i
unfolding find_entry fits
find_entry-IsFirst vpn asid x y [] h = cc
find_entry-IsFirst vpn asid x y (e ∷ es) h = elim (Bool-cases (fits vpn asid e)) [
  | inl f ↦ (0, ground arith, (omega arith, f, λ j lt. absurd (omega arith)))
  | inr f ↦
      let rest = find_entry-IsFirst vpn asid (x + 1) y es (rw f at h) in
      (suc rest.0, omega (arith, rest.1), IsFirst-later vpn asid e es rest.0 f rest.2)
]

-- The virtual page and the address space that a translation looks for.
abbrev pub page : ℕ → ℕ
page vaddr = bit_and vaddr mask_vpn

abbrev pub space : CpZero → ℕ
space z = bit_and (reg_of z reg_entry_hi) mask_asid

-- What a translation through entry `i` has to be.
pub record Through (z : CpZero) (vaddr : ℕ) (mode : Option AccessMode) (p : ℕ) (i : ℕ)
    : Type 0 where
  pub first : IsFirst (page vaddr) (space z) z.tlb i
  pub is_valid : tlb_valid (entry_of z i) ≡ true
  pub may_store : is_store mode ≡ true → tlb_dirty (entry_of z i) ≡ true
  pub frame : p ≡ bit_or (tlb_pfn (entry_of z i)) (bit_and vaddr (not32 mask_vpn))

IsFirst-found :
    (vpn asid i : ℕ) (es : List TlbEntry)
    → find_entry vpn asid 0 es ≡ some i
    → IsFirst vpn asid es i
IsFirst-found vpn asid i es h =
    let found = find_entry-IsFirst vpn asid 0 i es h in
    let same : found.0 ≡ i = omega (arith, found.1) in rw (← same) found.2

found_Through :
    (z : CpZero) (vaddr : ℕ) (mode : Option AccessMode) (i p : ℕ) (c : Bool)
    → find_entry (page vaddr) (space z) 0 z.tlb ≡ some i
    → (tlb_found (entry_of z i) vaddr mode z).1 ≡ mapped p c
    → Through z vaddr mode p i
unfolding tlb_found tlb_refuse
found_Through z vaddr mode i p c e h = elim (Bool-cases (tlb_valid (entry_of z i))) [
  | inl v ↦ record {
    first = IsFirst-found (page vaddr) (space z) i z.tlb e;
    is_valid = v;
    may_store = ground arith;
    frame = ground arith;
  }
  | inr v ↦ absurd (ground arith)
]

translated_Through :
    (z : CpZero) (kuseg : Bool) (vaddr : ℕ) (mode : Option AccessMode) (p : ℕ) (c : Bool)
    → (tlb_translate kuseg vaddr mode z).1 ≡ mapped p c
    → (i : ℕ) × Through z vaddr mode p i
unfolding tlb_translate tlb_entry find_matching_tlb_entry tlb_refuse
translated_Through z kuseg vaddr mode p c h =
    elim (Option-cases (find_entry (page vaddr) (space z) 0 z.tlb)) [
      | inl e ↦ absurd (ground arith)
      | inr (i, e) ↦ (i, found_Through z vaddr mode i p c e (rw e at h))
    ]

-- A program in user mode gets at memory only through the first entry of the TLB that fits the page
-- and its address space, only when that entry is valid, and for a store only when it is dirty; its
-- address is below the kernel's half, and the frame is the one of the entry.
pub address_trans_user :
    (z : CpZero) (vaddr : ℕ) (mode : Option AccessMode) (p : ℕ) (c : Bool)
    → kernel_mode z ≡ false
    → (address_trans vaddr mode z).1 ≡ mapped p c
    → (test_bits vaddr 0x80000000 ≡ false) × ((i : ℕ) × Through z vaddr mode p i)
unfolding address_trans
address_trans_user z vaddr mode p c user h = elim (Bool-cases (test_bits vaddr 0x80000000)) [
  | inl k ↦ absurd (ground arith)
  | inr k ↦ (k, translated_Through z true vaddr mode p c (rw (user, k) at h))
]
