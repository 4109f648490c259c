-- ===== src/Cpu/Zero/Tlb.antt =====
-- The TLB of `CPZero` and the translation of addresses, cpzero.cc, and the TLB instructions.
use cube_sim.Common.{
  Bool, List, Option, [], bit_and, bit_or, false, get_or, if◌then◌else◌, none, not, set, some, true,
  ℕ, ◌&&◌, ◌+◌, ◌==◌, ◌^◌, ◌||◌, ◌∷◌,
}
use cube_sim.Common.Bits.{not32, shl32, shr, sub32}
use cube_sim.Cpu.Zero.{
  CpZero, TlbEntry, kernel_mode, mask_asid, mask_bad_vpn, mask_index_index, mask_vpn, put_reg,
  read_reg, reg_bad_vaddr, reg_context, reg_entry_hi, reg_entry_lo, reg_index, reg_of, reg_random,
  test_bits, tlb_asid, tlb_dirty, tlb_global, tlb_noncacheable, tlb_pfn, tlb_valid, tlb_vpn,
  write_masks,
}
use cube_sim.Memory.Mapper.{AccessMode, datastore}
use cube_sim.Cpu.Except.{exc_adel, exc_ades, exc_mod, exc_tlbl, exc_tlbs}

-- The loop of `find_matching_tlb_entry`, from entry `x` on.
unfoldable pub find_entry : ℕ → ℕ → ℕ → List TlbEntry → Option ℕ
unfolding tlb_vpn tlb_asid tlb_global test_bits
find_entry vpn asid x [] = none
find_entry vpn asid x (e ∷ es) =
    if tlb_vpn e == vpn && (tlb_global e || tlb_asid e == asid)
    then some x
    else find_entry vpn asid (x + 1) es

unfoldable pub find_matching_tlb_entry : ℕ → ℕ → CpZero → Option ℕ
find_matching_tlb_entry vpn asid z = find_entry vpn asid 0 z.tlb

unfoldable pub load_addr_trans_excp_info : ℕ → CpZero → CpZero
load_addr_trans_excp_info va z =
    let z₁ = put_reg reg_bad_vaddr va z in
    let z₂ =
      put_reg reg_context
        (bit_or (bit_and (reg_of z₁ reg_context) (not32 mask_bad_vpn))
          (shr (bit_and va 0x7ffff000) 10))
        z₁ in
    put_reg reg_entry_hi
      (bit_or (bit_and va mask_vpn) (bit_and (reg_of z₂ reg_entry_hi) (not32 mask_vpn))) z₂

-- A translation gives an address and whether it is cacheable, or raises an exception; the address is
-- then 0xffffffff.
pub data Translation : Type 0 where
  mapped : ℕ → Bool → Translation
  refused : ℕ → Option AccessMode → Translation

abbrev pub is_store : Option AccessMode → Bool
is_store (some datastore) = true
is_store _ = false

abbrev pub no_entry : TlbEntry
no_entry = record { entry_hi = 0; entry_lo = 0 }

abbrev pub entry_of : CpZero → ℕ → TlbEntry
entry_of z i = get_or z.tlb i no_entry

-- What follows the search, when it found nothing or an entry that is not valid.
unfoldable pub tlb_refuse : Bool → ℕ → Option AccessMode → CpZero → CpZero × Translation
tlb_refuse user vaddr mode z = (
  load_addr_trans_excp_info vaddr (record z { tlb_miss_user = user }),
  refused (if is_store mode then exc_tlbs else exc_tlbl) mode,
)

unfoldable pub tlb_found : TlbEntry → ℕ → Option AccessMode → CpZero → CpZero × Translation
unfolding tlb_valid tlb_dirty tlb_noncacheable tlb_pfn test_bits
tlb_found e vaddr mode z =
    if tlb_valid e
    then (if is_store mode && not (tlb_dirty e)
        then (
          load_addr_trans_excp_info vaddr (record z { tlb_miss_user = false }),
          refused exc_mod (some datastore),
        )
        else (
          record z { tlb_miss_user = false },
          mapped (bit_or (tlb_pfn e) (bit_and vaddr (not32 mask_vpn))) (not (tlb_noncacheable e)),
        ))
    else tlb_refuse false vaddr mode z

unfoldable pub tlb_entry : Bool → ℕ → Option AccessMode → CpZero → Option ℕ → CpZero × Translation
tlb_entry kuseg vaddr mode z none = tlb_refuse kuseg vaddr mode z
tlb_entry kuseg vaddr mode z (some i) = tlb_found (entry_of z i) vaddr mode z

-- `seg` is KUSEG or not.
unfoldable pub tlb_translate : Bool → ℕ → Option AccessMode → CpZero → CpZero × Translation
tlb_translate kuseg vaddr mode z =
    tlb_entry kuseg vaddr mode z (
      find_matching_tlb_entry (bit_and vaddr mask_vpn) (bit_and (reg_of z reg_entry_hi) mask_asid)
        z)

-- KSEG_SELECT_MASK, KSEG0, KSEG1, KSEG2 and KSEG2_top.
abbrev pub kseg : ℕ → ℕ
kseg vaddr = bit_and vaddr 0xe0000000

abbrev pub kseg0 : ℕ
kseg0 = 0x80000000

abbrev pub kseg1 : ℕ
kseg1 = 0xa0000000

unfoldable pub address_trans : ℕ → Option AccessMode → CpZero → CpZero × Translation
unfolding test_bits
address_trans vaddr mode z =
    if kernel_mode z
    then (if kseg vaddr == kseg0
        then (z, mapped vaddr true)
        else (if kseg vaddr == kseg1
            then (z, mapped vaddr false)
            else tlb_translate (not (kseg vaddr == 0xc0000000 || kseg vaddr == 0xe0000000)) vaddr
                mode z))
    else (if test_bits vaddr 0x80000000
        then (z, refused (if is_store mode then exc_ades else exc_adel) mode)
        else tlb_translate true vaddr mode z)

unfoldable pub debug_entry : ℕ → CpZero → Option ℕ → Option ℕ
unfolding tlb_valid tlb_pfn test_bits
debug_entry vaddr z none = none
debug_entry vaddr z (some i) =
    if tlb_valid (entry_of z i)
    then some (bit_or (tlb_pfn (entry_of z i)) (bit_and vaddr (not32 mask_vpn)))
    else none

-- `none` for the result false, where `*paddr` is 0xffffffff.
unfoldable pub debug_tlb_translate : ℕ → CpZero → Option ℕ
unfolding test_bits
debug_tlb_translate vaddr z =
    if not (kernel_mode z) && test_bits vaddr 0x80000000
    then none
    else (if kernel_mode z && kseg vaddr == kseg0
        then some (sub32 vaddr 0x80000000)
        else (if kernel_mode z && kseg vaddr == kseg1
            then some (sub32 vaddr 0xa0000000)
            else debug_entry vaddr z (
                find_matching_tlb_entry (bit_and vaddr mask_vpn)
                  (bit_and (reg_of z reg_entry_hi) mask_asid) z)))

-- Index_Index and Random_Random, moved down by 8 bits.
abbrev pub entry_number : ℕ → ℕ
entry_number w = shr (bit_and w mask_index_index) 8

unfoldable pub tlbr_emulate : CpZero → CpZero
tlbr_emulate z =
    let e = entry_of z (entry_number (reg_of z reg_index)) in
    put_reg reg_entry_lo (bit_and e.entry_lo (get_or write_masks reg_entry_lo 0))
      (put_reg reg_entry_hi (bit_and e.entry_hi (get_or write_masks reg_entry_hi 0)) z)

unfoldable pub tlb_write : ℕ → ℕ → CpZero → CpZero
tlb_write hw i z = record z {
  tlb = set z.tlb i (record {
    entry_hi = (read_reg hw reg_entry_hi z).1;
    entry_lo = (read_reg hw reg_entry_lo z).1;
  });
}

unfoldable pub tlbwi_emulate : ℕ → CpZero → CpZero
tlbwi_emulate hw z = tlb_write hw (entry_number (reg_of z reg_index)) z

unfoldable pub tlbwr_emulate : ℕ → CpZero → CpZero
tlbwr_emulate hw z = tlb_write hw (entry_number (reg_of z reg_random)) z

unfoldable pub probe_result : Option ℕ → ℕ
probe_result none = 2 ^ 31
probe_result (some i) = shl32 i 8

unfoldable pub tlbp_emulate : CpZero → CpZero
tlbp_emulate z =
    let hi = reg_of z reg_entry_hi in
    put_reg reg_index
      (probe_result (find_matching_tlb_entry (bit_and hi mask_vpn) (bit_and hi mask_asid) z)) z
