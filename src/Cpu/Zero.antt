-- ===== src/Cpu/Zero.antt =====
-- `CPZero`, cpzero.h and cpzero.cc, with the masks of cpzeroreg.h and `TLBEntry` of tlbentry.h. What the
-- interrupt controller says, `calculateIP`, is the argument `hw`. An exception that is raised in the
-- client is part of a result. The dumps and the messages are left out.
pub mod Tlb
pub mod Random
pub mod Mode
pub mod Dispatch
pub mod Access
pub mod Translate
pub mod Trap
use cube_sim.Common.{
  Bool, List, bit_and, bit_or, get_or, if◌then◌else◌, not, replicate, set, ℕ, ◌+◌, ◌==◌, ◌∷◌,
}
use cube_sim.Common.Bits.{not32, shl32}

-- Numbers of registers.
abbrev pub reg_index : ℕ
reg_index = 0

abbrev pub reg_random : ℕ
reg_random = 1

abbrev pub reg_entry_lo : ℕ
reg_entry_lo = 2

abbrev pub reg_context : ℕ
reg_context = 4

abbrev pub reg_bad_vaddr : ℕ
reg_bad_vaddr = 8

abbrev pub reg_entry_hi : ℕ
reg_entry_hi = 10

abbrev pub reg_status : ℕ
reg_status = 12

abbrev pub reg_cause : ℕ
reg_cause = 13

abbrev pub reg_epc : ℕ
reg_epc = 14

abbrev pub reg_pr_id : ℕ
reg_pr_id = 15

abbrev pub reg_cpuid : ℕ
reg_cpuid = 20

-- Masks that are used below.
abbrev pub mask_vpn : ℕ
mask_vpn = 0xfffff000

abbrev pub mask_asid : ℕ
mask_asid = 0xfc0

abbrev pub mask_cause_ip : ℕ
mask_cause_ip = 0xff00

abbrev pub mask_cause_ip_sw : ℕ
mask_cause_ip_sw = 0x300

abbrev pub mask_cause_ip_ext : ℕ
mask_cause_ip_ext = 0xfc00

abbrev pub mask_bad_vpn : ℕ
mask_bad_vpn = 0x1ffffc

abbrev pub mask_index_index : ℕ
mask_index_index = 0x3f00

abbrev pub mask_ku_ie : ℕ
mask_ku_ie = 0x3f

pub record TlbEntry : Type 0 where
  pub entry_hi : ℕ
  pub entry_lo : ℕ

unfoldable pub test_bits : ℕ → ℕ → Bool
test_bits w mask = not (bit_and w mask == 0)

-- The accessors of `TLBEntry`.
unfoldable pub tlb_vpn : TlbEntry → ℕ
tlb_vpn e = bit_and e.entry_hi mask_vpn

unfoldable pub tlb_asid : TlbEntry → ℕ
tlb_asid e = bit_and e.entry_hi mask_asid

unfoldable pub tlb_pfn : TlbEntry → ℕ
tlb_pfn e = bit_and e.entry_lo 0xfffff000

unfoldable pub tlb_noncacheable : TlbEntry → Bool
tlb_noncacheable e = test_bits e.entry_lo 0x800

unfoldable pub tlb_dirty : TlbEntry → Bool
tlb_dirty e = test_bits e.entry_lo 0x400

unfoldable pub tlb_valid : TlbEntry → Bool
tlb_valid e = test_bits e.entry_lo 0x200

unfoldable pub tlb_global : TlbEntry → Bool
tlb_global e = test_bits e.entry_lo 0x100

pub record CpZero : Type 0 where
  pub reg : List ℕ
  pub tlb : List TlbEntry
  pub tlb_miss_user : Bool
  pub cpuid : ℕ

abbrev pub reg_of : CpZero → ℕ → ℕ
reg_of z r = get_or z.reg r 0

abbrev pub put_reg : ℕ → ℕ → CpZero → CpZero
put_reg r v z = record z { reg = set z.reg r v }

unfoldable pub read_masks : List ℕ
read_masks =
    0x80003f00
    ∷ 0x3f00
    ∷ 0xffffff00
    ∷ 0
    ∷ 0xfffffffc
    ∷ 0
    ∷ 0
    ∷ 0
    ∷ 0xffffffff
    ∷ 0
    ∷ 0xffffffc0
    ∷ 0
    ∷ 0xf27fff3f
    ∷ 0xb000ff7c
    ∷ 0xffffffff
    ∷ 0xffff
    ∷ 0
    ∷ 0
    ∷ 0
    ∷ 0
    ∷ 0xffffffff
    ∷ replicate 11 0

unfoldable pub write_masks : List ℕ
write_masks =
    0x80003f00
    ∷ 0
    ∷ 0xffffff00
    ∷ 0
    ∷ bit_and 0xfffffffc (not32 mask_bad_vpn)
    ∷ 0
    ∷ 0
    ∷ 0
    ∷ 0
    ∷ 0
    ∷ 0xffffffc0
    ∷ 0
    ∷ 0xf27fff3f
    ∷ bit_and 0xb000ff7c (not32 mask_cause_ip_ext)
    ∷ replicate 18 0

-- Random_UPPER_BOUND and Random_LOWER_BOUND.
abbrev pub random_upper : ℕ
random_upper = 63

abbrev pub random_lower : ℕ
random_lower = 8

-- Status_KUc, Status_IEc, Status_DS_BEV, Status_DS_SwC and Status_DS_TS.
unfoldable pub reset : CpZero → CpZero
reset z =
    let z₁ = put_reg reg_cause (bit_and (reg_of z reg_cause) (not32 mask_cause_ip)) z in
    let z₂ = put_reg reg_random (shl32 random_upper 8) z₁ in
    let z₃ =
      put_reg reg_status
        (bit_and (bit_or (reg_of z₂ reg_status) 0x400000) (not32 (0x2 + 0x1 + 0x20000 + 0x200000)))
        z₂ in
    put_reg reg_cpuid z.cpuid (put_reg reg_pr_id 0x230 z₃)

unfoldable pub kernel_mode : CpZero → Bool
unfolding test_bits
kernel_mode z = not (test_bits (reg_of z reg_status) 0x2)

unfoldable pub get_ip : ℕ → CpZero → ℕ
get_ip hw z = bit_or (bit_and (reg_of z reg_cause) mask_cause_ip_sw) hw

unfoldable pub update_ip : ℕ → ℕ → CpZero → CpZero
unfolding get_ip
update_ip hw r z =
    if r == reg_cause
    then put_reg reg_cause
        (bit_or (bit_and (reg_of z reg_cause) (not32 mask_cause_ip)) (get_ip hw z)) z
    else z

unfoldable pub read_reg : ℕ → ℕ → CpZero → CpZero × ℕ
read_reg hw r z = let z₁ = update_ip hw r z in (z₁, bit_and (reg_of z₁ r) (get_or read_masks r 0))

unfoldable pub write_reg : ℕ → ℕ → CpZero → CpZero
write_reg r w z =
    let rm = get_or read_masks r 0 in
    let wm = get_or write_masks r 0 in
    put_reg r (bit_or (bit_and (reg_of z r) (bit_and rm (not32 wm))) (bit_and w wm)) z
