-- ===== src/Cpu/Handle/Vector.antt =====
-- Where the processor goes with an exception, cpu.cc and cpzero.cc.
use cube_sim.Common.{
  Bool, ap, arith, bit_and, bit_or, false, if◌then◌else◌, length, not, refl, sym, true, ℕ, ◌%◌,
  ◌&&◌, ◌*◌, ◌+◌, ◌/◌, ◌<◌, ◌==◌, ◌^◌, ◌||◌, ◌∙◌, ◌≡◌, ◌≤◌,
}
use cube_sim.Common.Bits.{
  add32, bit_and_bit, bit_and_high, bit_and_low, bit_at, bit_at-bit_or, shl32,
}
use cube_sim.Cpu.Zero.{CpZero, kernel_mode, reg_epc, reg_of, reg_status, test_bits}
use cube_sim.Cpu.Zero.Trap.{enter_exception, interrupt_pending, use_boot_excp_address}
use cube_sim.Cpu.Zero.Mode.{enter_exception_guards, status_entered}
use cube_sim.Cpu.Except.{ExcInfo}
use cube_sim.Cpu.Handle.{base_of, epc_of, handle, is_tlb_miss, vector_of}

boot_bit :
    (s : ℕ) → bit_at 22 (bit_or (bit_and s 0xffffffc0) (shl32 (bit_and s 0x3f) 2)) ≡ bit_at 22 s
boot_bit s =
    let upper : bit_and s 0xffffffc0 ≡ s / 2 ^ 6 % 2 ^ 26 * 2 ^ 6 =
      bit_and_high 6 s 0x3ffffff ∙ omega (arith, bit_and_low 26 (s / 2 ^ 6)) in
    let moved : shl32 (bit_and s 0x3f) 2 ≡ s % 64 * 4 = omega (arith, bit_and_low 6 s) in
    let high : bit_at 22 (bit_and s 0xffffffc0) ≡ bit_at 22 s = rw upper (omega arith) in
    let low : bit_at 22 (shl32 (bit_and s 0x3f) 2) ≡ 0 = rw moved (omega arith) in
    omega (arith, bit_at-bit_or 22 (bit_and s 0xffffffc0) (shl32 (bit_and s 0x3f) 2), high, low)

-- The bit BEV is not touched by an exception.
boot_kept :
    (hw pc code ce : ℕ) (dly : Bool) (z : CpZero)
    → length z.reg ≡ 32
    → use_boot_excp_address (enter_exception hw pc code ce dly z) ≡ use_boot_excp_address z
unfolding use_boot_excp_address test_bits
boot_kept hw pc code ce dly z h =
    let s = reg_of z reg_status in
    let w = reg_of (enter_exception hw pc code ce dly z) reg_status in
    let same : w / 2 ^ 22 % 2 ≡ s / 2 ^ 22 % 2 =
      ap (bit_at 22) (status_entered hw pc code ce dly z h) ∙ boot_bit s in
    ap (λ (b : ℕ). not (b == 0))
      (bit_and_bit 22 w ∙ ap (λ (b : ℕ). b * 2 ^ 22) same ∙ sym (bit_and_bit 22 s))

miss_kept :
    (hw pc code ce : ℕ) (dly : Bool) (z : CpZero)
    → (enter_exception hw pc code ce dly z).tlb_miss_user ≡ z.tlb_miss_user
unfolding enter_exception
miss_kept hw pc code ce dly z = refl

base_bound : (z : CpZero) → base_of z ≤ 0xbfc00100
unfolding base_of
base_bound z = ground arith

vector_bound : (code : ℕ) (z : CpZero) → vector_of code z ≤ 0x080
unfolding vector_of
vector_bound code z = ground arith

base_kept :
    (hw pc code ce : ℕ) (dly : Bool) (z : CpZero)
    → length z.reg ≡ 32
    → base_of (enter_exception hw pc code ce dly z) ≡ base_of z
unfolding base_of
base_kept hw pc code ce dly z h =
    ap (λ (b : Bool). if b then 0xbfc00100 else 0x80000000) (boot_kept hw pc code ce dly z h)

vector_kept :
    (hw pc code ce : ℕ) (dly : Bool) (z : CpZero)
    → vector_of code (enter_exception hw pc code ce dly z) ≡ vector_of code z
unfolding vector_of
vector_kept hw pc code ce dly z =
    ap (λ (b : Bool). if is_tlb_miss code && b then 0x000 else 0x080)
      (miss_kept hw pc code ce dly z)

-- The entry points of the handlers of a MIPS R3000, by the boot bit and by whether a TLB miss in user
-- space is the reason.
abbrev pub entry_point : Bool → Bool → ℕ
entry_point false true = 0x80000000
entry_point false false = 0x80000080
entry_point true true = 0xbfc00100
entry_point true false = 0xbfc00180

abbrev pub boots : CpZero → Bool
boots z = reg_of z reg_status / 2 ^ 22 % 2 == 1

-- The codes 2 and 3 are those of a TLB miss.
abbrev pub user_miss : ℕ → CpZero → Bool
user_miss code z = (code == 2 || code == 3) && z.tlb_miss_user

base_of-boots : (z : CpZero) → base_of z ≡ (if boots z then 0xbfc00100 else 0x80000000)
unfolding base_of use_boot_excp_address test_bits
base_of-boots z = ground (arith, bit_and_bit 22 (reg_of z reg_status))

entry_lem :
    (code : ℕ) (z : CpZero)
    → base_of z + vector_of code z ≡ entry_point (boots z) (user_miss code z)
unfolding vector_of
entry_lem code z = ground (arith, base_of-boots z)

epc_of_lem :
    (pc : ℕ) (delay_slot : Bool)
    → pc < 2 ^ 32
    → (if delay_slot then add32 (epc_of pc delay_slot) 4 else epc_of pc delay_slot) ≡ pc
unfolding epc_of
epc_of_lem pc delay_slot h = ground arith

-- Where there are 32 registers and `pc` is an address, an exception goes to the entry point that the bit
-- BEV of Status, bit 22, and a TLB miss in user space name; the processor is then in kernel mode and takes
-- no interrupt, whatever the lines are; and EPC is `pc`, or 4 below it, where the branch is, if `pc` is in a
-- delay slot.
pub handle_lem :
    (hw pc : ℕ) (delay_slot : Bool) (x : ExcInfo) (z : CpZero)
    → length z.reg ≡ 32
    → pc < 2 ^ 32
    → let z₁ = (handle hw pc delay_slot x z).0 in
      (add32 (handle hw pc delay_slot x z).1 4 ≡ entry_point (boots z) (user_miss x.exc_code z))
      × (kernel_mode z₁ ≡ true)
      × ((lines : ℕ) → interrupt_pending lines z₁ ≡ false)
      × ((if delay_slot then add32 (reg_of z₁ reg_epc) 4 else reg_of z₁ reg_epc) ≡ pc)
unfolding handle
handle_lem hw pc delay_slot x z h small =
    let epc = epc_of pc delay_slot in
    let guards = enter_exception_guards hw epc x.exc_code x.coprocno false z h in
    (
      omega (
        arith,
        base_kept hw epc x.exc_code x.coprocno false z h,
        vector_kept hw epc x.exc_code x.coprocno false z,
        base_bound z,
        vector_bound x.exc_code z,
      )
          ∙ entry_lem x.exc_code z,
      guards.0,
      guards.1,
      ap (λ (e : ℕ). if delay_slot then add32 e 4 else e) guards.2 ∙ epc_of_lem pc delay_slot small,
    )
