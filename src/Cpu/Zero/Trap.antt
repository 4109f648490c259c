-- ===== src/Cpu/Zero/Trap.antt =====
-- Exceptions, their return and interrupts in `CPZero`, cpzero.cc.
use cube_sim.Common.{Bool, bit_and, bit_or, false, if◌then◌else◌, ℕ, ◌%◌, ◌+◌, ◌-◌, ◌==◌, ◌^◌}
use cube_sim.Common.Bits.{not32, shl32, shr}
use cube_sim.Cpu.Zero.{
  CpZero, get_ip, mask_cause_ip, mask_ku_ie, put_reg, random_lower, random_upper, reg_bad_vaddr,
  reg_cause, reg_epc, reg_of, reg_random, reg_status, test_bits,
}
use cube_sim.Cpu.Except.{exc_cpu}

unfoldable pub rfe_emulate : CpZero → CpZero
rfe_emulate z =
    let s = reg_of z reg_status in
    put_reg reg_status (bit_or (bit_and s 0xfffffff0) (bit_and (shr s 2) 0xf)) z

unfoldable pub adjust_random : CpZero → CpZero
adjust_random z =
    let r = shr (reg_of z reg_random) 8 in
    put_reg reg_random
      (shl32 (random_upper - (random_upper - r + 1) % (random_upper - random_lower + 1)) 8) z

-- The fields BD, CE and ExcCode of Cause; `ce` is used for an unusable coprocessor.
unfoldable pub enter_exception : ℕ → ℕ → ℕ → ℕ → Bool → CpZero → CpZero
unfolding get_ip
enter_exception hw pc code ce dly z =
    let z₁ = put_reg reg_epc pc z in
    let s = reg_of z₁ reg_status in
    let z₂ =
      put_reg reg_status (bit_or (bit_and s (not32 mask_ku_ie)) (shl32 (bit_and s mask_ku_ie) 2))
        z₁ in
    let c = bit_and (reg_of z₂ reg_cause) (not32 (0x80000000 + 0x30000000 + 0x7c)) in
    let c₁ = if code == exc_cpu then bit_or c (shl32 (bit_and ce 0x3) 28) else c in
    let z₃ = put_reg reg_cause (bit_and c₁ (not32 mask_cause_ip)) z₂ in
    put_reg reg_cause
      (bit_or (reg_of z₃ reg_cause)
        (bit_or (bit_or (get_ip hw z₃) (if dly then 2 ^ 31 else 0)) (shl32 code 2)))
      z₃

unfoldable pub use_boot_excp_address : CpZero → Bool
unfolding test_bits
use_boot_excp_address z = test_bits (reg_of z reg_status) 0x400000

unfoldable pub caches_isolated : CpZero → Bool
unfolding test_bits
caches_isolated z = test_bits (reg_of z reg_status) 0x10000

unfoldable pub caches_swapped : CpZero → Bool
unfolding test_bits
caches_swapped z = test_bits (reg_of z reg_status) 0x20000

-- Coprocessors 0 to 3; the program ends on another number.
unfoldable pub cop_usable : ℕ → CpZero → Bool
unfolding test_bits
cop_usable n z = test_bits (reg_of z reg_status) (2 ^ (28 + n))

unfoldable pub interrupt_pending : ℕ → CpZero → Bool
unfolding test_bits get_ip
interrupt_pending hw z =
    if test_bits (reg_of z reg_status) 0x1
    then test_bits (get_ip hw z) (bit_and (reg_of z reg_status) 0xff00)
    else false

unfoldable pub write_debug_info : ℕ → ℕ → ℕ → CpZero → CpZero
write_debug_info status bad cause z =
    put_reg reg_cause cause (put_reg reg_bad_vaddr bad (put_reg reg_status status z))
