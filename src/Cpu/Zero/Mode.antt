-- ===== src/Cpu/Zero/Mode.antt =====
-- The mode bits of Status through an exception and its return, cpzero.cc.
use cube_sim.Common.{
  Bool, List, ap, arith, bit_and, bit_or, false, get_or, get_or-set_ne, get_or-set_self, length,
  length-set, refl, set, true, ℕ, ◌%◌, ◌*◌, ◌/◌, ◌<◌, ◌^◌, ◌∙◌, ◌≡◌, ◌≢◌,
}
use cube_sim.Common.Bits.{bit_and_bit, bit_and_high, bit_and_low, bit_or_low, shl32, shr}
use cube_sim.Cpu.Zero.{CpZero, kernel_mode, reg_epc, reg_of, reg_status, test_bits}
use cube_sim.Cpu.Zero.Trap.{enter_exception, interrupt_pending, rfe_emulate}

-- The bits IEc, KUc, IEp and KUp of a status word.
abbrev pub mode_bits : ℕ → ℕ
mode_bits s = s % 16

-- Both words stand for a status word with three pairs of bits, which moves by one pair.
entered_low : (s : ℕ) → bit_or (bit_and s 0xffffffc0) (shl32 (bit_and s 0x3f) 2) % 64 ≡ s % 16 * 4
entered_low s =
    rw (bit_and_high 6 s 0x3ffffff, bit_or_low 6 (bit_and (s / 2 ^ 6) 0x3ffffff), bit_and_low 6 s)
      (omega arith)

returned_low : (s : ℕ) → bit_or (bit_and s 0xfffffff0) (bit_and (shr s 2) 0xf) % 16 ≡ s % 64 / 4
returned_low s =
    rw
      (
        bit_and_high 4 s 0xfffffff,
        bit_or_low 4 (bit_and (s / 2 ^ 4) 0xfffffff),
        bit_and_low 4 (shr s 2),
      )
      (omega arith)

other_reg : (xs : List ℕ) (r q v : ℕ) → r ≢ q → get_or (set xs r v) q 0 ≡ get_or xs q 0
other_reg xs r q v h = get_or-set_ne xs r q v 0 h

-- EPC, Status and twice Cause are written.
abbrev written : List ℕ → ℕ → ℕ → ℕ → ℕ → List ℕ
written xs e s c d = set (set (set (set xs 14 e) 12 s) 13 c) 13 d

status_written : (xs : List ℕ) (e s c d : ℕ) → length xs ≡ 32 → get_or (written xs e s c d) 12 0 ≡ s
status_written xs e s c d h =
    let room : 12 < length (set xs 14 e) = omega (arith, length-set xs 14 e, h) in
    other_reg (set (set (set xs 14 e) 12 s) 13 c) 13 12 d (λ k. omega arith)
    ∙ other_reg (set (set xs 14 e) 12 s) 13 12 c (λ k. omega arith)
    ∙ get_or-set_self (set xs 14 e) 12 s 0 room

epc_written : (xs : List ℕ) (e s c d : ℕ) → length xs ≡ 32 → get_or (written xs e s c d) 14 0 ≡ e
epc_written xs e s c d h =
    other_reg (set (set (set xs 14 e) 12 s) 13 c) 13 14 d (λ k. omega arith)
    ∙ other_reg (set (set xs 14 e) 12 s) 13 14 c (λ k. omega arith)
    ∙ other_reg (set xs 14 e) 12 14 s (λ k. omega arith)
    ∙ get_or-set_self xs 14 e 0 (omega (arith, h))

abbrev pub entered : CpZero → ℕ
entered z =
    bit_or (bit_and (reg_of z reg_status) 0xffffffc0) (shl32 (bit_and (reg_of z reg_status) 0x3f) 2)

-- An exception is raised.
module _ (hw pc code ce : ℕ) (dly : Bool) (z : CpZero) (h : length z.reg ≡ 32) where
  length-enter_exception : length (enter_exception hw pc code ce dly z).reg ≡ 32
  unfolding enter_exception
  length-enter_exception = simp length-set h

  pub status_entered : reg_of (enter_exception hw pc code ce dly z) reg_status ≡ entered z
  unfolding enter_exception
  status_entered =
      status_written z.reg pc _ _ _ h
      ∙ ap (λ (s : ℕ). bit_or (bit_and s 0xffffffc0) (shl32 (bit_and s 0x3f) 2))
          (other_reg z.reg 14 12 pc (λ e. omega arith))

  low_entered :
      reg_of (enter_exception hw pc code ce dly z) reg_status % 64 ≡ reg_of z reg_status % 16 * 4
  low_entered = ap (λ (s : ℕ). s % 64) status_entered ∙ entered_low (reg_of z reg_status)

  epc_entered : reg_of (enter_exception hw pc code ce dly z) reg_epc ≡ pc
  unfolding enter_exception
  epc_entered = epc_written z.reg pc _ _ _ h

-- A clear bit is not found.
bit_clear : (k s : ℕ) → s / 2 ^ k % 2 ≡ 0 → test_bits s (2 ^ k) ≡ false
unfolding test_bits
bit_clear k s h =
    let none_left : 0 * 2 ^ k ≡ 0 = omega arith in rw (bit_and_bit k s, h, none_left) refl

-- Where there are 32 registers, in the handler of an exception the processor is in kernel mode and
-- takes no interrupt, whatever the lines are, and EPC has the address that the exception was given.
pub enter_exception_guards :
    (hw pc code ce : ℕ) (dly : Bool) (z : CpZero)
    → length z.reg ≡ 32
    → (kernel_mode (enter_exception hw pc code ce dly z) ≡ true)
      × ((lines : ℕ) → interrupt_pending lines (enter_exception hw pc code ce dly z) ≡ false)
      × (reg_of (enter_exception hw pc code ce dly z) reg_epc ≡ pc)
unfolding kernel_mode interrupt_pending
enter_exception_guards hw pc code ce dly z h =
    let w = enter_exception hw pc code ce dly z in
    let low = low_entered hw pc code ce dly z h in
    let user : test_bits (reg_of w reg_status) 0x2 ≡ false =
      bit_clear 1 (reg_of w reg_status) (omega (arith, low)) in
    let enabled : test_bits (reg_of w reg_status) 0x1 ≡ false =
      bit_clear 0 (reg_of w reg_status) (omega (arith, low)) in
    (simp user refl, (λ lines. simp enabled refl), epc_entered hw pc code ce dly z h)

-- Where there are 32 registers, a return from the handler of an exception gives back the mode and the
-- interrupt enable of the interrupted program, and those of the program before it.
pub rfe_emulate-enter_exception :
    (hw pc code ce : ℕ) (dly : Bool) (z : CpZero)
    → length z.reg ≡ 32
    → mode_bits (reg_of (rfe_emulate (enter_exception hw pc code ce dly z)) reg_status)
      ≡ mode_bits (reg_of z reg_status)
unfolding rfe_emulate
rfe_emulate-enter_exception hw pc code ce dly z h =
    let w = enter_exception hw pc code ce dly z in
    let s = reg_of w reg_status in
    let room : 12 < length w.reg = omega (arith, length-enter_exception hw pc code ce dly z h) in
    ap mode_bits
      (get_or-set_self w.reg 12 (bit_or (bit_and s 0xfffffff0) (bit_and (shr s 2) 0xf)) 0 room)
    ∙ returned_low s
    ∙ omega (arith, low_entered hw pc code ce dly z h)
