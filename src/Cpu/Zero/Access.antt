-- ===== src/Cpu/Zero/Access.antt =====
-- Writes and reads of the registers of coprocessor 0, cpzero.cc.
use cube_sim.Common.{
  ap, arith, bit_and, bit_or, get_or, get_or-set_ne, get_or-set_self, if◌then◌else◌, length, sym, ℕ,
  ℕ_discrete, ◌<◌, ◌==◌, ◌∙◌, ◌≡◌, ◌≢◌,
}
use cube_sim.Cpu.Zero.{CpZero, read_masks, read_reg, reg_of, update_ip, write_masks, write_reg}
use cube_sim.Common.Bits.{bit_and_twice, bit_and_zero, not32, zero-bit_or}

-- A register other than Cause whose readable bits are the writable ones.
abbrev pub IsOpen : ℕ → Type 0
IsOpen r =
    (r < 32)
    × (r ≢ 13)
    × (get_or read_masks r 0 ≡ get_or write_masks r 0)
    × (bit_and (get_or read_masks r 0) (not32 (get_or write_masks r 0)) ≡ 0)

update_ip_other : (hw q : ℕ) (z : CpZero) → q ≢ 13 → update_ip hw q z ≡ z
unfolding update_ip
update_ip_other hw q z h = elim (ℕ_discrete q 13) [ yes e ↦ absurd (h e) | no ne ↦ ground arith ]

reg_of-write_reg :
    (r w : ℕ) (z : CpZero)
    → length z.reg ≡ 32
    → IsOpen r
    → reg_of (write_reg r w z) r ≡ bit_and w (get_or read_masks r 0)
unfolding write_reg
reg_of-write_reg r w z h o =
    let rm = get_or read_masks r 0 in
    let wm = get_or write_masks r 0 in
    let room : r < length z.reg = omega (arith, o.0, h) in
    get_or-set_self z.reg r (bit_or (bit_and (reg_of z r) (bit_and rm (not32 wm))) (bit_and w wm)) 0
      room
    ∙ ap (λ (k : ℕ). bit_or (bit_and (reg_of z r) k) (bit_and w wm)) o.3
    ∙ ap (λ (k : ℕ). bit_or k (bit_and w wm)) (bit_and_zero (reg_of z r))
    ∙ zero-bit_or (bit_and w wm)
    ∙ ap (bit_and w) (sym o.2)

reg_of-write_reg_other : (r q w : ℕ) (z : CpZero) → r ≢ q → reg_of (write_reg r w z) q ≡ reg_of z q
unfolding write_reg
reg_of-write_reg_other r q w z ne = get_or-set_ne z.reg r q _ 0 ne

read_reg_lem :
    (hw q : ℕ) (z : CpZero)
    → q ≢ 13
    → (read_reg hw q z).1 ≡ bit_and (reg_of z q) (get_or read_masks q 0)
unfolding read_reg
read_reg_lem hw q z h =
    ap (λ (y : CpZero). bit_and (reg_of y q) (get_or read_masks q 0)) (update_ip_other hw q z h)

-- Where there are 32 registers, what is written to a register other than Cause whose readable bits are
-- the writable ones, as those of Index, EntryLo, EntryHi and Status are, is read back with the other
-- bits 0, and every register other than Cause and the one that was written reads as before.
pub read_reg-write_reg :
    (hw r q w : ℕ) (z : CpZero)
    → length z.reg ≡ 32
    → IsOpen r
    → q ≢ 13
    → (read_reg hw q (write_reg r w z)).1
      ≡ (if q == r then bit_and w (get_or read_masks r 0) else (read_reg hw q z).1)
read_reg-write_reg hw r q w z h o p = elim (ℕ_discrete r q) [
  | yes e ↦
      let there = read_reg_lem hw r (write_reg r w z) o.1 in
      let value = ap (λ (k : ℕ). bit_and k (get_or read_masks r 0)) (reg_of-write_reg r w z h o) in
      let all = there ∙ value ∙ bit_and_twice w (get_or read_masks r 0) in
      ap (λ (k : ℕ). (read_reg hw k (write_reg r w z)).1) (sym e) ∙ all ∙ chosen q e
  | no ne ↦
      read_reg_lem hw q (write_reg r w z) p
      ∙ ap (λ (k : ℕ). bit_and k (get_or read_masks q 0)) (reg_of-write_reg_other r q w z ne)
      ∙ sym (read_reg_lem hw q z p)
      ∙ left ne
]
  where
    chosen :
        (q : ℕ)
        → r ≡ q
        → bit_and w (get_or read_masks r 0)
          ≡ (if q == r then bit_and w (get_or read_masks r 0) else (read_reg hw q z).1)
    chosen q e = ground arith

    left :
        r ≢ q
        → (read_reg hw q z).1
          ≡ (if q == r then bit_and w (get_or read_masks r 0) else (read_reg hw q z).1)
    left ne = ground arith
