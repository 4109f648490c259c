-- ===== src/Interface/Registers.antt =====
-- The registers of the router interface as a program sees them, `RouterIOReg` of routerinterface.cc.
use cube_sim.Interface.Top
use native.Mathlib.Nat.{one-le-pow}
use cube_sim.Common.{
  Option, ap, arith, bit_and, false, get_or-set_self, if◌then◌else◌, length, none, not, some, suc,
  zero, ℕ, ◌%◌, ◌&&◌, ◌*◌, ◌/◌, ◌<◌, ◌==◌, ◌^◌, ◌∙◌, ◌≡◌,
}
use cube_sim.Common.Bits.{bit_and_bit, bit_and_low, bit_and_zero}
use cube_sim.Interface.Config.{
  bin2bool, bool2bin, middle_register, node_count, register_at, upper_register,
}
use cube_sim.Interface.Machine.{idle}
use cube_sim.Interface.Access.{
  IoReg, config_of, falling_abort, falling_reset, fetch_word, read_register, store_abort,
  store_word, write_register,
}

bit_times : (b p : ℕ) → b < 2 → 0 < p → (if not (b * p == 0) then p else 0) ≡ b * p
bit_times zero p h j = ground arith
bit_times (suc zero) p h j = ground arith
bit_times (suc (suc b)) p h j = absurd (omega arith)

bit_of_word :
    (i w : ℕ) → (if not (bit_and w (2 ^ i) == 0) then 2 ^ i else 0) ≡ w / 2 ^ i % 2 * 2 ^ i
bit_of_word i w =
    rw (bit_and_bit i w)
      (bit_times (w / 2 ^ i % 2) (2 ^ i) (omega arith) (one-le-pow i 2 (omega arith)))

three_bits : (w : ℕ) → bool2bin 0 (bin2bool 0 3 w) ≡ w % 8
unfolding bool2bin bin2bool
three_bits w = rw (bit_of_word 0 w, bit_of_word 1 w, bit_of_word 2 w) (omega arith)

eight_bits : (w : ℕ) → bool2bin 0 (bin2bool 0 8 w) ≡ w % 256
unfolding bool2bin bin2bool
eight_bits w = omega (
  arith,
  bit_of_word 0 w,
  bit_of_word 1 w,
  bit_of_word 2 w,
  bit_of_word 3 w,
  bit_of_word 4 w,
  bit_of_word 5 w,
  bit_of_word 6 w,
  bit_of_word 7 w,
)

-- What is read at an offset after `w` is stored there.
unfoldable pub read_after : ℕ → ℕ → ℕ → IoReg → Option ℕ
unfolding store_word fetch_word
read_after cycle offset w r = elim (store_word cycle offset w r) [
  | none ↦ none
  | some r' ↦ fetch_word offset r'
]

-- The arrays have an element for each remote node.
pub record HasNodes (r : IoReg) : Type 0 where
  pub data_nodes : length (config_of r).data_vch ≡ node_count
  pub int_nodes : length (config_of r).int_vch ≡ node_count

pub record ReadsBack (cycle w : ℕ) (r : IoReg) : Type 0 where
  pub id : read_after cycle 0x0 w r ≡ some (w % 4)
  pub dvch0 : read_after cycle 0x4 w r ≡ some (w % 8)
  pub dvch1 : read_after cycle 0x8 w r ≡ some (w % 8)
  pub dvch2 : read_after cycle 0xc w r ≡ some (w % 8)
  pub iready : read_after cycle 0x10 w r ≡ some (w % 256)
  pub intvch0 : read_after cycle 0x14 w r ≡ some (w % 8)
  pub intvch1 : read_after cycle 0x18 w r ≡ some (w % 8)
  pub intvch2 : read_after cycle 0x1c w r ≡ some (w % 8)
  pub done_mask : read_after cycle 0x24 w r ≡ some (w % 8)
  pub dmac_mask : read_after cycle 0x2c w r ≡ some (w % 8)
  pub abort : read_after cycle 0x30 w r ≡ some (w % 8)

low3 : (w : ℕ) → bit_and w 0x7 ≡ w % 8
low3 w = bit_and_low 3 w

masked3 : (w : ℕ) → bool2bin 0 (bin2bool 0 3 (bit_and w 0x7)) ≡ w % 8
masked3 w = omega (arith, three_bits (bit_and w 0x7), low3 w)

masked8 : (w : ℕ) → bool2bin 0 (bin2bool 0 8 (bit_and w 0xff)) ≡ w % 256
masked8 w = omega (arith, eight_bits (bit_and w 0xff), bit_and_low 8 w)

-- Every register but the two of status flags reads back as what was written, cut to its width.
pub ReadsBack-store_word : (cycle w : ℕ) (r : IoReg) → HasNodes r → ReadsBack cycle w r
unfolding read_after store_word fetch_word register_at middle_register upper_register read_register
    write_register store_abort
ReadsBack-store_word cycle w r h = record {
  id = ap some (bit_and_low 2 w);
  dvch0 = ap some (
      get_or-set_self (config_of r).data_vch 0 (bit_and w 0x7) 0 (omega (arith, h.data_nodes))
      ∙ low3 w);
  dvch1 = ap some (
      get_or-set_self (config_of r).data_vch 1 (bit_and w 0x7) 0 (omega (arith, h.data_nodes))
      ∙ low3 w);
  dvch2 = ap some (
      get_or-set_self (config_of r).data_vch 2 (bit_and w 0x7) 0 (omega (arith, h.data_nodes))
      ∙ low3 w);
  iready = ap some (masked8 w);
  intvch0 = ap some (
      get_or-set_self (config_of r).int_vch 0 (bit_and w 0x7) 0 (omega (arith, h.int_nodes))
      ∙ low3 w);
  intvch1 = ap some (
      get_or-set_self (config_of r).int_vch 1 (bit_and w 0x7) 0 (omega (arith, h.int_nodes))
      ∙ low3 w);
  intvch2 = ap some (
      get_or-set_self (config_of r).int_vch 2 (bit_and w 0x7) 0 (omega (arith, h.int_nodes))
      ∙ low3 w);
  done_mask = ap some (masked3 w);
  dmac_mask = ap some (masked3 w);
  abort = ap some (low3 w);
}

never_reset : (old w : ℕ) → falling_reset old w ≡ false
unfolding falling_reset
never_reset old w = ground (arith, bit_and_zero (bit_and w 0x7))

-- What no write to the register `abort` changes.
pub record Unreset (r r' : IoReg) : Type 0 where
  pub router : r'.rt.router ≡ r.rt.router
  pub send_fifo : r'.rt.iface.send_fifo ≡ r.rt.iface.send_fifo
  pub recv_fifo : r'.rt.iface.recv_fifo ≡ r.rt.iface.recv_fifo

-- No write to the register `abort` resets the router or empties the queues, whatever is written and
-- whatever the register was; a write that takes the reset bit back only makes the interface idle.
pub store_abort-Unreset :
    (cycle w : ℕ) (r : IoReg)
    → Unreset r (store_abort cycle w r)
      × (((store_abort cycle w r).rt.iface.next_state)
          ≡ (if not (bit_and r.abort 1 == 0) && w % 2 == 0 then idle else r.rt.iface.next_state))
unfolding store_abort falling_abort Top.abort
store_abort-Unreset cycle w r =
    let same : bit_and (bit_and w 0x7) 1 ≡ w % 2 =
      bit_and_low 1 (bit_and w 0x7) ∙ omega (arith, low3 w) in
    (
      record {
        router = ground (arith, never_reset r.abort w);
        send_fifo = ground (arith, never_reset r.abort w);
        recv_fifo = ground (arith, never_reset r.abort w);
      },
      ground (arith, never_reset r.abort w, same),
    )
