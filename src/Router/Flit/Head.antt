-- ===== src/Router/Flit/Head.antt =====
-- `make_head_flit` against `decode_headflit` and `extractDst`, router.cc.
use cube_sim.Common.{Bool, arith, bit_and, false, true, ℕ, ◌%◌, ◌*◌, ◌+◌, ◌/◌, ◌^◌, ◌≡◌}
use cube_sim.Common.Bits.{bit_and_high, bit_and_low}
use cube_sim.Router.Flit.{decode_headflit, extract_dst, head_word, make_head_flit}

mtype_mask : (x : ℕ) → bit_and x 0x380 ≡ x / 128 % 8 * 128
mtype_mask x = rw (bit_and_high 7 x 7, bit_and_low 3 (x / 2 ^ 7))

vch_mask : (x : ℕ) → bit_and x 0x70 ≡ x / 16 % 8 * 16
vch_mask x = rw (bit_and_high 4 x 7, bit_and_low 3 (x / 2 ^ 4))

src_mask : (x : ℕ) → bit_and x 0xc ≡ x / 4 % 4 * 4
src_mask x = rw (bit_and_high 2 x 3, bit_and_low 2 (x / 2 ^ 2))

dst_mask : (x : ℕ) → bit_and x 0x3 ≡ x % 4
dst_mask x = bit_and_low 2 x

ruleset masks = (arith, mtype_mask, vch_mask, src_mask, dst_mask)

-- The packed word as a number with five digits.
head_word_lem :
    (addr mtype vch src dst : ℕ)
    → head_word addr mtype vch src dst
      ≡ addr % 2 ^ 22 * 1024 + mtype % 8 * 128 + vch % 8 * 16 + src % 4 * 4 + dst % 4
unfolding head_word
head_word_lem addr mtype vch src dst = omega masks

-- Decoding a head flit gives back the message type, channel, source and destination up to the width
-- of their fields (3, 3, 2 and 2 bits) and the low 22 bits of the address, whether or not the flit
-- is also the packet's last.
pub decode_headflit-make_head_flit :
    (addr mtype vch src dst : ℕ) (last : Bool)
    → decode_headflit (make_head_flit addr mtype vch src dst last) ≡ record {
      addr = addr % 2 ^ 22;
      mtype = mtype % 8;
      vch = vch % 8;
      src = src % 4;
      dst = dst % 4;
    }
unfolding decode_headflit make_head_flit
decode_headflit-make_head_flit addr mtype vch src dst true =
    rw (mtype_mask, vch_mask, src_mask, dst_mask, head_word_lem addr mtype vch src dst)
      (ground arith)
decode_headflit-make_head_flit addr mtype vch src dst false =
    rw (mtype_mask, vch_mask, src_mask, dst_mask, head_word_lem addr mtype vch src dst)
      (ground arith)

-- What the router reads from a head flit as its destination is the low two bits of the destination
-- that the flit was made of.
pub extract_dst-make_head_flit :
    (addr mtype vch src dst : ℕ) (last : Bool)
    → extract_dst (make_head_flit addr mtype vch src dst last) ≡ dst % 4
unfolding extract_dst make_head_flit
extract_dst-make_head_flit addr mtype vch src dst last =
    omega (arith, dst_mask, head_word_lem addr mtype vch src dst)
