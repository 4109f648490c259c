-- ===== src/Router/Flit.antt =====
-- Flits, router.h, and the static functions of `RouterUtils`, router.cc: how a head flit packs its
-- routing fields into one word, and how an acknowledgement flit packs four credit counts.
-- A `uint32` is a number; `<<` drops the bits above the 32nd and `+` wraps.
pub mod Head
pub mod Ack
use cube_sim.Common.{
  Bool, List, [], bit_and, bit_or, false, if◌then◌else◌, leb, replicate, set, suc, take, true, zero,
  ℕ, ◌%◌, ◌*◌, ◌+◌, ◌-◌, ◌/◌, ◌^◌, ◌∷◌,
}
use cube_sim.Common.Bits.{shl32, shr}

-- Ftype. FTYPE_RESERVED is not produced by any code.
pub data Ftype : Type 0 where
  idle head tail headtail body reserved ack1 ack2 : Ftype

pub record Flit : Type 0 where
  pub ftype : Ftype
  pub payload : ℕ

pub record FlitEntry : Type 0 where
  pub flit : Flit
  pub vch : ℕ

-- FLIT_ACK_CNT_BIT, ACK_COUNT_MAX and VCH_SIZE.
abbrev pub ack_cnt_bit : ℕ
ack_cnt_bit = 4

abbrev pub ack_count_max : ℕ
ack_count_max = 2 ^ ack_cnt_bit - 1

abbrev pub vch_size : ℕ
vch_size = 8

-- The packed word of `make_head_flit`, with the masks and positions of router.h.
unfoldable pub head_word : ℕ → ℕ → ℕ → ℕ → ℕ → ℕ
head_word addr mtype vch src dst =
    (shl32 addr 10
      + bit_and (shl32 mtype 7) 0x380
      + bit_and (shl32 src 2) 0xc
      + bit_and (shl32 vch 4) 0x70
      + bit_and dst 0x3)
    % 2 ^ 32

unfoldable pub make_head_flit : ℕ → ℕ → ℕ → ℕ → ℕ → Bool → Flit
make_head_flit addr mtype vch src dst last = record {
  ftype = if last then headtail else head;
  payload = head_word addr mtype vch src dst;
}

unfoldable pub make_data_flit : ℕ → Bool → Flit
make_data_flit word last = record { ftype = if last then tail else body; payload = word }

unfoldable pub is_head : Ftype → Bool
is_head head = true
is_head headtail = true
is_head _ = false

-- What `decode_headflit` writes through its five pointers.
pub record HeadFields : Type 0 where
  pub addr : ℕ
  pub mtype : ℕ
  pub vch : ℕ
  pub src : ℕ
  pub dst : ℕ

unfoldable pub decode_headflit : Flit → HeadFields
unfolding is_head
decode_headflit f =
    if is_head f.ftype
    then record {
      addr = shr f.payload 10;
      mtype = shr (bit_and f.payload 0x380) 7;
      vch = shr (bit_and f.payload 0x70) 4;
      src = shr (bit_and f.payload 0xc) 2;
      dst = bit_and f.payload 0x3;
    }
    else record { addr = 0; mtype = 0; vch = 0; src = 0; dst = 0 }

unfoldable pub extract_dst : Flit → ℕ
extract_dst f = bit_and f.payload 0x3

-- One field of `make_ack_flit`: a count that does not fit is sent as the greatest that does.
unfoldable pub ack_field : ℕ → ℕ
ack_field c = if leb (2 ^ ack_cnt_bit) c then ack_count_max else bit_and c ack_count_max

-- The loop of `make_ack_flit` from index `i` on, over the counts that are left.
unfoldable pub ack_word : ℕ → ℕ → List ℕ → ℕ
unfolding ack_field
ack_word word i [] = word
ack_word word i (c ∷ cs) = ack_word (bit_or word (shl32 (ack_field c) (ack_cnt_bit * i))) (i + 1) cs

-- FLIT_ACK_ENTRY counts are read from `cnt`.
unfoldable pub make_ack_flit : Ftype → List ℕ → Flit
unfolding ack_word
make_ack_flit ftype cnt = record { ftype = ftype; payload = ack_word 0 0 (take 4 cnt) }

unfoldable pub ack_offset : Ftype → ℕ
ack_offset ack2 = vch_size / 2
ack_offset _ = 0

-- The second loop of `decode_ack`, `rounds` of its VCH_SIZE / 2 rounds being left.
unfoldable pub decode_ack_loop : ℕ → ℕ → ℕ → List ℕ → List ℕ
decode_ack_loop zero i word cnt = cnt
decode_ack_loop (suc rounds) i word cnt =
    decode_ack_loop rounds (i + 1) (shr word ack_cnt_bit) (set cnt i (bit_and word ack_count_max))

unfoldable pub decode_ack : Flit → List ℕ
unfolding ack_offset decode_ack_loop
decode_ack f = decode_ack_loop (vch_size / 2) (ack_offset f.ftype) f.payload (replicate vch_size 0)

-- The test by which `InputChannel::step` tells acknowledgements from the flits of packets.
unfoldable pub is_ack : Ftype → Bool
is_ack ack1 = true
is_ack ack2 = true
is_ack _ = false
