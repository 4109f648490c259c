-- ===== src/Router/Flit/Ack.antt =====
-- `make_ack_flit` against `decode_ack`, router.cc.
use cube_sim.Common.{
  List, [], arith, length, map, min, replicate, take, ℕ, ◌%◌, ◌*◌, ◌++◌, ◌+◌, ◌/◌, ◌<◌, ◌^◌, ◌∷◌,
  ◌≡◌, ◌≤◌,
}
use cube_sim.Common.Bits.{bit_and_low, or_shl32, zero-bit_or}
use cube_sim.Router.Flit.{Ftype, ack2, ack_field, ack_word, decode_ack, make_ack_flit}

ack_field_lem : (c : ℕ) → ack_field c ≡ min c 15
unfolding ack_field
ack_field_lem c = ground (arith, bit_and_low 4 c)

-- The word of an acknowledgement: four counts, each cut at 15, in fields of four bits.
ack_word_four :
    (a b c d : ℕ)
    → ack_word 0 0 (a ∷ b ∷ c ∷ d ∷ [])
      ≡ min d 15 * 4096 + (min c 15 * 256 + (min b 15 * 16 + min a 15))
unfolding ack_word
ack_word_four a b c d =
    rw
      (
        ack_field_lem a,
        ack_field_lem b,
        ack_field_lem c,
        ack_field_lem d,
        zero-bit_or,
        or_shl32 4 (min b 15) (min a 15 * 1 % 2 ^ 32) (omega arith) (omega arith),
        or_shl32 8 (min c 15) (min b 15 * 16 + min a 15 * 1 % 2 ^ 32) (omega arith) (omega arith),
        or_shl32 12 (min d 15) (min c 15 * 256 + (min b 15 * 16 + min a 15 * 1 % 2 ^ 32))
            (omega arith) (omega arith),
      )
      (omega arith)

-- `ack_offset` tells the two halves of the channels apart.
abbrev pub half_counts : Ftype → List ℕ → List ℕ
half_counts ack2 cnt = replicate 4 0 ++ cnt
half_counts _ cnt = cnt ++ replicate 4 0

decode_four :
    (ft : Ftype) (a b c d w : ℕ)
    → a < 16
    → b < 16
    → c < 16
    → d < 16
    → w ≡ d * 4096 + (c * 256 + (b * 16 + a))
    → decode_ack (record { ftype = ft; payload = w }) ≡ half_counts ft (a ∷ b ∷ c ∷ d ∷ [])
unfolding decode_ack
decode_four ack2 a b c d w ha hb hc hd e = ground (
  arith,
  bit_and_low 4 w,
  bit_and_low 4 (w / 2 ^ 4),
  bit_and_low 4 (w / 2 ^ 4 / 2 ^ 4),
  bit_and_low 4 (w / 2 ^ 4 / 2 ^ 4 / 2 ^ 4),
)
decode_four _ a b c d w ha hb hc hd e = ground (
  arith,
  bit_and_low 4 w,
  bit_and_low 4 (w / 2 ^ 4),
  bit_and_low 4 (w / 2 ^ 4 / 2 ^ 4),
  bit_and_low 4 (w / 2 ^ 4 / 2 ^ 4 / 2 ^ 4),
)

-- Decoding an acknowledgement flit gives back the first four of the counts, of which there are
-- four at least, that it was made of, each cut at 15, in the half of the channels that its type
-- names, and 0 for the other half.
pub decode_ack-make_ack_flit :
    (ft : Ftype) (cnt : List ℕ)
    → 4 ≤ length cnt
    → decode_ack (make_ack_flit ft cnt) ≡ half_counts ft (map (λ c. min c 15) (take 4 cnt))
unfolding make_ack_flit
decode_ack-make_ack_flit ft [] h = absurd (omega arith)
decode_ack-make_ack_flit ft (a ∷ []) h = absurd (omega arith)
decode_ack-make_ack_flit ft (a ∷ b ∷ []) h = absurd (omega arith)
decode_ack-make_ack_flit ft (a ∷ b ∷ c ∷ []) h = absurd (omega arith)
decode_ack-make_ack_flit ft (a ∷ b ∷ c ∷ d ∷ cnt) h =
    decode_four ft (min a 15) (min b 15) (min c 15) (min d 15) (ack_word 0 0 (a ∷ b ∷ c ∷ d ∷ []))
      (omega arith) (omega arith) (omega arith) (omega arith) (ack_word_four a b c d)
