-- ===== src/Accelerator/DoubleBuffer.antt =====
-- `DoubleBuffer`, dbuf.h and dbuf.cc: two arrays of words, of which the one that is connected is seen
-- from outside and the other by the core. Half words and bytes of the inner accesses begin at the low
-- end of a word, as on a little-endian host. A word outside of an array reads as 0 and is not written,
-- where the program leaves the array. The initial contents of a file and the messages are left out.
use cube_sim.Common.{
  ==_iff, Bool, Bool-cases, List, arith, bit_and, false, get_or, get_or-set_ne, get_or-set_self,
  if◌then◌else◌, inl, inr, leb, length, not, replicate, set, true, ℕ, ◌%◌, ◌/◌, ◌<◌, ◌==◌, ◌≡◌,
}
use cube_sim.Common.Bits.{byte_of, half_of, with_byte, with_half}

pub record DoubleBuffer : Type 0 where
  pub extent : ℕ
  pub mask : ℕ
  pub front : List ℕ
  pub back : List ℕ
  pub front_connected : Bool

-- The constructor, with no initial contents.
unfoldable pub new_buffer : ℕ → ℕ → DoubleBuffer
new_buffer size mask = record {
  extent = size;
  mask = mask;
  front = replicate (size / 4) 0;
  back = replicate (size / 4) 0;
  front_connected = true;
}

unfoldable pub buf_switch : DoubleBuffer → DoubleBuffer
buf_switch b = record b { front_connected = not b.front_connected }

-- The array that `address` points to, and the other one.
unfoldable pub outer : DoubleBuffer → List ℕ
outer b = if b.front_connected then b.front else b.back

unfoldable pub inner : DoubleBuffer → List ℕ
inner b = if b.front_connected then b.back else b.front

unfoldable pub with_outer : List ℕ → DoubleBuffer → DoubleBuffer
with_outer ws b = if b.front_connected then record b { front = ws } else record b { back = ws }

unfoldable pub with_inner : List ℕ → DoubleBuffer → DoubleBuffer
with_inner ws b = if b.front_connected then record b { back = ws } else record b { front = ws }

unfoldable pub store_word : ℕ → ℕ → DoubleBuffer → DoubleBuffer
unfolding outer with_outer
store_word offset w b = with_outer (set (outer b) (offset / 4) (bit_and w b.mask)) b

-- `Range::fetch_word` on `address`.
unfoldable pub fetch_word : ℕ → DoubleBuffer → ℕ
unfolding outer
fetch_word offset b = get_or (outer b) (offset / 4) 0

-- The test of the inner accesses compares a number of words with one of bytes.
unfoldable pub exceeds : ℕ → DoubleBuffer → Bool
exceeds offset b = leb b.extent (offset / 4)

unfoldable pub fetch_word_from_inner : ℕ → DoubleBuffer → ℕ
unfolding exceeds inner
fetch_word_from_inner offset b = if exceeds offset b then 0 else get_or (inner b) (offset / 4) 0

unfoldable pub store_word_from_inner : ℕ → ℕ → DoubleBuffer → DoubleBuffer
unfolding exceeds inner with_inner
store_word_from_inner offset w b =
    if exceeds offset b then b else with_inner (set (inner b) (offset / 4) (bit_and w b.mask)) b

unfoldable pub fetch_half_from_inner : ℕ → DoubleBuffer → ℕ
unfolding exceeds inner
fetch_half_from_inner offset b =
    if exceeds offset b then 0 else half_of (offset / 2 % 2) (get_or (inner b) (offset / 4) 0)

unfoldable pub store_half_from_inner : ℕ → ℕ → DoubleBuffer → DoubleBuffer
unfolding exceeds inner with_inner
store_half_from_inner offset w b =
    let old = get_or (inner b) (offset / 4) 0 in
    if exceeds offset b
    then b
    else with_inner (set (inner b) (offset / 4) (with_half (offset / 2 % 2) (bit_and w b.mask) old))
        b

unfoldable pub fetch_byte_from_inner : ℕ → DoubleBuffer → ℕ
unfolding exceeds inner
fetch_byte_from_inner offset b =
    if exceeds offset b then 0 else byte_of (offset % 4) (get_or (inner b) (offset / 4) 0)

unfoldable pub store_byte_from_inner : ℕ → ℕ → DoubleBuffer → DoubleBuffer
unfolding exceeds inner with_inner
store_byte_from_inner offset w b =
    let old = get_or (inner b) (offset / 4) 0 in
    if exceeds offset b
    then b
    else with_inner (set (inner b) (offset / 4) (with_byte (offset % 4) (bit_and w b.mask) old)) b

-- Both arrays have the words that the extent asks for.
pub record IsValid (b : DoubleBuffer) : Type 0 where
  pub front_size : length b.front ≡ b.extent / 4
  pub back_size : length b.back ≡ b.extent / 4

get_or-set :
    (xs : List ℕ) (i j v : ℕ)
    → i < length xs
    → get_or (set xs i v) j 0 ≡ (if i == j then v else get_or xs j 0)
get_or-set xs i j v h = elim (Bool-cases (i == j)) [
  | inl e ↦ let same : i ≡ j = (==_iff i j).0 e in rw (e, ← same) (get_or-set_self xs i v 0 h)
  | inr e ↦ rw e (get_or-set_ne xs i j v 0 (λ same. ground arith))
]

-- The reads of the word at `o`, after `w` is stored at `offset` from outside.
pub record Exchanged (b : DoubleBuffer) (offset w o : ℕ) : Type 0 where
  pub apart : fetch_word_from_inner o (store_word offset w b) ≡ fetch_word_from_inner o b
  pub handed_in :
      fetch_word_from_inner o (buf_switch (store_word offset w b))
      ≡ (if offset / 4 == o / 4 then bit_and w b.mask else fetch_word o b)
  pub handed_out : fetch_word o (buf_switch (store_word offset w b)) ≡ fetch_word_from_inner o b

-- A word that is stored from outside is not seen by the core; once the buffers are switched the core
-- reads it, masked, and every other word of the buffer as it was seen from outside, and what is seen
-- from outside is what the core had.
pub store_word-buf_switch :
    (b : DoubleBuffer) (offset w o : ℕ)
    → IsValid b
    → offset / 4 < b.extent / 4
    → o / 4 < b.extent / 4
    → Exchanged b offset w o
unfolding fetch_word_from_inner fetch_word store_word buf_switch outer inner with_outer exceeds
store_word-buf_switch b offset w o v h j =
    let f =
      get_or-set b.front (offset / 4) (o / 4) (bit_and w b.mask) (omega (arith, v.front_size)) in
    let k =
      get_or-set b.back (offset / 4) (o / 4) (bit_and w b.mask) (omega (arith, v.back_size)) in
    let small : leb b.extent (o / 4) ≡ false = ground arith in
    record {
      apart = ground (arith, small);
      handed_in = ground (arith, small, f, k);
      handed_out = ground (arith, small);
    }
