-- ===== src/Memory/Range.antt =====
-- `Range`, range.h and range.cc, as a piece of memory whose words are the host array at `address`.
-- The `latency` is that of `MemoryModule` and `ROMModule`; devices that override the accesses are not
-- modelled. The half words and the bytes of a word begin at its low end, as on a little-endian host. A
-- word outside of the array reads as 0 and is not written, where the program leaves the array.
pub mod Bytes
pub mod Overlap
use cube_sim.Common.{
  Bool, List, false, get_or, if◌then◌else◌, leb, ltb, set, true, ℕ, ◌%◌, ◌&&◌, ◌+◌, ◌/◌, ◌<◌, ◌^◌,
}
use cube_sim.Common.Bits.{add32, byte_of, half_of, with_byte, with_half}

pub record Range : Type 0 where
  pub base : ℕ
  pub extent : ℕ
  pub words : List ℕ
  pub readable : Bool
  pub writable : Bool
  pub latency : ℕ
  pub read_count : ℕ
  pub write_count : ℕ

-- The sum of two `uint32` wraps.
abbrev pub end_of : Range → ℕ
end_of r = add32 r.base r.extent

unfoldable pub incorporates : Range → ℕ → Bool
incorporates r addr = leb r.base addr && ltb addr (end_of r)

unfoldable pub overlaps : Range → Range → Bool
overlaps a r =
    (if leb a.base r.base && ltb r.base (end_of a)
      then true
      else (if leb r.base a.base && ltb a.base (end_of r)
          then true
          else (if leb r.base a.base && leb (end_of a) (end_of r)
              then true
              else (if leb a.base r.base && leb (end_of r) (end_of a) then true else false))))

-- `base + extent` is representable.
abbrev pub Fits : Range → Type 0
Fits r = r.base + r.extent < 2 ^ 32

unfoldable pub fetch_word : ℕ → Range → Range × ℕ
fetch_word offset r = (record r { read_count = r.read_count + 1 }, get_or r.words (offset / 4) 0)

unfoldable pub store_word : ℕ → ℕ → Range → Range
store_word offset value r = record r {
  write_count = r.write_count + 1;
  words = set r.words (offset / 4) value;
}

abbrev pub word_of : ℕ → Range → ℕ
word_of offset r = get_or r.words (offset / 4) 0

unfoldable pub fetch_halfword : ℕ → Range → Range × ℕ
fetch_halfword offset r =
    (record r { read_count = r.read_count + 1 }, half_of (offset / 2 % 2) (word_of offset r))

unfoldable pub fetch_byte : ℕ → Range → Range × ℕ
fetch_byte offset r =
    (record r { read_count = r.read_count + 1 }, byte_of (offset % 4) (word_of offset r))

unfoldable pub store_halfword : ℕ → ℕ → Range → Range
store_halfword offset value r = record r {
  write_count = r.write_count + 1;
  words = set r.words (offset / 4) (with_half (offset / 2 % 2) value (word_of offset r));
}

unfoldable pub store_byte : ℕ → ℕ → Range → Range
store_byte offset value r = record r {
  write_count = r.write_count + 1;
  words = set r.words (offset / 4) (with_byte (offset % 4) value (word_of offset r));
}
