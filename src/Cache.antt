-- ===== src/Cache.antt =====
-- `Cache`, cache.h and cache.cc: the blocks, how an address is split, and the accesses of the
-- processor to a block that is there. `offset_len` and `index_len` are what the constructor computes
-- by `std::log2`, which the proofs take for exact (`IsShaped`). The array `data` of an entry is read
-- as host words; the host is taken to be little-endian, as the program's `byteswapped` then says.
-- An exception that is raised in the client is part of a result. Cycle numbers do not wrap. The
-- messages on isolated accesses are left out.
mod Tests
pub mod Address
pub mod Hit
pub mod Write
pub mod Words
pub mod LoadStore
pub mod Fill
pub mod Op
pub mod Holder
use cube_sim.Common.{
  Bool, List, Option, [], bit_and, false, get_or, if◌then◌else◌, none, set, some, true, ℕ, ◌%◌,
  ◌&&◌, ◌+◌, ◌-◌, ◌==◌, ◌^◌, ◌∷◌,
}
use cube_sim.Common.Bits.{add32, byte_of, half_of, shl32, shr, with_byte, with_half}
use cube_sim.Memory.Mapper.{ExcCode, adel, ades}

pub record Entry : Type 0 where
  pub valid : Bool
  pub dirty : Bool
  pub last_access : ℕ
  pub tag : ℕ
  pub words : List ℕ

-- A set is what the ways have at one index: `blocks` lists, for each way, its entries by index.
pub record Cache : Type 0 where
  pub offset_len : ℕ
  pub index_len : ℕ
  pub word_size : ℕ
  pub byteswapped : Bool
  pub blocks : List (List Entry)
  pub miss_counts : ℕ
  pub hit_counts : ℕ
  pub wb_counts : ℕ
  pub isisolated : Bool

-- What `addr_separete` writes through its references.
unfoldable pub tag_of : Cache → ℕ → ℕ
tag_of c addr = shr addr (c.offset_len + c.index_len)

unfoldable pub index_of : Cache → ℕ → ℕ
index_of c addr = shr (bit_and addr (2 ^ (c.index_len + c.offset_len) - 1)) c.offset_len

unfoldable pub offset_of : Cache → ℕ → ℕ
offset_of c addr = bit_and addr (2 ^ c.offset_len - 1)

-- An entry out of the arrays is invalid; the program would leave the arrays.
abbrev pub no_entry : Entry
no_entry = record { valid = false; dirty = false; last_access = 0; tag = 0; words = [] }

abbrev pub entry_at : List (List Entry) → ℕ → ℕ → Entry
entry_at blocks way index = get_or (get_or blocks way []) index no_entry

abbrev pub set_entry : List (List Entry) → ℕ → ℕ → Entry → List (List Entry)
set_entry blocks way index e = set blocks way (set (get_or blocks way []) index e)

-- `calc_addr`
unfoldable pub calc_addr : Cache → ℕ → ℕ → ℕ
calc_addr c way index =
    add32 (shl32 (entry_at c.blocks way index).tag (c.offset_len + c.index_len))
      (shl32 index c.offset_len)

unfoldable pub matches : ℕ → Entry → Bool
matches tag e = e.tag == tag && e.valid

-- The loop of `cache_hit` over the ways, from `way` on.
unfoldable pub find_way : ℕ → ℕ → ℕ → List (List Entry) → Option ℕ
find_way tag index way [] = none
find_way tag index way (b ∷ bs) =
    if matches tag (get_or b index no_entry) then some way else find_way tag index (way + 1) bs

-- `cache_hit`: the way, if there is one; the index and the offset are those of the address.
unfoldable pub cache_hit : Cache → ℕ → Option ℕ
cache_hit c addr = find_way (tag_of c addr) (index_of c addr) 0 c.blocks

-- `ready`
unfoldable pub ready : Cache → ℕ → Bool
ready c addr = elim (cache_hit c addr) [ none ↦ false | some way ↦ true ]

-- What an access does to an entry that it finds: the new entry and the value that is returned.
abbrev pub Access : Type 0
Access = Entry → Entry × ℕ

-- A hit is counted, and the entry is replaced. Where the tag matches, the entry is valid, so the
-- test of `valid` that follows in the program does not fail. A miss returns `miss`.
unfoldable pub access_way : Cache → ℕ → ℕ → Access → Option ℕ → Cache × ℕ
access_way c addr miss f none = (c, miss)
access_way c addr miss f (some way) =
    let (e, r) = f (entry_at c.blocks way (index_of c addr)) in
    (
      record c {
        hit_counts = c.hit_counts + 1;
        blocks = set_entry c.blocks way (index_of c addr) e;
      },
      r,
    )

unfoldable pub access : Cache → ℕ → ℕ → Access → Cache × ℕ
access c addr miss f = access_way c addr miss f (cache_hit c addr)

-- `data[offset >> 2]`
abbrev pub word_at : ℕ → Entry → ℕ
word_at offset e = get_or e.words (shr offset 2) 0

abbrev pub read_with : ℕ → ℕ → (ℕ → ℕ) → Access
read_with cycle offset part e = (record e { last_access = cycle }, part (word_at offset e))

abbrev pub write_with : ℕ → ℕ → (ℕ → ℕ) → Access
write_with cycle offset change e = (
  record e {
    words = set e.words (shr offset 2) (change (word_at offset e));
    dirty = true;
    last_access = cycle;
  },
  0,
)

-- Half word `n` and byte `n` of a host word, and a host word with one replaced.
-- Which half word and which byte of the word an offset means.
unfoldable pub half_index : Bool → ℕ → ℕ
half_index swapped offset = let n = bit_and (shr offset 1) 0x1 in if swapped then 1 - n else n

unfoldable pub byte_index : Bool → ℕ → ℕ
byte_index swapped offset = let n = bit_and offset 0x3 in if swapped then 3 - n else n

-- The accesses of the processor. An unaligned one raises `adel` or `ades` and does nothing else.
unfoldable pub fetch_word : ℕ → ℕ → Cache → Cache × ℕ × Option ExcCode
fetch_word cycle addr c =
    if addr % 4 == 0
    then (let (c₁, w) = access c addr 0xffffffff (read_with cycle (offset_of c addr) (λ w. w)) in
        (c₁, w, none))
    else (c, 0xffffffff, some adel)

unfoldable pub fetch_halfword : ℕ → ℕ → Cache → Cache × ℕ × Option ExcCode
fetch_halfword cycle addr c =
    if addr % 2 == 0
    then (let n = half_index c.byteswapped (offset_of c addr) in
        let (c₁, h) = access c addr 0xffff (read_with cycle (offset_of c addr) (half_of n)) in
        (c₁, h, none))
    else (c, 0xffff, some adel)

unfoldable pub fetch_byte : ℕ → ℕ → Cache → Cache × ℕ
fetch_byte cycle addr c =
    let n = byte_index c.byteswapped (offset_of c addr) in
    access c addr 0xff (read_with cycle (offset_of c addr) (byte_of n))

unfoldable pub store_word : ℕ → ℕ → ℕ → Cache → Cache × Option ExcCode
store_word cycle addr value c =
    if addr % 4 == 0
    then ((access c addr 0 (write_with cycle (offset_of c addr) (λ w. value))).0, none)
    else (c, some ades)

unfoldable pub store_halfword : ℕ → ℕ → ℕ → Cache → Cache × Option ExcCode
store_halfword cycle addr value c =
    if addr % 2 == 0
    then (let n = half_index c.byteswapped (offset_of c addr) in
        ((access c addr 0 (write_with cycle (offset_of c addr) (with_half n value))).0, none))
    else (c, some ades)

unfoldable pub store_byte : ℕ → ℕ → ℕ → Cache → Cache
store_byte cycle addr value c =
    let n = byte_index c.byteswapped (offset_of c addr) in
    (access c addr 0 (write_with cycle (offset_of c addr) (with_byte n value))).0
