-- ===== src/Dmac/Config.antt =====
-- The registers of the DMA controller, `DMACConfig` of dmac.h and dmac.cc.
use cube_sim.Common.{
  Bool, arith, bit_and, bit_or, false, if◌then◌else◌, not, ℕ, ◌%◌, ◌&&◌, ◌-◌, ◌==◌, ◌^◌, ◌≡◌,
}

-- `DMA_query_t`.
pub record Query : Type 0 where
  pub src : ℕ
  pub dst : ℕ
  pub len : ℕ
  pub zero_write : Bool
  pub burst : Bool

pub record Config : Type 0 where
  pub byteswapped : Bool
  pub kicked : Bool
  pub enabled : Bool
  pub irq_en : Bool
  pub abort : Bool
  pub busy : Bool
  pub done : Bool
  pub addr_err : Bool
  pub bus_err : Bool
  pub end_stat : Bool
  pub query : Query
  pub success_len : ℕ

abbrev pub no_query : Query
no_query = record { src = 0; dst = 0; len = 0; zero_write = false; burst = false }

unfoldable pub reset : Bool → Config
reset byteswapped = record {
  byteswapped = byteswapped;
  kicked = false;
  enabled = false;
  irq_en = false;
  abort = false;
  busy = false;
  done = false;
  addr_err = false;
  bus_err = false;
  end_stat = false;
  query = no_query;
  success_len = 0;
}

-- The registers, by the offsets of dmac.h.
pub data Register : Type 0 where
  enable_offset inten_offset ctrl_offset status_offset attr_offset len_offset src_offset dst_offset
        donelen_offset other_offset :
      Register

unfoldable pub register_at : ℕ → Register
register_at o =
    if o == 0x0
    then enable_offset
    else (if o == 0x4
        then inten_offset
        else (if o == 0x8
            then ctrl_offset
            else (if o == 0xc
                then status_offset
                else (if o == 0x10
                    then attr_offset
                    else (if o == 0x14
                        then len_offset
                        else (if o == 0x18
                            then src_offset
                            else (if o == 0x1c
                                then dst_offset
                                else (if o == 0x20 then donelen_offset else other_offset))))))))

abbrev bit_of : Bool → ℕ → ℕ
bit_of b v = if b then v else 0

abbrev has : ℕ → ℕ → Bool
has w mask = not (bit_and w mask == 0)

unfoldable pub read_register : Register → Config → ℕ
read_register enable_offset c = bit_of c.enabled 1
read_register inten_offset c = bit_of c.irq_en 1
read_register ctrl_offset c = bit_of c.abort 2
read_register status_offset c =
    bit_or
      (bit_or (bit_or (bit_or (bit_of c.busy 1) (bit_of c.done 2)) (bit_of c.addr_err 8))
        (bit_of c.bus_err 4))
      (bit_of c.end_stat 16)
read_register attr_offset c = bit_or (bit_of c.query.zero_write 2) (bit_of c.query.burst 1)
read_register len_offset c = c.query.len
read_register src_offset c = c.query.src
read_register dst_offset c = c.query.dst
read_register donelen_offset c = c.success_len
read_register other_offset c = 0

unfoldable pub write_register : Register → ℕ → Config → Config
write_register enable_offset w c = record c { enabled = has w 1 }
write_register inten_offset w c = record c { irq_en = has w 1 }
write_register ctrl_offset w c = record c {
  kicked = if c.busy then c.kicked else has w 1;
  abort = has w 2;
}
write_register status_offset w c = record c {
  done = c.done && not (has w 2);
  addr_err = c.addr_err && not (has w 8);
  bus_err = c.bus_err && not (has w 4);
  end_stat = c.end_stat && not (has w 16);
}
write_register attr_offset w c = record c {
  query = record c.query { zero_write = has w 2; burst = has w 1 };
}
write_register len_offset w c = record c { query = record c.query { len = w } }
write_register src_offset w c = record c { query = record c.query { src = w } }
write_register dst_offset w c = record c { query = record c.query { dst = w } }
write_register donelen_offset w c = record c { success_len = w }
write_register other_offset w c = c

unfoldable pub fetch_word : ℕ → Config → ℕ
unfolding register_at read_register
fetch_word offset c = read_register (register_at offset) c

unfoldable pub store_word : ℕ → ℕ → Config → Config
unfolding register_at write_register
store_word offset w c = write_register (register_at offset) w c

-- `offset & ~0x3`
abbrev word_of : ℕ → ℕ
word_of offset = offset - offset % 4

unfoldable pub fetch_halfword : ℕ → Config → ℕ
unfolding fetch_word
fetch_halfword offset c =
    if c.byteswapped
    then (if offset % 4 == 2 then fetch_word (word_of offset) c % 2 ^ 16 else 0)
    else (if offset % 4 == 0 then fetch_word offset c % 2 ^ 16 else 0)

unfoldable pub fetch_byte : ℕ → Config → ℕ
unfolding fetch_word
fetch_byte offset c =
    if c.byteswapped
    then (if offset % 4 == 3 then fetch_word (word_of offset) c % 2 ^ 8 else 0)
    else (if offset % 4 == 0 then fetch_word offset c % 2 ^ 8 else 0)

unfoldable pub store_halfword : ℕ → ℕ → Config → Config
unfolding store_word
store_halfword offset w c =
    if c.byteswapped
    then (if offset % 4 == 2 then store_word (word_of offset) w c else c)
    else (if offset % 4 == 0 then store_word offset w c else c)

unfoldable pub store_byte : ℕ → ℕ → Config → Config
unfolding store_word
store_byte offset w c =
    if c.byteswapped
    then (if offset % 4 == 3 then store_word (word_of offset) w c else c)
    else (if offset % 4 == 0 then store_word offset w c else c)

flags_of : Bool → Bool → Bool → Bool → Bool → ℕ
flags_of b d a u e =
    bit_or (bit_or (bit_or (bit_or (bit_of b 1) (bit_of d 2)) (bit_of a 8)) (bit_of u 4))
      (bit_of e 16)

-- A flag that is set is in the word, so that no flag is left.
cleared :
    (b d a u e : Bool)
    → flags_of b
        (d && not (has (flags_of b d a u e) 2))
        (a && not (has (flags_of b d a u e) 8))
        (u && not (has (flags_of b d a u e) 4))
        (e && not (has (flags_of b d a u e) 16))
      ≡ bit_of b 1
unfolding flags_of
cleared b d a u e = ground arith

-- A program that writes back to the status register what it has read there clears every flag of it
-- that was set, and busy, which only the controller changes, is all that is left.
pub store_word-fetch_word :
    (c : Config) → fetch_word 0xc (store_word 0xc (fetch_word 0xc c) c) ≡ (if c.busy then 1 else 0)
unfolding store_word fetch_word register_at read_register write_register flags_of
store_word-fetch_word c = cleared c.busy c.done c.addr_err c.bus_err c.end_stat
