-- ===== src/Memory/Access/Unmapped.antt =====
-- Accesses of `Mapper`, mapper.cc, to an address that no range has.
use cube_sim.Memory.Access
use cube_sim.Memory.Access.Narrow
use cube_sim.Memory.Access.Narrow.{
  byte_from, byte_to, halfword_from, halfword_to, load_key, store_key,
}
use cube_sim.Common.{arith, none, refl, some, ℕ, ◌%◌, ◌∙◌, ◌≡◌}
use cube_sim.Memory.Mapper.{Key, Mapper, bus_error, find_mapping_range}
use cube_sim.Memory.Mapper.Lookup.{Distinct, Has, find_from_iff, find_mapping_range-eq}
use cube_sim.Memory.Access.{fetch_from, store_to}

lookup-none :
    (p : ℕ) (m : Mapper)
    → Distinct m.ranges
    → ((i : ℕ) → ¬ (Has m.ranges i p))
    → (find_mapping_range p m).1 ≡ none
lookup-none p m d none_has = (find_mapping_range-eq p m d).0 ∙ (find_from_iff p m.ranges).1 none_has

fetch_word_unmapped :
    (cycle value : ℕ) (k : Key) (m : Mapper)
    → Distinct m.ranges
    → k.addr % 4 ≡ 0
    → ((i : ℕ) → ¬ (Has m.ranges i k.addr))
    → (Access.fetch_word cycle k m ≡ none)
      × (Access.store_word cycle k.addr value k.client m ≡ none)
unfolding Access.fetch_word Access.store_word fetch_from store_to
fetch_word_unmapped cycle value k m d al none_has =
    let e = lookup-none k.addr m d none_has in (rw (al, e) refl, rw (al, e) refl)

byte_unmapped :
    (cycle addr value client : ℕ) (m : Mapper)
    → (find_mapping_range addr m).1 ≡ none
    → (Narrow.fetch_byte cycle addr client m
        ≡ some (bus_error (load_key addr client) (find_mapping_range addr m).0, 0xff))
      × (Narrow.store_byte cycle addr value client m
          ≡ some (bus_error (store_key addr client) (find_mapping_range addr m).0))
unfolding Narrow.fetch_byte Narrow.store_byte byte_from byte_to
byte_unmapped cycle addr value client m e = (rw e refl, rw e refl)

halfword_unmapped :
    (cycle addr value client : ℕ) (m : Mapper)
    → addr % 2 ≡ 0
    → (find_mapping_range addr m).1 ≡ none
    → (Narrow.fetch_halfword cycle addr client m ≡ none)
      × (Narrow.store_halfword cycle addr value client m ≡ none)
unfolding Narrow.fetch_halfword Narrow.store_halfword halfword_from halfword_to
halfword_unmapped cycle addr value client m al e = (rw (al, e) refl, rw (al, e) refl)

-- Of an access to an aligned address that no range has, where no address belongs to two ranges, only
-- the fetch and the store of a byte raise a bus error; those of a word and of a half word follow a null
-- pointer.
pub accesses_unmapped :
    (cycle value : ℕ) (k : Key) (m : Mapper)
    → Distinct m.ranges
    → k.addr % 4 ≡ 0
    → ((i : ℕ) → ¬ (Has m.ranges i k.addr))
    → (Access.fetch_word cycle k m ≡ none)
      × (Access.store_word cycle k.addr value k.client m ≡ none)
      × (Narrow.fetch_halfword cycle k.addr k.client m ≡ none)
      × (Narrow.store_halfword cycle k.addr value k.client m ≡ none)
      × (Narrow.fetch_byte cycle k.addr k.client m
          ≡ some (bus_error (load_key k.addr k.client) (find_mapping_range k.addr m).0, 0xff))
      × (Narrow.store_byte cycle k.addr value k.client m
          ≡ some (bus_error (store_key k.addr k.client) (find_mapping_range k.addr m).0))
accesses_unmapped cycle value k m d al none_has =
    let e = lookup-none k.addr m d none_has in
    let word = fetch_word_unmapped cycle value k m d al none_has in
    let half = halfword_unmapped cycle k.addr value k.client m (omega (arith, al)) e in
    let byte = byte_unmapped cycle k.addr value k.client m e in
    (word.0, word.1, half.0, half.1, byte.0, byte.1)
