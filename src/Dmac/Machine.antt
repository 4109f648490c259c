-- ===== src/Dmac/Machine.antt =====
-- The state machine of `DMAC`, dmac.cc, on the mapper.
use mathlib.Core.Option
use cube_sim.Memory.Access
use cube_sim.Dmac.{State, exit, idle, read_done, read_req, reading, write_done, write_req, writing}
use cube_sim.Common.{
  Bool, List, Option, [], drop, false, get_or, if◌then◌else◌, length, none, not, set, some, suc,
  true, zero, ℕ, ◌%◌, ◌&&◌, ◌*◌, ◌+◌, ◌==◌, ◌||◌, ◌∷◌,
}
use cube_sim.Common.Bits.{add32}
use cube_sim.Dmac.Config.{Config, Query}
use cube_sim.Memory.Mapper.{
  AccessMode, ExcCode, Key, Mapper, Raised, dataload, datastore, dbe, ready, request_word,
}
use cube_sim.Cache.Fill.{acquire_mem, release_mem}

-- `client` is the controller as a client of the bus. `block_words` is not 0.
pub record Dmac : Type 0 where
  pub config : Config
  pub buffer : List ℕ
  pub status : State
  pub block_words : ℕ
  pub query : Query
  pub counter : ℕ
  pub word_counter : ℕ
  pub mem_bandwidth : ℕ
  pub client : ℕ
  pub bus : Mapper

unfoldable pub address_valid : ℕ → Dmac → Bool
address_valid addr d = addr % (if d.query.burst then d.block_words * 4 else 4) == 0

-- The address of the word that is read or written, from `query.src` or `query.dst`.
unfoldable pub word_address : ℕ → Dmac → ℕ
word_address base d =
    if d.query.burst
    then add32 base (d.block_words * d.counter * 4 + 4 * d.word_counter)
    else add32 base (4 * d.counter)

abbrev pub key_of : ℕ → AccessMode → Dmac → Key
key_of addr mode d = record { addr = addr; mode = mode; client = d.client }

-- The loop that requests `n` words from `addr` on.
unfoldable pub request_words : ℕ → ℕ → ℕ → AccessMode → Dmac → Mapper → Mapper
request_words cycle zero addr mode d m = m
request_words cycle (suc n) addr mode d m =
    request_words cycle n (add32 addr 4) mode d (request_word cycle (key_of addr mode d) m)

-- The requests of DMAC_STAT_READ_REQ and DMAC_STAT_WRITE_REQ, once the bus is granted.
unfoldable pub request_all : ℕ → ℕ → AccessMode → Dmac → Mapper → Mapper
unfolding request_words
request_all cycle base mode d m =
    if d.query.burst
    then request_words cycle d.block_words (add32 base (d.block_words * d.counter * 4)) mode d m
    else request_word cycle (key_of (add32 base (4 * d.counter)) mode d) m

unfoldable pub request : ℕ → ℕ → AccessMode → State → Dmac → Mapper × Bool → Dmac
unfolding request_all
request cycle base mode next d (m, true) = record d {
  bus = request_all cycle base mode d m;
  word_counter = 0;
  status = next;
}
request cycle base mode next d (m, false) = record d { bus = m }

abbrev pub last_word : Dmac → Bool
last_word d = d.word_counter == d.block_words || not d.query.burst

abbrev pub read_key : Dmac → Key
read_key d = key_of (word_address d.query.src d) dataload d

unfoldable pub take_word : Dmac → Option (Mapper × ℕ) → Option Dmac
take_word d none = none
take_word d (some (m, w)) = some (record d {
  bus = m;
  buffer = set d.buffer d.word_counter w;
  word_counter = d.word_counter + 1;
})

-- One round of the loop of DMAC_STAT_READING.
unfoldable pub read_one : ℕ → Dmac → Option (Mapper × Bool) → Option (Dmac × Bool)
unfolding take_word
read_one cycle d none = none
read_one cycle d (some (m, false)) = some (record d { bus = m }, false)
read_one cycle d (some (m, true)) =
    Option.map (λ (d' : Dmac). (d', last_word d'))
      (take_word d (Access.fetch_word cycle (read_key d) m))

unfoldable pub written_word : Dmac → ℕ
written_word d = if d.query.zero_write then 0 else get_or d.buffer d.word_counter 0

-- One round of the loop of DMAC_STAT_WRITING.
unfoldable pub write_one : ℕ → Dmac → Option (Mapper × Bool) → Option (Dmac × Bool)
unfolding written_word word_address
write_one cycle d none = none
write_one cycle d (some (m, false)) = some (record d { bus = m }, false)
write_one cycle d (some (m, true)) =
    Option.map
      (λ (m' : Mapper).
        let d' = record d { bus = m'; word_counter = d.word_counter + 1 } in (d', last_word d'))
      (Access.store_word cycle (word_address d.query.dst d) (written_word d) d.client m)

-- `one` runs at most `n` times, until it says that it is done; then the state is `next`.
unfoldable pub after_round : (Dmac → Option Dmac) → State → Option (Dmac × Bool) → Option Dmac
after_round rest next none = none
after_round rest next (some (d, true)) = some (record d { status = next })
after_round rest next (some (d, false)) = rest d

unfoldable pub rounds : (Dmac → Option (Dmac × Bool)) → State → ℕ → Dmac → Option Dmac
unfolding after_round
rounds one next zero d = some d
rounds one next (suc n) d = after_round (rounds one next n) next (one d)

unfoldable pub read_round : ℕ → Dmac → Option (Dmac × Bool)
unfolding read_one
read_round cycle d = read_one cycle d (ready cycle (read_key d) d.bus)

unfoldable pub write_round : ℕ → Dmac → Option (Dmac × Bool)
unfolding write_one word_address
write_round cycle d =
    write_one cycle d (ready cycle (key_of (word_address d.query.dst d) datastore d) d.bus)

-- DMAC_STAT_IDLE, once a transfer is asked for. With `zero_write` too it is the source that is tested.
unfoldable pub check_source : Dmac → Dmac
unfolding address_valid
check_source d =
    if address_valid d.query.src d
    then record d { status = if d.query.zero_write then write_req else read_req }
    else record d { status = exit; config = record d.config { addr_err = true } }

unfoldable pub start : Dmac → Dmac
unfolding check_source
start d =
    if d.config.kicked
    then check_source (record d {
      config = record d.config { busy = true; kicked = false };
      query = d.config.query;
      counter = 0;
      word_counter = 0;
    })
    else d

unfoldable pub after_read : ℕ → Dmac → Dmac
unfolding address_valid
after_read cycle d =
    let d₁ = record d { bus = release_mem cycle d.client d.bus } in
    if address_valid d.query.dst d
    then record d₁ { status = write_req; config = record d.config { end_stat = false } }
    else (if d.config.abort then record d₁ { status = exit } else record d₁ {
      status = exit;
      config = record d.config { end_stat = true; addr_err = true };
    })

unfoldable pub after_write : Dmac → Dmac
after_write d = record d {
  counter = d.counter + 1;
  status =
      if d.counter + 1 == d.query.len
      then exit
      else (if d.config.abort then exit else (if d.query.zero_write then write_req else read_req));
  config = record d.config { end_stat = true };
}

unfoldable pub finish : ℕ → Dmac → Dmac
finish cycle d = record d {
  bus = release_mem cycle d.client d.bus;
  config = record d.config { done = true; busy = false; success_len = d.counter };
  status = idle;
}

unfoldable pub step_state : ℕ → State → Dmac → Option Dmac
unfolding start request rounds read_round write_round after_read after_write finish
step_state cycle idle d = some (start d)
step_state cycle read_req d =
    some (request cycle d.query.src dataload reading d (acquire_mem cycle d.client d.bus))
step_state cycle reading d = rounds (read_round cycle) read_done d.mem_bandwidth d
step_state cycle read_done d = some (after_read cycle d)
step_state cycle write_req d =
    some (request cycle d.query.dst datastore writing d (acquire_mem cycle d.client d.bus))
step_state cycle writing d = rounds (write_round cycle) write_done d.mem_bandwidth d
step_state cycle write_done d = some (after_write d)
step_state cycle exit d = some (finish cycle d)

unfoldable pub is_dbe : ExcCode → Bool
is_dbe dbe = true
is_dbe _ = false

-- Whether an exception DBE was raised in the controller.
unfoldable pub bus_error_in : ℕ → List Raised → Bool
unfolding is_dbe
bus_error_in client [] = false
bus_error_in client (r ∷ rs) =
    if r.client == client && is_dbe r.code then true else bus_error_in client rs

unfoldable pub settle : ℕ → Dmac → Dmac
unfolding bus_error_in
settle raised d =
    if bus_error_in d.client (drop raised d.bus.raised)
    then record d { status = exit; config = record d.config { bus_err = true } }
    else d

abbrev pub irq : Dmac → Bool
irq d = d.config.done && d.config.irq_en

-- The result also says whether IRQ5 is asserted.
unfoldable pub step : ℕ → Dmac → Option (Dmac × Bool)
unfolding step_state settle
step cycle d =
    if d.config.enabled
    then Option.map (λ (d' : Dmac). let s = settle (length d.bus.raised) d' in (s, irq s))
        (step_state cycle d.status d)
    else some (d, irq d)
