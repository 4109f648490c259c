-- ===== src/Dmac/Holder.antt =====
-- Who holds the bus while the DMA controller, dmac.cc, works.
use mathlib.Core.Path.{subst}
use mathlib.Core.Option
use cube_sim.Memory.Access
use cube_sim.Memory.Mapper
use cube_sim.Common.{
  Bool, Bool-cases, Option, ap, arith, drop, false, if◌then◌else◌, inl, inr, length, none, refl,
  some, suc, sym, true, zero, ℕ, ◌*◌, ◌+◌, ◌==◌, ◌∙◌, ◌≡◌, ◌≢◌,
}
use cube_sim.Common.Bits.{add32}
use cube_sim.Dmac.{State, exit, idle, read_done, read_req, reading, write_done, write_req, writing}
use cube_sim.Dmac.Machine.{
  Dmac, address_valid, after_read, after_round, after_write, bus_error_in, check_source, finish,
  irq, key_of, last_word, read_key, read_one, read_round, request, request_all, request_words,
  rounds, settle, start, step, step_state, take_word, word_address, write_one, write_round,
  written_word,
}
use cube_sim.Memory.Mapper.{AccessMode, Mapper, dataload, datastore, request_word}
use cube_sim.Memory.Bus.{BusArbiter, release_bus}
use cube_sim.Memory.Access.Frame.{OnSome, fetch_word_bus, ready_bus, store_word_bus}
use cube_sim.Cache.Fill.{acquire_mem, release_mem}
use cube_sim.Cache.Holder.{acquire_mem-granted}

abbrev pub Holder : Dmac → Type 0
Holder d = d.bus.bus.bus_holder ≡ some d.client

-- What the state says of the bus: in a transfer the controller holds it, in idle it does not.
abbrev pub Accords : State → Dmac → Type 0
Accords idle d = d.bus.bus.bus_holder ≢ some d.client
Accords reading d = Holder d
Accords read_done d = Holder d
Accords writing d = Holder d
Accords write_done d = Holder d
Accords _ d = Unit

abbrev pub AccordsBus : Dmac → Type 0
AccordsBus d = Accords d.status d

if_both : {A : Type 0} (P : A → Type 0) (b : Bool) (x y : A) → P x → P y → P (if b then x else y)
if_both P true x y h k = h
if_both P false x y h k = k

-- Nothing is said of the bus before a request.
request_Accords :
    (zero_write : Bool) (d : Dmac) → Accords (if zero_write then write_req else read_req) d
request_Accords true d = tt
request_Accords false d = tt

check_source-AccordsBus : (d : Dmac) → AccordsBus (check_source d)
unfolding check_source
check_source-AccordsBus d =
    if_both AccordsBus (address_valid d.query.src d)
      (record d { status = if d.query.zero_write then write_req else read_req })
      (record d { status = exit; config = record d.config { addr_err = true } })
      (request_Accords d.query.zero_write
        (record d { status = if d.query.zero_write then write_req else read_req }))
      tt

start-AccordsBus : (d : Dmac) → AccordsBus d → AccordsBus (start d)
unfolding start
start-AccordsBus d h =
    let asked = record d {
      config = record d.config { busy = true; kicked = false };
      query = d.config.query;
      counter = 0;
      word_counter = 0;
    } in
    if_both AccordsBus d.config.kicked (check_source asked) d (check_source-AccordsBus asked) h

request_words_bus :
    (cycle n addr : ℕ) (mode : AccessMode) (d : Dmac) (m : Mapper)
    → (request_words cycle n addr mode d m).bus ≡ m.bus
unfolding request_words request_word
request_words_bus cycle zero addr mode d m = refl
request_words_bus cycle (suc n) addr mode d m =
    request_words_bus cycle n (add32 addr 4) mode d (request_word cycle (key_of addr mode d) m)

request_all_bus :
    (cycle base : ℕ) (mode : AccessMode) (d : Dmac) (m : Mapper)
    → (request_all cycle base mode d m).bus ≡ m.bus
unfolding request_all request_word
request_all_bus cycle base mode d m =
    if_both (λ (m' : Mapper). m'.bus ≡ m.bus) d.query.burst _ _
      (request_words_bus cycle d.block_words (add32 base (d.block_words * d.counter * 4)) mode d m)
      refl

-- A round of a loop leaves the bus and the client alone.
abbrev KeepsBus : Dmac → Dmac × Bool → Type 0
KeepsBus d r = (r.0.bus.bus ≡ d.bus.bus) × (r.0.client ≡ d.client) × (r.0.status ≡ d.status)

read_one_bus :
    (cycle : ℕ) (d : Dmac) (x : Option (Mapper × Bool))
    → OnSome (λ (r : Mapper × Bool). r.0.bus ≡ d.bus.bus) x
    → OnSome (KeepsBus d) (read_one cycle d x)
unfolding read_one take_word
read_one_bus cycle d none h = tt
read_one_bus cycle d (some (m, false)) h = (h, refl, refl)
read_one_bus cycle d (some (m, true)) h =
    taken (Access.fetch_word cycle (read_key d) m) (fetch_word_bus cycle (read_key d) m)
  where
    taken :
        (x : Option (Mapper × ℕ))
        → OnSome (λ (r : Mapper × ℕ). r.0.bus ≡ m.bus) x
        → OnSome (KeepsBus d) (Option.map (λ (d' : Dmac). (d', last_word d')) (take_word d x))
    taken none k = tt
    taken (some r) k = (k ∙ h, refl, refl)

write_one_bus :
    (cycle : ℕ) (d : Dmac) (x : Option (Mapper × Bool))
    → OnSome (λ (r : Mapper × Bool). r.0.bus ≡ d.bus.bus) x
    → OnSome (KeepsBus d) (write_one cycle d x)
unfolding write_one
write_one_bus cycle d none h = tt
write_one_bus cycle d (some (m, false)) h = (h, refl, refl)
write_one_bus cycle d (some (m, true)) h =
    let w = written_word d in
    let addr = word_address d.query.dst d in
    written (Access.store_word cycle addr w d.client m) (store_word_bus cycle addr w d.client m)
  where
    written :
        (x : Option Mapper)
        → OnSome (λ (m' : Mapper). m'.bus ≡ m.bus) x
        → OnSome (KeepsBus d) (
            Option.map
              (λ (m' : Mapper).
                let d' = record d { bus = m'; word_counter = d.word_counter + 1 } in
                (d', last_word d'))
              x)
    written none k = tt
    written (some m') k = (k ∙ h, refl, refl)

-- A loop that starts in state `now`, where the bus is held, ends there or in `next`.
module _ (one : Dmac → Option (Dmac × Bool)) (now next : State)
    (keep : (d : Dmac) → OnSome (KeepsBus d) (one d))
    (at_now : (d : Dmac) → Holder d → Accords now d)
    (at_next : (d : Dmac) → Holder d → Accords next d) where
  abbrev Held : Dmac → Type 0
  Held d = (d.status ≡ now) × Holder d

  kept_Held :
      (d d' : Dmac)
      → d'.bus.bus ≡ d.bus.bus
      → d'.client ≡ d.client
      → d'.status ≡ d.status
      → Held d
      → Held d'
  kept_Held d d' b c s h =
      (s ∙ h.0, ap (λ (q : BusArbiter). q.bus_holder) b ∙ h.1 ∙ ap some (sym c))

  after_round-AccordsBus :
      (rest : Dmac → Option Dmac) (d : Dmac) (x : Option (Dmac × Bool))
      → ((d : Dmac) → Held d → OnSome AccordsBus (rest d))
      → Held d
      → OnSome (KeepsBus d) x
      → OnSome AccordsBus (after_round rest next x)
  unfolding after_round
  after_round-AccordsBus rest d none r h k = tt
  after_round-AccordsBus rest d (some (d', true)) r h k =
      at_next (record d' { status = next }) (kept_Held d d' k.0 k.1 k.2 h).1
  after_round-AccordsBus rest d (some (d', false)) r h k = r d' (kept_Held d d' k.0 k.1 k.2 h)

  rounds-AccordsBus : (n : ℕ) (d : Dmac) → Held d → OnSome AccordsBus (rounds one next n d)
  unfolding rounds
  rounds-AccordsBus zero d h = subst (λ s. Accords s d) (sym h.0) (at_now d h.1)
  rounds-AccordsBus (suc n) d h =
      after_round-AccordsBus (rounds one next n) d (one d) (rounds-AccordsBus n) h (keep d)

read_round_bus : (cycle : ℕ) (d : Dmac) → OnSome (KeepsBus d) (read_round cycle d)
unfolding read_round
read_round_bus cycle d =
    read_one_bus cycle d (Mapper.ready cycle (read_key d) d.bus)
      (ready_bus cycle (read_key d) d.bus)

write_round_bus : (cycle : ℕ) (d : Dmac) → OnSome (KeepsBus d) (write_round cycle d)
unfolding write_round
write_round_bus cycle d =
    let k = key_of (word_address d.query.dst d) datastore d in
    write_one_bus cycle d (Mapper.ready cycle k d.bus) (ready_bus cycle k d.bus)

after_read-AccordsBus : (cycle : ℕ) (d : Dmac) → AccordsBus (after_read cycle d)
unfolding after_read
after_read-AccordsBus cycle d =
    let d₁ = record d { bus = release_mem cycle d.client d.bus } in
    if_both AccordsBus (address_valid d.query.dst d)
      (record d₁ { status = write_req; config = record d.config { end_stat = false } })
      (if d.config.abort then record d₁ { status = exit } else record d₁ {
        status = exit;
        config = record d.config { end_stat = true; addr_err = true };
      })
      tt
      (if_both AccordsBus d.config.abort (record d₁ { status = exit })
        (record d₁ { status = exit; config = record d.config { end_stat = true; addr_err = true } })
        tt tt)

-- After a word or a block nothing is said of the bus, although the controller still has it.
next_Accords :
    (last aborted zero_write : Bool) (d : Dmac)
    → Accords
        (if last
          then exit
          else (if aborted then exit else (if zero_write then write_req else read_req)))
        d
next_Accords true aborted zero_write d = tt
next_Accords false true zero_write d = tt
next_Accords false false zero_write d = request_Accords zero_write d

after_write-AccordsBus : (d : Dmac) → AccordsBus (after_write d)
unfolding after_write
after_write-AccordsBus d =
    next_Accords (d.counter + 1 == d.query.len) d.config.abort d.query.zero_write _

-- A release leaves another holder or none.
release_mem_free :
    (cycle client : ℕ) (m : Mapper) → (release_mem cycle client m).bus.bus_holder ≢ some client
unfolding release_mem release_bus
release_mem_free cycle client m = ground arith

request-AccordsBus :
    (cycle base : ℕ) (mode : AccessMode) (now next : State) (d : Dmac) (r : Mapper × Bool)
    → d.status ≡ now
    → ((d : Dmac) → Accords now d)
    → ((d : Dmac) → Holder d → Accords next d)
    → (r.1 ≡ true → r.0.bus.bus_holder ≡ some d.client)
    → AccordsBus (request cycle base mode next d r)
unfolding request
request-AccordsBus cycle base mode now next d (m, true) e free held g =
    held _ (ap (λ (b : BusArbiter). b.bus_holder) (request_all_bus cycle base mode d m) ∙ g refl)
request-AccordsBus cycle base mode now next d (m, false) e free held g =
    subst (λ s. Accords s (record d { bus = m })) (sym e) (free (record d { bus = m }))

step_state-AccordsBus :
    (cycle : ℕ) (s : State) (d : Dmac)
    → d.status ≡ s
    → Accords s d
    → OnSome AccordsBus (step_state cycle s d)
unfolding step_state finish
step_state-AccordsBus cycle idle d e h = start-AccordsBus d (subst (λ s. Accords s d) (sym e) h)
step_state-AccordsBus cycle read_req d e h =
    request-AccordsBus cycle d.query.src dataload read_req reading d
      (acquire_mem cycle d.client d.bus) e (λ d. tt) (λ d k. k)
      (acquire_mem-granted cycle d.client d.bus)
step_state-AccordsBus cycle reading d e h =
    rounds-AccordsBus (read_round cycle) reading read_done (read_round_bus cycle) (λ d k. k)
      (λ d k. k) d.mem_bandwidth d (e, h)
step_state-AccordsBus cycle read_done d e h = after_read-AccordsBus cycle d
step_state-AccordsBus cycle write_req d e h =
    request-AccordsBus cycle d.query.dst datastore write_req writing d
      (acquire_mem cycle d.client d.bus) e (λ d. tt) (λ d k. k)
      (acquire_mem-granted cycle d.client d.bus)
step_state-AccordsBus cycle writing d e h =
    rounds-AccordsBus (write_round cycle) writing write_done (write_round_bus cycle) (λ d k. k)
      (λ d k. k) d.mem_bandwidth d (e, h)
step_state-AccordsBus cycle write_done d e h = after_write-AccordsBus d
step_state-AccordsBus cycle exit d e h = release_mem_free cycle d.client d.bus

settle-AccordsBus : (raised : ℕ) (d : Dmac) → AccordsBus d → AccordsBus (settle raised d)
unfolding settle
settle-AccordsBus raised d h =
    if_both AccordsBus (bus_error_in d.client (drop raised d.bus.raised))
      (record d { status = exit; config = record d.config { bus_err = true } }) d tt h

-- Every cycle of the controller that does not follow a null pointer keeps this: in a transfer, from
-- the grant to the end of the reads or the writes, it holds the bus, and when it is idle it does not,
-- bus errors, aborts and unaligned addresses included.
pub step-AccordsBus :
    (cycle : ℕ) (d : Dmac)
    → AccordsBus d
    → OnSome (λ (r : Dmac × Bool). AccordsBus r.0) (step cycle d)
unfolding step
step-AccordsBus cycle d h = elim (Bool-cases d.config.enabled) [
  | inl e ↦
      simp e (settled (step_state cycle d.status d) (step_state-AccordsBus cycle d.status d refl h))
  | inr e ↦ simp e h
]
  where
    settled :
        (x : Option Dmac)
        → OnSome AccordsBus x
        → OnSome
            (λ (r : Dmac × Bool). AccordsBus r.0)
            (Option.map (λ (d' : Dmac). let s = settle (length d.bus.raised) d' in (s, irq s)) x)
    settled none k = tt
    settled (some d') k = settle-AccordsBus (length d.bus.raised) d' k
