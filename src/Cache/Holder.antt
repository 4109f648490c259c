-- ===== src/Cache/Holder.antt =====
-- Who holds the bus while the cache, cache.cc, works.
pub mod Calls
pub mod Exception
use mathlib.Core.Path.{subst}
use mathlib.Core.Option
use cube_sim.Memory.Access
use cube_sim.Memory.Mapper
use cube_sim.Common.{
  Bool, Bool-cases, Option, ap, arith, false, get_or, inl, inr, ltb, none, refl, some, suc, sym,
  true, zero, ℕ, ◌-◌, ◌==◌, ◌∙◌, ◌≡◌,
}
use cube_sim.Common.Bits.{add32}
use cube_sim.Cache.{Access, entry_at}
use cube_sim.Cache.Fill.{
  Filler, OpState, Status, acquire_mem, advance, cache_fetch, cache_wb, count_fetch, count_wb,
  fetch, fetch_if, fetch_mode, fetch_one, finish_fetch, finish_wb, idle, is_idle, is_op_wb, op_wb,
  put_word, request_block, request_first, request_granted, request_words, step, step_status, wb,
  wb_ready, wb_word,
}
use cube_sim.Memory.Bus.{BusArbiter, acquire_bus, acquire_bus-holds, grant}
use cube_sim.Memory.Mapper.{AccessMode, Key, Mapper, datastore, request_word}
use cube_sim.Memory.Access.{swap_if}
use cube_sim.Memory.Access.Frame.{OnSome, fetch_word_bus, ready_bus, store_word_bus}

abbrev pub HeldBy : Mapper → OpState → Type 0
HeldBy m o = m.bus.bus_holder ≡ some o.client

-- While the cache has work to do, the client that it works for holds the bus.
abbrev pub HoldsBus : Filler → Type 0
HoldsBus u = OnSome (HeldBy u.physmem) u.op

acquire_mem-kept :
    (cycle client h : ℕ) (m : Mapper)
    → m.bus.bus_holder ≡ some h
    → (acquire_mem cycle client m).0.bus.bus_holder ≡ some h
unfolding acquire_mem acquire_bus grant
acquire_mem-kept cycle client h m e = ground arith

pub acquire_mem-HeldBy :
    (cycle client : ℕ) (m : Mapper) (op : Option OpState)
    → OnSome (HeldBy m) op
    → OnSome (HeldBy (acquire_mem cycle client m).0) op
acquire_mem-HeldBy cycle client m none h = tt
acquire_mem-HeldBy cycle client m (some o) h = acquire_mem-kept cycle client o.client m h

pub acquire_mem-granted :
    (cycle client : ℕ) (m : Mapper)
    → (acquire_mem cycle client m).1 ≡ true
    → (acquire_mem cycle client m).0.bus.bus_holder ≡ some client
unfolding acquire_mem
acquire_mem-granted cycle client m h = (acquire_bus-holds cycle client m.bus h).0

request_granted-HoldsBus :
    (addr : ℕ) (mode : AccessMode) (client : ℕ) (u : Filler) (r : Mapper × Bool)
    → OnSome (HeldBy r.0) u.op
    → (r.1 ≡ true → r.0.bus.bus_holder ≡ some client)
    → HoldsBus (request_granted addr mode client u r)
unfolding request_granted
request_granted-HoldsBus addr mode client u (m, false) h g = h
request_granted-HoldsBus addr mode client u (m, true) h g = g refl

pub request_block-HoldsBus :
    (cycle addr : ℕ) (mode : AccessMode) (client : ℕ) (u : Filler)
    → HoldsBus u
    → HoldsBus (request_block cycle addr mode client u)
unfolding request_block
request_block-HoldsBus cycle addr mode client u h = elim (Bool-cases (is_idle u.status)) [
  | inl e ↦ rw e (
      request_granted-HoldsBus addr mode client u (acquire_mem cycle client u.physmem)
        (acquire_mem-HeldBy cycle client u.physmem u.op h)
        (acquire_mem-granted cycle client u.physmem))
  | inr e ↦ rw e h
]

request_words_bus :
    (cycle n addr : ℕ) (mode : AccessMode) (client : ℕ) (m : Mapper)
    → (request_words cycle n addr mode client m).bus ≡ m.bus
unfolding request_words request_word
request_words_bus cycle zero addr mode client m = refl
request_words_bus cycle (suc n) addr mode client m =
    request_words_bus cycle n (add32 addr 4) mode client
      (request_word cycle (record { addr = addr; mode = mode; client = client }) m)

request_first_bus :
    (cycle words addr : ℕ) (mode : AccessMode) (o : OpState) (m : Mapper)
    → (request_first cycle words addr mode o m).bus ≡ m.bus
unfolding request_first
request_first_bus cycle words addr mode o m = elim (Bool-cases (o.counter == words)) [
  | inl e ↦ rw e (request_words_bus cycle words addr mode o.client m)
  | inr e ↦ rw e refl
]

finish_wb-HoldsBus :
    (cycle : ℕ) (o : OpState) (u : Filler) → HeldBy u.physmem o → HoldsBus (finish_wb cycle o u)
unfolding finish_wb
finish_wb-HoldsBus cycle o u h = elim (Bool-cases (is_op_wb u.status)) [
  | inl e ↦ rw e tt
  | inr e ↦ rw e h
]

count_wb-HoldsBus :
    (cycle : ℕ) (o : OpState) (u : Filler) → HeldBy u.physmem o → HoldsBus (count_wb cycle o u)
unfolding count_wb
count_wb-HoldsBus cycle o u h = elim (Bool-cases (o.counter - 1 == 0)) [
  | inl e ↦ rw e (finish_wb-HoldsBus cycle o u h)
  | inr e ↦ rw e h
]

map-OnSome :
    {A : Type 0} (P : A → Type 0) (Q : Filler → Type 0) (f : A → Filler) (x : Option A)
    → ((a : A) → P a → Q (f a))
    → OnSome P x
    → OnSome Q (Option.map f x)
map-OnSome P Q f none g h = tt
map-OnSome P Q f (some a) g h = g a h

wb_ready-HoldsBus :
    (cycle addr : ℕ) (o : OpState) (u : Filler) (x : Option (Mapper × Bool))
    → u.op ≡ some o
    → OnSome (λ (r : Mapper × Bool). HeldBy r.0 o) x
    → OnSome HoldsBus (wb_ready cycle addr o u x)
unfolding wb_ready wb_word
wb_ready-HoldsBus cycle addr o u none e h = tt
wb_ready-HoldsBus cycle addr o u (some (m, false)) e h = subst (OnSome (HeldBy m)) (sym e) h
wb_ready-HoldsBus cycle addr o u (some (m, true)) e h =
    let w =
      get_or (entry_at u.cache.blocks o.way o.index).words (u.cache.word_size - o.counter) 0 in
    map-OnSome (λ (m' : Mapper). m'.bus ≡ m.bus) HoldsBus
      (λ (m' : Mapper). count_wb cycle o (record u { physmem = m' }))
      (Access.store_word cycle addr (swap_if m.byteswapped w) o.client m)
      (λ m' k.
        count_wb-HoldsBus cycle o (record u { physmem = m' })
          (ap (λ (b : BusArbiter). b.bus_holder) k ∙ h))
      (store_word_bus cycle addr (swap_if m.byteswapped w) o.client m)

ready-HeldBy :
    (cycle words addr : ℕ) (k : Key) (mode : AccessMode) (o : OpState) (m : Mapper)
    → HeldBy m o
    → OnSome
        (λ (r : Mapper × Bool). HeldBy r.0 o)
        (Mapper.ready cycle k (request_first cycle words addr mode o m))
ready-HeldBy cycle words addr k mode o m h =
    let m₁ = request_first cycle words addr mode o m in
    kept (Mapper.ready cycle k m₁) (ready_bus cycle k m₁)
  where
    kept :
        (x : Option (Mapper × Bool))
        → OnSome (λ (r : Mapper × Bool). r.0.bus ≡ (request_first cycle words addr mode o m).bus) x
        → OnSome (λ (r : Mapper × Bool). HeldBy r.0 o) x
    kept none q = tt
    kept (some r) q =
        ap (λ (b : BusArbiter). b.bus_holder) (q ∙ request_first_bus cycle words addr mode o m) ∙ h

cache_wb-HoldsBus :
    (cycle : ℕ) (op : Option OpState) (u : Filler)
    → u.op ≡ op
    → HoldsBus u
    → OnSome HoldsBus (cache_wb cycle op u)
unfolding cache_wb
cache_wb-HoldsBus cycle none u e h = tt
cache_wb-HoldsBus cycle (some o) u e h = wb_ready-HoldsBus cycle _ o u _ e (
    ready-HeldBy cycle u.cache.word_size _ _ datastore o u.physmem
      (subst (OnSome (HeldBy u.physmem)) e h))

count_fetch-HoldsBus :
    (cycle addr : ℕ) (o : OpState) (u : Filler)
    → HeldBy u.physmem o
    → HoldsBus (count_fetch cycle addr o u)
unfolding count_fetch finish_fetch
count_fetch-HoldsBus cycle addr o u h = elim (Bool-cases (o.counter - 1 == 0)) [
  | inl e ↦ rw e tt
  | inr e ↦ rw e h
]

fetch_if-HoldsBus :
    (cycle : ℕ) (k : Key) (o : OpState) (u : Filler) (x : Option (Mapper × Bool))
    → u.op ≡ some o
    → OnSome (λ (r : Mapper × Bool). HeldBy r.0 o) x
    → OnSome HoldsBus (fetch_if cycle k o u x)
unfolding fetch_if fetch_one put_word
fetch_if-HoldsBus cycle k o u none e h = tt
fetch_if-HoldsBus cycle k o u (some (m, false)) e h = subst (OnSome (HeldBy m)) (sym e) h
fetch_if-HoldsBus cycle k o u (some (m, true)) e h =
    let put = put_word (u.cache.word_size - o.counter) o u in
    map-OnSome (λ (r : Mapper × ℕ). r.0.bus ≡ m.bus) HoldsBus
      (λ (r : Mapper × ℕ). count_fetch cycle k.addr o (put r)) (Access.fetch_word cycle k m)
      (λ r q.
        count_fetch-HoldsBus cycle k.addr o (put r) (ap (λ (b : BusArbiter). b.bus_holder) q ∙ h))
      (fetch_word_bus cycle k m)

cache_fetch-HoldsBus :
    (cycle : ℕ) (op : Option OpState) (u : Filler)
    → u.op ≡ op
    → HoldsBus u
    → OnSome HoldsBus (cache_fetch cycle op u)
unfolding cache_fetch
cache_fetch-HoldsBus cycle none u e h = tt
cache_fetch-HoldsBus cycle (some o) u e h = fetch_if-HoldsBus cycle _ o u _ e (
    ready-HeldBy cycle u.cache.word_size _ _ (fetch_mode o.mode) o u.physmem
      (subst (OnSome (HeldBy u.physmem)) e h))

step_status-HoldsBus :
    (s : Status) (cycle : ℕ) (u : Filler) → HoldsBus u → OnSome HoldsBus (step_status s cycle u)
unfolding step_status
step_status-HoldsBus idle cycle u h = h
step_status-HoldsBus fetch cycle u h = cache_fetch-HoldsBus cycle u.op u refl h
step_status-HoldsBus wb cycle u h = cache_wb-HoldsBus cycle u.op u refl h
step_status-HoldsBus op_wb cycle u h = cache_wb-HoldsBus cycle u.op u refl h

advance-HoldsBus : (cycle : ℕ) (u : Filler) → HoldsBus u → HoldsBus (advance cycle u)
unfolding advance
advance-HoldsBus cycle u h = elim (Bool-cases (ltb u.last_update cycle)) [
  | inl e ↦ rw e h
  | inr e ↦ rw e h
]

-- A cycle of the cache, whether it fills a block, writes one back or does nothing, keeps this: as
-- long as an operation of the cache is pending, the client that it works for holds the bus.
pub step-HoldsBus : (cycle : ℕ) (u : Filler) → HoldsBus u → OnSome HoldsBus (step cycle u)
unfolding step
step-HoldsBus cycle u h =
    step_status-HoldsBus (advance cycle u).status cycle (advance cycle u)
      (advance-HoldsBus cycle u h)
