-- ===== src/Cache/Fill.antt =====
-- The state machine of `Cache`, cache.cc, that fills blocks and writes them back through the mapper.
-- `op` is what `cache_op_state` points to, and `none` where it points to nothing that lives: the program does
-- not set the pointer to null when it deletes the operation, but leaves it dangling. To follow such a pointer
-- is undefined, and is the result `none` here. At the end of a fill or a write-back the client is read before
-- the operation is deleted, where the program reads it after. The sizes are such that a block has a word at
-- least, so that `counter` does not wrap.
pub mod Victim
use mathlib.Core.Option
use cube_sim.Memory.Access
use cube_sim.Memory.Mapper
use cube_sim.Common.{
  Bool, List, Option, [], bit_and, false, get_or, if◌then◌else◌, ltb, none, not, set, some, suc,
  true, zero, ℕ, ◌&&◌, ◌*◌, ◌+◌, ◌-◌, ◌==◌, ◌^◌, ◌∷◌,
}
use cube_sim.Common.Bits.{add32}
use cube_sim.Cache.{
  Access, Cache, Entry, calc_addr, entry_at, index_of, no_entry, set_entry, tag_of,
}
use cube_sim.Memory.Bus.{acquire_bus, release_bus}
use cube_sim.Memory.Mapper.{AccessMode, Key, Mapper, dataload, datastore, instfetch, request_word}
use cube_sim.Memory.Access.{swap_if}

pub data Status : Type 0 where
  idle wb fetch op_wb : Status

pub record OpState : Type 0 where
  pub counter : ℕ
  pub requested_addr : ℕ
  pub way : ℕ
  pub index : ℕ
  pub mode : AccessMode
  pub last_invalidate : Bool
  pub client : ℕ

-- The rest of the state of `Cache`, with the mapper that it works on.
pub record Filler : Type 0 where
  pub cache : Cache
  pub status : Status
  pub next_status : Status
  pub last_update : ℕ
  pub op : Option OpState
  pub physmem : Mapper

unfoldable pub is_idle : Status → Bool
is_idle idle = true
is_idle _ = false

unfoldable pub is_op_wb : Status → Bool
is_op_wb op_wb = true
is_op_wb _ = false

unfoldable pub is_inst : AccessMode → Bool
is_inst instfetch = true
is_inst _ = false

-- `Mapper::acquire_bus` and `Mapper::release_bus`.
unfoldable pub acquire_mem : ℕ → ℕ → Mapper → Mapper × Bool
acquire_mem cycle client m =
    let (bus, ok) = acquire_bus cycle client m.bus in (record m { bus = bus }, ok)

unfoldable pub release_mem : ℕ → ℕ → Mapper → Mapper
release_mem cycle client m = record m { bus = release_bus cycle client m.bus }

-- The search for a block to replace, from `way` on: the first way that is free, or else the way that
-- was used least recently. `lru` is that way so far and `time` its last access.
unfoldable pub scan_ways : ℕ → ℕ → ℕ → ℕ → List (List Entry) → Bool × ℕ
scan_ways index way lru time [] = (false, lru)
scan_ways index way lru time (b ∷ bs) =
    let e = get_or b index no_entry in
    let older = ltb e.last_access time in
    let rest =
      scan_ways index (way + 1) (if older then way else lru) (if older then e.last_access else time)
        bs in
    if e.valid then rest else (true, way)

unfoldable pub find_victim : ℕ → List (List Entry) → Bool × ℕ
find_victim index blocks = scan_ways index 0 0 (entry_at blocks 0 index).last_access blocks

-- Whether the block that is replaced has to be written back first.
unfoldable pub fill_status : Cache → AccessMode → ℕ → Bool × ℕ → Status
fill_status c mode index (true, way) = fetch
fill_status c mode index (false, way) =
    if not c.isisolated && not (is_inst mode) && (entry_at c.blocks way index).dirty
    then wb
    else fetch

unfoldable pub request_granted : ℕ → AccessMode → ℕ → Filler → Mapper × Bool → Filler
request_granted addr mode client u (m, false) = record u { physmem = m }
request_granted addr mode client u (m, true) =
    let index = index_of u.cache addr in
    let victim = find_victim index u.cache.blocks in
    record u {
      physmem = m;
      next_status = fill_status u.cache mode index victim;
      op = some (record {
        counter = u.cache.word_size;
        requested_addr = addr;
        way = victim.1;
        index = index;
        mode = mode;
        last_invalidate = false;
        client = client;
      });
      cache = record u.cache { miss_counts = u.cache.miss_counts + 1 };
    }

unfoldable pub request_block : ℕ → ℕ → AccessMode → ℕ → Filler → Filler
request_block cycle addr mode client u =
    if is_idle u.status
    then request_granted addr mode client u (acquire_mem cycle client u.physmem)
    else u

-- Requests for `n` words from `addr` on, when the first word of a block is to be moved.
unfoldable pub request_words : ℕ → ℕ → ℕ → AccessMode → ℕ → Mapper → Mapper
request_words cycle zero addr mode client m = m
request_words cycle (suc n) addr mode client m =
    request_words cycle n (add32 addr 4) mode client
      (request_word cycle (record { addr = addr; mode = mode; client = client }) m)

unfoldable pub request_first : ℕ → ℕ → ℕ → AccessMode → OpState → Mapper → Mapper
request_first cycle words addr mode o m =
    if o.counter == words then request_words cycle words addr mode o.client m else m

abbrev pub update_entry : ℕ → ℕ → (Entry → Entry) → Cache → Cache
update_entry way index f c = record c {
  blocks = set_entry c.blocks way index (f (entry_at c.blocks way index));
}

-- `cache_wb` after its last word.
unfoldable pub finish_wb : ℕ → OpState → Filler → Filler
finish_wb cycle o u =
    let c = record u.cache { wb_counts = u.cache.wb_counts + 1 } in
    if is_op_wb u.status
    then record u {
      cache =
          update_entry o.way o.index
            (λ e. record e { dirty = false; valid = if o.last_invalidate then false else e.valid })
            c;
      next_status = idle;
      op = none;
      physmem = release_mem cycle o.client u.physmem;
    }
    else record u { cache = c; next_status = fetch; op = some (record o { counter = c.word_size }) }

-- The access is made, and the counter goes down.
unfoldable pub count_wb : ℕ → OpState → Filler → Filler
count_wb cycle o u =
    if o.counter - 1 == 0
    then finish_wb cycle o u
    else record u { op = some (record o { counter = o.counter - 1 }) }

unfoldable pub wb_word : ℕ → ℕ → OpState → Filler → Mapper × Bool → Option Filler
wb_word cycle addr o u (m, false) = some (record u { physmem = m })
wb_word cycle addr o u (m, true) =
    let w =
      get_or (entry_at u.cache.blocks o.way o.index).words (u.cache.word_size - o.counter) 0 in
    Option.map (λ (m' : Mapper). count_wb cycle o (record u { physmem = m' }))
      (Access.store_word cycle addr (swap_if m.byteswapped w) o.client m)

unfoldable pub wb_ready : ℕ → ℕ → OpState → Filler → Option (Mapper × Bool) → Option Filler
wb_ready cycle addr o u none = none
wb_ready cycle addr o u (some r) = wb_word cycle addr o u r

unfoldable pub cache_wb : ℕ → Option OpState → Filler → Option Filler
cache_wb cycle none u = none
cache_wb cycle (some o) u =
    let addr = add32 (calc_addr u.cache o.way o.index) ((u.cache.word_size - o.counter) * 4) in
    let m = request_first cycle u.cache.word_size addr datastore o u.physmem in
    wb_ready cycle addr o u
      (Mapper.ready cycle (record { addr = addr; mode = datastore; client = o.client }) m)

-- `cache_fetch` after its last word.
unfoldable pub finish_fetch : ℕ → ℕ → OpState → Filler → Filler
finish_fetch cycle addr o u = record u {
  cache =
      update_entry o.way o.index
        (λ e. record e { tag = tag_of u.cache addr; valid = true; dirty = false }) u.cache;
  next_status = idle;
  op = none;
  physmem = release_mem cycle o.client u.physmem;
}

unfoldable pub count_fetch : ℕ → ℕ → OpState → Filler → Filler
count_fetch cycle addr o u =
    if o.counter - 1 == 0
    then finish_fetch cycle addr o u
    else record u { op = some (record o { counter = o.counter - 1 }) }

unfoldable pub put_word : ℕ → OpState → Filler → Mapper × ℕ → Filler
put_word i o u (m, w) = record u {
  physmem = m;
  cache =
      update_entry o.way o.index (λ e. record e { words = set e.words i (swap_if m.byteswapped w) })
        u.cache;
}

unfoldable pub fetch_one : ℕ → Key → OpState → Filler → Mapper × Bool → Option Filler
fetch_one cycle k o u (m, false) = some (record u { physmem = m })
fetch_one cycle k o u (m, true) =
    Option.map
      (λ (r : Mapper × ℕ).
        count_fetch cycle k.addr o (put_word (u.cache.word_size - o.counter) o u r))
      (Access.fetch_word cycle k m)

unfoldable pub fetch_if : ℕ → Key → OpState → Filler → Option (Mapper × Bool) → Option Filler
fetch_if cycle k o u none = none
fetch_if cycle k o u (some r) = fetch_one cycle k o u r

abbrev pub fetch_mode : AccessMode → AccessMode
fetch_mode instfetch = instfetch
fetch_mode _ = dataload

-- `requested_addr & ~((1 << offset_len) - 1)`, the first address of the block.
unfoldable pub block_start : Cache → ℕ → ℕ
block_start c addr = bit_and addr (2 ^ 32 - 2 ^ c.offset_len)

unfoldable pub cache_fetch : ℕ → Option OpState → Filler → Option Filler
cache_fetch cycle none u = none
cache_fetch cycle (some o) u =
    let addr = add32 (block_start u.cache o.requested_addr) ((u.cache.word_size - o.counter) * 4) in
    let k : Key = record { addr = addr; mode = fetch_mode o.mode; client = o.client } in
    let m = request_first cycle u.cache.word_size addr k.mode o u.physmem in
    fetch_if cycle k o u (Mapper.ready cycle k m)

unfoldable pub advance : ℕ → Filler → Filler
advance cycle u =
    if ltb u.last_update cycle then record u { status = u.next_status; last_update = cycle } else u

unfoldable pub step_status : Status → ℕ → Filler → Option Filler
step_status idle cycle u = some u
step_status fetch cycle u = cache_fetch cycle u.op u
step_status _ cycle u = cache_wb cycle u.op u

unfoldable pub step : ℕ → Filler → Option Filler
step cycle u = let v = advance cycle u in step_status v.status cycle v

-- `reset_stat`: the operation is deleted, so that the pointer dangles, and `next_status` stays as it is.
unfoldable pub reset_busy : ℕ → Option OpState → Filler → Option Filler
reset_busy cycle none u = none
reset_busy cycle (some o) u =
    some (record u { status = idle; op = none; physmem = release_mem cycle o.client u.physmem })

unfoldable pub reset_stat : ℕ → Filler → Option Filler
reset_stat cycle u = if is_idle u.status then some u else reset_busy cycle u.op u
