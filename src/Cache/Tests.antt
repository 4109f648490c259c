-- ===== src/Cache/Tests.antt =====
-- Concrete accesses to a cache, cache.cc.
use cube_sim.Common.{
  List, [], arith, false, get_or, length, none, refl, some, suc, true, zero, ℕ, ◌<◌, ◌∷◌, ◌≡◌, ◌≢◌,
  ◌≤◌,
}
use cube_sim.Cache.{
  Cache, Entry, cache_hit, entry_at, fetch_word, find_way, index_of, matches, store_word, tag_of,
}
use cube_sim.Cache.Words.{IsShaped}
use cube_sim.Cache.LoadStore.{fetch_word-store_word}
use cube_sim.Cache.Fill.{
  Filler, OpState, acquire_mem, fetch, find_victim, idle, is_idle, is_op_wb, request_block,
  request_granted, reset_stat, scan_ways,
}
use cube_sim.Cache.Fill.Victim.{find_victim-oldest}
use cube_sim.Cache.Op.{exec_cache_op, is_hit_wb, op_granted, run_op, start_wb}
use cube_sim.Cache.Holder.Exception.{Loose, exc_release, request_block-release}
use cube_sim.Cache.Holder.Calls.{
  Dangling, Unstarted, block_of, exec_cache_op-keeps, fill_holds_bus, here, next, step-reset_stat,
}
use cube_sim.Memory.Bus.{acquire_bus, grant}
use cube_sim.Memory.Mapper.{dataload}

abbrev block : ℕ → Entry
block tag = record { valid = true; dirty = false; last_access = 0; tag = tag; words = 10 ∷ 11 ∷ [] }

-- One way of two blocks of two words.
abbrev small : Cache
small = record {
  offset_len = 3;
  index_len = 1;
  word_size = 2;
  byteswapped = true;
  blocks = (block 5 ∷ block 6 ∷ []) ∷ [];
  miss_counts = 0;
  hit_counts = 0;
  wb_counts = 0;
  isisolated = false;
}

small-IsShaped : IsShaped small
small-IsShaped = record { rows = rows_of; blocks_full = words_of; block_bytes = refl }
  where
    rows_of : (w : ℕ) → w < 1 → length (get_or small.blocks w []) ≡ 2
    rows_of zero h = refl
    rows_of (suc w) h = absurd (omega arith)

    words_of : (w i : ℕ) → w < 1 → i < 2 → length (entry_at small.blocks w i).words ≡ 2
    words_of zero zero h k = refl
    words_of zero (suc zero) h k = refl
    words_of zero (suc (suc i)) h k = absurd (omega arith)
    words_of (suc w) i h k = absurd (omega arith)

hit_84 : cache_hit small 84 ≡ some 0
unfolding cache_hit find_way matches tag_of index_of
hit_84 = refl

fetch_word-store_word_example :
    ((fetch_word 8 84 (store_word 7 84 99 small).0).1 ≡ 99)
    × (◌≢◌ {A = ℕ} 84 80
        → (fetch_word 8 80 (store_word 7 84 99 small).0).1 ≡ (fetch_word 8 80 small).1)
fetch_word-store_word_example =
    fetch_word-store_word 7 8 84 80 99 small small-IsShaped refl refl hit_84

abbrev lru_blocks : List (List Entry)
lru_blocks =
    (record (block 5) { last_access = 9 } ∷ []) ∷ (record (block 6) { last_access = 4 } ∷ []) ∷ []

find_victim-oldest_example :
    ((entry_at lru_blocks 0 0).valid ≡ true)
    × ((entry_at lru_blocks 1 0).last_access ≤ (entry_at lru_blocks 0 0).last_access)
unfolding find_victim scan_ways
find_victim-oldest_example = find_victim-oldest 0 lru_blocks refl 0 (omega arith)

abbrev idle_filler : Filler
idle_filler = record {
  cache = small;
  status = idle;
  next_status = idle;
  last_update = 0;
  op = none;
  physmem = record {
    byteswapped = true;
    bus_latency = 1;
    requests = [];
    bus = record { last_released_cycle = 0; bus_holder = none };
    last_berr = none;
    last_used = none;
    ranges = [];
    debug_mode = false;
    raised = [];
  };
}

abbrev fill_op : OpState
fill_op = record {
  counter = 2;
  requested_addr = 0;
  way = 0;
  index = 0;
  mode = dataload;
  last_invalidate = false;
  client = 3;
}

fill_holds_bus_example : (request_block 5 0 dataload 3 idle_filler).physmem.bus.bus_holder ≡ some 3
unfolding request_block request_granted acquire_mem acquire_bus grant is_idle find_victim scan_ways
    index_of
fill_holds_bus_example =
    fill_holds_bus idle_filler fill_op refl (next here (block_of 5 0 dataload 3)) refl

exec_cache_op-keeps_example : Unstarted 3 idle_filler (exec_cache_op 5 0x11 84 3 idle_filler).0
unfolding exec_cache_op op_granted acquire_mem acquire_bus grant is_idle run_op start_wb is_op_wb
    is_hit_wb
exec_cache_op-keeps_example = exec_cache_op-keeps 5 0x11 84 3 idle_filler refl

request_block-release_example :
    (v : Filler) × (exc_release 5 3 (request_block 5 0 dataload 3 idle_filler) ≡ some v)
    × Loose 3 (request_block 5 0 dataload 3 idle_filler) v
unfolding is_idle acquire_mem acquire_bus grant
request_block-release_example = request_block-release 5 0 dataload 3 idle_filler refl refl

abbrev filling : Filler
filling = record idle_filler { status = fetch; next_status = fetch; op = some fill_op }

step-reset_stat_example :
    (v : Filler) × (reset_stat 8 filling ≡ some v) × Dangling 8 9 fill_op filling v
step-reset_stat_example = step-reset_stat 8 9 filling fill_op refl refl refl (omega arith)
