-- ===== src/Cache/Op.antt =====
-- The cache instructions, `Cache::exec_cache_op` of cache.cc, with the numbers of cacheinstr.h. Only
-- SETLINE and the operations on a hit do anything; the others print that they are not implemented.
-- `way` and `index` are 0 where the program leaves them without a value.
use cube_sim.Common.{Bool, Option, false, if◌then◌else◌, length, none, some, true, ℕ, ◌==◌, ◌||◌}
use cube_sim.Cache.{cache_hit, entry_at, index_of, tag_of}
use cube_sim.Cache.Fill.{Filler, acquire_mem, find_victim, is_idle, is_op_wb, op_wb, update_entry}
use cube_sim.Memory.Mapper.{AccessMode, Mapper, dataload, instfetch}

abbrev pub op_setline : ℕ
op_setline = 0x18

abbrev pub op_hit_wbinv : ℕ
op_hit_wbinv = 0x1b

abbrev pub op_hit_fwbinv : ℕ
op_hit_fwbinv = 0x1f

abbrev pub op_hit_wb : ℕ
op_hit_wb = 0x1a

abbrev pub op_hit_fwb : ℕ
op_hit_fwb = 0x1e

abbrev pub icache_op_hit_inv : ℕ
icache_op_hit_inv = 0x09

abbrev pub dcache_op_hit_inv : ℕ
dcache_op_hit_inv = 0x19

-- The operations on the instruction cache: ICACHE_OP_IDX_INV, IDX_LTAG, IDX_STAG and HIT_INV.
unfoldable pub op_mode : ℕ → AccessMode
op_mode opcode =
    if opcode == 0x01 || opcode == 0x04 || opcode == 0x05 || opcode == icache_op_hit_inv
    then instfetch
    else dataload

-- The block that an operation means.
pub record Target : Type 0 where
  pub way : ℕ
  pub index : ℕ

-- SETLINE where the address misses: the search tests whether a way is free before it looks at its
-- last access, which makes no difference to the way that is found.
unfoldable pub set_line_at : ℕ → ℕ → ℕ → Filler → Filler
set_line_at tag index way u =
    if (entry_at u.cache.blocks way index).dirty
    then record u { next_status = op_wb }
    else record u {
      cache =
          update_entry way index (λ e. record e { valid = true; tag = tag; dirty = false }) u.cache;
    }

unfoldable pub set_line : ℕ → Option ℕ → Filler → Filler × Target
set_line addr (some way) u = (u, record { way = way; index = index_of u.cache addr })
set_line addr none u =
    let index = index_of u.cache addr in
    let way = (find_victim index u.cache.blocks).1 in
    (set_line_at (tag_of u.cache addr) index way u, record { way = way; index = index })

-- On a miss `way` has run to the number of ways.
unfoldable pub hit_inv : ℕ → Option ℕ → Filler → Filler × Target
hit_inv addr none u = (u, record { way = length u.cache.blocks; index = index_of u.cache addr })
hit_inv addr (some way) u =
    let index = index_of u.cache addr in
    (
      record u { cache = update_entry way index (λ e. record e { valid = false }) u.cache },
      record { way = way; index = index },
    )

unfoldable pub hit_wb : ℕ → ℕ → Option ℕ → Filler → Filler × Target
hit_wb opcode addr none u =
    (u, record { way = length u.cache.blocks; index = index_of u.cache addr })
hit_wb opcode addr (some way) u =
    let index = index_of u.cache addr in
    (
      (if (entry_at u.cache.blocks way index).dirty
            || opcode == op_hit_fwb
            || opcode == dcache_op_hit_inv
          then record u { next_status = op_wb }
          else u),
      record { way = way; index = index },
    )

unfoldable pub is_hit_wb : ℕ → Bool
is_hit_wb opcode =
    opcode == op_hit_wbinv || opcode == op_hit_fwbinv || opcode == op_hit_wb || opcode == op_hit_fwb

-- The `switch`.
unfoldable pub run_op : ℕ → ℕ → Filler → Filler × Target
run_op opcode addr u =
    if opcode == op_setline
    then set_line addr (cache_hit u.cache addr) u
    else (if opcode == icache_op_hit_inv || opcode == dcache_op_hit_inv
        then hit_inv addr (cache_hit u.cache addr) u
        else (if is_hit_wb opcode
            then hit_wb opcode addr (cache_hit u.cache addr) u
            else (u, record { way = 0; index = 0 })))

-- What follows the `switch`: a write-back stalls the processor.
unfoldable pub start_wb : ℕ → ℕ → ℕ → Filler × Target → Filler × Bool
start_wb opcode addr client (u, t) =
    if is_op_wb u.next_status
    then (
      record u {
        op = some (record {
          counter = u.cache.word_size;
          requested_addr = addr;
          way = t.way;
          index = t.index;
          mode = op_mode opcode;
          last_invalidate = opcode == op_hit_wbinv || opcode == op_hit_fwbinv;
          client = client;
        });
      },
      false,
    )
    else (u, true)

unfoldable pub op_granted : ℕ → ℕ → ℕ → Filler → Mapper × Bool → Filler × Bool
op_granted opcode addr client u (m, false) = (record u { physmem = m }, false)
op_granted opcode addr client u (m, true) =
    start_wb opcode addr client (run_op opcode addr (record u { physmem = m }))

-- The result is whether the processor goes on.
unfoldable pub exec_cache_op : ℕ → ℕ → ℕ → ℕ → Filler → Filler × Bool
exec_cache_op cycle opcode addr client u =
    if is_idle u.status
    then op_granted opcode addr client u (acquire_mem cycle client u.physmem)
    else (u, false)
