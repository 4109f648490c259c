-- ===== src/Cache/Holder/Exception.antt =====
-- An exception, `CPU::exc_handle` of cpu.cc, in the cycle of a request to the cache, cache.cc.
use mathlib.Core.Option
use cube_sim.Common.{Bool, Option, ap, arith, false, none, refl, some, true, ℕ, ◌∙◌, ◌≡◌}
use cube_sim.Cache.{Cache, index_of}
use cube_sim.Cache.Fill.{
  Filler, OpState, acquire_mem, fill_status, find_victim, is_idle, release_mem, request_block,
  request_granted, reset_stat,
}
use cube_sim.Cache.Holder.{acquire_mem-granted}
use cube_sim.Memory.Bus.{release_bus}
use cube_sim.Memory.Mapper.{AccessMode, Mapper}

-- The end of `CPU::exc_handle` for one of the caches: `reset_stat`, and the bus is released.
unfoldable pub exc_release : ℕ → ℕ → Filler → Option Filler
exc_release cycle client u =
    Option.map (λ (v : Filler). record v { physmem = release_mem cycle client v.physmem })
      (reset_stat cycle u)

-- What an exception leaves of a block that `client` has asked for.
pub record Loose (client : ℕ) (u v : Filler) : Type 0 where
  pub reset_nothing : v.op ≡ u.op
  pub pending : (o : OpState) × (v.op ≡ some o) × (o.client ≡ client)
  pub goes_on : is_idle v.next_status ≡ false
  pub unheld : v.physmem.bus.bus_holder ≡ none

fill_status-busy :
    (c : Cache) (mode : AccessMode) (index : ℕ) (victim : Bool × ℕ)
    → is_idle (fill_status c mode index victim) ≡ false
unfolding fill_status is_idle
fill_status-busy c mode index (true, way) = refl
fill_status-busy c mode index (false, way) = ground arith

granted-release :
    (cycle addr : ℕ) (mode : AccessMode) (client : ℕ) (u : Filler) (r : Mapper × Bool)
    → r.1 ≡ true
    → r.0.bus.bus_holder ≡ some client
    → let w = request_granted addr mode client u r in
      Loose client w (record w { physmem = release_mem cycle client w.physmem })
unfolding request_granted release_mem release_bus
granted-release cycle addr mode client u (m, false) e h =
    let no : ¬ (false ≡ true) = λ q. cc in absurd (no e)
granted-release cycle addr mode client u (m, true) e h = record {
  reset_nothing = refl;
  pending = (_, refl, refl);
  goes_on =
      fill_status-busy u.cache mode (index_of u.cache addr)
        (find_victim (index_of u.cache addr) u.cache.blocks);
  unheld = ground (arith, h);
}

status-request_granted :
    (addr : ℕ) (mode : AccessMode) (client : ℕ) (u : Filler) (r : Mapper × Bool)
    → (request_granted addr mode client u r).status ≡ u.status
unfolding request_granted
status-request_granted addr mode client u (m, false) = refl
status-request_granted addr mode client u (m, true) = refl

reset_stat-idle : (cycle : ℕ) (u : Filler) → is_idle u.status ≡ true → reset_stat cycle u ≡ some u
unfolding reset_stat
reset_stat-idle cycle u h = rw h refl

request_block-idle :
    (cycle addr : ℕ) (mode : AccessMode) (client : ℕ) (u : Filler)
    → is_idle u.status ≡ true
    → request_block cycle addr mode client u
      ≡ request_granted addr mode client u (acquire_mem cycle client u.physmem)
unfolding request_block
request_block-idle cycle addr mode client u h = rw h refl

-- If an exception is handled in the cycle in which the processor has asked a cache that is idle for a block
-- and has been given the bus, the operation is not deleted, since the status is still idle, but the bus is
-- released: the operation is pending and will be carried out though no one holds the bus.
pub request_block-release :
    (cycle addr : ℕ) (mode : AccessMode) (client : ℕ) (u : Filler)
    → is_idle u.status ≡ true
    → (acquire_mem cycle client u.physmem).1 ≡ true
    → (v : Filler) × (exc_release cycle client (request_block cycle addr mode client u) ≡ some v)
      × Loose client (request_block cycle addr mode client u) v
unfolding exc_release
request_block-release cycle addr mode client u i g =
    let w = request_granted addr mode client u (acquire_mem cycle client u.physmem) in
    let idle_still = ap is_idle (status-request_granted addr mode client u _) ∙ i in
    rw (request_block-idle cycle addr mode client u i) (
      record w { physmem = release_mem cycle client w.physmem },
      ap (Option.map (λ (v : Filler). record v { physmem = release_mem cycle client v.physmem }))
          (reset_stat-idle cycle w idle_still),
      granted-release cycle addr mode client u (acquire_mem cycle client u.physmem) g
          (acquire_mem-granted cycle client u.physmem g),
    )
