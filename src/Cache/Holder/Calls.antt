-- ===== src/Cache/Holder/Calls.antt =====
-- The calls of the processor on the cache, cache.cc, in any order, and the bus.
use mathlib.Core.Path.{subst}
use cube_sim.Common.{
  Bool, Bool-cases, Option, ap, arith, false, if◌then◌else◌, inl, inr, lt→ltb, none, refl, some,
  sym, true, ℕ, ◌<◌, ◌==◌, ◌||◌, ◌∙◌, ◌≡◌, ◌≢◌,
}
use cube_sim.Cache.{Cache, cache_hit, entry_at, index_of}
use cube_sim.Cache.Fill.{
  Filler, OpState, Status, acquire_mem, advance, cache_fetch, fetch, find_victim, idle, is_idle,
  is_op_wb, op_wb, release_mem, request_block, reset_busy, reset_stat, step, step_status,
}
use cube_sim.Cache.Op.{
  Target, dcache_op_hit_inv, exec_cache_op, hit_inv, hit_wb, icache_op_hit_inv, is_hit_wb,
  op_granted, op_hit_fwb, op_setline, run_op, set_line, set_line_at, start_wb,
}
use cube_sim.Cache.Holder.{
  HeldBy, HoldsBus, acquire_mem-HeldBy, acquire_mem-granted, request_block-HoldsBus, step-HoldsBus,
}
use cube_sim.Memory.Mapper.{AccessMode, Mapper}
use cube_sim.Memory.Bus.{BusArbiter, release_bus}
use cube_sim.Memory.Access.Frame.{OnSome, if-OnSome}

-- What the `switch` of `exec_cache_op` leaves as it is.
record Same (u v : Filler) : Type 0 where
  op_same : v.op ≡ u.op
  mem_same : v.physmem ≡ u.physmem
  status_same : v.status ≡ u.status
  next_kept : is_op_wb v.next_status ≡ false → v.next_status ≡ u.next_status

not_op_wb : {s : Status} → is_op_wb op_wb ≡ false → op_wb ≡ s
unfolding is_op_wb
not_op_wb k = let no : ¬ (true ≡ false) = λ q. cc in absurd (no k)

set_line-Same : (addr : ℕ) (o : Option ℕ) (u : Filler) → Same u (set_line addr o u).0
unfolding set_line set_line_at
set_line-Same addr (some w) u = record {
  op_same = refl;
  mem_same = refl;
  status_same = refl;
  next_kept = λ k. refl;
}
set_line-Same addr none u =
    let w = (find_victim (index_of u.cache addr) u.cache.blocks).1 in
    elim (Bool-cases (entry_at u.cache.blocks w (index_of u.cache addr)).dirty) [
      | inl e ↦ rw e (record {
        op_same = refl;
        mem_same = refl;
        status_same = refl;
        next_kept = λ k. not_op_wb k;
      })
      | inr e ↦
          rw e
            (record { op_same = refl; mem_same = refl; status_same = refl; next_kept = λ k. refl })
    ]

hit_inv-Same : (addr : ℕ) (o : Option ℕ) (u : Filler) → Same u (hit_inv addr o u).0
unfolding hit_inv
hit_inv-Same addr none u = record {
  op_same = refl;
  mem_same = refl;
  status_same = refl;
  next_kept = λ k. refl;
}
hit_inv-Same addr (some w) u = record {
  op_same = refl;
  mem_same = refl;
  status_same = refl;
  next_kept = λ k. refl;
}

if-Same : (b : Bool) (u v w : Filler) → Same u v → Same u w → Same u (if b then v else w)
if-Same true u v w s t = s
if-Same false u v w s t = t

hit_wb-Same : (opcode addr : ℕ) (o : Option ℕ) (u : Filler) → Same u (hit_wb opcode addr o u).0
unfolding hit_wb
hit_wb-Same opcode addr none u = record {
  op_same = refl;
  mem_same = refl;
  status_same = refl;
  next_kept = λ k. refl;
}
hit_wb-Same opcode addr (some w) u =
    if-Same
      ((entry_at u.cache.blocks w (index_of u.cache addr)).dirty
        || opcode == op_hit_fwb
        || opcode == dcache_op_hit_inv)
      u (record u { next_status = op_wb }) u
      (record { op_same = refl; mem_same = refl; status_same = refl; next_kept = λ k. not_op_wb k })
      (record { op_same = refl; mem_same = refl; status_same = refl; next_kept = λ k. refl })

run_op-Same : (opcode addr : ℕ) (u : Filler) → Same u (run_op opcode addr u).0
unfolding run_op
run_op-Same opcode addr u = elim (Bool-cases (opcode == op_setline)) [
  | inl e ↦ rw e (set_line-Same addr (cache_hit u.cache addr) u)
  | inr e ↦ elim (Bool-cases (opcode == icache_op_hit_inv || opcode == dcache_op_hit_inv)) [
    | inl f ↦ rw (e, f) (hit_inv-Same addr (cache_hit u.cache addr) u)
    | inr f ↦ elim (Bool-cases (is_hit_wb opcode)) [
      | inl g ↦ rw (e, f, g) (hit_wb-Same opcode addr (cache_hit u.cache addr) u)
      | inr g ↦
          rw (e, f, g)
            (record { op_same = refl; mem_same = refl; status_same = refl; next_kept = λ k. refl })
    ]
  ]
]

start_wb-HoldsBus :
    (opcode addr client : ℕ) (r : Filler × Target)
    → HoldsBus r.0
    → r.0.physmem.bus.bus_holder ≡ some client
    → HoldsBus (start_wb opcode addr client r).0
unfolding start_wb
start_wb-HoldsBus opcode addr client (u, t) h g = elim (Bool-cases (is_op_wb u.next_status)) [
  | inl e ↦ rw e g
  | inr e ↦ rw e h
]

op_granted-HoldsBus :
    (opcode addr client : ℕ) (u : Filler) (r : Mapper × Bool)
    → HoldsBus (record u { physmem = r.0 })
    → (r.1 ≡ true → r.0.bus.bus_holder ≡ some client)
    → HoldsBus (op_granted opcode addr client u r).0
unfolding op_granted
op_granted-HoldsBus opcode addr client u (m, false) h g = h
op_granted-HoldsBus opcode addr client u (m, true) h g =
    let v : Filler = record u { physmem = m } in
    let s = run_op-Same opcode addr v in
    start_wb-HoldsBus opcode addr client (run_op opcode addr v) (rw (s.op_same, s.mem_same) h)
      (rw s.mem_same (g refl))

pub exec_cache_op-HoldsBus :
    (cycle opcode addr client : ℕ) (u : Filler)
    → HoldsBus u
    → HoldsBus (exec_cache_op cycle opcode addr client u).0
unfolding exec_cache_op
exec_cache_op-HoldsBus cycle opcode addr client u h = elim (Bool-cases (is_idle u.status)) [
  | inl e ↦ rw e (
      op_granted-HoldsBus opcode addr client u (acquire_mem cycle client u.physmem)
        (acquire_mem-HeldBy cycle client u.physmem u.op h)
        (acquire_mem-granted cycle client u.physmem))
  | inr e ↦ rw e h
]

-- The calls on the cache and its cycles, what anyone else does with the bus and the physical memory, and what
-- the accesses do to the blocks; `v` is the cache afterwards. The bus may be released for any client but that
-- of an operation that is pending; the other cache of a processor works for the same client, and an
-- exception releases the bus for it, which Exception.antt is about.
pub data Step (u : Filler) : Filler → Type 0 where
  block_of :
      (cycle addr : ℕ) (mode : AccessMode) (client : ℕ)
      → Step u (request_block cycle addr mode client u)
  operate : (cycle opcode addr client : ℕ) → Step u (exec_cache_op cycle opcode addr client u).0
  cycle_of : (cycle : ℕ) {v : Filler} → step cycle u ≡ some v → Step u v
  stop : (cycle : ℕ) {v : Filler} → reset_stat cycle u ≡ some v → Step u v
  other : (c : Cache) → Step u (record u { cache = c })
  acquired :
      (cycle client : ℕ) → Step u (record u { physmem = (acquire_mem cycle client u.physmem).0 })
  released :
      (cycle client : ℕ)
      → OnSome (λ (o : OpState). o.client ≢ client) u.op
      → Step u (record u { physmem = release_mem cycle client u.physmem })
  accessed : (m : Mapper) → m.bus ≡ u.physmem.bus → Step u (record u { physmem = m })

pub data Reach (s : Filler) : Filler → Type 0 where
  here : Reach s s
  next : {u v : Filler} → Reach s u → Step u v → Reach s v

OnSome-some : (P : Filler → Type 0) (o : Option Filler) {v : Filler} → OnSome P o → o ≡ some v → P v
OnSome-some P o h e = subst (OnSome P) e h

reset_stat-HoldsBus : (cycle : ℕ) (u : Filler) → HoldsBus u → OnSome HoldsBus (reset_stat cycle u)
unfolding reset_stat reset_busy
reset_stat-HoldsBus cycle u h =
    if-OnSome HoldsBus (is_idle u.status) (some u) (reset_busy cycle u.op u) h (busy u.op)
  where
    busy : (o : Option OpState) → OnSome HoldsBus (reset_busy cycle o u)
    busy none = tt
    busy (some o) = tt

release_mem-kept :
    (cycle client h : ℕ) (m : Mapper)
    → h ≢ client
    → m.bus.bus_holder ≡ some h
    → (release_mem cycle client m).bus.bus_holder ≡ some h
unfolding release_mem release_bus
release_mem-kept cycle client h m d e = ground arith

release_mem-HeldBy :
    (cycle client : ℕ) (m : Mapper) (op : Option OpState)
    → OnSome (λ (o : OpState). o.client ≢ client) op
    → OnSome (HeldBy m) op
    → OnSome (HeldBy (release_mem cycle client m)) op
release_mem-HeldBy cycle client m none d h = tt
release_mem-HeldBy cycle client m (some o) d h = release_mem-kept cycle client o.client m d h

same_bus-HeldBy :
    (m n : Mapper) (op : Option OpState)
    → n.bus ≡ m.bus
    → OnSome (HeldBy m) op
    → OnSome (HeldBy n) op
same_bus-HeldBy m n none e h = tt
same_bus-HeldBy m n (some o) e h = ap (λ (b : BusArbiter). b.bus_holder) e ∙ h

Step-HoldsBus : {u v : Filler} → Step u v → HoldsBus u → HoldsBus v
Step-HoldsBus {u} (block_of cycle addr mode client) h =
    request_block-HoldsBus cycle addr mode client u h
Step-HoldsBus {u} (operate cycle opcode addr client) h =
    exec_cache_op-HoldsBus cycle opcode addr client u h
Step-HoldsBus {u} (cycle_of cycle e) h =
    OnSome-some HoldsBus (step cycle u) (step-HoldsBus cycle u h) e
Step-HoldsBus {u} (stop cycle e) h =
    OnSome-some HoldsBus (reset_stat cycle u) (reset_stat-HoldsBus cycle u h) e
Step-HoldsBus (other c) h = h
Step-HoldsBus {u} (acquired cycle client) h = acquire_mem-HeldBy cycle client u.physmem u.op h
Step-HoldsBus {u} (released cycle client d) h = release_mem-HeldBy cycle client u.physmem u.op d h
Step-HoldsBus {u} (accessed m e) h = same_bus-HeldBy u.physmem m u.op e h

-- From a cache with no operation pending, through its calls and cycles in any order, whatever anyone does
-- with the bus and the physical memory and however the accesses change the blocks in between, as long as the
-- bus is not released from outside for the client of an operation that is pending: a pending operation of the
-- cache means that the client that it works for holds the bus.
pub fill_holds_bus :
    (u : Filler) {v : Filler} (o : OpState)
    → u.op ≡ none
    → Reach u v
    → v.op ≡ some o
    → v.physmem.bus.bus_holder ≡ some o.client
fill_holds_bus u {v} o e r p = subst (OnSome (HeldBy v.physmem)) p (reached r)
  where
    reached : {w : Filler} → Reach u w → HoldsBus w
    reached here = subst (OnSome (HeldBy u.physmem)) (sym e) tt
    reached (next q s) = Step-HoldsBus s (reached q)

start_wb-keeps :
    (opcode addr client : ℕ) (r : Filler × Target)
    → (start_wb opcode addr client r).1 ≡ true
    → ((start_wb opcode addr client r).0 ≡ r.0) × (is_op_wb r.0.next_status ≡ false)
unfolding start_wb
start_wb-keeps opcode addr client (u, t) h = elim (Bool-cases (is_op_wb u.next_status)) [
  | inl e ↦ let no : ¬ (false ≡ true) = λ q. cc in absurd (no (rw e at h))
  | inr e ↦ (rw e refl, e)
]

-- From `u` to `v`, `client` was given the bus, and nothing was started.
pub record Unstarted (client : ℕ) (u v : Filler) : Type 0 where
  pub holds : v.physmem.bus.bus_holder ≡ some client
  pub still_idle : is_idle v.status ≡ true
  pub next_same : v.next_status ≡ u.next_status
  pub op_same : v.op ≡ u.op

op_granted-keeps :
    (opcode addr client : ℕ) (u : Filler) (r : Mapper × Bool)
    → is_idle u.status ≡ true
    → (r.1 ≡ true → r.0.bus.bus_holder ≡ some client)
    → (op_granted opcode addr client u r).1 ≡ true
    → Unstarted client u (op_granted opcode addr client u r).0
unfolding op_granted
op_granted-keeps opcode addr client u (m, false) i g h =
    let no : ¬ (false ≡ true) = λ q. cc in absurd (no h)
op_granted-keeps opcode addr client u (m, true) i g h =
    let u' : Filler = record u { physmem = m } in
    let s = run_op-Same opcode addr u' in
    let k = start_wb-keeps opcode addr client (run_op opcode addr u') h in
    rw (k.0) (record {
      holds = ap (λ (n : Mapper). n.bus.bus_holder) s.mem_same ∙ g refl;
      still_idle = ap is_idle s.status_same ∙ i;
      next_same = s.next_kept k.1;
      op_same = s.op_same;
    })

-- After a cache instruction that does not stall the processor, its client holds the bus, although the cache
-- is idle and the instruction starts nothing: the state that follows and the operation that is pending are
-- those from before it.
pub exec_cache_op-keeps :
    (cycle opcode addr client : ℕ) (u : Filler)
    → (exec_cache_op cycle opcode addr client u).1 ≡ true
    → Unstarted client u (exec_cache_op cycle opcode addr client u).0
unfolding exec_cache_op
exec_cache_op-keeps cycle opcode addr client u h = elim (Bool-cases (is_idle u.status)) [
  | inl e ↦ rw e (
      op_granted-keeps opcode addr client u (acquire_mem cycle client u.physmem) e
        (acquire_mem-granted cycle client u.physmem) (rw e at h))
  | inr e ↦ let no : ¬ (false ≡ true) = λ q. cc in absurd (no (rw e at h))
]

-- What `reset_stat` leaves of a fill: the operation is deleted and the bus released, but in the cycle `later`
-- the cache is filling again, and follows the pointer to the deleted operation.
pub record Dangling (cycle later : ℕ) (o : OpState) (u v : Filler) : Type 0 where
  pub deleted : v.op ≡ none
  pub stopped : v.status ≡ idle
  pub bus_released : v.physmem ≡ release_mem cycle o.client u.physmem
  pub resumes : (advance later v).status ≡ fetch
  pub follows_nothing : step later v ≡ none

-- Where the cache is filling a block and is to go on with it, `reset_stat` deletes the operation, releases the
-- bus and sets the status to idle; but in any cycle after the last update of the status the cache is filling
-- again, and what the program does is undefined, since it uses the operation that is deleted.
pub step-reset_stat :
    (cycle later : ℕ) (u : Filler) (o : OpState)
    → u.status ≡ fetch
    → u.next_status ≡ fetch
    → u.op ≡ some o
    → u.last_update < later
    → (v : Filler) × (reset_stat cycle u ≡ some v) × Dangling cycle later o u v
unfolding reset_stat reset_busy step advance is_idle step_status cache_fetch
step-reset_stat cycle later u o s n e lt = (
  record u { status = idle; op = none; physmem = release_mem cycle o.client u.physmem },
  rw (s, e) refl,
  record {
    deleted = refl;
    stopped = refl;
    bus_released = refl;
    resumes = rw (lt→ltb u.last_update later lt) n;
    follows_nothing = rw (n, lt→ltb u.last_update later lt) refl;
  },
)
