-- ===== src/Accelerator/Top.antt =====
-- The top modules of the accelerators, accelerator.h and accelerator.cc: `CubeAccelerator`, which is
-- behind a router of its own, and `SysBusInterface`, by which a `BusConAccelerator` is on the bus of
-- the processor. The router's local output is connected to `rtRx`, and `rtTx` to its local input.
use cube_sim.Accelerator.Nif.{Nif, idle, nif_step}
use cube_sim.Router.Flit.{FlitEntry, vch_size}
use cube_sim.Accelerator.LocalBus
use cube_sim.Common.{
  Bool, List, Option, [], false, get_or, none, replicate, some, suc, true, zero, ℕ, ◌++◌, ◌∷◌,
}
use cube_sim.Router.Node.{Node, arrive, reset_node, step_node}
use cube_sim.Router.Crossbar.{local_port}
use cube_sim.Accelerator.Config.{clear_reg}
use cube_sim.Accelerator.LocalBus.{Core, LocalBus}

pub record CubeAccelerator (C : Type 0) : Type 0 where
  pub nif : Nif C
  pub router : Node

-- `RouterPortMaster::slaveReady` of the port that leads to the router: the signal of its local input.
unfoldable pub slave_ready : Node → ℕ → Bool
slave_ready n vch = elim n.ics.local.ordy [ none ↦ true | some r ↦ get_or r vch false ]

abbrev pub received : Option FlitEntry → List FlitEntry
received none = []
received (some e) = e ∷ []

-- The flits that a router sends to the other routers.
pub record Outward : Type 0 where
  pub upper : List FlitEntry
  pub lower : List FlitEntry

-- `RouterPortMaster::send`, for several flits.
unfoldable pub send_all : List FlitEntry → Node → Node
send_all [] n = n
send_all (e ∷ es) n = send_all es (arrive local_port e n)

module _ {C : Type 0} where
  -- One step of the router: what it sends to its local output is pushed to `rtRx`.
  unfoldable pub router_step : ℕ → CubeAccelerator C → CubeAccelerator C × Outward
  router_step cycle a =
      let (n, sent) = step_node cycle a.router in
      (
        record { nif = record a.nif { rx = a.nif.rx ++ received sent.local }; router = n },
        record { upper = received sent.upper; lower = received sent.lower },
      )

  unfoldable pub router_steps : ℕ → ℕ → CubeAccelerator C → CubeAccelerator C × Outward
  unfolding router_step
  router_steps cycle zero a = (a, record { upper = []; lower = [] })
  router_steps cycle (suc n) a =
      let (a₁, o₁) = router_step cycle a in
      let (a₂, o₂) = router_steps cycle n a₁ in
      (a₂, record { upper = o₁.upper ++ o₂.upper; lower = o₁.lower ++ o₂.lower })

  unfoldable pub done_signal : Bool → CubeAccelerator C → CubeAccelerator C
  done_signal dma_enable a = record a {
    nif = record a.nif { done_pending = true; dma_after_done = dma_enable };
  }

  abbrev pub signalled : Option Bool → CubeAccelerator C → CubeAccelerator C
  signalled none a = a
  signalled (some dma) a = done_signal dma a

module _ {C : Type 0} (k : Core C) where
  unfoldable pub run_nif : CubeAccelerator C → CubeAccelerator C
  unfolding slave_ready send_all
  run_nif a =
      let (s, sent) = nif_step k (slave_ready a.router) a.nif in
      record { nif = s; router = send_all sent a.router }

  unfoldable pub run_core : CubeAccelerator C → CubeAccelerator C
  unfolding done_signal
  run_core a =
      let (c, call) = k.core_step a.nif.bus.core in
      signalled call (record a { nif = record a.nif { bus = record a.nif.bus { core = c } } })

  unfoldable pub step : ℕ → CubeAccelerator C → CubeAccelerator C × Outward
  unfolding router_steps run_nif run_core
  step cycle a =
      let (a₁, out) = router_steps cycle a.nif.mem_bandwidth a in (run_core (run_nif a₁), out)

  -- `reset`; the queue `rx` and the registers of a head flit keep their values.
  unfoldable pub reset : ℕ → CubeAccelerator C → CubeAccelerator C
  reset cycle a = record {
    router = reset_node cycle a.router;
    nif = record a.nif {
      iready = replicate vch_size false;
      state = idle;
      next_state = idle;
      done_pending = false;
      dma_after_done = false;
      bus = record a.nif.bus {
        core = k.core_reset a.nif.bus.core;
        config = clear_reg a.nif.bus.config;
      };
    };
  }

  -- `SysBusInterface`: words go to the local bus; half words and bytes read as 0 and are not written.
  unfoldable pub sys_fetch_word : ℕ → LocalBus C → LocalBus C × ℕ
  sys_fetch_word offset b = LocalBus.fetch_word k offset b

  unfoldable pub sys_store_word : ℕ → ℕ → LocalBus C → LocalBus C
  sys_store_word offset w b = LocalBus.store_word k offset w b

  -- `BusConAccelerator::step` and `reset`.
  unfoldable pub bus_step : LocalBus C → LocalBus C
  bus_step b = record b { core = (k.core_step b.core).0 }

  unfoldable pub bus_reset : LocalBus C → LocalBus C
  bus_reset b = record b { core = k.core_reset b.core }
