-- ===== src/Transfer/Read.antt =====
-- A block that the processor reads from an accelerator: `RouterInterface::step`, routerinterface.cc,
-- and `CubeAccelerator::nif_step`, accelerator.cc.
use cube_sim.Accelerator.Nif.{Nif, br_data, br_head, entry, mtype_br, mtype_bw, update_status}
use cube_sim.Interface.Machine
use cube_sim.Interface.Machine.{Interface}
use cube_sim.Common.{Bool, List, [], false, true, ℕ, ◌%◌, ◌+◌, ◌<◌, ◌^◌, ◌≡◌, ◌≤◌}
use cube_sim.Router.Flit.{FlitEntry, make_head_flit}
use cube_sim.Accelerator.LocalBus.{Core, LocalBus}
use cube_sim.Accelerator.Nif.Cycle.{run}
use cube_sim.Accelerator.Reply.{read_words}
use cube_sim.Interface.Machine.Receiver.{polls}

-- The interface is about to ask for a block, and has nothing in its queue.
pub record Asks (ready : ℕ → Bool) (i : Interface) : Type 0 where
  pub at_head : i.next_state ≡ Machine.br_head
  pub free : ready (Machine.vch_of i) ≡ true
  pub some_words : 0 < i.packet_size
  pub empty : i.recv_fifo ≡ []

abbrev pub request : Interface → FlitEntry
request i =
    let v = Machine.vch_of i in
    entry
      (make_head_flit i.req_addr mtype_br v i.config.router_id (Machine.get_node_id i.req_addr)
        true)
      v

abbrev asked : Interface → Interface
asked i = record i {
  state = Machine.br_head;
  next_state = Machine.br_wait;
  use_vch = Machine.vch_of i;
}

module _ {C : Type 0} (k : Core C) (ready : ℕ → Bool) where
  -- The head flit of the answer.
  abbrev pub answer_head : Nif C → FlitEntry
  answer_head t =
      let v = t.bus.config.vc_normal in
      entry (make_head_flit t.reg_mema mtype_bw v t.reg_dst t.reg_src false) v

  -- The interface after it has sent the head of its answer.
  begun : Nif C → Nif C
  begun t = update_status (record t { next_state = br_data })

-- The cycles that the answer to the request of `i` takes, and what `i` has when its flits have come,
-- as many in each of the first cycles as `ns` says.
abbrev pub BlockFetched :
    {C : Type 0} → Core C → (ℕ → Bool) → (ℕ → Bool) → Interface → Nif C → List ℕ → Type 0
BlockFetched k ready ready' i s ns =
    (m : ℕ) × (m ≤ 2 + i.packet_size)
    × ((polls ready ns (run k ready' m (record s { rx = (Machine.update_status ready i).1 })).1
          (Machine.update_status ready i).0).recv_fifo
        ≡ (read_words k (i.req_addr % 2 ^ 22) 0 i.packet_size s.bus).1)
    × ((polls ready ns (run k ready' m (record s { rx = (Machine.update_status ready i).1 })).1
          (Machine.update_status ready i).0).next_state
        ≡ Machine.data_rdy)
