-- ===== src/Transfer/Write.antt =====
-- A block that the processor writes into an accelerator: `RouterInterface::step`, routerinterface.cc,
-- and `CubeAccelerator::nif_step`, accelerator.cc.
use cube_sim.Accelerator.Nif.{Nif, entry, idle, mtype_bw, nif_step}
use cube_sim.Interface.Machine
use cube_sim.Interface.Machine.{Interface}
use cube_sim.Common.{
  Bool, List, [], ap, arith, drop, drop-length, false, length, refl, suc, sym, take, take-length,
  true, ℕ, ◌%◌, ◌+◌, ◌-◌, ◌<◌, ◌^◌, ◌∙◌, ◌∷◌, ◌≡◌, ◌≤◌,
}
use cube_sim.Accelerator.Burst.{InBurst, follow_up, payloads, store_words, write_burst_ends}
use cube_sim.Accelerator.Reply.{data_flits}
use cube_sim.Interface.Machine.Sender.{
  InBlock, cycles, cycles-suc, send_block_ends, update_status_in,
}
use cube_sim.Router.Flit.{FlitEntry, make_data_flit, make_head_flit}
use cube_sim.Accelerator.LocalBus.{Core}
use cube_sim.Accelerator.Nif.Cycle.{run, run-suc}
use cube_sim.Accelerator.Nif.Accept.{accept_write}

pub payloads-data_flits : (v left : ℕ) (ws : List ℕ) → payloads (data_flits v left ws) ≡ ws
unfolding make_data_flit
payloads-data_flits v left [] = refl
payloads-data_flits v left (w ∷ ws) =
    ap (λ (l : List ℕ). w ∷ l) (payloads-data_flits v (left - 1) ws)

pub length-data_flits : (v left : ℕ) (ws : List ℕ) → length (data_flits v left ws) ≡ length ws
length-data_flits v left [] = refl
length-data_flits v left (w ∷ ws) = ap suc (length-data_flits v (left - 1) ws)

-- The interface is about to send the head flit of a block of words that it has.
pub record HasBlock (ready : ℕ → Bool) (i : Interface) : Type 0 where
  pub at_head : i.next_state ≡ Machine.bw_head
  pub free : ready (Machine.vch_of i) ≡ true
  pub some_words : 0 < length i.send_fifo
  pub moves : 0 < i.mem_bandwidth

-- The packet of a block.
abbrev pub head_entry : Interface → FlitEntry
head_entry i =
    let v = Machine.vch_of i in
    entry
      (make_head_flit i.req_addr mtype_bw v i.config.router_id (Machine.get_node_id i.req_addr)
        false)
      v

-- The packet of a block.
abbrev pub packet : Interface → List FlitEntry
packet i = head_entry i ∷ data_flits (Machine.vch_of i) (length i.send_fifo) i.send_fifo

abbrev after_head : Interface → Interface
after_head i = record i {
  state = Machine.bw_head;
  next_state = Machine.bw_data;
  use_vch = Machine.vch_of i;
}

module _ (ready : ℕ → Bool) where
  head_sent :
      (i : Interface)
      → HasBlock ready i
      → Machine.update_status ready i ≡ (after_head i, head_entry i ∷ [])
  unfolding Machine.run_state Machine.send_head Machine.vch_of
  head_sent i b = update_status_in ready i Machine.bw_head b.at_head ∙ rw b.free refl

  pub packet_sent :
      (i : Interface)
      → HasBlock ready i
      → (n : ℕ) × (n ≤ 1 + length i.send_fifo)
        × ((cycles ready n i).1 ≡ packet i)
        × ((cycles ready n i).0.next_state ≡ Machine.idle)
  packet_sent i b =
      let block : InBlock (after_head i) = record {
        going_on = refl;
        left = b.some_words;
        moves = b.moves;
      } in
      let (n, le, d) =
        send_block_ends ready (length i.send_fifo) (after_head i) block (omega arith) in
      let first = cycles-suc ready n i (after_head i) (head_entry i ∷ []) (head_sent i b) in
      (
        suc n,
        omega arith,
        ap (λ (p : Interface × List FlitEntry). p.1) first
            ∙ ap (λ (l : List FlitEntry). head_entry i ∷ l) d.flits,
        ap (λ (p : Interface × List FlitEntry). p.0.next_state) first ∙ d.idle_again,
      )

-- The network interface is idle, and its blocks have `p` words.
pub record CanTake {C : Type 0} (p : ℕ) (s : Nif C) : Type 0 where
  pub waits : s.state ≡ idle
  pub block_size : s.packet_max ≡ p
  pub moves : 0 < s.mem_bandwidth

module _ {C : Type 0} (k : Core C) (ready : ℕ → Bool) where
  -- The packet of a block, once it is in the queue of an idle network interface.
  packet_taken :
      (i : Interface) (s : Nif C)
      → 0 < length i.send_fifo
      → CanTake (length i.send_fifo) s
      → s.rx ≡ packet i
      → (m : ℕ) × (m ≤ 1 + length i.send_fifo)
        × ((run k ready m s).0.bus ≡ store_words k (i.req_addr % 2 ^ 22) 0 i.send_fifo s.bus)
        × ((run k ready m s).0.rx ≡ [])
        × ((run k ready m s).0.state ≡ follow_up (run k ready m s).0.bus s.done_pending)
  packet_taken i s h c e =
      let v = Machine.vch_of i in
      let fs = data_flits v (length i.send_fifo) i.send_fifo in
      let t = (nif_step k ready s).0 in
      let a =
        accept_write k ready i.req_addr v i.config.router_id (Machine.get_node_id i.req_addr) v
          false fs s c.waits e in
      let count = length-data_flits v (length i.send_fifo) i.send_fifo in
      let b : InBurst k ready t = record {
        writing = a.state_eq;
        going_on = a.next_eq;
        left = omega (arith, a.dcount_eq, c.block_size, h);
        within = omega (arith, a.dcount_eq, a.packet_eq);
        arrived = omega (arith, a.dcount_eq, c.block_size, ap length a.rx_eq, count);
        moves = omega (arith, a.bandwidth_eq, c.moves);
      } in
      let (m, le, f) = write_burst_ends k ready t.dcount t b (omega arith) in
      let first = ap (λ (p : Nif C × List FlitEntry). p.0) (run-suc k ready m s) in
      let place : t.packet_max - t.dcount ≡ 0 = omega (arith, a.dcount_eq, a.packet_eq) in
      let size : t.dcount ≡ length i.send_fifo = a.dcount_eq ∙ c.block_size in
      let words : take t.dcount i.send_fifo ≡ i.send_fifo =
        ap (λ (j : ℕ). take j i.send_fifo) size ∙ take-length i.send_fifo in
      let none_left : drop t.dcount fs ≡ [] =
        ap (λ (j : ℕ). drop j fs) (size ∙ sym count) ∙ drop-length fs in
      (
        suc m,
        omega (arith, a.dcount_eq, c.block_size),
        ap (λ (u : Nif C). u.bus) first
            ∙ f.stored
            ∙ rw (a.mema_eq, a.rx_eq, a.bus_eq, place, payloads-data_flits, words) refl,
        ap (λ (u : Nif C). u.rx) first ∙ f.taken ∙ ap (drop t.dcount) a.rx_eq ∙ none_left,
        ap (λ (u : Nif C). u.state) first
            ∙ f.follows
            ∙ ap (λ (p : Bool). follow_up (run k ready m t).0.bus p) a.pending_eq
            ∙ ap (λ (u : Nif C). follow_up u.bus s.done_pending) (sym first),
      )

-- The cycles that the two take for the block of `i`, and what they leave.
abbrev pub BlockWritten :
    {C : Type 0} → Core C → (ℕ → Bool) → (ℕ → Bool) → Interface → Nif C → Type 0
BlockWritten k ready ready' i s =
    (n m : ℕ) × (n ≤ 1 + length i.send_fifo)
    × (m ≤ 1 + length i.send_fifo)
    × ((cycles ready n i).0.next_state ≡ Machine.idle)
    × ((run k ready' m (record s { rx = (cycles ready n i).1 })).0.bus
        ≡ store_words k (i.req_addr % 2 ^ 22) 0 i.send_fifo s.bus)
    × ((run k ready' m (record s { rx = (cycles ready n i).1 })).0.rx ≡ [])

-- A block that the processor writes: the router interface sends the whole packet after at most one
-- cycle more than it has words, and is idle; and once that packet is in the queue of an idle network
-- interface with blocks of that size, it takes at most as many cycles until the words stand in the
-- accelerator, in their order, at consecutive addresses from the low 22 bits of the requested one on,
-- and nothing of the packet is left.
pub block_write :
    {C : Type 0} (k : Core C) (ready ready' : ℕ → Bool) (i : Interface) (s : Nif C)
    → HasBlock ready i
    → CanTake (length i.send_fifo) s
    → BlockWritten k ready ready' i s
block_write k ready ready' i s b c =
    let (n, le, sent, free) = packet_sent ready i b in
    let c' : CanTake (length i.send_fifo) (record s { rx = (cycles ready n i).1 }) = record {
      waits = c.waits;
      block_size = c.block_size;
      moves = c.moves;
    } in
    let (m, le', stored, left, follows) =
      packet_taken k ready' i (record s { rx = (cycles ready n i).1 }) b.some_words c' sent in
    (n, m, le, le', free, stored, left)
