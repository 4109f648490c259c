-- ===== src/Accelerator/Nif/Accept.antt =====
-- How the network interface of an accelerator takes the head flit of a packet, CNIF_IDLE of `nif_step`,
-- accelerator.cc.
use cube_sim.Common.{Bool, List, ap, arith, false, refl, true, ℕ, ◌%◌, ◌^◌, ◌∙◌, ◌∷◌, ◌≡◌}
use cube_sim.Accelerator.LocalBus.{Core}
use cube_sim.Accelerator.Nif.{
  Nif, State, br_head, bw_data, dispatch, entry, idle, is_idle, mtype_br, mtype_bw, nif_state,
  nif_step, receive, take_head, update_status,
}
use cube_sim.Accelerator.Nif.Cycle.{nif_step_in}
use cube_sim.Router.Flit.{FlitEntry, HeadFields, is_head, make_head_flit}
use cube_sim.Router.Flit.Head.{decode_headflit-make_head_flit}

is_head-make_head_flit :
    (addr mtype v src dst : ℕ) (last : Bool)
    → is_head (make_head_flit addr mtype v src dst last).ftype ≡ true
unfolding is_head make_head_flit
is_head-make_head_flit addr mtype v src dst true = refl
is_head-make_head_flit addr mtype v src dst false = refl

module _ {C : Type 0} where
  -- `t` is `s` after it has taken the head flit that was made of these fields, and is in `st`.
  pub record Accepted (addr src dst : ℕ) (rest : List FlitEntry) (st : State) (s t : Nif C)
      : Type 0 where
    pub state_eq : t.state ≡ st
    pub next_eq : t.next_state ≡ st
    pub dcount_eq : t.dcount ≡ s.packet_max
    pub packet_eq : t.packet_max ≡ s.packet_max
    pub bandwidth_eq : t.mem_bandwidth ≡ s.mem_bandwidth
    pub mema_eq : t.reg_mema ≡ addr % 2 ^ 22
    pub src_eq : t.reg_src ≡ src % 4
    pub dst_eq : t.reg_dst ≡ dst % 4
    pub bus_eq : t.bus ≡ s.bus
    pub rx_eq : t.rx ≡ rest
    pub pending_eq : t.done_pending ≡ s.done_pending

  with_head : HeadFields → List FlitEntry → Nif C → Nif C
  with_head h rest s = record s {
    rx = rest;
    reg_mema = h.addr;
    reg_mtype = h.mtype;
    reg_vch = h.vch;
    reg_src = h.src;
    reg_dst = h.dst;
  }

  take_head_lem :
      (addr mtype v src dst : ℕ) (last : Bool) (rest : List FlitEntry) (s : Nif C)
      → take_head (make_head_flit addr mtype v src dst last) (record s { rx = rest })
        ≡ dispatch (mtype % 8) (
            with_head
              (record {
                addr = addr % 2 ^ 22;
                mtype = mtype % 8;
                vch = v % 8;
                src = src % 4;
                dst = dst % 4;
              })
              rest
              s)
  unfolding take_head with_head
  take_head_lem addr mtype v src dst last rest s =
      rw
        (
          is_head-make_head_flit addr mtype v src dst last,
          decode_headflit-make_head_flit addr mtype v src dst last,
        )
        refl

module _ {C : Type 0} (k : Core C) (ready : ℕ → Bool) where
  accept :
      (addr mtype v src dst u : ℕ) (last : Bool) (rest : List FlitEntry) (s : Nif C)
      → s.state ≡ idle
      → s.rx ≡ entry (make_head_flit addr mtype v src dst last) u ∷ rest
      → (nif_step k ready s).0
        ≡ update_status (
            dispatch (mtype % 8) (
              with_head
                (record {
                  addr = addr % 2 ^ 22;
                  mtype = mtype % 8;
                  vch = v % 8;
                  src = src % 4;
                  dst = dst % 4;
                })
                rest
                s))
  unfolding nif_state receive
  accept addr mtype v src dst u last rest s e h =
      ap (λ (p : Nif C × List FlitEntry). p.0) (nif_step_in k ready s idle e refl)
      ∙ ap (λ (l : List FlitEntry). update_status (receive l s)) h
      ∙ ap update_status (take_head_lem addr mtype v src dst last rest s)

  module _ (addr v src dst u : ℕ) (last : Bool) (rest : List FlitEntry) (s : Nif C) where
    pub accept_write :
        s.state ≡ idle
        → s.rx ≡ entry (make_head_flit addr mtype_bw v src dst last) u ∷ rest
        → Accepted addr src dst rest bw_data s (nif_step k ready s).0
    unfolding dispatch update_status with_head is_idle
    accept_write e h = rw (accept addr mtype_bw v src dst u last rest s e h) (ground arith)

    pub accept_read :
        s.state ≡ idle
        → s.rx ≡ entry (make_head_flit addr mtype_br v src dst last) u ∷ rest
        → Accepted addr src dst rest br_head s (nif_step k ready s).0
    unfolding dispatch update_status with_head is_idle
    accept_read e h = rw (accept addr mtype_br v src dst u last rest s e h) (ground arith)
