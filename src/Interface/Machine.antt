-- ===== src/Interface/Machine.antt =====
-- `RouterInterface`, routerinterface.h and routerinterface.cc. `rx` is the queue of the port `rtRx`;
-- what is sent to the port `rtTx` is a result of a step, in its order. The constructor is the shape of
-- the state.
pub mod Sender
pub mod Receiver
use cube_sim.Common.{
  Bool, List, Option, [], false, get_or, if◌then◌else◌, length, ltb, none, not, set, some, suc,
  true, zero, ℕ, ◌&&◌, ◌++◌, ◌-◌, ◌==◌, ◌||◌, ◌∷◌,
}
use cube_sim.Router.Flit.{
  Flit, FlitEntry, Ftype, HeadFields, body, decode_headflit, headtail, make_data_flit,
  make_head_flit, tail,
}
use cube_sim.Interface.Config.{Config}
use cube_sim.Accelerator.Nif.{
  dmac_notif_addr, done_notif_addr, entry, mtype_br, mtype_bw, mtype_done, mtype_sr, mtype_sw,
}

-- RT_STATE_IDLE and the others.
pub data State : Type 0 where
  idle sw_setup bw_setup sr_head sw_head br_head bw_head sw_data bw_data sr_wait br_wait data_rdy :
      State

pub record Interface : Type 0 where
  pub registered_router_id : ℕ
  pub packet_size : ℕ
  pub mem_bandwidth : ℕ
  pub send_fifo : List ℕ
  pub recv_fifo : List ℕ
  pub req_addr : ℕ
  pub use_vch : ℕ
  pub state : State
  pub next_state : State
  pub rx : List FlitEntry
  pub config : Config

unfoldable pub is_idle : State → Bool
is_idle idle = true
is_idle _ = false

unfoldable pub is_busy : Interface → Bool
unfolding is_idle
is_busy i = not (is_idle i.next_state)

unfoldable pub is_data_rdy : State → Bool
is_data_rdy data_rdy = true
is_data_rdy _ = false

unfoldable pub is_data_arrived : Interface → Bool
unfolding is_data_rdy
is_data_arrived i = is_data_rdy i.state

unfoldable pub is_setup : State → Bool
is_setup sw_setup = true
is_setup bw_setup = true
is_setup _ = false

unfoldable pub is_under_setup : Interface → Bool
unfolding is_setup
is_under_setup i = is_setup i.state || is_setup i.next_state

-- ROUTER_NODE1_OFFSET and ROUTER_NODE2_OFFSET. ROUTER_NODE0_OFFSET is 0, so no address is left over.
unfoldable pub get_node_id : ℕ → ℕ
get_node_id addr = if ltb addr 0x400000 then 1 else (if ltb addr 0x800000 then 2 else 3)

unfoldable pub enqueue : ℕ → Interface → Interface
enqueue w i = record i { send_fifo = i.send_fifo ++ w ∷ [] }

-- The front of an empty queue is undefined in the source.
unfoldable pub dequeue : Interface → Option (Interface × ℕ)
dequeue i = elim i.recv_fifo [ [] ↦ none | w ∷ ws ↦ some (record i { recv_fifo = ws }, w) ]

-- `start`, for a load and a store.
unfoldable pub start_load : ℕ → Bool → Interface → Interface
start_load offset block i = record i {
  req_addr = offset;
  next_state = if block then br_head else sr_head;
  recv_fifo = [];
}

unfoldable pub start_store : ℕ → Bool → Interface → Interface
start_store offset block i = record i {
  req_addr = offset;
  next_state = if block then bw_setup else sw_setup;
  send_fifo = [];
}

-- The handling of a flit of type FTYPE_HEADTAIL; a source 0 would write in front of the arrays.
unfoldable pub notify : HeadFields → Config → Config
notify h c =
    if h.mtype == mtype_done
    then (if h.addr == done_notif_addr
        then record c { done_status = set c.done_status (h.src - 1) true }
        else (if h.addr == dmac_notif_addr
            then record c { dmac_status = set c.dmac_status (h.src - 1) true }
            else c))
    else c

unfoldable pub handle_flit : Flit → Ftype → Interface → Interface
unfolding notify
handle_flit f body i = record i { recv_fifo = i.recv_fifo ++ f.payload ∷ [] }
handle_flit f tail i = record i { recv_fifo = i.recv_fifo ++ f.payload ∷ [] }
handle_flit f headtail i = record i { config = notify (decode_headflit f) i.config }
handle_flit f _ i = i

-- The part of a round of the loop of `step` after the router: one flit is taken, if there is one.
unfoldable pub take_flit : List FlitEntry → Interface → Interface
unfolding handle_flit
take_flit [] i = i
take_flit (e ∷ rest) i = handle_flit e.flit e.flit.ftype (record i { rx = rest })

-- `checkHWint`
unfoldable pub any_unmasked : List Bool → List Bool → Bool
any_unmasked [] ms = false
any_unmasked (s ∷ ss) [] = false
any_unmasked (s ∷ ss) (m ∷ ms) = (s && m) || any_unmasked ss ms

unfoldable pub check_hw_int : Config → Bool
unfolding any_unmasked
check_hw_int c = any_unmasked c.done_status c.done_mask || any_unmasked c.dmac_status c.dmac_mask

-- `config->data_vch[node_id - 1]`
unfoldable pub vch_of : Interface → ℕ
unfolding get_node_id
vch_of i = get_or i.config.data_vch (get_node_id i.req_addr - 1) 0

-- RT_STATE_SR_HEAD and the other three that send a head flit.
unfoldable pub send_head : (ℕ → Bool) → ℕ → Bool → State → Interface → Interface × List FlitEntry
unfolding vch_of get_node_id
send_head ready mtype last after i =
    let v = vch_of i in
    if ready v
    then (
      record i { use_vch = v; next_state = after },
      entry (make_head_flit i.req_addr mtype v i.config.router_id (get_node_id i.req_addr) last) v
          ∷ [],
    )
    else (record i { use_vch = v }, [])

-- RT_STATE_SW_DATA, with the queue as an argument.
unfoldable pub send_word : List ℕ → Interface → Interface × List FlitEntry
send_word [] i = (i, [])
send_word (w ∷ ws) i =
    (record i { send_fifo = ws; next_state = idle }, entry (make_data_flit w true) i.use_vch ∷ [])

unfoldable pub is_nil : List ℕ → Bool
is_nil [] = true
is_nil (w ∷ ws) = false

-- The loop of RT_STATE_BW_DATA.
unfoldable pub send_rounds : ℕ → List ℕ → Interface → Interface × List FlitEntry
unfolding is_nil
send_rounds zero ws i = (i, [])
send_rounds (suc n) [] i = (i, [])
send_rounds (suc n) (w ∷ ws) i =
    let i₁ = record i { send_fifo = ws } in
    let e = entry (make_data_flit w (is_nil ws)) i.use_vch in
    let rest = send_rounds n ws i₁ in
    if is_nil ws then (record i₁ { next_state = idle }, e ∷ []) else (rest.0, e ∷ rest.1)

abbrev pub when_size : ℕ → List ℕ → State → Interface → Interface
when_size n fifo after i = if length fifo == n then record i { next_state = after } else i

-- The switch over the state.
unfoldable pub run_state : (ℕ → Bool) → State → Interface → Interface × List FlitEntry
unfolding send_head send_word send_rounds
run_state ready idle i = (i, [])
run_state ready sw_setup i = (when_size 1 i.send_fifo sw_head i, [])
run_state ready bw_setup i = (when_size i.packet_size i.send_fifo bw_head i, [])
run_state ready sr_head i = send_head ready mtype_sr true sr_wait i
run_state ready sw_head i = send_head ready mtype_sw false sw_data i
run_state ready br_head i = send_head ready mtype_br true br_wait i
run_state ready bw_head i = send_head ready mtype_bw false bw_data i
run_state ready sw_data i = send_word i.send_fifo i
run_state ready bw_data i = send_rounds i.mem_bandwidth i.send_fifo i
run_state ready sr_wait i = (when_size 1 i.recv_fifo data_rdy i, [])
run_state ready br_wait i = (when_size i.packet_size i.recv_fifo data_rdy i, [])
run_state ready data_rdy i = (when_size 0 i.recv_fifo idle i, [])

-- The last part of `step`: `state = next_state` and the switch.
unfoldable pub update_status : (ℕ → Bool) → Interface → Interface × List FlitEntry
unfolding run_state
update_status ready i = run_state ready i.next_state (record i { state = i.next_state })
