-- ===== src/Accelerator/Nif.antt =====
-- The state machine of the network interface of an accelerator, `CubeAccelerator::nif_step` of
-- accelerator.cc. `rx` is the queue of the port `rtRx`; what is sent to the port `rtTx` is a result of
-- a step, in its order, and `ready` says which virtual channels that port has free. `dcount` and
-- `remain_dma_len` are counted down from a positive number and tested at 0, so they are natural
-- numbers. The messages are left out.
pub mod Cycle
pub mod Accept
use cube_sim.Accelerator.LocalBus
use cube_sim.Common.{
  Bool, List, [], false, if◌then◌else◌, ltb, replicate, suc, true, zero, ℕ, ◌%◌, ◌&&◌, ◌*◌, ◌+◌,
  ◌-◌, ◌==◌, ◌^◌, ◌∷◌,
}
use cube_sim.Common.Bits.{add32}
use cube_sim.Router.Flit.{
  Flit, FlitEntry, decode_headflit, is_head, make_data_flit, make_head_flit, vch_size,
}
use cube_sim.Accelerator.Config.{clear_dma_kicked, dma_dst_addr, dma_dst_id, is_dma_kicked}
use cube_sim.Accelerator.LocalBus.{Core, LocalBus}

-- MTYPE_SW and the others, router.h.
abbrev pub mtype_sw : ℕ
mtype_sw = 1

abbrev pub mtype_bw : ℕ
mtype_bw = 2

abbrev pub mtype_sr : ℕ
mtype_sr = 3

abbrev pub mtype_br : ℕ
mtype_br = 4

abbrev pub mtype_done : ℕ
mtype_done = 7

abbrev pub done_notif_addr : ℕ
done_notif_addr = 0

abbrev pub dmac_notif_addr : ℕ
dmac_notif_addr = 1

-- CNIF_IDLE and the others; no code sets CNIF_ERROR.
pub data State : Type 0 where
  idle error sr_head br_head sr_data br_data sw_data bw_data dma_head dma_data dma_done done : State

unfoldable pub is_idle : State → Bool
is_idle idle = true
is_idle _ = false

abbrev pub is_error : State → Bool
is_error error = true
is_error _ = false

pub record Nif (C : Type 0) : Type 0 where
  pub node_id : ℕ
  pub bus : LocalBus C
  pub rx : List FlitEntry
  pub iready : List Bool
  pub reg_mema : ℕ
  pub reg_mtype : ℕ
  pub reg_vch : ℕ
  pub reg_src : ℕ
  pub reg_dst : ℕ
  pub dcount : ℕ
  pub packet_max : ℕ
  pub state : State
  pub next_state : State
  pub mem_bandwidth : ℕ
  pub remain_dma_len : ℕ
  pub done_pending : Bool
  pub dma_after_done : Bool

abbrev pub entry : Flit → ℕ → FlitEntry
entry f v = record { flit = f; vch = v }

module _ {C : Type 0} where
  -- What a message type asks for; others are reported and ignored.
  unfoldable pub dispatch : ℕ → Nif C → Nif C
  dispatch mtype s =
      if mtype == mtype_sw
      then record s { next_state = sw_data }
      else (if mtype == mtype_bw
          then record s { dcount = s.packet_max; next_state = bw_data }
          else (if mtype == mtype_sr
              then record s { next_state = sr_head }
              else (if mtype == mtype_br
                  then record s { dcount = s.packet_max; next_state = br_head }
                  else s)))

  unfoldable pub take_head : Flit → Nif C → Nif C
  unfolding dispatch
  take_head f s =
      let h = decode_headflit f in
      if is_head f.ftype
      then dispatch h.mtype (record s {
        reg_mema = h.addr;
        reg_mtype = h.mtype;
        reg_vch = h.vch;
        reg_src = h.src;
        reg_dst = h.dst;
      })
      else s

  -- CNIF_IDLE
  unfoldable pub receive : List FlitEntry → Nif C → Nif C
  unfolding take_head
  receive [] s = s
  receive (e ∷ rest) s = take_head e.flit (record s { rx = rest })

  -- CNIF_SR_HEAD and CNIF_BR_HEAD, which answer with a packet that writes.
  unfoldable pub reply_head : (ℕ → Bool) → ℕ → State → Nif C → Nif C × List FlitEntry
  reply_head ready mtype next s =
      let v = s.bus.config.vc_normal in
      if ready v
      then (
        record s { next_state = next },
        entry (make_head_flit s.reg_mema mtype v s.reg_dst s.reg_src false) v ∷ [],
      )
      else (s, [])

  -- What a packet that has been written is followed by.
  unfoldable pub after_write : Nif C → Nif C
  after_write s =
      if is_dma_kicked s.bus.config && ltb 0 s.bus.config.dma_len
      then record s { next_state = dma_head; remain_dma_len = s.bus.config.dma_len }
      else record s { next_state = idle }

  -- CNIF_DMA_HEAD
  unfoldable pub send_dma_head : (ℕ → Bool) → Nif C → Nif C × List FlitEntry
  send_dma_head ready s =
      let c = s.bus.config in
      let addr = add32 (dma_dst_addr c) (s.packet_max * 4 * (c.dma_len - s.remain_dma_len)) in
      if ready c.vc_dma
      then (
        record s { next_state = dma_data; dcount = s.packet_max },
        entry (make_head_flit addr mtype_bw c.vc_dma s.reg_dst (dma_dst_id c) false) c.vc_dma ∷ [],
      )
      else (s, [])

  -- CNIF_DMA_DONE
  unfoldable pub send_dma_done : (ℕ → Bool) → Nif C → Nif C × List FlitEntry
  send_dma_done ready s =
      let v = s.bus.config.vc_dmadone in
      if ready v
      then (
        record s { next_state = idle },
        entry (make_head_flit dmac_notif_addr mtype_done v s.reg_dst s.reg_src true) v ∷ [],
      )
      else (s, [])

  -- What the notification that the core is done is followed by.
  unfoldable pub after_done : Nif C → Nif C
  after_done s =
      if s.dma_after_done && ltb 0 s.bus.config.dma_len
      then record s {
        next_state = dma_head;
        remain_dma_len = s.bus.config.dma_len;
        done_pending = false;
        dma_after_done = false;
      }
      else record s { next_state = idle; done_pending = false; dma_after_done = false }

  -- CNIF_DONE
  unfoldable pub send_done : (ℕ → Bool) → Nif C → Nif C × List FlitEntry
  unfolding after_done
  send_done ready s =
      let v = s.bus.config.vc_done in
      if ready v
      then (
        after_done s,
        entry (make_head_flit done_notif_addr mtype_done v s.node_id 0 true) v ∷ [],
      )
      else (s, [])

  -- The address of the word that is sent next in CNIF_BR_DATA.
  unfoldable pub reply_addr : Nif C → ℕ
  reply_addr s = add32 s.reg_mema ((s.packet_max - s.dcount) * 4)

  -- The address of the word that is sent next in CNIF_DMA_DATA.
  unfoldable pub dma_addr : Nif C → ℕ
  dma_addr s =
      let c = s.bus.config in
      (c.dma_src
        + s.packet_max * 4 * (c.dma_len - s.remain_dma_len)
        + (s.packet_max - s.dcount) * 4)
      % 2 ^ 32

  -- The end of a block of the DMA transfer.
  unfoldable pub dma_block_end : Nif C → Nif C
  dma_block_end s =
      let left = s.remain_dma_len - 1 in
      if left == 0
      then record s {
        remain_dma_len = left;
        next_state = dma_done;
        bus = record s.bus { config = clear_dma_kicked s.bus.config };
      }
      else record s { remain_dma_len = left; next_state = dma_head }

  -- The loops that send: at most `n` rounds, until `dcount` is 0.
  unfoldable pub send_rounds : (Nif C → Nif C × FlitEntry) → ℕ → Nif C → Nif C × List FlitEntry
  send_rounds one zero s = (s, [])
  send_rounds one (suc n) s =
      let (s₁, e) = one s in
      let rest = send_rounds one n s₁ in
      if s₁.dcount == 0 then (s₁, e ∷ []) else (rest.0, e ∷ rest.1)

  -- The address of the word that is written next in CNIF_BW_DATA.
  unfoldable pub write_addr : Nif C → ℕ
  write_addr s = add32 s.reg_mema ((s.packet_max - s.dcount) * 4)

  -- After the switch over the state.
  unfoldable pub update_status : Nif C → Nif C
  unfolding is_idle
  update_status s =
      let next = if is_idle s.next_state && s.done_pending then done else s.next_state in
      record s {
        iready = replicate vch_size (is_idle s.next_state);
        next_state = next;
        state = next;
      }

module _ {C : Type 0} (k : Core C) where
  -- The word of the local bus at `addr`, and the state with the bus after the read.
  unfoldable pub read_local : ℕ → Nif C → Nif C × ℕ
  read_local addr s = let (b, w) = LocalBus.fetch_word k addr s.bus in (record s { bus = b }, w)

  -- CNIF_SR_DATA
  unfoldable pub send_single : Nif C → Nif C × List FlitEntry
  unfolding read_local
  send_single s =
      let (s₁, w) = read_local s.reg_mema s in
      (record s₁ { next_state = idle }, entry (make_data_flit w true) s₁.bus.config.vc_normal ∷ [])

  -- One round of the loop of CNIF_BR_DATA.
  unfoldable pub reply_one : Nif C → Nif C × FlitEntry
  unfolding read_local reply_addr
  reply_one s =
      let (s₁, w) = read_local (reply_addr s) s in
      let left = s.dcount - 1 in
      (
        record s₁ { dcount = left; next_state = if left == 0 then idle else s.next_state },
        entry (make_data_flit w (left == 0)) s₁.bus.config.vc_normal,
      )

  -- One round of the loop of CNIF_DMA_DATA.
  unfoldable pub dma_one : Nif C → Nif C × FlitEntry
  unfolding read_local dma_addr dma_block_end
  dma_one s =
      let (s₁, w) = read_local (dma_addr s) s in
      let left = s.dcount - 1 in
      let s₂ = record s₁ { dcount = left } in
      (
        if left == 0 then dma_block_end s₂ else s₂,
        entry (make_data_flit w (left == 0)) s₁.bus.config.vc_dma,
      )

  unfoldable pub write_local : ℕ → ℕ → Nif C → Nif C
  write_local addr w s = record s { bus = LocalBus.store_word k addr w s.bus }

  -- CNIF_SW_DATA
  unfoldable pub write_single : List FlitEntry → Nif C → Nif C
  unfolding write_local after_write
  write_single [] s = s
  write_single (e ∷ rest) s =
      after_write (write_local s.reg_mema e.flit.payload (record s { rx = rest }))

  unfoldable pub write_one : FlitEntry → List FlitEntry → Nif C → Nif C
  unfolding write_local write_addr
  write_one e rest s =
      let s₁ = write_local (write_addr s) e.flit.payload (record s { rx = rest }) in
      record s₁ { dcount = s.dcount - 1 }

  -- The loop of CNIF_BW_DATA: a round without a flit does nothing.
  unfoldable pub write_rounds : ℕ → List FlitEntry → Nif C → Nif C
  unfolding write_one after_write
  write_rounds zero rx s = s
  write_rounds (suc n) [] s = s
  write_rounds (suc n) (e ∷ rest) s =
      let s₁ = write_one e rest s in
      let more = write_rounds n rest s₁ in if s₁.dcount == 0 then after_write s₁ else more

  -- The switch over the state. CNIF_ERROR returns before the status is updated.
  unfoldable pub nif_state : (ℕ → Bool) → State → Nif C → Nif C × List FlitEntry
  unfolding receive reply_head send_single reply_one send_rounds write_single write_rounds
      send_dma_head dma_one send_dma_done send_done
  nif_state ready idle s = (receive s.rx s, [])
  nif_state ready error s = (s, [])
  nif_state ready sr_head s = reply_head ready mtype_sw sr_data s
  nif_state ready br_head s = reply_head ready mtype_bw br_data s
  nif_state ready sr_data s = send_single s
  nif_state ready br_data s = send_rounds reply_one s.mem_bandwidth s
  nif_state ready sw_data s = (write_single s.rx s, [])
  nif_state ready bw_data s = (write_rounds s.mem_bandwidth s.rx s, [])
  nif_state ready dma_head s = send_dma_head ready s
  nif_state ready dma_data s = send_rounds dma_one s.mem_bandwidth s
  nif_state ready dma_done s = send_dma_done ready s
  nif_state ready done s = send_done ready s

  unfoldable pub nif_step : (ℕ → Bool) → Nif C → Nif C × List FlitEntry
  unfolding nif_state update_status
  nif_step ready s =
      let (s₁, sent) = nif_state ready s.state s in
      if is_error s.state then (s, []) else (update_status s₁, sent)
