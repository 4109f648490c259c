-- ===== src/Router/InputChannel.antt =====
-- `InputChannel`, router.cc: the virtual channels of one input of a router, their state machines, and
-- the arbiter that lets one of them use the crossbar. The arrays over the channels are one list of
-- records. `iport` is the queue of the `RouterPortSlave`, and `ordy` the signal of a local port.
-- Cycle numbers do not wrap.
pub mod Claims
pub mod Allocate
pub mod Loop
pub mod Turn
use cube_sim.Common.{
  Bool, List, Option, [], false, if◌then◌else◌, leb, length, ltb, map, none, not, replicate, some,
  suc, true, zero, ℕ, ◌%◌, ◌&&◌, ◌++◌, ◌+◌, ◌-◌, ◌==◌, ◌^◌, ◌∷◌,
}
use cube_sim.Router.Flit.{
  Flit, FlitEntry, Ftype, extract_dst, headtail, is_ack, is_head, tail, vch_size,
}
use cube_sim.Router.Crossbar.{
  Crossbar, Port, close, forward_ack, local_port, lower_port, ready, send, upper_port,
}

pub data VcState : Type 0 where
  rc vsa st : VcState

pub record Vc : Type 0 where
  pub state : VcState
  pub next_state : VcState
  pub update_time : ℕ
  pub request_pending : Bool
  pub ibuf : List Flit
  pub send_port : Port

pub record InputChannel : Type 0 where
  pub vcs : List Vc
  pub granted_vc : ℕ
  pub grant_release_time : ℕ
  pub holding : Bool
  pub iport : List FlitEntry
  pub ordy : Option (List Bool)
  pub buf_max_size : ℕ
  pub packet_max_size : ℕ

-- `reset`: `vc_last_state_update_time` and `send_port` keep their values.
unfoldable pub reset_vc : Vc → Vc
reset_vc vc = record vc { ibuf = []; state = rc; next_state = rc; request_pending = false }

abbrev pub all_ready : Option (List Bool) → Option (List Bool)
all_ready none = none
all_ready (some _) = some (replicate vch_size true)

unfoldable pub reset : ℕ → InputChannel → InputChannel
unfolding reset_vc
reset cycle ic = record ic {
  vcs = map reset_vc ic.vcs;
  iport = [];
  ordy = all_ready ic.ordy;
  granted_vc = 0;
  holding = false;
  grant_release_time = cycle;
}

-- The port towards chip `dst` from chip `xpos`.
unfoldable pub rtcomp : ℕ → ℕ → Port
rtcomp xpos dst =
    if dst == xpos then local_port else (if ltb xpos dst then lower_port else upper_port)

-- What the loop over the channels changes beside them.
pub record Shared : Type 0 where
  pub cb : Crossbar
  pub holding : Bool
  pub release_time : ℕ
  pub vc_hold : Bool

unfoldable pub ends_packet : Ftype → Bool
ends_packet headtail = true
ends_packet tail = true
ends_packet _ = false

abbrev pub is_rc : VcState → Bool
is_rc rc = true
is_rc _ = false

-- The input channel, the cycle, the router's position and the granted channel are fixed in the loop.
module _ (me : Port) (cycle xpos granted : ℕ) where
  -- VC_STATE_ST
  unfoldable pub traverse : ℕ → Flit → List Flit → Vc → Shared → Vc × Shared
  traverse i f rest vc s =
      if is_rc vc.next_state
      then (vc, record s { vc_hold = true })
      else (let cb₁ = send me (record { flit = f; vch = i }) vc.send_port s.cb in
          if ends_packet f.ftype
          then (
            record vc { ibuf = rest; next_state = rc },
            record {
              cb = close vc.send_port cb₁;
              holding = false;
              release_time = cycle;
              vc_hold = true;
            },
          )
          else (record vc { ibuf = rest }, record s { cb = cb₁; vc_hold = true }))

  -- VC_STATE_VSA. Both sides of `isGranted(i) & cb->ready(…)` are evaluated, so the crossbar is asked
  -- whether or not the channel is granted.
  unfoldable pub allocate : ℕ → Vc → Shared → Vc × Shared
  allocate i vc s =
      if not (granted == i) && not s.vc_hold
      then (record vc { request_pending = true }, record s { vc_hold = true })
      else (let (cb₁, ok) = ready me i vc.send_port s.cb in
          if granted == i && ok
          then (
            record vc { next_state = st },
            record s { cb = cb₁; holding = true; vc_hold = true },
          )
          else (vc, record s { cb = cb₁ }))

  -- VC_STATE_RC
  unfoldable pub route : Flit → Vc → Vc
  route f vc =
      if is_head f.ftype
      then record vc { next_state = vsa; send_port = rtcomp xpos (extract_dst f) }
      else vc

  unfoldable pub dispatch : VcState → ℕ → Flit → List Flit → Vc → Shared → Vc × Shared
  dispatch st i f rest vc s = traverse i f rest vc s
  dispatch vsa i f rest vc s = allocate i vc s
  dispatch rc i f rest vc s = (route f vc, s)

  unfoldable pub handle_front : ℕ → List Flit → Vc → Shared → Vc × Shared
  handle_front i [] vc s = (vc, s)
  handle_front i (f ∷ rest) vc s =
      if is_ack f.ftype
      then (record vc { ibuf = rest }, record s { cb = forward_ack me f s.cb })
      else dispatch vc.state i f rest vc s

  unfoldable pub update_state : Vc → Vc
  update_state vc =
      if ltb vc.update_time cycle
      then record vc { state = vc.next_state; update_time = cycle }
      else vc

  -- One round of the loop.
  unfoldable pub handle : ℕ → Vc → Shared → Vc × Shared
  handle i vc s = let (vc₁, s₁) = handle_front i vc.ibuf vc s in (update_state vc₁, s₁)

  unfoldable pub handle_all : ℕ → List Vc → Shared → List Vc × Shared
  handle_all i [] s = ([], s)
  handle_all i (vc ∷ vcs) s =
      let (vc₁, s₁) = handle i vc s in
      let (vcs₁, s₂) = handle_all (i + 1) vcs s₁ in (vc₁ ∷ vcs₁, s₂)

-- `ibuf[vch].push(flit)`; the array has VCH_SIZE elements.
unfoldable pub push_vc : ℕ → Flit → List Vc → List Vc
push_vc v f [] = []
push_vc zero f (vc ∷ vcs) = record vc { ibuf = vc.ibuf ++ f ∷ [] } ∷ vcs
push_vc (suc v) f (vc ∷ vcs) = vc ∷ push_vc v f vcs

unfoldable pub take_input : List FlitEntry → List Vc → List Vc
take_input [] vcs = vcs
take_input (e ∷ rest) vcs = push_vc e.vch e.flit vcs

abbrev pub rest_of : List FlitEntry → List FlitEntry
rest_of [] = []
rest_of (e ∷ rest) = rest

-- `bufMaxSize - ibuf[i].size() >= packetMaxSize`, where `size()` makes the difference a 64-bit
-- unsigned number.
unfoldable pub ordy_bit : ℕ → ℕ → Vc → Bool
ordy_bit buf_max packet_max vc = leb packet_max ((buf_max + 2 ^ 64 - length vc.ibuf) % 2 ^ 64)

-- The first channel with a pending request, and the channels with that request taken.
unfoldable pub arbitrate : ℕ → List Vc → Option ℕ × List Vc
arbitrate i [] = (none, [])
arbitrate i (vc ∷ vcs) =
    let (found, rest) = arbitrate (i + 1) vcs in
    if vc.request_pending
    then (some i, record vc { request_pending = false } ∷ vcs)
    else (found, vc ∷ rest)

abbrev pub grant_or : Option ℕ → ℕ → ℕ
grant_or none old = old
grant_or (some i) old = i

-- The last part of `step`.
unfoldable pub arbiter : ℕ → InputChannel → InputChannel
arbiter cycle ic =
    if not ic.holding && ltb ic.grant_release_time cycle
    then (let (found, vcs₁) = arbitrate 0 ic.vcs in
        record ic { vcs = vcs₁; granted_vc = grant_or found ic.granted_vc })
    else ic

unfoldable pub set_ordy : InputChannel → InputChannel
set_ordy ic = record ic {
  ordy = elim ic.ordy [
    | none ↦ none
    | some _ ↦ some (map (ordy_bit ic.buf_max_size ic.packet_max_size) ic.vcs)
  ];
}

unfoldable pub step : Port → ℕ → ℕ → InputChannel → Crossbar → InputChannel × Crossbar
step me cycle xpos ic cb =
    let s₀ : Shared = record {
      cb = cb;
      holding = ic.holding;
      release_time = ic.grant_release_time;
      vc_hold = false;
    } in
    let (vcs₁, s₁) = handle_all me cycle xpos ic.granted_vc 0 ic.vcs s₀ in
    let ic₁ : InputChannel = record ic {
      vcs = take_input ic.iport vcs₁;
      iport = rest_of ic.iport;
      holding = s₁.holding;
      grant_release_time = s₁.release_time;
    } in
    (arbiter cycle (set_ordy ic₁), s₁.cb)
