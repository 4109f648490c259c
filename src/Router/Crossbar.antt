-- ===== src/Router/Crossbar.antt =====
-- `Crossbar`, router.cc, with the three output channels that it writes to. An input channel is named
-- by its port, which is also the port of the output channel that `connectIC` pairs it with. A port
-- number is one of LOCAL_PORT, LOWER_PORT and UPPER_PORT, the only values of `rtcomp`, so the
-- `abort` of the default cases has no counterpart. `sender_update_time` is written and never read.
pub mod Ports
use cube_sim.Common.{Bool, Option, false, if◌then◌else◌, none, some, true, ℕ}
use cube_sim.Router.Flit.{Flit, FlitEntry}
use cube_sim.Router.OutputChannel.{OutputChannel, ack_increment, oc_ready, push_ack, push_data}

pub data Port : Type 0 where
  local_port lower_port upper_port : Port

pub Port-discrete : Discrete Port
Port-discrete = hlevel

unfoldable pub same_port : Port → Port → Bool
same_port local_port local_port = true
same_port lower_port lower_port = true
same_port upper_port upper_port = true
same_port _ _ = false

-- One thing for each port: the maps that are keyed by a channel.
pub record Per (A : Type 0) : Type 0 where
  pub local : A
  pub lower : A
  pub upper : A

module _ {A : Type 0} where
  abbrev pub at : Port → Per A → A
  at local_port m = m.local
  at lower_port m = m.lower
  at upper_port m = m.upper

  abbrev pub put : Port → A → Per A → Per A
  put local_port a m = record m { local = a }
  put lower_port a m = record m { lower = a }
  put upper_port a m = record m { upper = a }

pub record Crossbar : Type 0 where
  pub oc : Per OutputChannel
  pub last_sender : Per (Option Port)
  pub close_pending : Per Bool

unfoldable pub reset : Crossbar → Crossbar
reset cb = record cb {
  last_sender = record { local = none; lower = none; upper = none };
  close_pending = record { local = false; lower = false; upper = false };
}

-- One of the three parts of `step`.
unfoldable pub settle_port : Port → Crossbar → Crossbar
settle_port p cb =
    if at p cb.close_pending
    then record cb {
      close_pending = put p false cb.close_pending;
      last_sender = put p none cb.last_sender;
    }
    else cb

unfoldable pub step : Crossbar → Crossbar
unfolding settle_port
step cb = settle_port upper_port (settle_port lower_port (settle_port local_port cb))

-- A flit goes to the output `port`, and the input `ic` gets a credit to return.
unfoldable pub send : Port → FlitEntry → Port → Crossbar → Crossbar
send ic e port cb =
    let sent = put port (push_data e (at port cb.oc)) cb.oc in
    record cb { oc = put ic (ack_increment e.vch (at ic sent)) sent }

unfoldable pub is_sender : Port → Option Port → Bool
is_sender ic none = false
is_sender ic (some p) = same_port p ic

-- The sender of a free output becomes `ic`.
unfoldable pub claim : Port → Option Port → Option Port
claim ic none = some ic
claim ic (some p) = some p

unfoldable pub ready : Port → ℕ → Port → Crossbar → Crossbar × Bool
unfolding is_sender claim
ready ic vch port cb =
    if oc_ready vch (at port cb.oc)
    then (
      record cb { last_sender = put port (claim ic (at port cb.last_sender)) cb.last_sender },
      is_sender ic (claim ic (at port cb.last_sender)),
    )
    else (cb, false)

unfoldable pub close : Port → Crossbar → Crossbar
close port cb = record cb { close_pending = put port true cb.close_pending }

unfoldable pub forward_ack : Port → Flit → Crossbar → Crossbar
forward_ack ic f cb = record cb { oc = put ic (push_ack f (at ic cb.oc)) cb.oc }
