-- ===== src/Router/Node.antt =====
-- `Router`, router.cc: three input channels, the crossbar and three output channels, stepped in the
-- order of `Router::step`. What the output channels put on the wires is part of a step's result, and
-- what other routers and the local core put into the input ports is a step of its own.
pub mod Carry
pub mod Wormhole
use cube_sim.Router.OutputChannel
use cube_sim.Router.InputChannel
use cube_sim.Router.Crossbar
use cube_sim.Common.{Option, [], ℕ, ◌++◌, ◌∷◌}
use cube_sim.Router.Flit.{FlitEntry}
use cube_sim.Router.OutputChannel.{OutputChannel}
use cube_sim.Router.InputChannel.{InputChannel}
use cube_sim.Router.Crossbar.{Crossbar, Per, Port, at, local_port, lower_port, put, upper_port}

pub record Node : Type 0 where
  pub myid : ℕ
  pub ics : Per InputChannel
  pub cb : Crossbar

-- `reset`
unfoldable pub reset_node : ℕ → Node → Node
reset_node cycle n = record n {
  ics = record {
    local = InputChannel.reset cycle n.ics.local;
    lower = InputChannel.reset cycle n.ics.lower;
    upper = InputChannel.reset cycle n.ics.upper;
  };
  cb = record (Crossbar.reset n.cb) {
    oc = record {
      local = OutputChannel.reset n.cb.oc.local;
      lower = OutputChannel.reset n.cb.oc.lower;
      upper = OutputChannel.reset n.cb.oc.upper;
    };
  };
}

-- The output channels' part of `step`, with what they send.
unfoldable pub step_outputs : ℕ → Crossbar → Crossbar × Per (Option FlitEntry)
step_outputs cycle cb =
    let (ol, sent_l) = OutputChannel.step cycle cb.oc.local in
    let (ou, sent_u) = OutputChannel.step cycle cb.oc.upper in
    let (ow, sent_w) = OutputChannel.step cycle cb.oc.lower in
    (
      record cb { oc = record { local = ol; lower = ow; upper = ou } },
      record { local = sent_l; lower = sent_w; upper = sent_u },
    )

-- `step`
unfoldable pub step_node : ℕ → Node → Node × Per (Option FlitEntry)
step_node cycle n =
    let (cb₀, sent) = step_outputs cycle n.cb in
    let (il, cb₁) = InputChannel.step local_port cycle n.myid n.ics.local cb₀ in
    let (iu, cb₂) = InputChannel.step upper_port cycle n.myid n.ics.upper cb₁ in
    let (iw, cb₃) = InputChannel.step lower_port cycle n.myid n.ics.lower cb₂ in
    (record n { ics = record { local = il; lower = iw; upper = iu }; cb = Crossbar.step cb₃ }, sent)

-- `RouterPortSlave::pushData` at the input `port`.
unfoldable pub arrive : Port → FlitEntry → Node → Node
arrive port e n =
    let ic = at port n.ics in
    record n { ics = put port (record ic { iport = ic.iport ++ e ∷ [] }) n.ics }

pub data Step (n : Node) : Node → Type 0 where
  tick : (c : ℕ) → Step n (step_node c n).0
  input : (port : Port) (e : FlitEntry) → Step n (arrive port e n)

pub data Reach (s : Node) : Node → Type 0 where
  here : Reach s s
  next : {n m : Node} → Reach s n → Step n m → Reach s m
