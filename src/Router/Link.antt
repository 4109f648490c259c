-- ===== src/Router/Link.antt =====
-- Two routers that are connected, router.cc, seen along one direction: an output channel `sender` of
-- one, the flits that it has put on the wire and the other has not yet passed on through its
-- crossbar, the output channel `acker` by which the other answers, and the acknowledgements on their
-- way back. The two step in any order, each at cycles of its own.
pub mod Counters
pub mod Cycles
pub mod Credits
use cube_sim.Common.{
  List, Option, [], false, if◌then◌else◌, none, some, true, ℕ, ◌++◌, ◌<◌, ◌∷◌, ◌≡◌, ◌⊎◌,
}
use cube_sim.Router.Flit.{Flit, FlitEntry, is_ack, vch_size}
use cube_sim.Router.OutputChannel.{
  OutputChannel, ack_former, ack_increment, latter, push_ack, push_data, step,
}
use cube_sim.Router.OutputChannel.Accounting.{AllFit}

pub record Link : Type 0 where
  pub sender : OutputChannel
  pub held : List FlitEntry
  pub acker : OutputChannel
  pub acks : List Flit

-- What `RouterPortMaster::send` adds to the flits of packets and to the acknowledgements on the wire.
abbrev pub sent_flits : Option FlitEntry → List FlitEntry
sent_flits none = []
sent_flits (some e) = if is_ack e.flit.ftype then [] else e ∷ []

abbrev pub sent_acks : Option FlitEntry → List Flit
sent_acks none = []
sent_acks (some e) = if is_ack e.flit.ftype then e.flit ∷ [] else []

-- Neither register is given an acknowledgement: `forwardAck` takes these out before the crossbar.
abbrev pub NoAcks : List FlitEntry → Type 0
NoAcks [] = Unit
NoAcks (e ∷ es) = (is_ack e.flit.ftype ≡ false) × NoAcks es

pub data Step (l : Link) : Link → Type 0 where
  -- the crossbar of the first router sends a flit
  push :
      (e : FlitEntry)
      → is_ack e.flit.ftype ≡ false
      → Step l (record l { sender = push_data e l.sender })
  -- the first router's channel makes a cycle
  send :
      (cycle : ℕ)
      → Step l (record l {
        sender = (step cycle l.sender).0;
        held = l.held ++ sent_flits (step cycle l.sender).1;
      })
  -- the second router passes a flit on, which it may do in any order of channels
  pass :
      (before : List FlitEntry) (e : FlitEntry) (after : List FlitEntry)
      → l.held ≡ before ++ e ∷ after
      → e.vch < vch_size
      → Step l (record l { held = before ++ after; acker = ack_increment e.vch l.acker })
  -- the crossbar of the second router sends a flit back
  push_back :
      (e : FlitEntry)
      → is_ack e.flit.ftype ≡ false
      → Step l (record l { acker = push_data e l.acker })
  -- the second router's channel makes a cycle, and no count that it acknowledges is cut and kept
  answer :
      (cycle : ℕ)
      → (ack_former cycle ≡ true) ⊎ AllFit (latter l.acker.ack_count)
      → Step l (record l {
        acker = (step cycle l.acker).0;
        acks = l.acks ++ sent_acks (step cycle l.acker).1;
      })
  -- the first acknowledgement on the wire reaches the sender, through `forwardAck`
  deliver :
      (f : Flit) (rest : List Flit)
      → l.acks ≡ f ∷ rest
      → Step l (record l { sender = push_ack f l.sender; acks = rest })

pub data Reach (s : Link) : Link → Type 0 where
  here : Reach s s
  next : {l m : Link} → Reach s l → Step l m → Reach s m
