-- ===== src/Router/OutputChannel.antt =====
-- `OutputChannel`, router.cc: the register and the credit counters of one output of a router.
-- `oport->send` is the entry that a step returns, which the caller hands to the connected port.
-- `ack_count` only grows by one and is only cut while positive, so it is a natural number;
-- `send_count` may be driven below zero by acknowledgements and is an integer. The counters are not
-- bounded by the range of `int`, and the cycle number does not wrap.
pub mod Accounting
pub mod Ready
use cube_sim.Common.{
  Bool, List, Option, [], drop, false, get_or, if◌then◌else◌, ltb, map, none, replicate, some, suc,
  take, true, zero, ℕ, ◌%◌, ◌&&◌, ◌++◌, ◌+◌, ◌-◌, ◌==◌, ◌||◌, ◌∷◌,
}
use cube_sim.Common.Int.{leb_ℤ, pos, ℤ, ◌+ℤ◌, ◌-ℤ◌}
use cube_sim.Router.Flit.{
  Flit, FlitEntry, ack1, ack2, ack_count_max, decode_ack, make_ack_flit, vch_size,
}

pub record OutputChannel : Type 0 where
  pub ready_stat : List Bool
  pub obuf : List FlitEntry
  pub ack_enabled : Bool
  pub iackbuf : List Flit
  pub send_count : List ℤ
  pub ack_count : List ℕ
  pub buf_max_size : ℕ
  pub packet_max_size : ℕ
  pub send_flit_count : ℕ

-- `reset`; the configuration is the constructor's.
unfoldable pub reset : OutputChannel → OutputChannel
reset oc = record oc {
  obuf = [];
  iackbuf = [];
  ready_stat = replicate vch_size true;
  send_count = replicate vch_size (pos 0);
  ack_count = replicate vch_size 0;
  send_flit_count = 0;
}

-- ACK_VCH
abbrev pub ack_vch : ℕ
ack_vch = 0

unfoldable pub ack_former : ℕ → Bool
ack_former cycle = cycle % 2 == 0

unfoldable pub any_nonzero : List ℕ → Bool
any_nonzero [] = false
any_nonzero (c ∷ cs) = if c == 0 then any_nonzero cs else true

-- What the loop after a send leaves of a count, for the former channels and for the latter.
unfoldable pub left_former : ℕ → ℕ
left_former c = if ltb ack_count_max c then c - ack_count_max else 0

unfoldable pub left_latter : ℕ → ℕ
left_latter c = if ltb ack_count_max c then c else 0

abbrev pub former : List ℕ → List ℕ
former cs = take 4 cs

abbrev pub latter : List ℕ → List ℕ
latter cs = drop 4 cs

-- `ackSend`: on even cycles for the channels below VCH_SIZE / 2, on odd ones for the others.
unfoldable pub ack_send : ℕ → OutputChannel → OutputChannel × Option FlitEntry
ack_send cycle oc =
    if ack_former cycle
    then (if any_nonzero (former oc.ack_count)
        then (
          record oc {
            ack_count = map left_former (former oc.ack_count) ++ latter oc.ack_count;
            send_flit_count = oc.send_flit_count + 1;
          },
          some (record { flit = make_ack_flit ack1 oc.ack_count; vch = ack_vch }),
        )
        else (oc, none))
    else (if any_nonzero (latter oc.ack_count)
        then (
          record oc {
            ack_count = former oc.ack_count ++ map left_latter (latter oc.ack_count);
            send_flit_count = oc.send_flit_count + 1;
          },
          some (record { flit = make_ack_flit ack2 (latter oc.ack_count); vch = ack_vch }),
        )
        else (oc, none))

-- `send_count[vch]++`; the array has VCH_SIZE elements.
unfoldable pub bump_send : ℕ → List ℤ → List ℤ
bump_send v [] = []
bump_send zero (c ∷ cs) = (c +ℤ pos 1) ∷ cs
bump_send (suc v) (c ∷ cs) = c ∷ bump_send v cs

unfoldable pub bump_ack : ℕ → List ℕ → List ℕ
bump_ack v [] = []
bump_ack zero (c ∷ cs) = (c + 1) ∷ cs
bump_ack (suc v) (c ∷ cs) = c ∷ bump_ack v cs

-- The first part of `step`, on the register: its front goes out, or else an acknowledgement. The last
-- part of the result is `counter_change`.
unfoldable pub send_front :
    ℕ → OutputChannel → List FlitEntry → OutputChannel × Option FlitEntry × Bool
send_front cycle oc (e ∷ rest) = (
  record oc {
    obuf = rest;
    send_flit_count = oc.send_flit_count + 1;
    send_count = if oc.ack_enabled then bump_send e.vch oc.send_count else oc.send_count;
  },
  some e,
  oc.ack_enabled,
)
send_front cycle oc [] =
    if oc.ack_enabled
    then ((ack_send cycle oc).0, (ack_send cycle oc).1, false)
    else (oc, none, false)

unfoldable pub send_phase : ℕ → OutputChannel → OutputChannel × Option FlitEntry × Bool
send_phase cycle oc = send_front cycle oc oc.obuf

-- `send_count[i] -= recv_ack[i]` for every channel.
unfoldable pub credit_back : List ℤ → List ℕ → List ℤ
credit_back [] acks = []
credit_back (c ∷ cs) [] = c ∷ cs
credit_back (c ∷ cs) (a ∷ acks) = (c -ℤ pos a) ∷ credit_back cs acks

-- The second part of `step` takes one acknowledgement.
unfoldable pub take_iack : OutputChannel → List Flit → OutputChannel × Bool
unfolding credit_back
take_iack oc [] = (oc, false)
take_iack oc (f ∷ rest) =
    (record oc { iackbuf = rest; send_count = credit_back oc.send_count (decode_ack f) }, true)

unfoldable pub iack_phase : OutputChannel → OutputChannel × Bool
iack_phase oc = take_iack oc oc.iackbuf

-- A channel is ready while a whole packet fits what the receiver has free:
-- `bufMaxSize - send_count[i] >= packetMaxSize`.
unfoldable pub has_room : ℕ → ℕ → ℤ → Bool
has_room buf_max packet_max c = leb_ℤ (pos packet_max) (pos buf_max -ℤ c)

unfoldable pub update_ready : OutputChannel → OutputChannel
update_ready oc = record oc {
  ready_stat = map (has_room oc.buf_max_size oc.packet_max_size) oc.send_count;
}

-- The last part of `step`: the ready signal is read off the counters when one has changed.
unfoldable pub settle : Bool → OutputChannel → OutputChannel
settle changed oc = if changed && oc.ack_enabled then update_ready oc else oc

unfoldable pub step : ℕ → OutputChannel → OutputChannel × Option FlitEntry
step cycle oc =
    let (oc₁, out, sent) = send_phase cycle oc in
    let (oc₂, acked) = iack_phase oc₁ in (settle (sent || acked) oc₂, out)

unfoldable pub push_data : FlitEntry → OutputChannel → OutputChannel
push_data e oc = record oc { obuf = oc.obuf ++ e ∷ [] }

unfoldable pub push_ack : Flit → OutputChannel → OutputChannel
push_ack f oc = record oc { iackbuf = oc.iackbuf ++ f ∷ [] }

unfoldable pub ack_increment : ℕ → OutputChannel → OutputChannel
unfolding bump_ack
ack_increment vch oc = record oc { ack_count = bump_ack vch oc.ack_count }

-- `readyStat[vch]`, out of the array's bounds false.
unfoldable pub oc_ready : ℕ → OutputChannel → Bool
oc_ready vch oc = if oc.ack_enabled then get_or oc.ready_stat vch false else true
