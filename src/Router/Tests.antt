-- ===== src/Router/Tests.antt =====
-- Concrete runs of the router, router.cc: two channels that are connected, a packet on its way
-- through a crossbar, and single flits.
use cube_sim.Router.Link
use cube_sim.Router.Link.{Link}
use cube_sim.Router.Node
use cube_sim.Router.Crossbar
use cube_sim.Router.InputChannel
use cube_sim.Router.OutputChannel
use cube_sim.Router.Node.{Node, arrive, input, reset_node, step_node, tick}
use cube_sim.Common.{
  [], arith, false, get_or, inl, none, refl, replicate, true, ◌++◌, ◌+◌, ◌∷◌, ◌≡◌, ◌≤◌,
}
use cube_sim.Common.Int.{pos, ◌+ℤ◌, ◌-ℤ◌}
use cube_sim.Router.Flit.{
  FlitEntry, ack1, ack2, decode_ack, decode_headflit, head, is_ack, make_ack_flit, make_head_flit,
}
use cube_sim.Router.Crossbar.{Crossbar, at, local_port}
use cube_sim.Router.InputChannel.{InputChannel, Vc, rc}
use cube_sim.Router.OutputChannel.{
  OutputChannel, ack_former, ack_send, any_nonzero, bump_send, has_room, iack_phase, oc_ready,
  push_data, send_front, send_phase, settle, take_iack, update_ready,
}
use cube_sim.Router.Flit.Head.{decode_headflit-make_head_flit}
use cube_sim.Router.Flit.Ack.{decode_ack-make_ack_flit}
use cube_sim.Router.Link.Counters.{count_vch}
use cube_sim.Router.Link.Credits.{
  IsBalanced, Step-IsBalanced, fresh, fresh-IsBalanced, owed, ready-leaves_room,
}
use cube_sim.Router.OutputChannel.Accounting.{ack_send_accounts, add_counts}

abbrev channel : OutputChannel
channel = record {
  ready_stat = replicate 8 true;
  obuf = [];
  ack_enabled = true;
  iackbuf = [];
  send_count = replicate 8 (pos 0);
  ack_count = replicate 8 0;
  buf_max_size = 8;
  packet_max_size = 4;
  send_flit_count = 0;
}

abbrev idle_vc : Vc
idle_vc = record {
  state = rc;
  next_state = rc;
  update_time = 0;
  request_pending = false;
  ibuf = [];
  send_port = local_port;
}

abbrev input_channel : InputChannel
input_channel = record {
  vcs = idle_vc ∷ idle_vc ∷ [];
  granted_vc = 0;
  grant_release_time = 0;
  holding = false;
  iport = [];
  ordy = none;
  buf_max_size = 8;
  packet_max_size = 4;
}

abbrev quiet_node : Node
quiet_node = record {
  myid = 0;
  ics = record { local = input_channel; lower = input_channel; upper = input_channel };
  cb = record {
    oc = record { local = channel; lower = channel; upper = channel };
    last_sender = record { local = none; lower = none; upper = none };
    close_pending = record { local = false; lower = false; upper = false };
  };
}

-- A packet for chip 1 has come in at the local port of chip 0.
abbrev first_flit : FlitEntry
first_flit = record { flit = record { ftype = head; payload = 1 }; vch = 0 }

abbrev with_flit : Node
with_flit = arrive local_port first_flit (reset_node 0 quiet_node)

abbrev taken : Node
taken = (step_node 1 with_flit).0

abbrev routed : Node
routed = (step_node 2 taken).0

abbrev in_switch : Node
in_switch = (step_node 3 routed).0

abbrev packet_path : Node.Reach (reset_node 0 quiet_node) in_switch
packet_path =
    Node.next
      (Node.next (Node.next (Node.next Node.here (input local_port first_flit)) (tick 1)) (tick 2))
      (tick 3)

abbrev the_vc : Vc
the_vc = get_or (at local_port in_switch.ics).vcs 0 idle_vc

-- One flit is on the wire between two channels.
abbrev pushed : Link
pushed = record (fresh channel channel) {
  sender = push_data first_flit (fresh channel channel).sender;
}

abbrev one_sent : Link
one_sent = record pushed {
  sender = (OutputChannel.step 0 pushed.sender).0;
  held = pushed.held ++ Link.sent_flits (OutputChannel.step 0 pushed.sender).1;
}

abbrev link_path : Link.Reach (fresh channel channel) one_sent
unfolding is_ack
link_path = Link.next (Link.next Link.here (Link.push first_flit refl)) (Link.send 0)

fresh-IsBalanced_channels : IsBalanced (fresh channel channel)
fresh-IsBalanced_channels = fresh-IsBalanced channel channel refl (omega arith) (omega arith)

Step-IsBalanced_example : IsBalanced pushed
unfolding is_ack
Step-IsBalanced_example = Step-IsBalanced (Link.push first_flit refl) fresh-IsBalanced_channels

still_ready : oc_ready 0 one_sent.sender ≡ true
unfolding oc_ready OutputChannel.step OutputChannel.reset send_phase send_front iack_phase take_iack
    settle push_data fresh update_ready has_room bump_send ◌-ℤ◌ ◌+ℤ◌
still_ready = refl

ready-leaves_room_example :
    (count_vch 0 one_sent.held ≤ owed 0 one_sent)
    × (owed 0 one_sent + one_sent.sender.packet_max_size ≤ one_sent.sender.buf_max_size)
ready-leaves_room_example =
    ready-leaves_room channel channel 0 refl (omega arith) (omega arith) link_path (omega arith)
      still_ready

abbrev with_credits : OutputChannel
with_credits = record channel { ack_count = 3 ∷ 0 ∷ 0 ∷ 20 ∷ 0 ∷ 20 ∷ 0 ∷ 0 ∷ [] }

ack_send_accounts_example :
    add_counts
      (decode_ack (make_ack_flit ack1 with_credits.ack_count))
      (ack_send 2 with_credits).0.ack_count
    ≡ 3 ∷ 0 ∷ 0 ∷ 20 ∷ 0 ∷ 20 ∷ 0 ∷ 0 ∷ []
unfolding ack_send ack_former any_nonzero
ack_send_accounts_example = ack_send_accounts 2 with_credits refl (inl refl) refl

decode_headflit-make_head_flit_example :
    decode_headflit (make_head_flit 0x400123 9 2 0 1 true)
    ≡ record { addr = 0x123; mtype = 1; vch = 2; src = 0; dst = 1 }
decode_headflit-make_head_flit_example = decode_headflit-make_head_flit 0x400123 9 2 0 1 true

decode_ack-make_ack_flit_example :
    decode_ack (make_ack_flit ack2 (3 ∷ 0 ∷ 20 ∷ 1 ∷ [])) ≡ 0 ∷ 0 ∷ 0 ∷ 0 ∷ 3 ∷ 0 ∷ 15 ∷ 1 ∷ []
decode_ack-make_ack_flit_example = decode_ack-make_ack_flit ack2 (3 ∷ 0 ∷ 20 ∷ 1 ∷ []) (omega arith)
