-- ===== src/Interface/Tests.antt =====
-- Concrete states of the router interface, routerinterface.cc.
use cube_sim.Interface.Machine
use cube_sim.Common.{Bool, List, Option, [], false, none, refl, replicate, some, true, ◌∷◌, ◌≡◌}
use cube_sim.Common.Int.{pos}
use cube_sim.Interface.Config.{clear_config}
use cube_sim.Interface.Access.{IoReg, store_abort}
use cube_sim.Interface.Registers.{ReadsBack, ReadsBack-store_word, Unreset, store_abort-Unreset}
use cube_sim.Router.OutputChannel.{OutputChannel}
use cube_sim.Router.InputChannel.{InputChannel}
use cube_sim.Router.Node.{Node}

abbrev output : OutputChannel
output = record {
  ready_stat = replicate 8 true;
  obuf = [];
  ack_enabled = true;
  iackbuf = [];
  send_count = replicate 8 (pos 0);
  ack_count = replicate 8 0;
  buf_max_size = 8;
  packet_max_size = 4;
  send_flit_count = 0;
}

abbrev input_of : Option (List Bool) → InputChannel
input_of signal = record {
  vcs = [];
  granted_vc = 0;
  grant_release_time = 0;
  holding = false;
  iport = [];
  ordy = signal;
  buf_max_size = 8;
  packet_max_size = 4;
}

abbrev node : Node
node = record {
  myid = 0;
  ics = record {
    local = input_of (some (replicate 8 true));
    lower = input_of none;
    upper = input_of none;
  };
  cb = record {
    oc = record { local = output; lower = output; upper = output };
    last_sender = record { local = none; lower = none; upper = none };
    close_pending = record { local = false; lower = false; upper = false };
  };
}

-- The interface waits for a word, and the reset bit is set.
abbrev waiting : IoReg
waiting = record {
  rt = record {
    iface = record {
      registered_router_id = 0;
      packet_size = 4;
      mem_bandwidth = 1;
      send_fifo = [];
      recv_fifo = 9 ∷ [];
      req_addr = 0x100;
      use_vch = 0;
      state = Machine.sr_wait;
      next_state = Machine.sr_wait;
      rx = [];
      config = clear_config;
    };
    router = node;
    lines = record { lines_connected = 0; lines_asserted = 0 };
  };
  abort = 1;
}

ReadsBack-store_word_example : ReadsBack 5 0xffffffff waiting
unfolding clear_config
ReadsBack-store_word_example =
    ReadsBack-store_word 5 0xffffffff waiting (record { data_nodes = refl; int_nodes = refl })

store_abort-Unreset_example :
    Unreset waiting (store_abort 5 0 waiting)
    × ((store_abort 5 0 waiting).rt.iface.next_state ≡ Machine.idle)
store_abort-Unreset_example = store_abort-Unreset 5 0 waiting
