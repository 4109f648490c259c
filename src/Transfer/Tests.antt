-- ===== src/Transfer/Tests.antt =====
-- Concrete transfers between the router interface, routerinterface.cc, and an accelerator,
-- accelerator.cc.
use cube_sim.Accelerator.Nif.{Nif, State, done, idle, nif_step}
use cube_sim.Accelerator.DoubleBuffer
use cube_sim.Accelerator.DoubleBuffer.{DoubleBuffer}
use cube_sim.Interface.Machine
use cube_sim.Interface.Machine.{Interface}
use cube_sim.Common.{Bool, List, [], arith, false, none, refl, true, ℕ, ◌∷◌}
use cube_sim.Accelerator.LocalBus.{Core, Placed, core_range}
use cube_sim.Accelerator.Config.{NifConfig}
use cube_sim.Interface.Config.{clear_config}
use cube_sim.Transfer.Write.{BlockWritten, block_write}
use cube_sim.Transfer.Notify.{Told, done_notifies, told}

-- An accelerator whose only range of its own is a buffer, and that does nothing.
abbrev memory : Core DoubleBuffer
memory = record {
  fetch_word = λ n offset b. (b, DoubleBuffer.fetch_word offset b);
  store_word = λ n offset w b. DoubleBuffer.store_word offset w b;
  core_step = λ b. (b, none);
  core_reset = λ b. b;
}

abbrev registers : NifConfig
registers = record {
  dma_dst = 0;
  dma_src = 0;
  dma_len = 0;
  vc_normal = 2;
  vc_dma = 0;
  vc_dmadone = 0;
  vc_done = 1;
  dma_kicked = false;
  dma_en = true;
}

abbrev buffer : DoubleBuffer
buffer = record {
  extent = 16;
  mask = 0xffffffff;
  front = 5 ∷ 6 ∷ 7 ∷ 8 ∷ [];
  back = 0 ∷ 0 ∷ 0 ∷ 0 ∷ [];
  front_connected = true;
}

abbrev placed : Placed
placed = record {
  range = record {
    base = 0x100;
    extent = 16;
    words = [];
    readable = true;
    writable = true;
    latency = 0;
    read_count = 0;
    write_count = 0;
  };
  target = core_range 0;
}

abbrev chip : State → Nif DoubleBuffer
chip st = record {
  node_id = 1;
  bus = record { ranges = placed ∷ []; last_used = none; config = registers; core = buffer };
  rx = [];
  iready = [];
  reg_mema = 0;
  reg_mtype = 0;
  reg_vch = 0;
  reg_src = 0;
  reg_dst = 0;
  dcount = 0;
  packet_max = 4;
  state = st;
  next_state = st;
  mem_bandwidth = 3;
  remain_dma_len = 0;
  done_pending = false;
  dma_after_done = false;
}

abbrev free : ℕ → Bool
free v = true

-- A block of four words for the address 0x100 of the first accelerator.
abbrev processor : Machine.State → List ℕ → Interface
processor st ws = record {
  registered_router_id = 0;
  packet_size = 4;
  mem_bandwidth = 1;
  send_fifo = ws;
  recv_fifo = [];
  req_addr = 0x100;
  use_vch = 0;
  state = Machine.idle;
  next_state = st;
  rx = [];
  config = record clear_config { done_mask = true ∷ false ∷ false ∷ [] };
}

abbrev four : List ℕ
four = 11 ∷ 12 ∷ 13 ∷ 14 ∷ []

block_write_example : BlockWritten memory free free (processor Machine.bw_head four) (chip idle)
unfolding clear_config
block_write_example =
    block_write memory free free (processor Machine.bw_head four) (chip idle)
      (record { at_head = refl; free = refl; some_words = omega arith; moves = omega arith })
      (record { waits = refl; block_size = refl; moves = omega arith })

done_notifies_example :
    Told 1 1
      (nif_step memory free (chip done)).1
      (processor Machine.idle [])
      (told memory free (chip done) (processor Machine.idle []))
unfolding clear_config
done_notifies_example =
    done_notifies memory free (chip done) (processor Machine.idle []) refl refl (omega arith)
      (omega arith) refl
