-- ===== src/Accelerator/Tests.antt =====
-- Concrete states of an accelerator, accelerator.cc and dbuf.cc.
use cube_sim.Accelerator.DoubleBuffer
use cube_sim.Accelerator.DoubleBuffer.{DoubleBuffer, Exchanged, store_word-buf_switch}
use cube_sim.Common.{Bool, [], arith, false, none, refl, true, ℕ, ◌≤◌}
use cube_sim.Accelerator.Nif.{Nif, dma_head}
use cube_sim.Accelerator.LocalBus.{Core}
use cube_sim.Accelerator.Config.{NifConfig}
use cube_sim.Accelerator.Dma.{Over, dma_ends}
use cube_sim.Accelerator.Nif.Cycle.{run}

-- A core with nothing on the bus.
abbrev nothing : Core ℕ
nothing = record {
  fetch_word = λ n offset b. (b, 0);
  store_word = λ n offset w b. b;
  core_step = λ b. (b, none);
  core_reset = λ b. b;
}

abbrev registers : NifConfig
registers = record {
  dma_dst = 0x800100;
  dma_src = 0;
  dma_len = 2;
  vc_normal = 2;
  vc_dma = 0;
  vc_dmadone = 0;
  vc_done = 1;
  dma_kicked = true;
  dma_en = true;
}

-- A transfer of two blocks of four words is about to begin.
abbrev kicked : Nif ℕ
kicked = record {
  node_id = 1;
  bus = record { ranges = []; last_used = none; config = registers; core = 0 };
  rx = [];
  iready = [];
  reg_mema = 0;
  reg_mtype = 0;
  reg_vch = 0;
  reg_src = 0;
  reg_dst = 0;
  dcount = 0;
  packet_max = 4;
  state = dma_head;
  next_state = dma_head;
  mem_bandwidth = 3;
  remain_dma_len = 2;
  done_pending = false;
  dma_after_done = false;
}

abbrev free : ℕ → Bool
free v = true

dma_ends_example :
    (n : ℕ) × (n ≤ 11) × Over nothing free (λ v. refl) dma_head kicked (run nothing free n kicked)
dma_ends_example =
    dma_ends nothing free (λ v. refl) 11 dma_head kicked refl refl (omega arith, omega arith)
      (omega arith) (omega arith)

store_word-buf_switch_example : Exchanged (DoubleBuffer.new_buffer 16 0xff) 4 0x1234 8
unfolding DoubleBuffer.new_buffer
store_word-buf_switch_example =
    store_word-buf_switch (DoubleBuffer.new_buffer 16 0xff) 4 0x1234 8
      (record { front_size = refl; back_size = refl }) (omega arith) (omega arith)
