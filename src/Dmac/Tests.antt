-- ===== src/Dmac/Tests.antt =====
-- Concrete states of the DMA controller, dmac.cc.
use cube_sim.Common.{Bool, [], false, none, true, ◌∷◌}
use cube_sim.Dmac.{idle}
use cube_sim.Dmac.Config.{no_query, reset}
use cube_sim.Dmac.Machine.{Dmac, step}
use cube_sim.Dmac.Holder.{AccordsBus, step-AccordsBus}
use cube_sim.Memory.Access.Frame.{OnSome}

-- A transfer of one word to address 4 is asked for.
abbrev asked : Dmac
asked = record {
  config = record (reset true) {
    enabled = true;
    kicked = true;
    query = record { src = 0; dst = 4; len = 1; zero_write = false; burst = false };
  };
  buffer = 0 ∷ [];
  status = idle;
  block_words = 1;
  query = no_query;
  counter = 0;
  word_counter = 0;
  mem_bandwidth = 1;
  client = 7;
  bus = record {
    byteswapped = false;
    bus_latency = 0;
    requests = [];
    bus = record { last_released_cycle = 0; bus_holder = none };
    last_berr = none;
    last_used = none;
    ranges = [];
    debug_mode = false;
    raised = [];
  };
}

step-AccordsBus_example : OnSome (λ (r : Dmac × Bool). AccordsBus r.0) (step 3 asked)
step-AccordsBus_example = step-AccordsBus 3 asked (λ e. cc)
