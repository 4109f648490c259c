-- ===== src/Interface/Top.antt =====
-- `RouterInterface` with its router and its interrupt line, routerinterface.cc. The ready signal of
-- `rtRx`, which `reset` connects to a register, is not read: the local output of the router sends
-- whether it is set or not.
use cube_sim.Common.{[], if◌then◌else◌, suc, zero, ℕ, ◌++◌, ◌==◌}
use cube_sim.Interface.Machine.{Interface, check_hw_int, idle, take_flit, update_status}
use cube_sim.Router.Node.{Node, reset_node, step_node}
use cube_sim.Accelerator.Top.{Outward, received, send_all, slave_ready}
use cube_sim.Interrupts.{DeviceInt, assert_int, deassert_int}

pub record RouterInterface : Type 0 where
  pub iface : Interface
  pub router : Node
  pub lines : DeviceInt

-- IRQ7
abbrev pub irq7 : ℕ
irq7 = 0x8000

-- One round of the loop of `step` over the memory bandwidth.
unfoldable pub router_round : ℕ → RouterInterface → RouterInterface × Outward
router_round cycle r =
    let (n, sent) = step_node cycle r.router in
    let rx = r.iface.rx ++ received sent.local in
    (
      record r { iface = take_flit rx (record r.iface { rx = rx }); router = n },
      record { upper = received sent.upper; lower = received sent.lower },
    )

unfoldable pub router_rounds : ℕ → ℕ → RouterInterface → RouterInterface × Outward
unfolding router_round
router_rounds cycle zero r = (r, record { upper = []; lower = [] })
router_rounds cycle (suc n) r =
    let (r₁, o₁) = router_round cycle r in
    let (r₂, o₂) = router_rounds cycle n r₁ in
    (r₂, record { upper = o₁.upper ++ o₂.upper; lower = o₁.lower ++ o₂.lower })

-- `registed_router_id` is 0 and never set.
unfoldable pub update_id : RouterInterface → RouterInterface
update_id r =
    if r.iface.registered_router_id == r.iface.config.router_id
    then r
    else record r { router = record r.router { myid = r.iface.config.router_id } }

unfoldable pub update_int : RouterInterface → RouterInterface
update_int r = record r {
  lines =
      if check_hw_int r.iface.config then assert_int irq7 r.lines else deassert_int irq7 r.lines;
}

unfoldable pub run_status : RouterInterface → RouterInterface
run_status r =
    let (i, sent) = update_status (slave_ready r.router) r.iface in
    record r { iface = i; router = send_all sent r.router }

unfoldable pub step : ℕ → RouterInterface → RouterInterface × Outward
unfolding update_id router_rounds update_int run_status
step cycle r =
    let (r₁, out) = router_rounds cycle r.iface.mem_bandwidth (update_id r) in
    (run_status (update_int r₁), out)

unfoldable pub reset : ℕ → RouterInterface → RouterInterface
reset cycle r = record r {
  iface = record r.iface { state = idle; next_state = idle; send_fifo = []; recv_fifo = [] };
  router = reset_node cycle r.router;
}

unfoldable pub abort : RouterInterface → RouterInterface
abort r = record r { iface = record r.iface { state = idle; next_state = idle } }
