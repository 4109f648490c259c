-- ===== src/Transfer/Notify.antt =====
-- The notification that the core of an accelerator is done, CNIF_DONE of `nif_step`, accelerator.cc, at
-- the router interface of the processor, routerinterface.cc.
use cube_sim.Accelerator.Nif.{
  Nif, done, done_notif_addr, entry, mtype_done, nif_state, nif_step, send_done,
}
use cube_sim.Interface.Machine
use cube_sim.Interface.Machine.{Interface}
use cube_sim.Common.{
  Bool, List, [], ap, arith, false, get_or, get_or-set_self, length, refl, set, suc, true, zero, ℕ,
  ◌%◌, ◌-◌, ◌<◌, ◌∙◌, ◌∷◌, ◌≡◌,
}
use cube_sim.Router.Flit.{FlitEntry, HeadFields, make_head_flit}
use cube_sim.Accelerator.LocalBus.{Core}
use cube_sim.Accelerator.Nif.Cycle.{nif_step_in}
use cube_sim.Router.Flit.Head.{decode_headflit-make_head_flit}

-- A flag that is set and not masked raises the interrupt.
any_unmasked_at :
    (ss ms : List Bool) (n : ℕ)
    → get_or ss n false ≡ true
    → get_or ms n false ≡ true
    → Machine.any_unmasked ss ms ≡ true
unfolding Machine.any_unmasked
any_unmasked_at [] ms n h j = cc
any_unmasked_at (s ∷ ss) [] n h j = cc
any_unmasked_at (s ∷ ss) (m ∷ ms) zero h j = rw (h, j) refl
any_unmasked_at (s ∷ ss) (m ∷ ms) (suc n) h j =
    let rest = any_unmasked_at ss ms n h j in ground (arith, rest)

abbrev pub notification : ℕ → ℕ → FlitEntry
notification v node = entry (make_head_flit done_notif_addr mtype_done v node 0 true) v

done_sent :
    {C : Type 0} (k : Core C) (ready : ℕ → Bool) (s : Nif C)
    → s.state ≡ done
    → ready s.bus.config.vc_done ≡ true
    → (nif_step k ready s).1 ≡ notification s.bus.config.vc_done s.node_id ∷ []
unfolding nif_state send_done
done_sent k ready s e f = rw (nif_step_in k ready s done e refl, f) refl

notified :
    (v node : ℕ) (i : Interface)
    → Machine.take_flit (notification v node ∷ []) i ≡ record i {
      rx = [];
      config = record i.config { done_status = set i.config.done_status (node % 4 - 1) true };
    }
unfolding Machine.take_flit Machine.handle_flit Machine.notify make_head_flit
notified v node i =
    ap (λ (h : HeadFields). record i { rx = []; config = Machine.notify h i.config })
      (decode_headflit-make_head_flit done_notif_addr mtype_done v node 0 true)

-- The interface after it has taken what the accelerator has sent.
abbrev pub told : {C : Type 0} → Core C → (ℕ → Bool) → Nif C → Interface → Interface
told k ready s i = Machine.take_flit (nif_step k ready s).1 i

-- An accelerator, the chip `node`, has sent the one flit that tells that it is done, a packet to the address
-- 0 of chip 0 with the type 7, MTYPE_DONE, and `j` is the interface `i` after it has taken it.
pub record Told (node v : ℕ) (sent : List FlitEntry) (i j : Interface) : Type 0 where
  pub one_flit : sent ≡ entry (make_head_flit 0 7 v node 0 true) v ∷ []
  pub consumed : j.rx ≡ []
  pub flags : j.config.done_status ≡ set i.config.done_status (node - 1) true
  pub dmac_flags : j.config.dmac_status ≡ i.config.dmac_status
  pub words : j.recv_fifo ≡ i.recv_fifo
  pub asserted :
      get_or i.config.done_mask (node - 1) false ≡ true → Machine.check_hw_int j.config ≡ true

-- When the network interface of an accelerator, a chip 1, 2 or 3, is to tell that its core is done, and its
-- channel for that is free, it sends exactly one flit, a head that is a tail, in one cycle. A router
-- interface with three flags that takes what was sent sets the flag of that chip and no other, keeps the
-- words that it has received and the flags of the DMA, has nothing left to take, and raises its interrupt if
-- the mask of that chip is set.
pub done_notifies :
    {C : Type 0} (k : Core C) (ready : ℕ → Bool) (s : Nif C) (i : Interface)
    → s.state ≡ done
    → ready s.bus.config.vc_done ≡ true
    → 0 < s.node_id
    → s.node_id < 4
    → length i.config.done_status ≡ 3
    → Told s.node_id s.bus.config.vc_done (nif_step k ready s).1 i (told k ready s i)
unfolding Machine.check_hw_int
done_notifies k ready s i e f h l n =
    let v = s.bus.config.vc_done in
    let small : s.node_id % 4 - 1 ≡ s.node_id - 1 = omega arith in
    let taken : told k ready s i ≡ record i {
      rx = [];
      config = record i.config { done_status = set i.config.done_status (s.node_id - 1) true };
    } =
      ap (λ (es : List FlitEntry). Machine.take_flit es i) (done_sent k ready s e f)
      ∙ notified v s.node_id i
      ∙ ap
          (λ (m : ℕ). record i {
            rx = [];
            config = record i.config { done_status = set i.config.done_status m true };
          })
          small in
    let flag = get_or-set_self i.config.done_status (s.node_id - 1) true false (omega (arith, n)) in
    rw taken (record {
      one_flit = done_sent k ready s e f;
      consumed = refl;
      flags = refl;
      dmac_flags = refl;
      words = refl;
      asserted = λ m. rw (any_unmasked_at _ i.config.done_mask (s.node_id - 1) flag m) refl;
    })
