-- ===== src/Router/Node/Carry.antt =====
-- What the turn of one input and the end of a cycle leave of the other inputs' claims, router.cc.
use cube_sim.Router.Crossbar
use mathlib.Core.Bool.{false≢true}
use cube_sim.Common.{Bool, Bool-cases, List, [], false, inl, inr, none, sym, ℕ, ◌+◌, ◌∙◌, ◌∷◌, ◌≡◌}
use cube_sim.Router.Crossbar.{Crossbar, Port, at, local_port, lower_port, settle_port, upper_port}
use cube_sim.Router.Crossbar.Ports.{Port-cases, at-put_ne, at-put_self}
use cube_sim.Router.InputChannel.{InputChannel, Vc}
use cube_sim.Router.InputChannel.Claims.{AllVcs, Holds, VcOk}
use cube_sim.Router.InputChannel.Turn.{IcOk}

settle_port-Holds : (p y q : Port) (cb : Crossbar) → Holds y q cb → Holds y q (settle_port p cb)
unfolding settle_port
settle_port-Holds p y q cb h = elim (Bool-cases (at p cb.close_pending)) [
  | inr e ↦ rw e h
  | inl e ↦ elim (Port-cases q p) [
    | inl same ↦ absurd (false≢true (sym h.1 ∙ rw same e))
    | inr n ↦ rw (e, at-put_ne p q false cb.close_pending n, at-put_ne p q none cb.last_sender n) h
  ]
]

settle_port-open : (p : Port) (cb : Crossbar) → at p (settle_port p cb).close_pending ≡ false
unfolding settle_port
settle_port-open p cb = elim (Bool-cases (at p cb.close_pending)) [
  | inr e ↦ rw e e
  | inl e ↦ rw (e, at-put_self)
]

settle_port-open_ne :
    (p q : Port) (cb : Crossbar)
    → at q cb.close_pending ≡ false
    → at q (settle_port p cb).close_pending ≡ false
unfolding settle_port
settle_port-open_ne p q cb h = elim (Bool-cases (at p cb.close_pending)) [
  | inr e ↦ rw e h
  | inl e ↦ elim (Port-cases q p) [
    | inl same ↦ absurd (false≢true (sym h ∙ rw same e))
    | inr n ↦ rw (e, at-put_ne p q false cb.close_pending n) h
  ]
]

pub step-Holds : (y q : Port) (cb : Crossbar) → Holds y q cb → Holds y q (Crossbar.step cb)
unfolding Crossbar.step
step-Holds y q cb h =
    settle_port-Holds upper_port y q (settle_port lower_port (settle_port local_port cb)) (
      settle_port-Holds lower_port y q (settle_port local_port cb)
        (settle_port-Holds local_port y q cb h))

pub step-open : (q : Port) (cb : Crossbar) → at q (Crossbar.step cb).close_pending ≡ false
unfolding Crossbar.step
step-open local_port cb =
    settle_port-open_ne upper_port local_port (settle_port lower_port (settle_port local_port cb)) (
      settle_port-open_ne lower_port local_port (settle_port local_port cb)
        (settle_port-open local_port cb))
step-open lower_port cb =
    settle_port-open_ne upper_port lower_port (settle_port lower_port (settle_port local_port cb))
      (settle_port-open lower_port (settle_port local_port cb))
step-open upper_port cb =
    settle_port-open upper_port (settle_port lower_port (settle_port local_port cb))

-- An input keeps its good state when its claims are kept.
carry :
    (me : Port) (cb cb' : Crossbar) (g : ℕ) (holding : Bool) (i : ℕ) (vcs : List Vc)
    → ((q : Port) → Holds me q cb → Holds me q cb')
    → AllVcs (VcOk me cb g holding) i vcs
    → AllVcs (VcOk me cb' g holding) i vcs
carry me cb cb' g holding i [] k a = tt
carry me cb cb' g holding i (vc ∷ vcs) k a = (
  record {
    from_rc = a.0.from_rc;
    from_st = a.0.from_st;
    granted_only = a.0.granted_only;
    held = a.0.held;
    claims = λ h. k vc.send_port (a.0.claims h);
  },
  carry me cb cb' g holding (i + 1) vcs k a.1,
)

pub carry_ic :
    (me : Port) (cb cb' : Crossbar) (ic : InputChannel)
    → ((q : Port) → Holds me q cb → Holds me q cb')
    → IcOk me cb ic
    → IcOk me cb' ic
carry_ic me cb cb' ic k ok = record {
  all_ok = carry me cb cb' ic.granted_vc ic.holding 0 ic.vcs k ok.all_ok;
}
