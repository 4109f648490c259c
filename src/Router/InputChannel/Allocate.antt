-- ===== src/Router/InputChannel/Allocate.antt =====
-- A virtual channel that asks the crossbar for its output, router.cc: VC_STATE_VSA.
use mathlib.Core.Bool.{false≢true}
use cube_sim.Common.{
  Bool, Bool-cases, arith, false, inl, inr, not, refl, sym, true, ℕ, ◌&&◌, ◌==◌, ◌∙◌, ◌≡◌,
}
use cube_sim.Router.Crossbar.{Crossbar, Port, at, ready}
use cube_sim.Router.Crossbar.Ports.{ready-claims, ready-close_pending, ready_keeps_sender}
use cube_sim.Router.InputChannel.{Shared, Vc, allocate, st, vsa}
use cube_sim.Router.InputChannel.Claims.{Closed, Closed-suc, Round, VcOk, go_on, some_inj}

module _ (seen : Port → Bool) (me : Port) (cycle xpos granted : ℕ) where
  -- The crossbar is asked for the channel's output, and the channel stays where it is.
  ask :
      (i : ℕ) (vc : Vc) (s : Shared)
      → VcOk me s.cb granted s.holding i vc
      → Closed seen me granted i s.cb
      → Round seen me granted i s (vc, record s { cb = (ready me i vc.send_port s.cb).0 })
  ask i vc s v c = record {
    good = record {
      from_rc = v.from_rc;
      from_st = v.from_st;
      granted_only = v.granted_only;
      held = v.held;
      claims = λ h.
          let k = v.claims h in
          (
            ready_keeps_sender me i vc.send_port vc.send_port me s.cb k.0,
            rw (ready-close_pending me i vc.send_port s.cb) k.1,
          );
    };
    spares = record {
      others = λ y q h. inl (
        ready_keeps_sender me i vc.send_port q y s.cb h.0,
        rw (ready-close_pending me i vc.send_port s.cb) h.1,
      );
      keeps = λ h. inl h;
    };
    closed = λ q h.
        let r =
          Closed-suc seen me granted i s.cb c q
            (rw (ready-close_pending me i vc.send_port s.cb) at h) in
        (r.0, ready_keeps_sender me i vc.send_port q r.0 s.cb r.1, r.2);
  }

  -- An output that `ready` gives to this input, at its granted channel, does not stop.
  given_is_open :
      (i : ℕ) (port : Port) (cb : Crossbar)
      → Closed seen me granted i cb
      → seen me ≡ false
      → i ≡ granted
      → (ready me i port cb).1 ≡ true
      → at port cb.close_pending ≡ false
  given_is_open i port cb c unseen eq ok = elim (Bool-cases (at port cb.close_pending)) [
    | inr open_now ↦ open_now
    | inl stops ↦
        let r = c port stops in
        elim (ready-claims me i port cb ok).1 [
          | inl free ↦ cc (r.1)
          | inr mine ↦
              let y_is_me = some_inj r.0 me (at port cb.last_sender) r.1 mine in
              elim r.2 [
                | inl s ↦ absurd (false≢true (sym unseen ∙ rw (← y_is_me) s))
                | inr p ↦ absurd (omega (arith, p.1))
              ]
        ]
  ]

  -- The granted channel is given its output and starts to use the switch.
  start :
      (i : ℕ) (vc : Vc) (s : Shared)
      → VcOk me s.cb granted s.holding i vc
      → Closed seen me granted i s.cb
      → seen me ≡ false
      → vc.state ≡ vsa
      → i ≡ granted
      → (ready me i vc.send_port s.cb).1 ≡ true
      → Round seen me granted i s (
        record vc { next_state = st },
        record s { cb = (ready me i vc.send_port s.cb).0; holding = true; vc_hold = true },
      )
  start i vc s v c unseen e eq ok =
      let a = ask i vc s v c in
      record {
        good = record {
          from_rc = λ h. cc;
          from_st = λ h k. cc;
          granted_only = λ h. eq;
          held = λ h. refl;
          claims = λ h. (
            (ready-claims me i vc.send_port s.cb ok).0,
            rw (ready-close_pending me i vc.send_port s.cb)
                (given_is_open i vc.send_port s.cb c unseen eq ok),
          );
        };
        spares = record { others = a.spares.others; keeps = λ h. inl refl };
        closed = a.closed;
      }

  pub allocate-Round :
      (i : ℕ) (vc : Vc) (s : Shared)
      → VcOk me s.cb granted s.holding i vc
      → Closed seen me granted i s.cb
      → seen me ≡ false
      → vc.state ≡ vsa
      → Round seen me granted i s (allocate me cycle xpos granted i vc s)
  unfolding allocate
  allocate-Round i vc s v c unseen e = elim (Bool-cases (not (granted == i) && not s.vc_hold)) [
    | inl r ↦ rw r (go_on seen me cycle xpos granted i vc _ s _ v c refl refl refl refl refl refl)
    | inr r ↦ elim (Bool-cases (granted == i && (ready me i vc.send_port s.cb).1)) [
      | inl t ↦ rw (r, t) (start i vc s v c unseen e (ground arith) (ground arith))
      | inr t ↦ rw (r, t) (ask i vc s v c)
    ]
  ]
