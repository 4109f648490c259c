-- ===== src/Router/InputChannel/Claims.antt =====
-- Which virtual channel of an input channel, router.cc, may use which output: the invariant of the
-- loop of `InputChannel::step`.
use cube_sim.Common.{
  Bool, Bool-cases, List, Option, [], arith, false, inl, inr, refl, some, suc, sym, true, ℕ, ◌+◌,
  ◌<◌, ◌∙◌, ◌∷◌, ◌≡◌, ◌≢◌, ◌⊎◌,
}
use cube_sim.Router.Crossbar.{Crossbar, Port, at, close, send}
use cube_sim.Router.InputChannel.{Shared, Vc, VcState, ends_packet, is_rc, rc, st, traverse, vsa}
use cube_sim.Router.Flit.{Flit}
use cube_sim.Router.Crossbar.Ports.{Port-cases, at-put_ne}

-- Input `y` is the one that sends to output `q`, and does not stop in this cycle.
abbrev pub Holds : Port → Port → Crossbar → Type 0
Holds y q cb = (at q cb.last_sender ≡ some y) × (at q cb.close_pending ≡ false)

-- The states that a virtual channel can be in, and what it has when it traverses the switch.
pub record VcOk (me : Port) (cb : Crossbar) (granted : ℕ) (holding : Bool) (i : ℕ) (vc : Vc)
    : Type 0 where
  pub from_rc : vc.state ≡ rc → vc.next_state ≢ st
  pub from_st : vc.state ≡ st → vc.next_state ≢ vsa
  pub granted_only : vc.next_state ≡ st → i ≡ granted
  pub held : vc.next_state ≡ st → holding ≡ true
  pub claims : vc.next_state ≡ st → Holds me vc.send_port cb

abbrev pub AllVcs : (ℕ → Vc → Type 0) → ℕ → List Vc → Type 0
AllVcs P i [] = Unit
AllVcs P i (vc ∷ vcs) = P i vc × AllVcs P (i + 1) vcs

-- An output that stops in this cycle still has its sender: an input that has had its turn, or this
-- input, if its granted channel is below `i`.
abbrev pub Closed : (Port → Bool) → Port → ℕ → ℕ → Crossbar → Type 0
Closed seen me granted i cb =
    (q : Port)
    → at q cb.close_pending ≡ true
    → (y : Port) × (at q cb.last_sender ≡ some y) × ((seen y ≡ true) ⊎ ((y ≡ me) × (granted < i)))

-- What a round of the loop for channel `i` leaves to the other channels and to the other inputs.
pub record Spares (me : Port) (granted i : ℕ) (s s' : Shared) : Type 0 where
  pub others : (y q : Port) → Holds y q s.cb → Holds y q s'.cb ⊎ ((y ≡ me) × (i ≡ granted))
  pub keeps : s.holding ≡ true → (s'.holding ≡ true) ⊎ (i ≡ granted)

-- A round that is done for one channel in a good state.
pub record Round (seen : Port → Bool) (me : Port) (granted i : ℕ) (s : Shared) (r : Vc × Shared)
    : Type 0 where
  pub good : VcOk me r.1.cb granted r.1.holding i r.0
  pub spares : Spares me granted i s r.1
  pub closed : Closed seen me granted (suc i) r.1.cb

pub Closed-suc :
    (seen : Port → Bool) (me : Port) (granted i : ℕ) (cb : Crossbar)
    → Closed seen me granted i cb
    → Closed seen me granted (suc i) cb
Closed-suc seen me granted i cb c q h =
    let r = c q h in (r.0, r.1, elim r.2 [ inl s ↦ inl s | inr p ↦ inr (p.0, omega arith) ])

pub some_inj : (y z : Port) (o : Option Port) → o ≡ some y → o ≡ some z → y ≡ z
some_inj y z o h k = cc

close_spares :
    (port q : Port) (cb : Crossbar)
    → (at q (close port cb).close_pending ≡ at q cb.close_pending) ⊎ (q ≡ port)
unfolding close
close_spares port q cb = elim (Port-cases q port) [
  | inl e ↦ inr e
  | inr n ↦ inl (at-put_ne port q true cb.close_pending n)
]

must_be_st : (n : VcState) → is_rc n ≡ false → n ≢ vsa → n ≡ st
must_be_st n h k = ground arith

module _ (seen : Port → Bool) (me : Port) (cycle xpos granted : ℕ) where
  -- The channel goes on with the switch.
  pub go_on :
      (i : ℕ) (vc vc' : Vc) (s s' : Shared)
      → VcOk me s.cb granted s.holding i vc
      → Closed seen me granted i s.cb
      → vc'.state ≡ vc.state
      → vc'.next_state ≡ vc.next_state
      → vc'.send_port ≡ vc.send_port
      → s'.holding ≡ s.holding
      → s'.cb.last_sender ≡ s.cb.last_sender
      → s'.cb.close_pending ≡ s.cb.close_pending
      → Round seen me granted i s (vc', s')
  go_on i vc vc' s s' v c e₁ e₂ e₃ e₄ e₅ e₆ = record {
    good = record {
      from_rc = ground (arith, v.from_rc);
      from_st = ground (arith, v.from_st);
      granted_only = λ h. v.granted_only (sym e₂ ∙ h);
      held = λ h. e₄ ∙ v.held (sym e₂ ∙ h);
      claims = λ h. rw (e₃, e₅, e₆) (v.claims (sym e₂ ∙ h));
    };
    spares = record { others = λ y q h. inl (rw (e₅, e₆) h); keeps = λ h. inl (e₄ ∙ h) };
    closed = rw (e₅, e₆) (Closed-suc seen me granted i s.cb c);
  }

  -- The channel's packet ends: it gives up the arbiter, and its output stops.
  stop :
      (i : ℕ) (vc vc' : Vc) (s s' : Shared)
      → VcOk me s.cb granted s.holding i vc
      → Closed seen me granted i s.cb
      → vc.next_state ≡ st
      → vc.state ≡ st
      → vc'.state ≡ st
      → vc'.next_state ≡ rc
      → s'.cb.last_sender ≡ s.cb.last_sender
      → s'.cb.close_pending ≡ (close vc.send_port s.cb).close_pending
      → Round seen me granted i s (vc', s')
  stop i vc vc' s s' v c nx e₀ e₁ e₂ e₅ e₆ = record {
    good = record {
      from_rc = λ h. cc;
      from_st = λ h k. cc;
      granted_only = λ h. cc;
      held = λ h. cc;
      claims = λ h. cc;
    };
    spares = record {
      others = λ y q h. elim (close_spares vc.send_port q s.cb) [
        | inl same ↦ inl (rw (e₅, e₆, same) h)
        | inr is_port ↦ inr (
          some_inj y me (at q s.cb.last_sender) h.0 (rw is_port (v.claims nx).0),
          v.granted_only nx,
        )
      ];
      keeps = λ h. inr (v.granted_only nx);
    };
    closed = λ q h. elim (close_spares vc.send_port q s.cb) [
      | inl same ↦ rw e₅ (Closed-suc seen me granted i s.cb c q (sym same ∙ (rw e₆ at h)))
      | inr is_port ↦
          (me, rw (e₅, is_port) (v.claims nx).0, inr (refl, omega (arith, v.granted_only nx)))
    ];
  }

  pub traverse-Round :
      (i : ℕ) (f : Flit) (rest : List Flit) (vc : Vc) (s : Shared)
      → VcOk me s.cb granted s.holding i vc
      → Closed seen me granted i s.cb
      → vc.state ≡ st
      → Round seen me granted i s (traverse me cycle xpos granted i f rest vc s)
  unfolding traverse send close
  traverse-Round i f rest vc s v c e = elim (Bool-cases (is_rc vc.next_state)) [
    | inl r ↦ rw r (go_on i vc vc s _ v c refl refl refl refl refl refl)
    | inr r ↦ elim (Bool-cases (ends_packet f.ftype)) [
      | inl t ↦
          rw (r, t)
            (stop i vc _ s _ v c (must_be_st vc.next_state r (v.from_st e)) e e refl refl refl)
      | inr t ↦ rw (r, t) (go_on i vc _ s _ v c refl refl refl refl refl refl)
    ]
  ]
