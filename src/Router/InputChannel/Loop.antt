-- ===== src/Router/InputChannel/Loop.antt =====
-- The loop of `InputChannel::step`, router.cc, keeps what the virtual channels claim.
use cube_sim.Common.{
  Bool, Bool-cases, List, [], arith, false, inl, inr, ltb, refl, some, sym, true, ℕ, ◌+◌, ◌<◌, ◌∙◌,
  ◌∷◌, ◌≡◌, ◌≢◌, ◌⊎◌,
}
use cube_sim.Router.Flit.{Flit, is_ack}
use cube_sim.Router.Crossbar.{Crossbar, Port, at, forward_ack}
use cube_sim.Router.InputChannel.{
  Shared, Vc, VcState, dispatch, handle, handle_all, handle_front, rc, route, st, update_state, vsa,
}
use cube_sim.Router.InputChannel.Claims.{
  AllVcs, Closed, Closed-suc, Holds, Round, Spares, VcOk, go_on, traverse-Round,
}
use cube_sim.Router.InputChannel.Allocate.{allocate-Round}

module _ (seen : Port → Bool) (me : Port) (unseen : seen me ≡ false) (cycle xpos granted : ℕ) where
  dispatch-Round :
      (state : VcState) (i : ℕ) (f : Flit) (rest : List Flit) (vc : Vc) (s : Shared)
      → vc.state ≡ state
      → VcOk me s.cb granted s.holding i vc
      → Closed seen me granted i s.cb
      → Round seen me granted i s (dispatch me cycle xpos granted state i f rest vc s)
  unfolding dispatch
  dispatch-Round st i f rest vc s e v c =
      traverse-Round seen me cycle xpos granted i f rest vc s v c e
  dispatch-Round vsa i f rest vc s e v c =
      allocate-Round seen me cycle xpos granted i vc s v c unseen e
  dispatch-Round rc i f rest vc s e v c = record {
    good =
        unfold route in
        record {
          from_rc = ground arith;
          from_st = ground arith;
          granted_only = ground (arith, v.from_rc e);
          held = ground (arith, v.from_rc e);
          claims = λ h. absurd (v.from_rc e (ground arith));
        };
    spares = record { others = λ y q h. inl h; keeps = λ h. inl h };
    closed = Closed-suc seen me granted i s.cb c;
  }

  handle_front-Round :
      (i : ℕ) (q : List Flit) (vc : Vc) (s : Shared)
      → VcOk me s.cb granted s.holding i vc
      → Closed seen me granted i s.cb
      → Round seen me granted i s (handle_front me cycle xpos granted i q vc s)
  unfolding handle_front forward_ack
  handle_front-Round i [] vc s v c =
      go_on seen me cycle xpos granted i vc _ s _ v c refl refl refl refl refl refl
  handle_front-Round i (f ∷ q) vc s v c = elim (Bool-cases (is_ack f.ftype)) [
    | inl a ↦ rw a (go_on seen me cycle xpos granted i vc _ s _ v c refl refl refl refl refl refl)
    | inr n ↦ rw n (dispatch-Round vc.state i f q vc s refl v c)
  ]

  update_state-VcOk :
      (i : ℕ) (vc : Vc) (cb : Crossbar) (holding : Bool)
      → VcOk me cb granted holding i vc
      → VcOk me cb granted holding i (update_state me cycle xpos granted vc)
  unfolding update_state
  update_state-VcOk i vc cb holding v = elim (Bool-cases (ltb vc.update_time cycle)) [
    | inl t ↦ rw t (record {
      from_rc = λ h k. cc;
      from_st = λ h k. cc;
      granted_only = v.granted_only;
      held = v.held;
      claims = v.claims;
    })
    | inr t ↦ rw t v
  ]

  -- One round, the state update included.
  handle-Round :
      (i : ℕ) (vc : Vc) (s : Shared)
      → VcOk me s.cb granted s.holding i vc
      → Closed seen me granted i s.cb
      → Round seen me granted i s (handle me cycle xpos granted i vc s)
  unfolding handle
  handle-Round i vc s v c =
      let r = handle_front-Round i vc.ibuf vc s v c in
      record {
        good =
            update_state-VcOk i (handle_front me cycle xpos granted i vc.ibuf vc s).0
              (handle_front me cycle xpos granted i vc.ibuf vc s).1.cb
              (handle_front me cycle xpos granted i vc.ibuf vc s).1.holding r.good;
        spares = r.spares;
        closed = r.closed;
      }

  -- Another channel of this input is left in a good state.
  spared :
      (i j : ℕ) (vc : Vc) (s s' : Shared)
      → Spares me granted i s s'
      → i ≢ j
      → VcOk me s.cb granted s.holding j vc
      → VcOk me s'.cb granted s'.holding j vc
  spared i j vc s s' p ne v = record {
    from_rc = v.from_rc;
    from_st = v.from_st;
    granted_only = v.granted_only;
    held = λ h. elim (p.keeps (v.held h)) [
      | inl k ↦ k
      | inr e ↦ absurd (ne (e ∙ sym (v.granted_only h)))
    ];
    claims = λ h. elim (p.others me vc.send_port (v.claims h)) [
      | inl k ↦ k
      | inr e ↦ absurd (ne (e.1 ∙ sym (v.granted_only h)))
    ];
  }

  spared_all :
      (i j : ℕ) (vcs : List Vc) (s s' : Shared)
      → Spares me granted i s s'
      → i < j
      → AllVcs (VcOk me s.cb granted s.holding) j vcs
      → AllVcs (VcOk me s'.cb granted s'.holding) j vcs
  spared_all i j [] s s' p lt v = tt
  spared_all i j (vc ∷ vcs) s s' p lt v =
      (spared i j vc s s' p (omega arith) v.0, spared_all i (j + 1) vcs s s' p (omega arith) v.1)

  -- What the loop from channel `i` on leaves when it ends.
  pub record Rounds (i : ℕ) (s : Shared) (r : List Vc × Shared) : Type 0 where
    pub all_good : AllVcs (VcOk me r.1.cb granted r.1.holding) i r.0
    pub before :
        (j : ℕ) (vc : Vc)
        → j < i
        → VcOk me s.cb granted s.holding j vc
        → VcOk me r.1.cb granted r.1.holding j vc
    pub others : (y q : Port) → y ≢ me → Holds y q s.cb → Holds y q r.1.cb
    pub closed :
        (q : Port)
        → at q r.1.cb.close_pending ≡ true
        → (y : Port) × (at q r.1.cb.last_sender ≡ some y) × ((seen y ≡ true) ⊎ (y ≡ me))

  pub handle_all-Rounds :
      (i : ℕ) (vcs : List Vc) (s : Shared)
      → AllVcs (VcOk me s.cb granted s.holding) i vcs
      → Closed seen me granted i s.cb
      → Rounds i s (handle_all me cycle xpos granted i vcs s)
  unfolding handle_all
  handle_all-Rounds i [] s v c = record {
    all_good = tt;
    before = λ j vc lt w. w;
    others = λ y q ne h. h;
    closed = λ q h. let r = c q h in (r.0, r.1, elim r.2 [ inl k ↦ inl k | inr p ↦ inr p.0 ]);
  }
  handle_all-Rounds i (vc ∷ vcs) s v c =
      let one = handle me cycle xpos granted i vc s in
      let r = handle-Round i vc s v.0 c in
      let rest =
        handle_all-Rounds (i + 1) vcs one.1
          (spared_all i (i + 1) vcs s one.1 r.spares (omega arith) v.1)
          (λ q h.
            let k = r.closed q h in
            (k.0, k.1, elim k.2 [ inl m ↦ inl m | inr p ↦ inr (p.0, omega (arith, p.1)) ])) in
      record {
        all_good = (rest.before i one.0 (omega arith) r.good, rest.all_good);
        before = λ j w lt ok.
            rest.before j w (omega arith) (spared i j w s one.1 r.spares (omega arith) ok);
        others = λ y q ne h.
            rest.others y q ne
              (elim (r.spares.others y q h) [ inl k ↦ k | inr e ↦ absurd (ne e.0) ]);
        closed = rest.closed;
      }
