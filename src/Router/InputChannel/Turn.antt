-- ===== src/Router/InputChannel/Turn.antt =====
-- One turn of an input channel, `InputChannel::step` of router.cc, keeps what its virtual channels
-- claim, and the claims of the other inputs.
use cube_sim.Common.{
  Bool, Bool-cases, List, [], arith, false, inl, inr, ltb, not, some, suc, true, zero, ℕ, ◌&&◌, ◌+◌,
  ◌∷◌, ◌≡◌, ◌≢◌, ◌⊎◌,
}
use cube_sim.Router.Flit.{Flit, FlitEntry}
use cube_sim.Router.InputChannel.{
  InputChannel, Shared, Vc, arbiter, arbitrate, grant_or, handle_all, push_vc, set_ordy, step,
  take_input,
}
use cube_sim.Router.Crossbar.{Crossbar, Port, at}
use cube_sim.Router.InputChannel.Claims.{AllVcs, Holds, VcOk}
use cube_sim.Router.InputChannel.Loop.{handle_all-Rounds}

push_vc-AllVcs :
    (me : Port) (cb : Crossbar) (granted : ℕ) (holding : Bool) (v : ℕ) (f : Flit) (i : ℕ)
    (vcs : List Vc)
    → AllVcs (VcOk me cb granted holding) i vcs
    → AllVcs (VcOk me cb granted holding) i (push_vc v f vcs)
unfolding push_vc
push_vc-AllVcs me cb granted holding v f i [] a = tt
push_vc-AllVcs me cb granted holding zero f i (vc ∷ vcs) a = (
  record {
    from_rc = a.0.from_rc;
    from_st = a.0.from_st;
    granted_only = a.0.granted_only;
    held = a.0.held;
    claims = a.0.claims;
  },
  a.1,
)
push_vc-AllVcs me cb granted holding (suc v) f i (vc ∷ vcs) a =
    (a.0, push_vc-AllVcs me cb granted holding v f (i + 1) vcs a.1)

regrant_one :
    (me : Port) (cb : Crossbar) (g g' : ℕ) (i : ℕ) (vc : Vc) (asks : Bool)
    → VcOk me cb g false i vc
    → VcOk me cb g' false i (record vc { request_pending = asks })
regrant_one me cb g g' i vc asks v = record {
  from_rc = v.from_rc;
  from_st = v.from_st;
  granted_only = λ h. cc (v.held h);
  held = λ h. cc (v.held h);
  claims = λ h. v.claims h;
}

regrant_all :
    (me : Port) (cb : Crossbar) (g g' : ℕ) (i : ℕ) (vcs : List Vc)
    → AllVcs (VcOk me cb g false) i vcs
    → AllVcs (VcOk me cb g' false) i vcs
regrant_all me cb g g' i [] a = tt
regrant_all me cb g g' i (vc ∷ vcs) a =
    (regrant_one me cb g g' i vc vc.request_pending a.0, regrant_all me cb g g' (i + 1) vcs a.1)

-- While no channel holds the arbiter, any channel may be granted.
regrant :
    (me : Port) (cb : Crossbar) (g g' : ℕ) (i : ℕ) (vcs : List Vc)
    → AllVcs (VcOk me cb g false) i vcs
    → AllVcs (VcOk me cb g' false) i (arbitrate i vcs).1
unfolding arbitrate
regrant me cb g g' i [] a = tt
regrant me cb g g' i (vc ∷ vcs) a = elim (Bool-cases vc.request_pending) [
  | inl r ↦ rw r (regrant_one me cb g g' i vc false a.0, regrant_all me cb g g' (i + 1) vcs a.1)
  | inr r ↦ rw r (regrant_one me cb g g' i vc false a.0, regrant me cb g g' (i + 1) vcs a.1)
]

-- The virtual channels of an input are in a good state.
pub record IcOk (me : Port) (cb : Crossbar) (ic : InputChannel) : Type 0 where
  pub all_ok : AllVcs (VcOk me cb ic.granted_vc ic.holding) 0 ic.vcs

arbiter-IcOk :
    (me : Port) (cycle : ℕ) (cb : Crossbar) (ic : InputChannel)
    → IcOk me cb ic
    → IcOk me cb (arbiter cycle ic)
unfolding arbiter
arbiter-IcOk me cycle cb ic ok =
    elim (Bool-cases (not ic.holding && ltb ic.grant_release_time cycle)) [
      | inr r ↦ rw r ok
      | inl r ↦ rw r (record {
        all_ok =
            let free : ic.holding ≡ false = ground arith in
            rw free (
              regrant me cb ic.granted_vc (grant_or (arbitrate 0 ic.vcs).0 ic.granted_vc) 0 ic.vcs
                (rw free at ok.all_ok));
      })
    ]

-- What a turn of input `me` leaves.
pub record Turn (seen : Port → Bool) (me : Port) (cb : Crossbar) (r : InputChannel × Crossbar)
    : Type 0 where
  pub ok : IcOk me r.1 r.0
  pub others : (y q : Port) → y ≢ me → Holds y q cb → Holds y q r.1
  pub closed :
      (q : Port)
      → at q r.1.close_pending ≡ true
      → (y : Port) × (at q r.1.last_sender ≡ some y) × ((seen y ≡ true) ⊎ (y ≡ me))

take_input-AllVcs :
    (me : Port) (cb : Crossbar) (granted : ℕ) (holding : Bool) (q : List FlitEntry) (vcs : List Vc)
    → AllVcs (VcOk me cb granted holding) 0 vcs
    → AllVcs (VcOk me cb granted holding) 0 (take_input q vcs)
unfolding take_input
take_input-AllVcs me cb granted holding [] vcs a = a
take_input-AllVcs me cb granted holding (e ∷ q) vcs a =
    push_vc-AllVcs me cb granted holding e.vch e.flit 0 vcs a

pub step-Turn :
    (seen : Port → Bool) (me : Port) (cycle xpos : ℕ) (ic : InputChannel) (cb : Crossbar)
    → seen me ≡ false
    → IcOk me cb ic
    → ((q : Port)
        → at q cb.close_pending ≡ true
        → (y : Port) × (at q cb.last_sender ≡ some y) × (seen y ≡ true))
    → Turn seen me cb (step me cycle xpos ic cb)
unfolding step set_ordy
step-Turn seen me cycle xpos ic cb unseen ok c =
    let s₀ : Shared = record {
      cb = cb;
      holding = ic.holding;
      release_time = ic.grant_release_time;
      vc_hold = false;
    } in
    let r =
      handle_all-Rounds seen me unseen cycle xpos ic.granted_vc 0 ic.vcs s₀ ok.all_ok
        (λ q h. let k = c q h in (k.0, k.1, inl k.2)) in
    let after = handle_all me cycle xpos ic.granted_vc 0 ic.vcs s₀ in
    record {
      ok = arbiter-IcOk me cycle after.1.cb _ (record {
        all_ok =
            take_input-AllVcs me after.1.cb ic.granted_vc after.1.holding ic.iport after.0
              r.all_good;
      });
      others = r.others;
      closed = r.closed;
    }
