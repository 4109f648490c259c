-- ===== src/Accelerator/Nif/Cycle.antt =====
-- Cycles of the network interface of an accelerator, `nif_step` of accelerator.cc: a cycle in a state
-- that is known, and several cycles with what they send.
use cube_sim.Common.{Bool, List, [], ap, false, if◌then◌else◌, refl, suc, zero, ℕ, ◌++◌, ◌∙◌, ◌≡◌}
use cube_sim.Accelerator.LocalBus.{Core}
use cube_sim.Accelerator.Nif.{Nif, State, is_error, nif_state, nif_step, update_status}
use cube_sim.Router.Flit.{FlitEntry}

module _ {C : Type 0} (k : Core C) (ready : ℕ → Bool) where
  cycle_in : State → Nif C → Nif C × List FlitEntry
  cycle_in st s =
      let (s₁, sent) = nif_state k ready st s in
      if is_error st then (s, []) else (update_status s₁, sent)

  in_state : (s : Nif C) (st : State) → s.state ≡ st → nif_step k ready s ≡ cycle_in st s
  unfolding nif_step cycle_in
  in_state s st e = ap (λ (x : State). cycle_in x s) e

  -- A cycle in a state that is not CNIF_ERROR, as the switch and the update of the status.
  pub nif_step_in :
      (s : Nif C) (st : State)
      → s.state ≡ st
      → is_error st ≡ false
      → nif_step k ready s ≡ (update_status (nif_state k ready st s).0, (nif_state k ready st s).1)
  unfolding cycle_in
  nif_step_in s st e h = in_state s st e ∙ rw h refl

  -- `n` cycles, with what they send.
  unfoldable pub run : ℕ → Nif C → Nif C × List FlitEntry
  run zero s = (s, [])
  run (suc n) s =
      let (s₁, sent) = nif_step k ready s in let (s₂, more) = run n s₁ in (s₂, sent ++ more)

  pub run-suc :
      (n : ℕ) (s : Nif C)
      → run (suc n) s ≡ (
        (run n (nif_step k ready s).0).0,
        (nif_step k ready s).1 ++ (run n (nif_step k ready s).0).1,
      )
  unfolding run
  run-suc n s = refl
