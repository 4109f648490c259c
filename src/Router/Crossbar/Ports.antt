-- ===== src/Router/Crossbar/Ports.antt =====
-- Reading what the crossbar, router.cc, keeps for each port, and what its operations leave alone.
use cube_sim.Common.{Option-cases, arith, inl, inr, none, refl, some, true, ℕ, ◌≡◌, ◌≢◌, ◌⊎◌}
use cube_sim.Router.Crossbar.{
  Crossbar, Per, Port, Port-discrete, at, claim, local_port, lower_port, put, ready, same_port,
  upper_port,
}

pub same_port→eq : (p q : Port) → same_port p q ≡ true → p ≡ q
unfolding same_port
same_port→eq local_port local_port h = refl
same_port→eq lower_port lower_port h = refl
same_port→eq upper_port upper_port h = refl
same_port→eq _ _ h = cc

pub same_port_refl : (p : Port) → same_port p p ≡ true
unfolding same_port
same_port_refl local_port = refl
same_port_refl lower_port = refl
same_port_refl upper_port = refl

pub Port-cases : (p q : Port) → (p ≡ q) ⊎ (p ≢ q)
Port-cases p q = elim (Port-discrete p q) [ yes e ↦ inl e | no n ↦ inr n ]

module _ {A : Type 0} where
  pub at-put_self : (p : Port) (a : A) (m : Per A) → at p (put p a m) ≡ a
  at-put_self local_port a m = refl
  at-put_self lower_port a m = refl
  at-put_self upper_port a m = refl

  pub at-put_ne : (p q : Port) (a : A) (m : Per A) → q ≢ p → at q (put p a m) ≡ at q m
  at-put_ne local_port local_port a m h = absurd (h refl)
  at-put_ne lower_port lower_port a m h = absurd (h refl)
  at-put_ne upper_port upper_port a m h = absurd (h refl)
  at-put_ne local_port lower_port a m h = refl
  at-put_ne local_port upper_port a m h = refl
  at-put_ne lower_port local_port a m h = refl
  at-put_ne lower_port upper_port a m h = refl
  at-put_ne upper_port local_port a m h = refl
  at-put_ne upper_port lower_port a m h = refl

ready_keeps_self :
    (ic : Port) (vch : ℕ) (port y : Port) (cb : Crossbar)
    → at port cb.last_sender ≡ some y
    → at port (ready ic vch port cb).0.last_sender ≡ some y
unfolding ready
ready_keeps_self ic vch port y cb h =
    ground (arith, at-put_self port (claim ic (at port cb.last_sender)) cb.last_sender)

-- An output that has a sender keeps it, whoever asks.
pub ready_keeps_sender :
    (ic : Port) (vch : ℕ) (port q y : Port) (cb : Crossbar)
    → at q cb.last_sender ≡ some y
    → at q (ready ic vch port cb).0.last_sender ≡ some y
unfolding ready
ready_keeps_sender ic vch port q y cb h = elim (Port-cases q port) [
  | inl e ↦ rw e (ready_keeps_self ic vch port y cb (rw e at h))
  | inr n ↦ ground (arith, at-put_ne port q (claim ic (at port cb.last_sender)) cb.last_sender n)
]

-- `ready` says yes only to the sender of the output, which it may have made it.
pub ready-claims :
    (ic : Port) (vch : ℕ) (port : Port) (cb : Crossbar)
    → (ready ic vch port cb).1 ≡ true
    → (at port (ready ic vch port cb).0.last_sender ≡ some ic)
      × ((at port cb.last_sender ≡ none) ⊎ (at port cb.last_sender ≡ some ic))
unfolding ready
ready-claims ic vch port cb h = elim (Option-cases (at port cb.last_sender)) [
  | inl e ↦ ground (arith, at-put_self port (claim ic (at port cb.last_sender)) cb.last_sender)
  | inr (p, e) ↦ ground (
    arith,
    at-put_self port (claim ic (at port cb.last_sender)) cb.last_sender,
    same_port→eq p ic,
  )
]

pub ready-close_pending :
    (ic : Port) (vch : ℕ) (port : Port) (cb : Crossbar)
    → (ready ic vch port cb).0.close_pending ≡ cb.close_pending
unfolding ready
ready-close_pending ic vch port cb = ground arith
