-- ===== src/Router/Node/Wormhole.antt =====
-- Wormhole switching in a router, router.cc: an output belongs to one packet at a time.
use mathlib.Core.Bool.{false≢true}
use mathlib.Core.Path.{subst}
use cube_sim.Router.Crossbar
use cube_sim.Router.InputChannel
use cube_sim.Common.{
  Bool, List, [], arith, false, get_elem?, map, refl, some, suc, sym, true, zero, ℕ, ◌++◌, ◌+◌,
  ◌||◌, ◌∙◌, ◌∷◌, ◌≡◌,
}
use cube_sim.Router.Crossbar.{Crossbar, Port, at, local_port, lower_port, same_port, upper_port}
use cube_sim.Router.InputChannel.{InputChannel, Vc, reset_vc, st}
use cube_sim.Router.InputChannel.Turn.{IcOk, step-Turn}
use cube_sim.Router.Node.{
  Node, Reach, Step, arrive, here, input, next, reset_node, step_node, step_outputs, tick,
}
use cube_sim.Router.Node.Carry.{carry_ic, step-Holds, step-open}
use cube_sim.Router.Flit.{FlitEntry}
use cube_sim.Router.InputChannel.Claims.{AllVcs, VcOk}

-- Between two cycles.
pub record NodeOk (n : Node) : Type 0 where
  pub local_ok : IcOk local_port n.cb n.ics.local
  pub upper_ok : IcOk upper_port n.cb n.ics.upper
  pub lower_ok : IcOk lower_port n.cb n.ics.lower
  pub open_all : (q : Port) → at q n.cb.close_pending ≡ false

step_outputs_keeps :
    (cycle : ℕ) (cb : Crossbar)
    → ((step_outputs cycle cb).0.last_sender ≡ cb.last_sender)
      × ((step_outputs cycle cb).0.close_pending ≡ cb.close_pending)
unfolding step_outputs
step_outputs_keeps cycle cb = (refl, refl)

none_seen : Port → Bool
none_seen p = false

local_seen : Port → Bool
local_seen p = same_port p local_port

both_seen : Port → Bool
both_seen p = same_port p local_port || same_port p upper_port

-- A cycle keeps the invariant.
step_node-NodeOk : (cycle : ℕ) (n : Node) → NodeOk n → NodeOk (step_node cycle n).0
unfolding step_node step_outputs none_seen local_seen both_seen same_port
step_node-NodeOk cycle n ok =
    let cb₀ = (step_outputs cycle n.cb).0 in
    let r₁ = InputChannel.step local_port cycle n.myid n.ics.local cb₀ in
    let r₂ = InputChannel.step upper_port cycle n.myid n.ics.upper r₁.1 in
    let r₃ = InputChannel.step lower_port cycle n.myid n.ics.lower r₂.1 in
    let start = λ (me : Port) (ic : InputChannel) (k : IcOk me n.cb ic).
      carry_ic me n.cb cb₀ ic (λ q h. h) k in
    let t₁ =
      step-Turn none_seen local_port cycle n.myid n.ics.local cb₀ refl
        (start local_port n.ics.local ok.local_ok)
        (λ q h. absurd (false≢true (sym (ok.open_all q) ∙ h))) in
    let t₂ =
      step-Turn local_seen upper_port cycle n.myid n.ics.upper r₁.1 refl
        (carry_ic upper_port cb₀ r₁.1 n.ics.upper (λ q h. t₁.others upper_port q (λ e. cc) h)
          (start upper_port n.ics.upper ok.upper_ok))
        (λ q h. let k = t₁.closed q h in (k.0, k.1, ground (arith, k.2))) in
    let t₃ =
      step-Turn both_seen lower_port cycle n.myid n.ics.lower r₂.1 refl
        (carry_ic lower_port r₁.1 r₂.1 n.ics.lower (λ q h. t₂.others lower_port q (λ e. cc) h)
          (carry_ic lower_port cb₀ r₁.1 n.ics.lower (λ q h. t₁.others lower_port q (λ e. cc) h)
            (start lower_port n.ics.lower ok.lower_ok)))
        (λ q h. let k = t₂.closed q h in (k.0, k.1, ground (arith, k.2))) in
    record {
      local_ok =
          carry_ic local_port r₃.1 (Crossbar.step r₃.1) r₁.0 (λ q h. step-Holds local_port q r₃.1 h)
            (carry_ic local_port r₂.1 r₃.1 r₁.0 (λ q h. t₃.others local_port q (λ e. cc) h)
              (carry_ic local_port r₁.1 r₂.1 r₁.0 (λ q h. t₂.others local_port q (λ e. cc) h)
                t₁.ok));
      upper_ok =
          carry_ic upper_port r₃.1 (Crossbar.step r₃.1) r₂.0 (λ q h. step-Holds upper_port q r₃.1 h)
            (carry_ic upper_port r₂.1 r₃.1 r₂.0 (λ q h. t₃.others upper_port q (λ e. cc) h) t₂.ok);
      lower_ok =
          carry_ic lower_port r₃.1 (Crossbar.step r₃.1) r₃.0 (λ q h. step-Holds lower_port q r₃.1 h)
            t₃.ok;
      open_all = λ q. step-open q r₃.1;
    }

iport-IcOk :
    (me : Port) (cb : Crossbar) (ic : InputChannel) (q : List FlitEntry)
    → IcOk me cb ic
    → IcOk me cb (record ic { iport = q })
iport-IcOk me cb ic q ok = record { all_ok = ok.all_ok }

arrive-NodeOk : (port : Port) (e : FlitEntry) (n : Node) → NodeOk n → NodeOk (arrive port e n)
unfolding arrive
arrive-NodeOk local_port e n ok = record {
  local_ok = iport-IcOk local_port n.cb n.ics.local (n.ics.local.iport ++ e ∷ []) ok.local_ok;
  upper_ok = ok.upper_ok;
  lower_ok = ok.lower_ok;
  open_all = ok.open_all;
}
arrive-NodeOk lower_port e n ok = record {
  local_ok = ok.local_ok;
  upper_ok = ok.upper_ok;
  lower_ok = iport-IcOk lower_port n.cb n.ics.lower (n.ics.lower.iport ++ e ∷ []) ok.lower_ok;
  open_all = ok.open_all;
}
arrive-NodeOk upper_port e n ok = record {
  local_ok = ok.local_ok;
  upper_ok = iport-IcOk upper_port n.cb n.ics.upper (n.ics.upper.iport ++ e ∷ []) ok.upper_ok;
  lower_ok = ok.lower_ok;
  open_all = ok.open_all;
}

pub Step-NodeOk : {n m : Node} → Step n m → NodeOk n → NodeOk m
Step-NodeOk {n} (tick c) ok = step_node-NodeOk c n ok
Step-NodeOk {n} (input port e) ok = arrive-NodeOk port e n ok

pub Reach-NodeOk : {n m : Node} → NodeOk n → Reach n m → NodeOk m
Reach-NodeOk ok here = ok
Reach-NodeOk ok (next r s) = Step-NodeOk s (Reach-NodeOk ok r)

reset-AllVcs :
    (me : Port) (cb : Crossbar) (i : ℕ) (vcs : List Vc)
    → AllVcs (VcOk me cb 0 false) i (map reset_vc vcs)
unfolding reset_vc
reset-AllVcs me cb i [] = tt
reset-AllVcs me cb i (vc ∷ vcs) = (
  record {
    from_rc = λ h k. cc;
    from_st = λ h k. cc;
    granted_only = λ h. cc;
    held = λ h. cc;
    claims = λ h. cc;
  },
  reset-AllVcs me cb (i + 1) vcs,
)

pub reset_node-NodeOk : (cycle : ℕ) (n : Node) → NodeOk (reset_node cycle n)
unfolding reset_node InputChannel.reset Crossbar.reset
reset_node-NodeOk cycle n = record {
  local_ok = record { all_ok = reset-AllVcs local_port _ 0 n.ics.local.vcs };
  upper_ok = record { all_ok = reset-AllVcs upper_port _ 0 n.ics.upper.vcs };
  lower_ok = record { all_ok = reset-AllVcs lower_port _ 0 n.ics.lower.vcs };
  open_all = λ q. closed_at q;
}
  where
    closed_at : (q : Port) → at q (record { local = false; lower = false; upper = false }) ≡ false
    closed_at local_port = refl
    closed_at lower_port = refl
    closed_at upper_port = refl

get-AllVcs :
    (P : ℕ → Vc → Type 0) (k i : ℕ) (vcs : List Vc) {vc : Vc}
    → AllVcs P k vcs
    → get_elem? vcs i ≡ some vc
    → P (k + i) vc
get-AllVcs P k i [] a h = cc
get-AllVcs P k zero (v ∷ vcs) {vc} a h =
    let e : v ≡ vc = cc in subst (P (k + 0)) e (subst (λ (j : ℕ). P j v) (omega arith) a.0)
get-AllVcs P k (suc i) (v ∷ vcs) {vc} a h =
    subst (λ (j : ℕ). P j vc) (omega arith) (get-AllVcs P (k + 1) i vcs a.1 h)

-- Virtual channel `i` of input `p` uses the switch, towards output `q`.
pub record Traverses (n : Node) (p : Port) (i : ℕ) (q : Port) : Type 0 where
  pub vc : Vc
  pub is_there : get_elem? (at p n.ics).vcs i ≡ some vc
  pub in_switch : vc.next_state ≡ st
  pub towards : vc.send_port ≡ q

ic_ok : (n : Node) (p : Port) → NodeOk n → IcOk p n.cb (at p n.ics)
ic_ok n local_port ok = ok.local_ok
ic_ok n lower_port ok = ok.lower_ok
ic_ok n upper_port ok = ok.upper_ok

Traverses-VcOk :
    (n : Node) {p q : Port} {i : ℕ}
    → NodeOk n
    → Traverses n p i q
    → (at q n.cb.last_sender ≡ some p)
      × (i ≡ (at p n.ics).granted_vc)
      × ((at p n.ics).holding ≡ true)
Traverses-VcOk n {p} {q} {i} ok t =
    let v =
      get-AllVcs (VcOk p n.cb (at p n.ics).granted_vc (at p n.ics).holding) 0 i (at p n.ics).vcs
        (ic_ok n p ok).all_ok t.is_there in
    (
      rw (← t.towards) (v.claims t.in_switch).0,
      omega (arith, v.granted_only t.in_switch),
      v.held t.in_switch,
    )

-- In every state that a router can reach from a reset, of the virtual channels of one input at
-- most one uses the switch, towards whichever outputs, and it is the one that the arbiter granted
-- and that holds the grant.
pub one_channel_per_input :
    (c : ℕ) (n : Node) {m : Node} {p q q' : Port} {i j : ℕ}
    → Reach (reset_node c n) m
    → Traverses m p i q
    → Traverses m p j q'
    → (i ≡ j) × (i ≡ (at p m.ics).granted_vc) × ((at p m.ics).holding ≡ true)
one_channel_per_input c n {m} {p} {q} {q'} {i} {j} r t t' =
    let ok = Reach-NodeOk (reset_node-NodeOk c n) r in
    let a = Traverses-VcOk m ok t in let b = Traverses-VcOk m ok t' in (a.1 ∙ sym b.1, a.1, a.2)
