-- ===== src/Router/Link/Cycles.antt =====
-- What one cycle of an output channel, router.cc, does to the counters of one virtual channel, at the
-- sending end of a link and at the answering end.
use cube_sim.Common.{
  Bool, List, Option, Option-cases, [], ap, arith, get_or, inl, inr, length, none, refl, some, sym,
  true, ℕ, ◌+◌, ◌<◌, ◌||◌, ◌∙◌, ◌∷◌, ◌≡◌, ◌⊎◌,
}
use cube_sim.Common.Int.{pos}
use cube_sim.Router.Flit.{Flit, FlitEntry, decode_ack, is_ack, make_ack_flit, vch_size}
use cube_sim.Router.OutputChannel.{
  OutputChannel, ack_former, ack_send, iack_phase, latter, send_front, send_phase, settle, step,
  take_iack, update_ready,
}
use cube_sim.Router.Link.{NoAcks, sent_acks, sent_flits}
use cube_sim.Router.Link.Counters.{
  count_vch, credits, get_or-add_counts, get_or-bump_send, get_or-credit_back,
}
use cube_sim.Router.OutputChannel.Accounting.{AllFit, ack_send_accounts}
use cube_sim.Router.OutputChannel.Ready.{length-bump_send}

settle_keeps :
    (changed : Bool) (oc : OutputChannel)
    → ((settle changed oc).send_count ≡ oc.send_count)
      × ((settle changed oc).iackbuf ≡ oc.iackbuf)
      × ((settle changed oc).obuf ≡ oc.obuf)
      × ((settle changed oc).ack_count ≡ oc.ack_count)
      × ((settle changed oc).ack_enabled ≡ oc.ack_enabled)
unfolding settle update_ready
settle_keeps changed oc = ground arith

ack_send_keeps :
    (cycle : ℕ) (oc : OutputChannel)
    → ((ack_send cycle oc).0.send_count ≡ oc.send_count)
      × ((ack_send cycle oc).0.iackbuf ≡ oc.iackbuf)
      × ((ack_send cycle oc).0.obuf ≡ oc.obuf)
      × ((ack_send cycle oc).0.ack_enabled ≡ oc.ack_enabled)
      × (sent_flits (ack_send cycle oc).1 ≡ [])
unfolding ack_send is_ack make_ack_flit
ack_send_keeps cycle oc = ground arith

-- What the first part of a cycle does to the sender.
record Fronted (oc : OutputChannel) (v n : ℕ) (r : OutputChannel × Option FlitEntry × Bool)
    : Type 0 where
  count : get_or r.0.send_count v (pos 0) ≡ pos (n + count_vch v (sent_flits r.1))
  iack_same : r.0.iackbuf ≡ oc.iackbuf
  enabled_same : r.0.ack_enabled ≡ true
  no_acks : NoAcks r.0.obuf

send_front-Fronted :
    (cycle v n : ℕ) (oc : OutputChannel) (q : List FlitEntry)
    → oc.ack_enabled ≡ true
    → oc.obuf ≡ q
    → NoAcks q
    → v < length oc.send_count
    → get_or oc.send_count v (pos 0) ≡ pos n
    → Fronted oc v n (send_front cycle oc q)
unfolding send_front count_vch
send_front-Fronted cycle v n oc [] on eq ok h e = ground (arith, ack_send_keeps cycle oc)
send_front-Fronted cycle v n oc (x ∷ q) on eq ok h e =
    ground (arith, get_or-bump_send x.vch v oc.send_count n h e)

take_iack_count :
    (v n : ℕ) (oc : OutputChannel) (q : List Flit)
    → oc.iackbuf ≡ q
    → v < length oc.send_count
    → get_or oc.send_count v (pos 0) ≡ pos (n + credits v q)
    → (get_or (take_iack oc q).0.send_count v (pos 0)
        ≡ pos (n + credits v (take_iack oc q).0.iackbuf))
      × ((take_iack oc q).0.obuf ≡ oc.obuf)
      × ((take_iack oc q).0.ack_enabled ≡ oc.ack_enabled)
unfolding take_iack credits
take_iack_count v n oc [] eq h e = ground arith
take_iack_count v n oc (f ∷ q) eq h e = (
  get_or-credit_back oc.send_count (decode_ack f) v (n + credits v q) h (e ∙ ap pos (omega arith)),
  refl,
  refl,
)

length-send_front :
    (cycle : ℕ) (oc : OutputChannel) (q : List FlitEntry)
    → length (send_front cycle oc q).0.send_count ≡ length oc.send_count
unfolding send_front
length-send_front cycle oc [] = ground (arith, ack_send_keeps cycle oc)
length-send_front cycle oc (e ∷ q) = ground (arith, length-bump_send e.vch oc.send_count)

-- One cycle of the sender at channel `v`.
pub sender_cycle :
    (cycle v n : ℕ) (oc : OutputChannel)
    → oc.ack_enabled ≡ true
    → NoAcks oc.obuf
    → v < length oc.send_count
    → get_or oc.send_count v (pos 0) ≡ pos (n + credits v oc.iackbuf)
    → let (oc', out) = step cycle oc in
      (get_or oc'.send_count v (pos 0)
        ≡ pos (n + count_vch v (sent_flits out) + credits v oc'.iackbuf))
      × NoAcks oc'.obuf
      × (oc'.ack_enabled ≡ true)
unfolding step send_phase iack_phase
sender_cycle cycle v n oc on ok h e =
    let front = send_front cycle oc oc.obuf in
    let f = send_front-Fronted cycle v (n + credits v oc.iackbuf) oc oc.obuf on refl ok h e in
    let e' : get_or front.0.send_count v (pos 0)
        ≡ pos (n + count_vch v (sent_flits front.1) + credits v front.0.iackbuf) =
      f.count ∙ ap pos (rw f.iack_same (omega arith)) in
    let g =
      take_iack_count v (n + count_vch v (sent_flits front.1)) front.0 front.0.iackbuf refl
        (omega (arith, length-send_front cycle oc oc.obuf)) e' in
    let taken = take_iack front.0 front.0.iackbuf in
    let k = settle_keeps (front.2 || taken.1) taken.0 in
    (rw (k.0, k.1) g.0, rw (k.2, g.1) f.no_acks, k.4 ∙ g.2 ∙ f.enabled_same)

take_iack_keeps :
    (oc : OutputChannel) (q : List Flit)
    → ((take_iack oc q).0.ack_count ≡ oc.ack_count) × ((take_iack oc q).0.obuf ≡ oc.obuf)
unfolding take_iack
take_iack_keeps oc [] = (refl, refl)
take_iack_keeps oc (f ∷ q) = (refl, refl)

ack_send-none :
    (cycle : ℕ) (oc : OutputChannel) → (ack_send cycle oc).1 ≡ none → (ack_send cycle oc).0 ≡ oc
unfolding ack_send
ack_send-none cycle oc h = ground arith

ack_send-is_ack :
    (cycle : ℕ) (oc : OutputChannel) {e : FlitEntry}
    → (ack_send cycle oc).1 ≡ some e
    → is_ack e.flit.ftype ≡ true
unfolding ack_send make_ack_flit is_ack
ack_send-is_ack cycle oc h = ground arith

-- An acknowledgement takes from the counters what it carries.
ack_send_count :
    (cycle v : ℕ) (oc : OutputChannel)
    → length oc.ack_count ≡ vch_size
    → (ack_former cycle ≡ true) ⊎ AllFit (latter oc.ack_count)
    → credits v (sent_acks (ack_send cycle oc).1) + get_or (ack_send cycle oc).0.ack_count v 0
      ≡ get_or oc.ack_count v 0
unfolding credits
ack_send_count cycle v oc h fit = elim (Option-cases (ack_send cycle oc).1) [
  | inl e ↦
      rw e (
        omega
          (arith, ap (λ (o : OutputChannel). get_or o.ack_count v 0) (ack_send-none cycle oc e)))
  | inr (x, e) ↦
      rw (e, ack_send-is_ack cycle oc e)
        (ap (λ (k : ℕ). k + get_or (ack_send cycle oc).0.ack_count v 0) (omega arith)
          ∙ sym (get_or-add_counts (decode_ack x.flit) (ack_send cycle oc).0.ack_count v)
          ∙ ap (λ l. get_or l v 0) (ack_send_accounts cycle oc h fit e))
]

send_front_count :
    (cycle v : ℕ) (oc : OutputChannel) (q : List FlitEntry)
    → oc.obuf ≡ q
    → NoAcks q
    → length oc.ack_count ≡ vch_size
    → (ack_former cycle ≡ true) ⊎ AllFit (latter oc.ack_count)
    → (credits v (sent_acks (send_front cycle oc q).1)
          + get_or (send_front cycle oc q).0.ack_count v 0
        ≡ get_or oc.ack_count v 0)
      × NoAcks (send_front cycle oc q).0.obuf
unfolding send_front credits
send_front_count cycle v oc [] eq ok h fit =
    ground (arith, ack_send_count cycle v oc h fit, ack_send_keeps cycle oc)
send_front_count cycle v oc (x ∷ q) eq ok h fit = ground arith

pub acker_cycle :
    (cycle v : ℕ) (oc : OutputChannel)
    → NoAcks oc.obuf
    → length oc.ack_count ≡ vch_size
    → (ack_former cycle ≡ true) ⊎ AllFit (latter oc.ack_count)
    → let (oc', out) = step cycle oc in
      (credits v (sent_acks out) + get_or oc'.ack_count v 0 ≡ get_or oc.ack_count v 0)
      × NoAcks oc'.obuf
unfolding step send_phase iack_phase
acker_cycle cycle v oc ok h fit =
    let front = send_front cycle oc oc.obuf in
    let f = send_front_count cycle v oc oc.obuf refl ok h fit in
    let t = take_iack_keeps front.0 front.0.iackbuf in
    let taken = take_iack front.0 front.0.iackbuf in
    let k = settle_keeps (front.2 || taken.1) taken.0 in (rw (k.3, t.0) f.0, rw (k.2, t.1) f.1)
