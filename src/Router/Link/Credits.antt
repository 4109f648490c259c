-- ===== src/Router/Link/Credits.antt =====
-- Credit-based flow control between two routers, router.cc: the sender's counters are exactly the
-- flits and acknowledgements under way.
use cube_sim.Common.{
  List, [], ap, arith, false, get_or, get_or-map_in, get_or-replicate, length, sym, true, ℕ, ◌++◌,
  ◌+◌, ◌<◌, ◌∙◌, ◌∷◌, ◌≡◌, ◌≤◌,
}
use cube_sim.Common.Int.{pos, ◌-ℤ◌}
use cube_sim.Router.Flit.{Flit, FlitEntry, is_ack, vch_size}
use cube_sim.Router.OutputChannel.{
  OutputChannel, ack_increment, has_room, oc_ready, push_ack, push_data, reset, step,
}
use cube_sim.Router.OutputChannel.Ready.{
  IsValid, ack_increment-IsValid, push_ack-IsValid, push_data-IsValid, reset-IsValid, step-IsValid,
}
use cube_sim.Router.Link.{
  Link, NoAcks, Reach, Step, answer, deliver, here, next, pass, push, push_back, send, sent_acks,
  sent_flits,
}
use cube_sim.Router.Link.Counters.{
  count_vch, count_vch-append, count_vch-cons, credits, credits-append, credits-cons, credits-nil,
  get_or-bump_ack,
}
use cube_sim.Router.Link.Cycles.{acker_cycle, sender_cycle}

-- All that channel `v` has under way: flits, credits not yet acknowledged, and acknowledgements.
unfoldable pub owed : ℕ → Link → ℕ
owed v l =
    count_vch v l.held
    + get_or l.acker.ack_count v 0
    + credits v l.acks
    + credits v l.sender.iackbuf

pub record IsBalanced (l : Link) : Type 0 where
  pub enabled : l.sender.ack_enabled ≡ true
  pub sender_valid : IsValid l.sender
  pub acker_valid : IsValid l.acker
  pub sender_no_acks : NoAcks l.sender.obuf
  pub acker_no_acks : NoAcks l.acker.obuf
  pub balance : (v : ℕ) → v < vch_size → get_or l.sender.send_count v (pos 0) ≡ pos (owed v l)

NoAcks-append :
    (es : List FlitEntry) (e : FlitEntry)
    → NoAcks es
    → is_ack e.flit.ftype ≡ false
    → NoAcks (es ++ e ∷ [])
NoAcks-append [] e h k = (k, tt)
NoAcks-append (x ∷ es) e h k = (h.0, NoAcks-append es e h.1 k)

owed_pass :
    (v : ℕ) (l : Link) (before : List FlitEntry) (e : FlitEntry) (after : List FlitEntry)
    → l.held ≡ before ++ e ∷ after
    → v < length l.acker.ack_count
    → owed v l ≡ owed v (record l { held = before ++ after; acker = ack_increment e.vch l.acker })
unfolding owed ack_increment
owed_pass v l before e after q h = omega (
  arith,
  ap (count_vch v) q,
  count_vch-append v before (e ∷ after),
  count_vch-cons v e after,
  count_vch-append v before after,
  get_or-bump_ack e.vch v l.acker.ack_count h,
)

owed_answer :
    (v : ℕ) (l : Link) (oc' : OutputChannel) (fs : List Flit)
    → credits v fs + get_or oc'.ack_count v 0 ≡ get_or l.acker.ack_count v 0
    → owed v l ≡ owed v (record l { acker = oc'; acks = l.acks ++ fs })
unfolding owed
owed_answer v l oc' fs h = omega (arith, credits-append v l.acks fs)

owed_deliver :
    (v : ℕ) (l : Link) (f : Flit) (rest : List Flit)
    → l.acks ≡ f ∷ rest
    → owed v l ≡ owed v (record l { sender = push_ack f l.sender; acks = rest })
unfolding owed push_ack
owed_deliver v l f rest q = omega (
  arith,
  ap (credits v) q,
  credits-append v l.sender.iackbuf (f ∷ []),
  credits-cons v f rest,
  credits-cons v f [],
  credits-nil v,
)

-- Every step of the two routers along one direction, in which no count that is acknowledged is cut and
-- kept, keeps the balance: on each channel, the sender's counter is the number of flits that the
-- receiver has not passed on, of credits that it has not acknowledged, and of those in
-- acknowledgements that the sender has not taken.
pub Step-IsBalanced : {l m : Link} → Step l m → IsBalanced l → IsBalanced m
Step-IsBalanced {l} (push e h) b = record {
  enabled = unfold push_data in b.enabled;
  sender_valid = push_data-IsValid e l.sender b.sender_valid;
  acker_valid = b.acker_valid;
  sender_no_acks = unfold push_data in NoAcks-append l.sender.obuf e b.sender_no_acks h;
  acker_no_acks = b.acker_no_acks;
  balance = unfold push_data owed in b.balance;
}
Step-IsBalanced {l} (send cycle) b = record {
  enabled = (after 0 (omega arith)).2;
  sender_valid = step-IsValid cycle l.sender b.sender_valid;
  acker_valid = b.acker_valid;
  sender_no_acks = (after 0 (omega arith)).1;
  acker_no_acks = b.acker_no_acks;
  balance = λ v h.
      (after v h).0
      ∙ ap pos (
          unfold owed in
          omega (arith, count_vch-append v l.held (sent_flits (step cycle l.sender).1)));
}
  where
    after :
        (v : ℕ)
        → v < vch_size
        → let (oc', out) = step cycle l.sender in
          (get_or oc'.send_count v (pos 0)
            ≡ pos (
                count_vch v l.held
                + get_or l.acker.ack_count v 0
                + credits v l.acks
                + count_vch v (sent_flits out)
                + credits v oc'.iackbuf))
          × NoAcks oc'.obuf
          × (oc'.ack_enabled ≡ true)
    after v h =
        sender_cycle cycle v (count_vch v l.held + get_or l.acker.ack_count v 0 + credits v l.acks)
          l.sender b.enabled b.sender_no_acks (omega (arith, b.sender_valid.send_size))
          (unfold owed in b.balance v h)
Step-IsBalanced {l} (pass before e after q h) b = record {
  enabled = b.enabled;
  sender_valid = b.sender_valid;
  acker_valid = ack_increment-IsValid e.vch l.acker b.acker_valid;
  sender_no_acks = b.sender_no_acks;
  acker_no_acks = unfold ack_increment in b.acker_no_acks;
  balance = λ v k.
      b.balance v k
      ∙ ap pos (owed_pass v l before e after q (omega (arith, b.acker_valid.ack_size)));
}
Step-IsBalanced {l} (push_back e h) b = record {
  enabled = b.enabled;
  sender_valid = b.sender_valid;
  acker_valid = push_data-IsValid e l.acker b.acker_valid;
  sender_no_acks = b.sender_no_acks;
  acker_no_acks = unfold push_data in NoAcks-append l.acker.obuf e b.acker_no_acks h;
  balance = unfold push_data owed in b.balance;
}
Step-IsBalanced {l} (answer cycle fit) b = record {
  enabled = b.enabled;
  sender_valid = b.sender_valid;
  acker_valid = step-IsValid cycle l.acker b.acker_valid;
  sender_no_acks = b.sender_no_acks;
  acker_no_acks = (acker_cycle cycle 0 l.acker b.acker_no_acks b.acker_valid.ack_size fit).1;
  balance = λ v k.
      b.balance v k
      ∙ ap pos (
          owed_answer v l (step cycle l.acker).0 (sent_acks (step cycle l.acker).1)
            (acker_cycle cycle v l.acker b.acker_no_acks b.acker_valid.ack_size fit).0);
}
Step-IsBalanced {l} (deliver f rest q) b = record {
  enabled = unfold push_ack in b.enabled;
  sender_valid = push_ack-IsValid f l.sender b.sender_valid;
  acker_valid = b.acker_valid;
  sender_no_acks = unfold push_ack in b.sender_no_acks;
  acker_no_acks = b.acker_no_acks;
  balance = λ v k.
      unfold push_ack in (b.balance v k ∙ ap pos (unfold push_ack in owed_deliver v l f rest q));
}

-- Two channels after `reset`, with nothing on the wires.
unfoldable pub fresh : OutputChannel → OutputChannel → Link
unfolding reset
fresh a b = record { sender = reset a; held = []; acker = reset b; acks = [] }

pub fresh-IsBalanced :
    (a b : OutputChannel)
    → a.ack_enabled ≡ true
    → a.packet_max_size ≤ a.buf_max_size
    → b.packet_max_size ≤ b.buf_max_size
    → IsBalanced (fresh a b)
unfolding fresh
fresh-IsBalanced a b on ha hb = record {
  enabled = on;
  sender_valid = reset-IsValid a ha;
  acker_valid = reset-IsValid b hb;
  sender_no_acks = tt;
  acker_no_acks = tt;
  balance = λ v h.
      get_or-replicate vch_size v (pos 0)
      ∙ ap pos
          (unfold owed count_vch credits in omega (arith, get_or-replicate {A = ℕ} vch_size v 0));
}

pub Reach-IsBalanced : {l m : Link} → IsBalanced l → Reach l m → IsBalanced m
Reach-IsBalanced b here = b
Reach-IsBalanced b (next r s) = Step-IsBalanced s (Reach-IsBalanced b r)

room_of_credit : (b p n : ℕ) → has_room b p (pos n) ≡ true → n + p ≤ b
unfolding has_room ◌-ℤ◌
room_of_credit b p n h = ground arith

ready_bit :
    (v : ℕ) (oc : OutputChannel)
    → oc.ack_enabled ≡ true
    → oc_ready v oc ≡ true
    → get_or oc.ready_stat v false ≡ true
unfolding oc_ready
ready_bit v oc on h = ground arith

-- Two output channels start from a reset, with acknowledgements in use and room for a packet. Whatever
-- the two routers do after that, as long as no count that is acknowledged on an odd cycle is cut and
-- kept: whenever a channel of the sender shows ready, all that it has under way beyond the sender's
-- register, which includes the flits that the receiver may still have to buffer, leaves room in the
-- receiver's buffer for a further packet, if the buffer is of the size that the sender takes it to be.
pub ready-leaves_room :
    (a b : OutputChannel) {l : Link} (v : ℕ)
    → a.ack_enabled ≡ true
    → a.packet_max_size ≤ a.buf_max_size
    → b.packet_max_size ≤ b.buf_max_size
    → Reach (fresh a b) l
    → v < vch_size
    → oc_ready v l.sender ≡ true
    → (count_vch v l.held ≤ owed v l)
      × (owed v l + l.sender.packet_max_size ≤ l.sender.buf_max_size)
ready-leaves_room a b {l} v on ha hb r h rdy =
    let bal = Reach-IsBalanced (fresh-IsBalanced a b on ha hb) r in
    (
      unfold owed in omega arith,
      room_of_credit l.sender.buf_max_size l.sender.packet_max_size (owed v l) (
          rw (← bal.balance v h) (
            sym (
              get_or-map_in (has_room l.sender.buf_max_size l.sender.packet_max_size)
                l.sender.send_count v (pos 0) false (omega (arith, bal.sender_valid.send_size)))
            ∙ ap (λ rs. get_or rs v false) (sym (bal.sender_valid.coherent bal.enabled))
            ∙ ready_bit v l.sender bal.enabled rdy)),
    )
