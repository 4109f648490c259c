-- ===== src/Router/OutputChannel/Ready.antt =====
-- The ready signal of an output channel, router.cc, follows its credit counters.
use cube_sim.Common.{
  Bool, List, [], ap, arith, false, length, length-append, length-drop, length-map, length-take,
  map, refl, suc, true, zero, ℕ, ◌++◌, ◌||◌, ◌∷◌, ◌≡◌, ◌≤◌,
}
use cube_sim.Common.Int.{pos, ℤ, ◌-ℤ◌}
use cube_sim.Router.Flit.{Flit, FlitEntry, decode_ack, vch_size}
use cube_sim.Router.OutputChannel.{
  OutputChannel, ack_increment, ack_send, bump_ack, bump_send, credit_back, former, has_room,
  iack_phase, latter, left_former, left_latter, push_ack, push_data, reset, send_front, send_phase,
  settle, step, take_iack, update_ready,
}

pub record IsValid (oc : OutputChannel) : Type 0 where
  pub ready_size : length oc.ready_stat ≡ vch_size
  pub send_size : length oc.send_count ≡ vch_size
  pub ack_size : length oc.ack_count ≡ vch_size
  pub coherent :
      oc.ack_enabled ≡ true
      → oc.ready_stat ≡ map (has_room oc.buf_max_size oc.packet_max_size) oc.send_count

pub length-bump_send : (v : ℕ) (cs : List ℤ) → length (bump_send v cs) ≡ length cs
unfolding bump_send
length-bump_send v [] = refl
length-bump_send zero (c ∷ cs) = refl
length-bump_send (suc v) (c ∷ cs) = ap suc (length-bump_send v cs)

pub length-bump_ack : (v : ℕ) (cs : List ℕ) → length (bump_ack v cs) ≡ length cs
unfolding bump_ack
length-bump_ack v [] = refl
length-bump_ack zero (c ∷ cs) = refl
length-bump_ack (suc v) (c ∷ cs) = ap suc (length-bump_ack v cs)

length-credit_back : (cs : List ℤ) (acks : List ℕ) → length (credit_back cs acks) ≡ length cs
unfolding credit_back
length-credit_back [] acks = refl
length-credit_back (c ∷ cs) [] = refl
length-credit_back (c ∷ cs) (a ∷ acks) = ap suc (length-credit_back cs acks)

-- A full buffer of credits has room for a packet exactly if the buffer does.
reset_room : (b p : ℕ) → p ≤ b → has_room b p (pos 0) ≡ true
unfolding has_room ◌-ℤ◌
reset_room b p h = ground arith

-- `reset` establishes the invariant when a packet fits the buffer.
pub reset-IsValid : (oc : OutputChannel) → oc.packet_max_size ≤ oc.buf_max_size → IsValid (reset oc)
unfolding reset
reset-IsValid oc h = record {
  ready_size = refl;
  send_size = refl;
  ack_size = refl;
  coherent = λ on. rw (reset_room oc.buf_max_size oc.packet_max_size h);
}

-- What a part of `step` leaves as it was; `changed` is its `counter_change`.
record Framed (oc oc' : OutputChannel) (changed : Bool) : Type 0 where
  ready_same : oc'.ready_stat ≡ oc.ready_stat
  enabled_same : oc'.ack_enabled ≡ oc.ack_enabled
  buf_same : oc'.buf_max_size ≡ oc.buf_max_size
  packet_same : oc'.packet_max_size ≡ oc.packet_max_size
  send_length : length oc'.send_count ≡ length oc.send_count
  ack_length : length oc'.ack_count ≡ length oc.ack_count
  send_same : changed ≡ false → oc.ack_enabled ≡ true → oc'.send_count ≡ oc.send_count

length-former : (cs : List ℕ) (f : ℕ → ℕ) → length (map f (former cs) ++ latter cs) ≡ length cs
length-former cs f = omega (
  arith,
  length-append (map f (former cs)) (latter cs),
  length-map (former cs) f,
  length-take 4 cs,
  length-drop 4 cs,
)

length-latter : (cs : List ℕ) (f : ℕ → ℕ) → length (former cs ++ map f (latter cs)) ≡ length cs
length-latter cs f = omega (
  arith,
  length-append (former cs) (map f (latter cs)),
  length-map (latter cs) f,
  length-take 4 cs,
  length-drop 4 cs,
)

ack_send-Framed : (cycle : ℕ) (oc : OutputChannel) → Framed oc (ack_send cycle oc).0 false
unfolding ack_send
ack_send-Framed cycle oc =
    ground (arith, length-former oc.ack_count left_former, length-latter oc.ack_count left_latter)

send_front-Framed :
    (cycle : ℕ) (oc : OutputChannel) (q : List FlitEntry)
    → Framed oc (send_front cycle oc q).0 (send_front cycle oc q).2
unfolding send_front
send_front-Framed cycle oc [] = ground (arith, ack_send-Framed cycle oc)
send_front-Framed cycle oc (e ∷ q) = ground (arith, length-bump_send e.vch oc.send_count)

take_iack-Framed :
    (oc : OutputChannel) (q : List Flit) → Framed oc (take_iack oc q).0 (take_iack oc q).1
unfolding take_iack
take_iack-Framed oc [] = ground arith
take_iack-Framed oc (f ∷ q) = ground (arith, length-credit_back oc.send_count (decode_ack f))

settle-IsValid :
    (oc oc₁ oc₂ : OutputChannel) (sent acked : Bool)
    → Framed oc oc₁ sent
    → Framed oc₁ oc₂ acked
    → IsValid oc
    → IsValid (settle (sent || acked) oc₂)
unfolding settle update_ready
settle-IsValid oc oc₁ oc₂ sent acked f g v =
    ground (arith, length-map oc₂.send_count (has_room oc₂.buf_max_size oc₂.packet_max_size))

-- One cycle of the channel keeps the invariant: whenever acknowledgements are in use, the ready
-- signal of every channel says whether a packet fits what the credits leave.
pub step-IsValid : (cycle : ℕ) (oc : OutputChannel) → IsValid oc → IsValid (step cycle oc).0
unfolding step send_phase iack_phase
step-IsValid cycle oc v =
    let front = send_front cycle oc oc.obuf in
    settle-IsValid oc front.0 (take_iack front.0 front.0.iackbuf).0 front.2
      (take_iack front.0 front.0.iackbuf).1 (send_front-Framed cycle oc oc.obuf)
      (take_iack-Framed front.0 front.0.iackbuf) v

pub push_data-IsValid : (e : FlitEntry) (oc : OutputChannel) → IsValid oc → IsValid (push_data e oc)
unfolding push_data
push_data-IsValid e oc v = ground arith

pub push_ack-IsValid : (f : Flit) (oc : OutputChannel) → IsValid oc → IsValid (push_ack f oc)
unfolding push_ack
push_ack-IsValid f oc v = ground arith

pub ack_increment-IsValid :
    (vch : ℕ) (oc : OutputChannel) → IsValid oc → IsValid (ack_increment vch oc)
unfolding ack_increment
ack_increment-IsValid vch oc v = ground (arith, length-bump_ack vch oc.ack_count)
