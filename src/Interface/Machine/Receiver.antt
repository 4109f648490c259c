-- ===== src/Interface/Machine/Receiver.antt =====
-- How `RouterInterface::step`, routerinterface.cc, gathers the block that it has asked for,
-- RT_STATE_BR_WAIT.
use cube_sim.Router.Flit.{
  Flit, FlitEntry, Ftype, ack1, ack2, body, head, headtail, idle, make_data_flit, reserved, tail,
}
use cube_sim.Common.{
  ==_iff, Bool, Bool-cases, List, [], ap, append-nil, append_assoc, arith, drop, if◌then◌else◌, inl,
  inr, length, length-append, refl, sym, take, take-append-drop, ℕ, ◌++◌, ◌+◌, ◌-◌, ◌<◌, ◌==◌, ◌∙◌,
  ◌∷◌, ◌≡◌, ◌≤◌,
}
use cube_sim.Interface.Machine.{
  Interface, br_wait, data_rdy, handle_flit, run_state, take_flit, update_status,
}
use cube_sim.Interface.Machine.Sender.{update_status_in}
use cube_sim.Accelerator.Reply.{data_flits}

-- What a flit adds to the queue of received words.
abbrev pub word_of : Flit → Ftype → List ℕ
word_of f body = f.payload ∷ []
word_of f tail = f.payload ∷ []
word_of f _ = []

abbrev pub words_of : List FlitEntry → List ℕ
words_of [] = []
words_of (e ∷ es) = word_of e.flit e.flit.ftype ++ words_of es

words_of-append : (es fs : List FlitEntry) → words_of (es ++ fs) ≡ words_of es ++ words_of fs
words_of-append [] fs = refl
words_of-append (e ∷ es) fs =
    ap (λ (l : List ℕ). word_of e.flit e.flit.ftype ++ l) (words_of-append es fs)
    ∙ sym (append_assoc (word_of e.flit e.flit.ftype) (words_of es) (words_of fs))

pub words_of-data_flits : (v left : ℕ) (ws : List ℕ) → words_of (data_flits v left ws) ≡ ws
unfolding make_data_flit
words_of-data_flits v left [] = refl
words_of-data_flits v left (w ∷ ws) = elim (Bool-cases (left - 1 == 0)) [
  | inl e ↦ rw e (ap (λ (l : List ℕ). w ∷ l) (words_of-data_flits v (left - 1) ws))
  | inr e ↦ rw e (ap (λ (l : List ℕ). w ∷ l) (words_of-data_flits v (left - 1) ws))
]

-- All flits of `es` are taken, one after the other.
unfoldable pub take_all : List FlitEntry → Interface → Interface
take_all [] i = i
take_all (e ∷ es) i = take_all es (take_flit (e ∷ es) i)

-- `j` is `i` after the words `ws` have come.
pub record Took (ws : List ℕ) (i j : Interface) : Type 0 where
  pub recv_eq : j.recv_fifo ≡ i.recv_fifo ++ ws
  pub next_eq : j.next_state ≡ i.next_state
  pub size_eq : j.packet_size ≡ i.packet_size

unchanged : (i : Interface) → Took [] i i
unchanged i = record { recv_eq = sym (append-nil i.recv_fifo); next_eq = refl; size_eq = refl }

Took-handle_flit : (f : Flit) (t : Ftype) (i : Interface) → Took (word_of f t) i (handle_flit f t i)
unfolding handle_flit
Took-handle_flit f idle i = unchanged i
Took-handle_flit f head i = unchanged i
Took-handle_flit f tail i = record { recv_eq = refl; next_eq = refl; size_eq = refl }
Took-handle_flit f headtail i = record {
  recv_eq = sym (append-nil i.recv_fifo);
  next_eq = refl;
  size_eq = refl;
}
Took-handle_flit f body i = record { recv_eq = refl; next_eq = refl; size_eq = refl }
Took-handle_flit f reserved i = unchanged i
Took-handle_flit f ack1 i = unchanged i
Took-handle_flit f ack2 i = unchanged i

Took-take_all : (es : List FlitEntry) (i : Interface) → Took (words_of es) i (take_all es i)
unfolding take_all take_flit
Took-take_all [] i = unchanged i
Took-take_all (e ∷ es) i =
    let first = Took-handle_flit e.flit e.flit.ftype (record i { rx = es }) in
    let rest = Took-take_all es (take_flit (e ∷ es) i) in
    record {
      recv_eq =
          rest.recv_eq
          ∙ ap (λ (l : List ℕ). l ++ words_of es) first.recv_eq
          ∙ append_assoc i.recv_fifo (word_of e.flit e.flit.ftype) (words_of es);
      next_eq = rest.next_eq ∙ first.next_eq;
      size_eq = rest.size_eq ∙ first.size_eq;
    }

module _ (ready : ℕ → Bool) where
  -- A cycle in which the flits `es` have come.
  unfoldable pub poll : List FlitEntry → Interface → Interface
  poll es i = (update_status ready (take_all es i)).0

  -- Cycles in which as many of the flits come as the list says, and one in which the others come.
  unfoldable pub polls : List ℕ → List FlitEntry → Interface → Interface
  polls [] es i = poll es i
  polls (n ∷ ns) es i = polls ns (drop n es) (poll (take n es) i)

  -- The interface waits for the rest of a block, or has the whole of it.
  pub record Waits (i : Interface) : Type 0 where
    pub size : 0 < i.packet_size
    pub next_eq : i.next_state ≡ (if length i.recv_fifo == i.packet_size then data_rdy else br_wait)

  waiting :
      (j : Interface)
      → j.next_state ≡ br_wait
      → (update_status ready j).0 ≡ record j {
        state = br_wait;
        next_state = if length j.recv_fifo == j.packet_size then data_rdy else br_wait;
      }
  unfolding run_state
  waiting j e =
      ap (λ (p : Interface × List FlitEntry). p.0) (update_status_in ready j br_wait e)
      ∙ ground arith

  arrived :
      (j : Interface)
      → j.next_state ≡ data_rdy
      → 0 < length j.recv_fifo
      → (update_status ready j).0 ≡ record j { state = data_rdy; next_state = data_rdy }
  unfolding run_state
  arrived j e h =
      ap (λ (p : Interface × List FlitEntry). p.0) (update_status_in ready j data_rdy e)
      ∙ ground arith

  -- What a cycle leaves, when no more flits come than the block has.
  pub record Polled (ws : List ℕ) (i j : Interface) : Type 0 where
    pub waits : Waits j
    pub recv_eq : j.recv_fifo ≡ i.recv_fifo ++ ws
    pub size_eq : j.packet_size ≡ i.packet_size

  Polled-poll :
      (es : List FlitEntry) (i : Interface)
      → Waits i
      → length i.recv_fifo + length (words_of es) ≤ i.packet_size
      → Polled (words_of es) i (poll es i)
  unfolding poll
  Polled-poll es i w h =
      let j = take_all es i in
      let t = Took-take_all es i in
      let count : length j.recv_fifo ≡ length i.recv_fifo + length (words_of es) =
        ap length t.recv_eq ∙ length-append i.recv_fifo (words_of es) in
      elim (Bool-cases (length i.recv_fifo == i.packet_size)) [
        | inl full ↦
            let whole : length i.recv_fifo ≡ i.packet_size = (==_iff _ _).0 full in
            let there : length j.recv_fifo ≡ j.packet_size =
              omega (arith, t.size_eq, count, whole, h) in
            let next : j.next_state ≡ data_rdy = t.next_eq ∙ w.next_eq ∙ rw full refl in
            rw (arrived j next (omega (arith, count, whole, w.size))) (record {
              waits = record {
                size = omega (arith, t.size_eq, w.size);
                next_eq = rw ((==_iff _ _).1 there) refl;
              };
              recv_eq = t.recv_eq;
              size_eq = t.size_eq;
            })
        | inr less ↦
            let next : j.next_state ≡ br_wait = t.next_eq ∙ w.next_eq ∙ rw less refl in
            rw (waiting j next) (record {
              waits = record { size = omega (arith, t.size_eq, w.size); next_eq = refl };
              recv_eq = t.recv_eq;
              size_eq = t.size_eq;
            })
      ]

  -- However the flits of a block are spread over the cycles in which they come, the interface has the
  -- words of the block in the end, in their order.
  pub Polled-polls :
      (ns : List ℕ) (es : List FlitEntry) (i : Interface)
      → Waits i
      → length i.recv_fifo + length (words_of es) ≤ i.packet_size
      → Polled (words_of es) i (polls ns es i)
  unfolding polls
  Polled-polls [] es i w h = Polled-poll es i w h
  Polled-polls (n ∷ ns) es i w h =
      let split : words_of es ≡ words_of (take n es) ++ words_of (drop n es) =
        ap words_of (sym (take-append-drop n es)) ∙ words_of-append (take n es) (drop n es) in
      let count : length (words_of es)
          ≡ length (words_of (take n es)) + length (words_of (drop n es)) =
        ap length split ∙ length-append (words_of (take n es)) (words_of (drop n es)) in
      let a = Polled-poll (take n es) i w (omega (arith, count, h)) in
      let got : length (poll (take n es) i).recv_fifo
          ≡ length i.recv_fifo + length (words_of (take n es)) =
        ap length a.recv_eq ∙ length-append i.recv_fifo (words_of (take n es)) in
      let b =
        Polled-polls ns (drop n es) (poll (take n es) i) a.waits
          (omega (arith, count, h, got, a.size_eq)) in
      record {
        waits = b.waits;
        recv_eq =
            b.recv_eq
            ∙ ap (λ (l : List ℕ). l ++ words_of (drop n es)) a.recv_eq
            ∙ append_assoc i.recv_fifo (words_of (take n es)) (words_of (drop n es))
            ∙ ap (λ (l : List ℕ). i.recv_fifo ++ l) (sym split);
        size_eq = b.size_eq ∙ a.size_eq;
      }
