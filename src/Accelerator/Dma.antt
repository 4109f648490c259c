-- ===== src/Accelerator/Dma.antt =====
-- The DMA transfer of the network interface of an accelerator, CNIF_DMA_HEAD, CNIF_DMA_DATA and
-- CNIF_DMA_DONE of `nif_step`, accelerator.cc.
use cube_sim.Common.{
  Bool, List, [], ap, append-nil, arith, dec_lt, false, if◌then◌else◌, length, refl, suc, sym, true,
  zero, ℕ, ◌&&◌, ◌*◌, ◌++◌, ◌+◌, ◌-◌, ◌<◌, ◌==◌, ◌∙◌, ◌∷◌, ◌≡◌, ◌≤◌,
}
use cube_sim.Accelerator.Config.{NifConfig, clear_dma_kicked}
use cube_sim.Accelerator.LocalBus.{Core, LocalBus}
use cube_sim.Accelerator.Nif.{
  Nif, State, dma_addr, dma_block_end, dma_data, dma_done, dma_head, dma_one, done, entry, idle,
  is_idle, nif_state, nif_step, read_local, send_dma_done, send_dma_head, send_rounds,
  update_status,
}
use cube_sim.Accelerator.LocalBus
use cube_sim.Accelerator.Outgoing.{block_rest, block_rest-one, blocks, blocks-suc, end_flit, source}
use cube_sim.Accelerator.Reply.{fetch_word-config, read_words}
use cube_sim.Router.Flit.{FlitEntry, make_data_flit}
use cube_sim.Accelerator.Nif.Cycle.{nif_step_in, run}

module _ {C : Type 0} where
  -- What holds of the counters in the states of a transfer; no other state is meant.
  abbrev pub Counts : State → Nif C → Type 0
  Counts dma_data s = (0 < s.dcount) × (s.dcount ≤ s.packet_max) × (0 < s.remain_dma_len)
  Counts dma_head s = (0 < s.packet_max) × (0 < s.remain_dma_len)
  Counts dma_done s = s.bus.config.dma_kicked ≡ false
  Counts _ s = ⊥

  -- The number of the flits that are still to be sent.
  abbrev pub owed : State → Nif C → ℕ
  owed dma_data s = s.dcount + (s.remain_dma_len - 1) * (s.packet_max + 1) + 1
  owed dma_head s = s.remain_dma_len * (s.packet_max + 1) + 1
  owed dma_done s = 1
  owed _ s = 0

-- The flits themselves.
module _ {C : Type 0} (k : Core C) where
  abbrev pub flits : State → Nif C → List FlitEntry
  flits dma_data s =
      let c = s.bus.config in
      block_rest k c s.packet_max s.reg_dst s.reg_src
        (source k c s.packet_max s.reg_dst s.reg_src s.remain_dma_len) (s.remain_dma_len - 1)
        s.dcount s.bus
  flits dma_head s = blocks k s.bus.config s.packet_max s.reg_dst s.reg_src s.remain_dma_len s.bus
  flits dma_done s = end_flit k s.bus.config s.packet_max s.reg_dst s.reg_src ∷ []
  flits _ s = []

  -- `r` is `s`, in the state `st`, after some of the flits that it owes have been sent; the next state
  -- is `st'`.
  record Moved (st : State) (s : Nif C) (st' : State) (r : Nif C × List FlitEntry) : Type 0 where
    next_eq : r.0.next_state ≡ st'
    counts : Counts st' r.0
    owed_eq : length r.1 + owed st' r.0 ≡ owed st s
    flits_eq : r.1 ++ flits st' r.0 ≡ flits st s
    packet_eq : r.0.packet_max ≡ s.packet_max
    bandwidth_eq : r.0.mem_bandwidth ≡ s.mem_bandwidth
    pending_eq : r.0.done_pending ≡ s.done_pending

module _ {C : Type 0} (k : Core C) where
  -- A word of a block is sent.
  after_fetch : Nif C → Nif C
  after_fetch s = record s {
    bus = (LocalBus.fetch_word k (dma_addr s) s.bus).0;
    dcount = s.dcount - 1;
  }

  word_flit : Nif C → FlitEntry
  word_flit s =
      entry (make_data_flit (LocalBus.fetch_word k (dma_addr s) s.bus).1 (s.dcount - 1 == 0))
        s.bus.config.vc_dma

  flit-dma_one : (s : Nif C) → (dma_one k s).1 ≡ word_flit s
  unfolding dma_one read_local word_flit
  flit-dma_one s =
      ap
        (λ (c : NifConfig).
          entry (make_data_flit (LocalBus.fetch_word k (dma_addr s) s.bus).1 (s.dcount - 1 == 0))
            c.vc_dma)
        (fetch_word-config k (dma_addr s) s.bus)

  flits_of_word :
      (s : Nif C)
      → 0 < s.dcount
      → s.dcount ≤ s.packet_max
      → word_flit s ∷ flits k dma_data (after_fetch s) ≡ flits k dma_data s
  unfolding word_flit after_fetch dma_addr
  flits_of_word s h p =
      let c = s.bus.config in
      let b₁ = (LocalBus.fetch_word k (dma_addr s) s.bus).0 in
      ap
        (λ (d : NifConfig).
          word_flit s
          ∷ block_rest k d s.packet_max s.reg_dst s.reg_src
              (source k d s.packet_max s.reg_dst s.reg_src s.remain_dma_len) (s.remain_dma_len - 1)
              (s.dcount - 1) b₁)
        (fetch_word-config k (dma_addr s) s.bus)
      ∙ sym (
          block_rest-one k c s.packet_max s.reg_dst s.reg_src
            (source k c s.packet_max s.reg_dst s.reg_src s.remain_dma_len) (s.remain_dma_len - 1)
            s.dcount s.bus h p)

  -- One word, when others of its block are left; the last of a block; and the last of all.
  module _ (s : Nif C) (e : s.next_state ≡ dma_data) (c : Counts dma_data s) where
    one_part : 1 < s.dcount → (dma_one k s).0 ≡ after_fetch s
    unfolding dma_one read_local after_fetch
    one_part h = ground (arith, e)

    one_block :
        s.dcount ≡ 1
        → 1 < s.remain_dma_len
        → (dma_one k s).0
          ≡ record (after_fetch s) { remain_dma_len = s.remain_dma_len - 1; next_state = dma_head }
    unfolding dma_one read_local dma_block_end after_fetch
    one_block h j = ground (arith, e)

    one_last :
        s.dcount ≡ 1
        → s.remain_dma_len ≡ 1
        → let t = after_fetch s in
          (dma_one k s).0 ≡ record t {
            remain_dma_len = s.remain_dma_len - 1;
            next_state = dma_done;
            bus = record t.bus { config = clear_dma_kicked t.bus.config };
          }
    unfolding dma_one read_local dma_block_end after_fetch
    one_last h j = ground (arith, e)

    flits_end :
        s.dcount ≡ 1
        → word_flit s
            ∷ blocks k
                (after_fetch s).bus.config
                s.packet_max
                s.reg_dst
                s.reg_src
                (s.remain_dma_len - 1)
                (after_fetch s).bus
          ≡ flits k dma_data s
    unfolding after_fetch block_rest blocks read_words
    flits_end h =
        let none_left : s.dcount - 1 ≡ 0 = omega (arith, h) in
        let t = after_fetch s in
        ap
          (λ (n : ℕ).
            word_flit s
            ∷ block_rest k t.bus.config s.packet_max s.reg_dst s.reg_src
                (source k t.bus.config s.packet_max s.reg_dst s.reg_src s.remain_dma_len)
                (s.remain_dma_len - 1) n t.bus)
          (sym none_left)
        ∙ flits_of_word s c.0 c.1

    dma_one_part :
        1 < s.dcount → Moved k dma_data s dma_data ((dma_one k s).0, (dma_one k s).1 ∷ [])
    unfolding after_fetch
    dma_one_part h =
        rw (one_part h, flit-dma_one s)
          (record {
            next_eq = e;
            counts = (omega arith, omega (arith, c.1), c.2);
            owed_eq = omega arith;
            flits_eq = flits_of_word s c.0 c.1;
            packet_eq = refl;
            bandwidth_eq = refl;
            pending_eq = refl;
          })

    dma_one_block :
        s.dcount ≡ 1
        → 1 < s.remain_dma_len
        → Moved k dma_data s dma_head ((dma_one k s).0, (dma_one k s).1 ∷ [])
    unfolding after_fetch
    dma_one_block h j =
        rw (one_block h j, flit-dma_one s)
          (record {
            next_eq = refl;
            counts = (omega (arith, c.0, c.1), omega arith);
            owed_eq = omega (arith, h);
            flits_eq = flits_end h;
            packet_eq = refl;
            bandwidth_eq = refl;
            pending_eq = refl;
          })

    dma_one_last :
        s.dcount ≡ 1
        → s.remain_dma_len ≡ 1
        → Moved k dma_data s dma_done ((dma_one k s).0, (dma_one k s).1 ∷ [])
    unfolding after_fetch clear_dma_kicked blocks
    dma_one_last h j =
        let t = after_fetch s in
        let no_more : s.remain_dma_len - 1 ≡ 0 = omega (arith, j) in
        rw (one_last h j, flit-dma_one s)
          (record {
            next_eq = refl;
            counts = refl;
            owed_eq = ground (arith, h, j);
            flits_eq =
                ap
                  (λ (n : ℕ).
                    word_flit s ∷ blocks k t.bus.config s.packet_max s.reg_dst s.reg_src n t.bus)
                  (sym no_more)
                ∙ flits_end h;
            packet_eq = refl;
            bandwidth_eq = refl;
            pending_eq = refl;
          })

  dcount-dma_one : (s : Nif C) → (dma_one k s).0.dcount ≡ s.dcount - 1
  unfolding dma_one read_local dma_block_end
  dcount-dma_one s = ground arith

  after_one :
      (s : Nif C) (st : State) (e : FlitEntry) (s₁ : Nif C) (r : Nif C × List FlitEntry)
      → Moved k dma_data s dma_data (s₁, e ∷ [])
      → Moved k dma_data s₁ st r
      → Moved k dma_data s st (r.0, e ∷ r.1)
  after_one s st e s₁ r a b = record {
    next_eq = b.next_eq;
    counts = b.counts;
    owed_eq = omega (arith, a.owed_eq, b.owed_eq);
    flits_eq = ap (λ (l : List FlitEntry). e ∷ l) b.flits_eq ∙ a.flits_eq;
    packet_eq = b.packet_eq ∙ a.packet_eq;
    bandwidth_eq = b.bandwidth_eq ∙ a.bandwidth_eq;
    pending_eq = b.pending_eq ∙ a.pending_eq;
  }

  rounds_go_on :
      (n : ℕ) (s : Nif C)
      → 1 < s.dcount
      → send_rounds (dma_one k) (suc n) s ≡ (
        (send_rounds (dma_one k) n (dma_one k s).0).0,
        (dma_one k s).1 ∷ (send_rounds (dma_one k) n (dma_one k s).0).1,
      )
  unfolding send_rounds
  rounds_go_on n s h = ground (arith, dcount-dma_one s)

  rounds_stop :
      (n : ℕ) (s : Nif C)
      → s.dcount ≡ 1
      → send_rounds (dma_one k) (suc n) s ≡ ((dma_one k s).0, (dma_one k s).1 ∷ [])
  unfolding send_rounds
  rounds_stop n s h = ground (arith, dcount-dma_one s)

  dma_rounds :
      (n : ℕ) (s : Nif C)
      → s.next_state ≡ dma_data
      → Counts dma_data s
      → (st : State) × Moved k dma_data s st (send_rounds (dma_one k) n s)
  unfolding send_rounds
  dma_rounds zero s e c = (
    dma_data,
    record {
      next_eq = e;
      counts = c;
      owed_eq = omega arith;
      flits_eq = refl;
      packet_eq = refl;
      bandwidth_eq = refl;
      pending_eq = refl;
    },
  )
  dma_rounds (suc n) s e c = elim (dec_lt 1 s.dcount) [
    | yes part ↦
        let a = dma_one_part s e c part in
        let (st, b) = dma_rounds n (dma_one k s).0 a.next_eq a.counts in
        (st, rw (rounds_go_on n s part) (after_one s st (dma_one k s).1 (dma_one k s).0 _ a b))
    | no last ↦
        let one : s.dcount ≡ 1 = omega (arith, c.0) in
        elim (dec_lt 1 s.remain_dma_len) [
          | yes more ↦ (dma_head, rw (rounds_stop n s one) (dma_one_block s e c one more))
          | no all ↦
              (dma_done, rw (rounds_stop n s one) (dma_one_last s e c one (omega (arith, c.2))))
        ]
  ]

  rounds_send : (n : ℕ) (s : Nif C) → 0 < n → 0 < length (send_rounds (dma_one k) n s).1
  unfolding send_rounds
  rounds_send zero s h = absurd (omega arith)
  rounds_send (suc n) s h = ground arith

-- A state of a transfer is not idle, so the update of the status keeps it.
is_idle-Counts : {C : Type 0} (st : State) (s : Nif C) → Counts st s → is_idle st ≡ false
unfolding is_idle
is_idle-Counts idle s c = elim c [ ]
is_idle-Counts _ s c = refl

Counts-update_status :
    {C : Type 0} (st : State) (t : Nif C) → Counts st t → Counts st (update_status t)
unfolding update_status
Counts-update_status dma_data t c = c
Counts-update_status _ t c = c

owed-update_status : {C : Type 0} (st : State) (t : Nif C) → owed st (update_status t) ≡ owed st t
unfolding update_status
owed-update_status dma_data t = refl
owed-update_status dma_head t = refl
owed-update_status _ t = refl

flits-update_status :
    {C : Type 0} (k : Core C) (st : State) (t : Nif C) → flits k st (update_status t) ≡ flits k st t
unfolding update_status
flits-update_status k dma_data t = refl
flits-update_status k dma_head t = refl
flits-update_status k dma_done t = refl
flits-update_status k _ t = refl

owed_pos : {C : Type 0} (st : State) (s : Nif C) → Counts st s → 0 < owed st s
owed_pos dma_data s c = omega arith
owed_pos dma_head s c = omega arith
owed_pos dma_done s c = omega arith
owed_pos _ s c = absurd c

owed_block : (r p : ℕ) → 0 < r → p + (r - 1) * (p + 1) + 1 + 1 ≡ r * (p + 1) + 1
owed_block zero p h = absurd (omega arith)
owed_block (suc r) p h = grind arith

module _ {C : Type 0} (k : Core C) (ready : ℕ → Bool) (free : (v : ℕ) → ready v ≡ true) where
  -- What a cycle of a transfer leaves.
  record Cycled (st : State) (s : Nif C) (st' : State) (r : Nif C × List FlitEntry) : Type 0 where
    state_eq : r.0.state ≡ st'
    sends : 0 < length r.1
    moved : Moved k st s st' r

  settled :
      (st st' : State) (s : Nif C) (r : Nif C × List FlitEntry)
      → Moved k st s st' r
      → 0 < length r.1
      → Cycled st s st' (update_status r.0, r.1)
  unfolding update_status
  settled st st' s r m h =
      let not_idle : is_idle r.0.next_state ≡ false =
        ap is_idle m.next_eq ∙ is_idle-Counts st' r.0 m.counts in
      let next : (if is_idle r.0.next_state && r.0.done_pending then done else r.0.next_state)
          ≡ st' =
        rw not_idle m.next_eq in
      record {
        state_eq = next;
        sends = h;
        moved = record {
          next_eq = next;
          counts = Counts-update_status st' r.0 m.counts;
          owed_eq = omega (arith, m.owed_eq, owed-update_status st' r.0);
          flits_eq =
              ap (λ (l : List FlitEntry). r.1 ++ l) (flits-update_status k st' r.0) ∙ m.flits_eq;
          packet_eq = m.packet_eq;
          bandwidth_eq = m.bandwidth_eq;
          pending_eq = m.pending_eq;
        };
      }

  cycle_data :
      (s : Nif C)
      → s.state ≡ dma_data
      → s.next_state ≡ dma_data
      → Counts dma_data s
      → 0 < s.mem_bandwidth
      → (st : State) × Cycled dma_data s st (nif_step k ready s)
  unfolding nif_state
  cycle_data s a e c b =
      let (st, m) = dma_rounds k s.mem_bandwidth s e c in
      (
        st,
        rw (nif_step_in k ready s dma_data a refl) (
            settled dma_data st s (send_rounds (dma_one k) s.mem_bandwidth s) m
              (rounds_send k s.mem_bandwidth s b)),
      )

  cycle_head :
      (s : Nif C)
      → s.state ≡ dma_head
      → Counts dma_head s
      → Cycled dma_head s dma_data (nif_step k ready s)
  unfolding nif_state send_dma_head
  cycle_head s a c =
      let r = send_dma_head ready s in
      let m : Moved k dma_head s dma_data r = rw (free s.bus.config.vc_dma) (record {
        next_eq = refl;
        counts = (c.0, omega arith, c.1);
        owed_eq = omega (arith, owed_block s.remain_dma_len s.packet_max c.1);
        flits_eq =
            sym (
              blocks-suc k s.bus.config s.packet_max s.reg_dst s.reg_src s.remain_dma_len s.bus
                c.1);
        packet_eq = refl;
        bandwidth_eq = refl;
        pending_eq = refl;
      }) in
      let sends : 0 < length r.1 = rw (free s.bus.config.vc_dma) (omega arith) in
      rw (nif_step_in k ready s dma_head a refl) (settled dma_head dma_data s r m sends)

  -- The end of a transfer.
  pub record Over (st : State) (s : Nif C) (r : Nif C × List FlitEntry) : Type 0 where
    pub sent : r.1 ≡ flits k st s
    pub follows : r.0.state ≡ (if s.done_pending then done else idle)
    pub unkicked : r.0.bus.config.dma_kicked ≡ false

  cycle_done :
      (s : Nif C) → s.state ≡ dma_done → Counts dma_done s → Over dma_done s (nif_step k ready s)
  unfolding nif_state send_dma_done update_status is_idle
  cycle_done s a c =
      rw (nif_step_in k ready s dma_done a refl, free s.bus.config.vc_dmadone)
        (record { sent = refl; follows = refl; unkicked = c })

  both :
      (st st' : State) (s t : Nif C) (es : List FlitEntry) (r : Nif C × List FlitEntry)
      → Cycled st s st' (t, es)
      → Over st' t r
      → Over st s (r.0, es ++ r.1)
  both st st' s t es r a b = record {
    sent = ap (λ (l : List FlitEntry). es ++ l) b.sent ∙ a.moved.flits_eq;
    follows = b.follows ∙ ap (λ (p : Bool). if p then done else idle) a.moved.pending_eq;
    unkicked = b.unkicked;
  }

  -- If the router takes flits on every channel and the bandwidth is not 0, a DMA transfer in any of its three
  -- states, with counters as they are there, ends after at most as many cycles as it owes flits. It has then sent exactly those that Outgoing.antt lists, in that order: the
  -- words that are left of a block that has begun, for each block that is left a head flit with the address
  -- of the block at the receiver and then the words that are read at consecutive local addresses, of which
  -- the last is a tail, and one notification. The transfer is no longer asked for, and the interface goes on
  -- with the notification of the core that is pending, or to idle.
  pub dma_ends :
      (f : ℕ) (st : State) (s : Nif C)
      → s.state ≡ st
      → s.next_state ≡ st
      → Counts st s
      → 0 < s.mem_bandwidth
      → owed st s ≤ f
      → (n : ℕ) × (n ≤ f) × Over st s (run k ready n s)
  unfolding run
  dma_ends zero st s a e c b h = absurd (omega (arith, owed_pos st s c))
  dma_ends (suc f) dma_data s a e c b h =
      let r = nif_step k ready s in
      let (st, y) = cycle_data s a e c b in
      let (n, le, o) =
        dma_ends f st r.0 y.state_eq y.moved.next_eq y.moved.counts
          (omega (arith, y.moved.bandwidth_eq, b)) (omega (arith, y.moved.owed_eq, y.sends, h)) in
      (suc n, omega arith, both dma_data st s r.0 r.1 (run k ready n r.0) y o)
  dma_ends (suc f) dma_head s a e c b h =
      let r = nif_step k ready s in
      let y = cycle_head s a c in
      let (n, le, o) =
        dma_ends f dma_data r.0 y.state_eq y.moved.next_eq y.moved.counts
          (omega (arith, y.moved.bandwidth_eq, b)) (omega (arith, y.moved.owed_eq, y.sends, h)) in
      (suc n, omega arith, both dma_head dma_data s r.0 r.1 (run k ready n r.0) y o)
  dma_ends (suc f) dma_done s a e c b h = (1, omega arith, rw append-nil (cycle_done s a c))
  dma_ends (suc f) _ s a e c b h = absurd c
