-- ===== src/Accelerator/Burst.antt =====
-- What the network interface of an accelerator does with a packet that writes a block, CNIF_BW_DATA of
-- `nif_step`, accelerator.cc.
use cube_sim.Accelerator.LocalBus
use cube_sim.Common.{
  Bool, List, [], ap, arith, dec_lt, drop, drop-drop, drop-map, if◌then◌else◌, length, length-drop,
  length-map, ltb, map, refl, suc, sym, take, zero, ℕ, ◌&&◌, ◌*◌, ◌+◌, ◌-◌, ◌<◌, ◌∙◌, ◌∷◌, ◌≡◌, ◌≤◌,
}
use cube_sim.Common.Bits.{add32}
use cube_sim.Accelerator.LocalBus.{Core, LocalBus}
use cube_sim.Accelerator.Nif.{
  Nif, State, after_write, bw_data, dma_head, done, idle, is_idle, nif_state, nif_step,
  update_status, write_addr, write_local, write_one, write_rounds,
}
use cube_sim.Router.Flit.{FlitEntry}
use cube_sim.Accelerator.Config.{is_dma_kicked}
use cube_sim.Accelerator.Nif.Cycle.{nif_step_in, run}

abbrev pub payloads : List FlitEntry → List ℕ
payloads es = map (λ (e : FlitEntry). e.flit.payload) es

module _ {C : Type 0} (k : Core C) where
  -- `ws` is written word by word from place `i` of the block at `base` on.
  unfoldable pub store_words : ℕ → ℕ → List ℕ → LocalBus C → LocalBus C
  store_words base i [] b = b
  store_words base i (w ∷ ws) b =
      store_words base (i + 1) ws (LocalBus.store_word k (add32 base (i * 4)) w b)

  store_words_split :
      (base i n m : ℕ) (ws : List ℕ) (b : LocalBus C)
      → n ≤ length ws
      → store_words base i (take (n + m) ws) b
        ≡ store_words base (i + n) (take m (drop n ws)) (store_words base i (take n ws) b)
  unfolding store_words
  store_words_split base i zero m ws b h =
      ap (λ (l : List ℕ). store_words base i l b) (ap (λ (j : ℕ). take j ws) (omega arith))
      ∙ ap (λ (j : ℕ). store_words base j (take m ws) b) (omega arith)
  store_words_split base i (suc n) m [] b h = absurd (omega arith)
  store_words_split base i (suc n) m (w ∷ ws) b h =
      let b₁ = LocalBus.store_word k (add32 base (i * 4)) w b in
      ap (λ (j : ℕ). store_words base i (take j (w ∷ ws)) b) count
      ∙ store_words_split base (i + 1) n m ws b₁ (omega arith)
      ∙ ap
          (λ (j : ℕ).
            store_words base j (take m (drop n ws)) (store_words base (i + 1) (take n ws) b₁))
          place
    where
      count : suc n + m ≡ suc (n + m)
      count = omega arith

      place : i + 1 + n ≡ i + suc n
      place = omega arith

  -- `m` flits that are there are written.
  write_many : ℕ → List FlitEntry → Nif C → Nif C
  write_many zero rx s = s
  write_many (suc m) [] s = s
  write_many (suc m) (e ∷ rx) s = write_many m rx (write_one k e rx s)

  -- The loop, when the block goes on after it, and when it ends in it.
  write_rounds_part :
      (n : ℕ) (rx : List FlitEntry) (s : Nif C)
      → n < s.dcount
      → write_rounds k n rx s ≡ write_many n rx s
  unfolding write_rounds write_many write_one write_local
  write_rounds_part zero rx s h = refl
  write_rounds_part (suc n) [] s h = refl
  write_rounds_part (suc n) (e ∷ rx) s h =
      let rest = write_rounds_part n rx (write_one k e rx s) (ground arith) in ground (arith, rest)

  write_rounds_all :
      (n d : ℕ) (rx : List FlitEntry) (s : Nif C)
      → s.dcount ≡ suc d
      → d < n
      → d < length rx
      → write_rounds k n rx s ≡ after_write (write_many (suc d) rx s)
  unfolding write_rounds write_many write_one write_local
  write_rounds_all zero d rx s e h j = absurd (omega arith)
  write_rounds_all (suc n) d [] s e h j = absurd (omega arith)
  write_rounds_all (suc n) zero (f ∷ rx) s e h j = ground arith
  write_rounds_all (suc n) (suc d) (f ∷ rx) s e h j =
      let rest =
        write_rounds_all n d rx (write_one k f rx s) (ground arith) (omega arith) (omega arith) in
      ground (arith, rest)

  -- `t` is `s` after `m` more of the flits `rx` have been written.
  record Wrote (m : ℕ) (rx : List FlitEntry) (s t : Nif C) : Type 0 where
    bus_eq : t.bus ≡ store_words s.reg_mema (s.packet_max - s.dcount) (take m (payloads rx)) s.bus
    rx_eq : t.rx ≡ drop m rx
    dcount_eq : t.dcount + m ≡ s.dcount
    mema_eq : t.reg_mema ≡ s.reg_mema
    packet_eq : t.packet_max ≡ s.packet_max
    state_eq : t.state ≡ s.state
    next_eq : t.next_state ≡ s.next_state
    bandwidth_eq : t.mem_bandwidth ≡ s.mem_bandwidth
    pending_eq : t.done_pending ≡ s.done_pending

  Wrote-write_many :
      (m : ℕ) (rx : List FlitEntry) (s : Nif C)
      → s.rx ≡ rx
      → m ≤ length rx
      → m ≤ s.dcount
      → s.dcount ≤ s.packet_max
      → Wrote m rx s (write_many m rx s)
  unfolding write_many write_one write_local store_words write_addr
  Wrote-write_many zero rx s e h j p = ground arith
  Wrote-write_many (suc m) [] s e h j p = absurd (omega arith)
  Wrote-write_many (suc m) (f ∷ rx) s e h j p =
      let w =
        Wrote-write_many m rx (write_one k f rx s) refl (omega arith) (omega arith) (omega arith) in
      let next : s.packet_max - s.dcount + 1 ≡ s.packet_max - (s.dcount - 1) = omega arith in
      record {
        bus_eq = rw next w.bus_eq;
        rx_eq = w.rx_eq;
        dcount_eq = omega (arith, w.dcount_eq);
        mema_eq = w.mema_eq;
        packet_eq = w.packet_eq;
        state_eq = w.state_eq;
        next_eq = w.next_eq;
        bandwidth_eq = w.bandwidth_eq;
        pending_eq = w.pending_eq;
      }

-- What the interface does once a packet is written, `bus` being the bus after it.
abbrev pub follow_up : {C : Type 0} → LocalBus C → Bool → State
follow_up b pending =
    if is_dma_kicked b.config && ltb 0 b.config.dma_len
    then dma_head
    else (if pending then done else idle)

module _ {C : Type 0} (k : Core C) (ready : ℕ → Bool) where
  -- The interface has a block of `s.dcount` words to write, and their flits are there.
  pub record InBurst (s : Nif C) : Type 0 where
    pub writing : s.state ≡ bw_data
    pub going_on : s.next_state ≡ bw_data
    pub left : 0 < s.dcount
    pub within : s.dcount ≤ s.packet_max
    pub arrived : s.dcount ≤ length s.rx
    pub moves : 0 < s.mem_bandwidth

  settled :
      (n : ℕ) (t s : Nif C)
      → Wrote k n s.rx s t
      → t.next_state ≡ bw_data
      → InBurst s
      → Wrote k n s.rx s (update_status t)
  unfolding update_status is_idle
  settled n t s w e b = record {
    bus_eq = w.bus_eq;
    rx_eq = w.rx_eq;
    dcount_eq = w.dcount_eq;
    mema_eq = w.mema_eq;
    packet_eq = w.packet_eq;
    state_eq = rw (e, b.writing) refl;
    next_eq = rw (e, b.going_on) refl;
    bandwidth_eq = w.bandwidth_eq;
    pending_eq = w.pending_eq;
  }

  step_part :
      (s : Nif C)
      → InBurst s
      → s.mem_bandwidth < s.dcount
      → Wrote k s.mem_bandwidth s.rx s (nif_step k ready s).0
  unfolding nif_state update_status
  step_part s b h =
      let n = s.mem_bandwidth in
      let e = write_rounds_part k n s.rx s h in
      let arrived : n ≤ length s.rx = omega (arith, b.arrived) in
      let w = Wrote-write_many k n s.rx s refl arrived (omega arith) b.within in
      let going : (write_many k n s.rx s).next_state ≡ bw_data = w.next_eq ∙ b.going_on in
      rw (nif_step_in k ready s bw_data b.writing refl, e)
        (settled n (write_many k n s.rx s) s w going b)

  -- `t` has written the whole block of `s` and goes on with what follows.
  pub record Finished (s t : Nif C) : Type 0 where
    pub stored :
        t.bus
        ≡ store_words k s.reg_mema (s.packet_max - s.dcount) (take s.dcount (payloads s.rx)) s.bus
    pub taken : t.rx ≡ drop s.dcount s.rx
    pub follows : t.state ≡ follow_up t.bus s.done_pending

  ended : (t : Nif C) → (update_status (after_write t)).state ≡ follow_up t.bus t.done_pending
  unfolding update_status after_write is_idle
  ended t = ground arith

  ended_bus : (t : Nif C) → (update_status (after_write t)).bus ≡ t.bus
  unfolding update_status after_write
  ended_bus t = ground arith

  ended_rx : (t : Nif C) → (update_status (after_write t)).rx ≡ t.rx
  unfolding update_status after_write
  ended_rx t = ground arith

  step_all :
      (s : Nif C) → InBurst s → s.dcount ≤ s.mem_bandwidth → Finished s (nif_step k ready s).0
  unfolding nif_state
  step_all s b h =
      let n = s.mem_bandwidth in
      let t = write_many k s.dcount s.rx s in
      let d = s.dcount - 1 in
      let exact : s.dcount ≡ suc d = omega (arith, b.left) in
      let e : write_rounds k n s.rx s ≡ after_write t =
        write_rounds_all k n d s.rx s exact (omega arith) (omega (arith, b.arrived))
        ∙ ap (λ (m : ℕ). after_write (write_many k m s.rx s)) (sym exact) in
      let w = Wrote-write_many k s.dcount s.rx s refl b.arrived (omega arith) b.within in
      rw (nif_step_in k ready s bw_data b.writing refl, e)
        (record {
          stored = ended_bus t ∙ w.bus_eq;
          taken = ended_rx t ∙ w.rx_eq;
          follows =
              ended t
              ∙ ap (λ (p : Bool). follow_up t.bus p) w.pending_eq
              ∙ ap (λ (x : LocalBus C). follow_up x s.done_pending) (sym (ended_bus t));
        })

  after_part :
      (s t : Nif C)
      → InBurst s
      → s.mem_bandwidth < s.dcount
      → Wrote k s.mem_bandwidth s.rx s t
      → InBurst t
  after_part s t b h w = record {
    writing = w.state_eq ∙ b.writing;
    going_on = w.next_eq ∙ b.going_on;
    left = omega (arith, w.dcount_eq);
    within = omega (arith, w.dcount_eq, w.packet_eq, b.within);
    arrived =
        omega (arith, ap length w.rx_eq, length-drop s.mem_bandwidth s.rx, w.dcount_eq, b.arrived);
    moves = omega (arith, w.bandwidth_eq, b.moves);
  }

  both :
      (s t u : Nif C)
      → InBurst s
      → s.mem_bandwidth < s.dcount
      → Wrote k s.mem_bandwidth s.rx s t
      → Finished t u
      → Finished s u
  both s t u b h w f =
      let n = s.mem_bandwidth in
      let ws = payloads s.rx in
      let count : n + t.dcount ≡ s.dcount = omega (arith, w.dcount_eq) in
      let place : s.packet_max - s.dcount + n ≡ t.packet_max - t.dcount =
        omega (arith, w.dcount_eq, w.packet_eq, b.within) in
      let there : n ≤ length ws =
        omega (arith, b.arrived, length-map s.rx (λ (e : FlitEntry). e.flit.payload)) in
      let words : payloads t.rx ≡ drop n ws =
        ap payloads w.rx_eq ∙ sym (drop-map (λ (e : FlitEntry). e.flit.payload) n s.rx) in
      let split =
        store_words_split k s.reg_mema (s.packet_max - s.dcount) n t.dcount ws s.bus there in
      record {
        stored =
            f.stored
            ∙ rw (words, w.mema_eq, w.bus_eq, ← place) (sym split)
            ∙ ap (λ (j : ℕ). store_words k s.reg_mema (s.packet_max - s.dcount) (take j ws) s.bus)
                count;
        taken =
            f.taken
            ∙ ap (drop t.dcount) w.rx_eq
            ∙ drop-drop t.dcount n s.rx
            ∙ ap (λ (j : ℕ). drop j s.rx) count;
        follows = f.follows ∙ ap (λ (p : Bool). follow_up u.bus p) w.pending_eq;
      }

  -- Once all flits of a block are there, the loop of CNIF_BW_DATA ends after at most as many cycles as
  -- words are left, whatever the bandwidth is. The words are then in the local bus at consecutive
  -- addresses from that of the head flit on, in the order of the flits, nothing else is taken from the
  -- port, and the interface goes on with the DMA transfer that was asked for, with the notification
  -- that is pending, or to idle.
  pub write_burst_ends :
      (d : ℕ) (s : Nif C)
      → InBurst s
      → s.dcount ≤ d
      → (n : ℕ) × (n ≤ d) × Finished s (run k ready n s).0
  unfolding run
  write_burst_ends zero s b h = absurd (omega (arith, b.left))
  write_burst_ends (suc d) s b h = elim (dec_lt s.mem_bandwidth s.dcount) [
    | yes part ↦
        let w = step_part s b part in
        let (n, le, f) =
          write_burst_ends d (nif_step k ready s).0 (after_part s _ b part w)
            (omega (arith, w.dcount_eq, b.moves)) in
        (suc n, omega arith, both s _ _ b part w f)
    | no all ↦ (1, omega arith, step_all s b (omega arith))
  ]
