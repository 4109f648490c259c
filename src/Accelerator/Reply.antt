-- ===== src/Accelerator/Reply.antt =====
-- What the network interface of an accelerator answers to a packet that reads a block, CNIF_BR_DATA of
-- `nif_step`, accelerator.cc.
use cube_sim.Accelerator.LocalBus
use cube_sim.Common.{
  Bool, List, Option, [], ap, append-nil, arith, dec_lt, if◌then◌else◌, length, none, refl, some,
  suc, sym, zero, ℕ, ◌*◌, ◌++◌, ◌+◌, ◌-◌, ◌<◌, ◌==◌, ◌∙◌, ◌∷◌, ◌≡◌, ◌≤◌,
}
use cube_sim.Common.Bits.{add32, sub32}
use cube_sim.Accelerator.LocalBus.{
  Core, LocalBus, Placed, Target, core_range, fetch_placed, fetch_target, find_mapping_range,
  nif_config, note_found, placed_at, search_for, spans,
}
use cube_sim.Accelerator.Nif.{
  Nif, br_data, done, entry, idle, is_idle, nif_state, nif_step, read_local, reply_addr, reply_one,
  send_rounds, update_status,
}
use cube_sim.Router.Flit.{FlitEntry, make_data_flit}
use cube_sim.Accelerator.Config.{NifConfig}
use cube_sim.Memory.Mapper.{find_from, try_last}
use cube_sim.Accelerator.Nif.Cycle.{nif_step_in, run}

-- The data flits of a block of which `left` words are left: the last of them is a tail.
abbrev pub data_flits : ℕ → ℕ → List ℕ → List FlitEntry
data_flits v left [] = []
data_flits v left (w ∷ ws) = entry (make_data_flit w (left - 1 == 0)) v ∷ data_flits v (left - 1) ws

pub data_flits-append :
    (v left : ℕ) (ws vs : List ℕ)
    → data_flits v left (ws ++ vs) ≡ data_flits v left ws ++ data_flits v (left - length ws) vs
data_flits-append v left [] vs = ap (λ (n : ℕ). data_flits v n vs) (omega arith)
data_flits-append v left (w ∷ ws) vs =
    ap (λ (l : List FlitEntry). entry (make_data_flit w (left - 1 == 0)) v ∷ l)
      (data_flits-append v (left - 1) ws vs
        ∙ ap (λ (n : ℕ). data_flits v (left - 1) ws ++ data_flits v n vs) less)
  where
    less : left - 1 - length ws ≡ left - suc (length ws)
    less = omega arith

module _ {C : Type 0} (k : Core C) where
  -- `n` words are read from place `i` of the block at `base` on.
  unfoldable pub read_words : ℕ → ℕ → ℕ → LocalBus C → LocalBus C × List ℕ
  read_words base i zero b = (b, [])
  read_words base i (suc n) b =
      let (b₁, w) = LocalBus.fetch_word k (add32 base (i * 4)) b in
      let (b₂, ws) = read_words base (i + 1) n b₁ in (b₂, w ∷ ws)

  read_words_split :
      (base i n m : ℕ) (b : LocalBus C)
      → read_words base i (n + m) b ≡ (
        (read_words base (i + n) m (read_words base i n b).0).0,
        (read_words base i n b).1 ++ (read_words base (i + n) m (read_words base i n b).0).1,
      )
  unfolding read_words
  read_words_split base i zero m b =
      let count : 0 + m ≡ m = omega arith in
      let place : i ≡ i + 0 = omega arith in
      ap (λ (j : ℕ). read_words base i j b) count ∙ ap (λ (j : ℕ). read_words base j m b) place
  read_words_split base i (suc n) m b =
      let (b₁, w) = LocalBus.fetch_word k (add32 base (i * 4)) b in
      let r = read_words base (i + 1) n b₁ in
      let count : suc n + m ≡ suc (n + m) = omega arith in
      let place : i + 1 + n ≡ i + suc n = omega arith in
      ap (λ (j : ℕ). read_words base i j b) count
      ∙ ap (λ (p : LocalBus C × List ℕ). (p.0, w ∷ p.1)) (read_words_split base (i + 1) n m b₁)
      ∙ ap (λ (j : ℕ). ((read_words base j m r.0).0, (w ∷ r.1) ++ (read_words base j m r.0).1))
          place

  pub length-read_words : (base i n : ℕ) (b : LocalBus C) → length (read_words base i n b).1 ≡ n
  unfolding read_words
  length-read_words base i zero b = refl
  length-read_words base i (suc n) b =
      ap suc (length-read_words base (i + 1) n (LocalBus.fetch_word k (add32 base (i * 4)) b).0)

  note_found-config : (o : Option ℕ) (b : LocalBus C) → (note_found o b).config ≡ b.config
  unfolding note_found
  note_found-config none b = refl
  note_found-config (some i) b = refl

  search_for-config :
      (o : Option ℕ) (laddr : ℕ) (b : LocalBus C) → (search_for o laddr b).0.config ≡ b.config
  unfolding search_for
  search_for-config none laddr b = note_found-config (find_from laddr 0 (spans b.ranges)) b
  search_for-config (some i) laddr b = refl

  fetch_placed-config :
      (o : Option Placed) (laddr : ℕ) (b : LocalBus C)
      → (fetch_placed k o laddr b).0.config ≡ b.config
  unfolding fetch_placed fetch_target
  fetch_placed-config none laddr b = refl
  fetch_placed-config (some p) laddr b = by_target p.target
    where
      by_target : (t : Target) → (fetch_target k t (sub32 laddr p.range.base) b).0.config ≡ b.config
      by_target nif_config = refl
      by_target (core_range n) = refl

  -- A read leaves the registers of the network interface alone.
  pub fetch_word-config :
      (laddr : ℕ) (b : LocalBus C) → (LocalBus.fetch_word k laddr b).0.config ≡ b.config
  unfolding LocalBus.fetch_word find_mapping_range
  fetch_word-config laddr b =
      let o = try_last b.last_used (spans b.ranges) laddr in
      let r = search_for o laddr b in
      fetch_placed-config (placed_at r.1 r.0.ranges) laddr r.0 ∙ search_for-config o laddr b

  send_many : ℕ → Nif C → Nif C × List FlitEntry
  send_many zero s = (s, [])
  send_many (suc m) s = let (s₁, e) = reply_one k s in let (s₂, es) = send_many m s₁ in (s₂, e ∷ es)

  reply_rounds_part :
      (n : ℕ) (s : Nif C) → n < s.dcount → send_rounds (reply_one k) n s ≡ send_many n s
  unfolding send_rounds send_many reply_one read_local
  reply_rounds_part zero s h = refl
  reply_rounds_part (suc n) s h =
      let rest = reply_rounds_part n (reply_one k s).0 (ground arith) in ground (arith, rest)

  reply_rounds_all :
      (n d : ℕ) (s : Nif C)
      → s.dcount ≡ suc d
      → d < n
      → send_rounds (reply_one k) n s ≡ send_many (suc d) s
  unfolding send_rounds send_many reply_one read_local
  reply_rounds_all zero d s e h = absurd (omega arith)
  reply_rounds_all (suc n) zero s e h = ground arith
  reply_rounds_all (suc n) (suc d) s e h =
      let rest = reply_rounds_all n d (reply_one k s).0 (ground arith) (omega arith) in
      ground (arith, rest)

  -- `r` is `s` after `m` more words have been sent, with their flits.
  record Sent (m : ℕ) (s : Nif C) (r : Nif C × List FlitEntry) : Type 0 where
    bus_eq : r.0.bus ≡ (read_words s.reg_mema (s.packet_max - s.dcount) m s.bus).0
    flits_eq :
        r.1
        ≡ data_flits s.bus.config.vc_normal s.dcount
            (read_words s.reg_mema (s.packet_max - s.dcount) m s.bus).1
    dcount_eq : r.0.dcount + m ≡ s.dcount
    config_eq : r.0.bus.config ≡ s.bus.config
    mema_eq : r.0.reg_mema ≡ s.reg_mema
    packet_eq : r.0.packet_max ≡ s.packet_max
    state_eq : r.0.state ≡ s.state
    bandwidth_eq : r.0.mem_bandwidth ≡ s.mem_bandwidth
    pending_eq : r.0.done_pending ≡ s.done_pending
    rx_eq : r.0.rx ≡ s.rx

  Sent-send_many :
      (m : ℕ) (s : Nif C) → m ≤ s.dcount → s.dcount ≤ s.packet_max → Sent m s (send_many m s)
  unfolding send_many reply_one read_local read_words reply_addr
  Sent-send_many zero s h p = ground arith
  Sent-send_many (suc m) s h p =
      let a = add32 s.reg_mema ((s.packet_max - s.dcount) * 4) in
      let w = Sent-send_many m (reply_one k s).0 (omega arith) (omega arith) in
      let next : s.packet_max - s.dcount + 1 ≡ s.packet_max - (s.dcount - 1) = omega arith in
      let same = fetch_word-config a s.bus in
      let b₁ = (LocalBus.fetch_word k a s.bus).0 in
      let v = s.bus.config.vc_normal in
      let f = make_data_flit (LocalBus.fetch_word k a s.bus).1 (s.dcount - 1 == 0) in
      record {
        bus_eq = rw next w.bus_eq;
        flits_eq =
            ap (λ (l : List FlitEntry). entry f b₁.config.vc_normal ∷ l) w.flits_eq
            ∙ ap
                (λ (c : NifConfig).
                  entry f c.vc_normal
                  ∷ data_flits c.vc_normal (s.dcount - 1)
                      (read_words s.reg_mema (s.packet_max - (s.dcount - 1)) m b₁).1)
                same
            ∙ ap
                (λ (j : ℕ).
                  entry f v ∷ data_flits v (s.dcount - 1) (read_words s.reg_mema j m b₁).1)
                (sym next);
        dcount_eq = omega (arith, w.dcount_eq);
        config_eq = w.config_eq ∙ same;
        mema_eq = w.mema_eq;
        packet_eq = w.packet_eq;
        state_eq = w.state_eq;
        bandwidth_eq = w.bandwidth_eq;
        pending_eq = w.pending_eq;
        rx_eq = w.rx_eq;
      }

module _ {C : Type 0} (k : Core C) (ready : ℕ → Bool) where
  -- The interface has `s.dcount` words to send.
  pub record InReply (s : Nif C) : Type 0 where
    pub sending : s.state ≡ br_data
    pub going_on : s.next_state ≡ br_data
    pub left : 0 < s.dcount
    pub within : s.dcount ≤ s.packet_max
    pub moves : 0 < s.mem_bandwidth

  -- `r` has sent the whole rest of the block of `s`.
  pub record Answered (s : Nif C) (r : Nif C × List FlitEntry) : Type 0 where
    pub flits :
        r.1
        ≡ data_flits s.bus.config.vc_normal s.dcount
            (read_words k s.reg_mema (s.packet_max - s.dcount) s.dcount s.bus).1
    pub bus_after : r.0.bus ≡ (read_words k s.reg_mema (s.packet_max - s.dcount) s.dcount s.bus).0
    pub untouched : r.0.rx ≡ s.rx
    pub follows : r.0.state ≡ (if s.done_pending then done else idle)

  next_of-reply_one :
      (s : Nif C)
      → (reply_one k s).0.next_state ≡ (if s.dcount - 1 == 0 then idle else s.next_state)
  unfolding reply_one read_local
  next_of-reply_one s = refl

  -- The state that follows the words that are sent.
  next_of-send_many :
      (m : ℕ) (s : Nif C)
      → m ≤ s.dcount
      → 0 < m
      → (send_many k m s).0.next_state ≡ (if s.dcount - m == 0 then idle else s.next_state)
  unfolding send_many reply_one read_local
  next_of-send_many zero s h j = absurd (omega arith)
  next_of-send_many (suc zero) s h j = refl
  next_of-send_many (suc (suc m)) s h j =
      let rest = next_of-send_many (suc m) (reply_one k s).0 (omega arith) (omega arith) in
      ground (arith, rest)

  settled :
      (n : ℕ) (s : Nif C) (r : Nif C × List FlitEntry)
      → Sent k n s r
      → r.0.next_state ≡ br_data
      → InReply s
      → n < s.dcount
      → Sent k n s (update_status r.0, r.1) × InReply (update_status r.0)
  unfolding update_status is_idle
  settled n s r w e b h = (
    record {
      bus_eq = w.bus_eq;
      flits_eq = w.flits_eq;
      dcount_eq = w.dcount_eq;
      config_eq = w.config_eq;
      mema_eq = w.mema_eq;
      packet_eq = w.packet_eq;
      state_eq = rw (e, b.sending) refl;
      bandwidth_eq = w.bandwidth_eq;
      pending_eq = w.pending_eq;
      rx_eq = w.rx_eq;
    },
    record {
      sending = rw e refl;
      going_on = rw e refl;
      left = omega (arith, w.dcount_eq);
      within = omega (arith, w.dcount_eq, w.packet_eq, b.within);
      moves = omega (arith, w.bandwidth_eq, b.moves);
    },
  )

  -- A cycle that leaves words to send, and one that sends the last of them.
  reply_part :
      (s : Nif C)
      → InReply s
      → s.mem_bandwidth < s.dcount
      → Sent k s.mem_bandwidth s (nif_step k ready s) × InReply (nif_step k ready s).0
  unfolding nif_state
  reply_part s b h =
      let n = s.mem_bandwidth in
      let e = reply_rounds_part k n s h in
      let w = Sent-send_many k n s (omega arith) b.within in
      let next : (send_many k n s).0.next_state ≡ br_data =
        next_of-send_many n s (omega arith) b.moves ∙ ground (arith, b.going_on) in
      rw (nif_step_in k ready s br_data b.sending refl, e)
        (settled n s (send_many k n s) w next b h)

  after_idle :
      (t : Nif C)
      → t.next_state ≡ idle
      → (update_status t).state ≡ (if t.done_pending then done else idle)
  unfolding update_status is_idle
  after_idle t e = rw e refl

  reply_all : (s : Nif C) → InReply s → s.dcount ≤ s.mem_bandwidth → Answered s (nif_step k ready s)
  unfolding nif_state update_status
  reply_all s b h =
      let n = s.mem_bandwidth in
      let d = s.dcount - 1 in
      let exact : s.dcount ≡ suc d = omega (arith, b.left) in
      let e : send_rounds (reply_one k) n s ≡ send_many k s.dcount s =
        reply_rounds_all k n d s exact (omega arith)
        ∙ ap (λ (m : ℕ). send_many k m s) (sym exact) in
      let w = Sent-send_many k s.dcount s (omega arith) b.within in
      let next : (send_many k s.dcount s).0.next_state ≡ idle =
        next_of-send_many s.dcount s (omega arith) b.left ∙ ground arith in
      rw (nif_step_in k ready s br_data b.sending refl, e)
        (record {
          flits = w.flits_eq;
          bus_after = w.bus_eq;
          untouched = w.rx_eq;
          follows =
              after_idle (send_many k s.dcount s).0 next
              ∙ ap (λ (p : Bool). if p then done else idle) w.pending_eq;
        })

  both :
      (s t : Nif C) (sent : List FlitEntry) (r : Nif C × List FlitEntry)
      → InReply s
      → s.mem_bandwidth < s.dcount
      → Sent k s.mem_bandwidth s (t, sent)
      → Answered t r
      → Answered s (r.0, sent ++ r.1)
  both s t sent r b h w f =
      let n = s.mem_bandwidth in
      let i = s.packet_max - s.dcount in
      let v = s.bus.config.vc_normal in
      let first = read_words k s.reg_mema i n s.bus in
      let second = read_words k s.reg_mema (i + n) t.dcount first.0 in
      let count : n + t.dcount ≡ s.dcount = omega (arith, w.dcount_eq) in
      let place : i + n ≡ t.packet_max - t.dcount =
        omega (arith, w.dcount_eq, w.packet_eq, b.within) in
      let left : t.dcount ≡ s.dcount - length first.1 =
        omega (arith, w.dcount_eq, length-read_words k s.reg_mema i n s.bus) in
      let whole : read_words k s.reg_mema i s.dcount s.bus ≡ (second.0, first.1 ++ second.1) =
        ap (λ (j : ℕ). read_words k s.reg_mema i j s.bus) (sym count)
        ∙ read_words_split k s.reg_mema i n t.dcount s.bus in
      let rest : read_words k t.reg_mema (t.packet_max - t.dcount) t.dcount t.bus ≡ second =
        rw (w.mema_eq, w.bus_eq, place) refl in
      let more : r.1 ≡ data_flits v t.dcount second.1 =
        f.flits
        ∙ ap
            (λ (c : NifConfig).
              data_flits c.vc_normal t.dcount
                (read_words k t.reg_mema (t.packet_max - t.dcount) t.dcount t.bus).1)
            w.config_eq
        ∙ ap (λ (p : LocalBus C × List ℕ). data_flits v t.dcount p.1) rest in
      record {
        flits =
            ap (λ (l : List FlitEntry). l ++ r.1) w.flits_eq
            ∙ ap (λ (l : List FlitEntry). data_flits v s.dcount first.1 ++ l) more
            ∙ ap (λ (j : ℕ). data_flits v s.dcount first.1 ++ data_flits v j second.1) left
            ∙ sym (data_flits-append v s.dcount first.1 second.1)
            ∙ ap (λ (p : LocalBus C × List ℕ). data_flits v s.dcount p.1) (sym whole);
        bus_after =
            f.bus_after
            ∙ ap (λ (p : LocalBus C × List ℕ). p.0) rest
            ∙ ap (λ (p : LocalBus C × List ℕ). p.0) (sym whole);
        untouched = f.untouched ∙ w.rx_eq;
        follows = f.follows ∙ ap (λ (p : Bool). if p then done else idle) w.pending_eq;
      }

  -- An interface that answers a read of a block sends, after at most as many cycles as words are left
  -- and whatever the bandwidth is, exactly the words at consecutive addresses of its local bus, in
  -- their order, in data flits of which the last one alone is a tail. It takes nothing from its port
  -- and goes on with the notification that is pending, or to idle.
  pub reply_burst_ends :
      (d : ℕ) (s : Nif C)
      → InReply s
      → s.dcount ≤ d
      → (n : ℕ) × (n ≤ d) × Answered s (run k ready n s)
  unfolding run
  reply_burst_ends zero s b h = absurd (omega (arith, b.left))
  reply_burst_ends (suc d) s b h = elim (dec_lt s.mem_bandwidth s.dcount) [
    | yes part ↦
        let r = nif_step k ready s in
        let (w, i) = reply_part s b part in
        let (n, le, f) = reply_burst_ends d r.0 i (omega (arith, w.dcount_eq, b.moves)) in
        (suc n, omega arith, both s r.0 r.1 (run k ready n r.0) b part w f)
    | no all ↦ (1, omega arith, rw append-nil (reply_all s b (omega arith)))
  ]
