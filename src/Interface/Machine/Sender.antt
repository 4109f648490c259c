-- ===== src/Interface/Machine/Sender.antt =====
-- How `RouterInterface::step`, routerinterface.cc, sends a block, RT_STATE_BW_HEAD and
-- RT_STATE_BW_DATA.
use cube_sim.Common.{
  Bool, List, [], ap, append-nil, arith, dec_lt, drop, false, length, length-drop, length-take,
  refl, suc, sym, take, take-append-drop, zero, ℕ, ◌++◌, ◌-◌, ◌<◌, ◌==◌, ◌∙◌, ◌∷◌, ◌≡◌, ◌≤◌,
}
use cube_sim.Interface.Machine.{
  Interface, State, bw_data, idle, is_nil, run_state, send_rounds, update_status,
}
use cube_sim.Accelerator.Reply.{data_flits, data_flits-append}
use cube_sim.Router.Flit.{FlitEntry}

-- `n` cycles of the state machine, with what they send.
unfoldable pub cycles : (ℕ → Bool) → ℕ → Interface → Interface × List FlitEntry
cycles ready zero i = (i, [])
cycles ready (suc n) i =
    let (i₁, sent) = update_status ready i in
    let (i₂, more) = cycles ready n i₁ in (i₂, sent ++ more)

-- A first cycle that is known.
pub cycles-suc :
    (ready : ℕ → Bool) (n : ℕ) (i i₁ : Interface) (sent : List FlitEntry)
    → update_status ready i ≡ (i₁, sent)
    → cycles ready (suc n) i ≡ ((cycles ready n i₁).0, sent ++ (cycles ready n i₁).1)
unfolding cycles
cycles-suc ready n i i₁ sent e =
    ap (λ (p : Interface × List FlitEntry). let r = cycles ready n p.0 in (r.0, p.1 ++ r.1)) e

is_nil_lem : (ws : List ℕ) → is_nil ws ≡ (length ws == 0)
unfolding is_nil
is_nil_lem [] = refl
is_nil_lem (w ∷ ws) = ground arith

-- The loop, when words are left after it, and when it sends the last one.
send_rounds_part :
    (n : ℕ) (ws : List ℕ) (i : Interface)
    → n < length ws
    → send_rounds n ws (record i { send_fifo = ws })
      ≡ (record i { send_fifo = drop n ws }, data_flits i.use_vch (length ws) (take n ws))
unfolding send_rounds
send_rounds_part zero ws i h = refl
send_rounds_part (suc n) [] i h = absurd (omega arith)
send_rounds_part (suc n) (w ∷ ws) i h =
    let rest = send_rounds_part n ws i (omega arith) in
    let more : is_nil ws ≡ false = is_nil_lem ws ∙ ground arith in
    let count : suc (length ws) - 1 ≡ length ws = omega arith in
    let last : (length ws == 0) ≡ false = ground arith in rw (count, more, last, rest) refl

send_rounds_all :
    (n : ℕ) (ws : List ℕ) (i : Interface)
    → 0 < length ws
    → length ws ≤ n
    → send_rounds n ws (record i { send_fifo = ws })
      ≡ (record i { send_fifo = []; next_state = idle }, data_flits i.use_vch (length ws) ws)
unfolding send_rounds is_nil
send_rounds_all n [] i h j = absurd (omega arith)
send_rounds_all zero (w ∷ ws) i h j = absurd (omega arith)
send_rounds_all (suc n) (w ∷ []) i h j = refl
send_rounds_all (suc n) (w ∷ v ∷ ws) i h j =
    let rest = send_rounds_all n (v ∷ ws) i (omega arith) (omega arith) in
    let count : suc (suc (length ws)) - 1 ≡ suc (length ws) = omega arith in
    let last : (suc (length ws) == 0) ≡ false = ground arith in rw (count, last, rest) refl

-- The interface has words of a block to send.
pub record InBlock (i : Interface) : Type 0 where
  pub going_on : i.next_state ≡ bw_data
  pub left : 0 < length i.send_fifo
  pub moves : 0 < i.mem_bandwidth

-- `r` has sent all words of `i`, and is idle.
pub record Drained (i : Interface) (r : Interface × List FlitEntry) : Type 0 where
  pub flits : r.1 ≡ data_flits i.use_vch (length i.send_fifo) i.send_fifo
  pub empty : r.0.send_fifo ≡ []
  pub idle_again : r.0.next_state ≡ idle
  pub received : r.0.recv_fifo ≡ i.recv_fifo

-- A cycle in a state that is known.
pub update_status_in :
    (ready : ℕ → Bool) (i : Interface) (st : State)
    → i.next_state ≡ st
    → update_status ready i ≡ run_state ready st (record i { state = st; next_state = st })
unfolding update_status
update_status_in ready i st e = rw e

module _ (ready : ℕ → Bool) where
  block_part :
      (i : Interface)
      → InBlock i
      → i.mem_bandwidth < length i.send_fifo
      → update_status ready i ≡ (
        record i {
          state = bw_data;
          next_state = bw_data;
          send_fifo = drop i.mem_bandwidth i.send_fifo;
        },
        data_flits i.use_vch (length i.send_fifo) (take i.mem_bandwidth i.send_fifo),
      )
  unfolding run_state
  block_part i b h =
      update_status_in ready i bw_data b.going_on
      ∙ send_rounds_part i.mem_bandwidth i.send_fifo
          (record i { state = bw_data; next_state = bw_data }) h

  block_all :
      (i : Interface)
      → InBlock i
      → length i.send_fifo ≤ i.mem_bandwidth
      → update_status ready i ≡ (
        record i { state = bw_data; next_state = idle; send_fifo = [] },
        data_flits i.use_vch (length i.send_fifo) i.send_fifo,
      )
  unfolding run_state
  block_all i b h =
      update_status_in ready i bw_data b.going_on
      ∙ send_rounds_all i.mem_bandwidth i.send_fifo
          (record i { state = bw_data; next_state = bw_data }) b.left h

  both :
      (i : Interface) (r : Interface × List FlitEntry)
      → i.mem_bandwidth < length i.send_fifo
      → Drained
          (record i {
            state = bw_data;
            next_state = bw_data;
            send_fifo = drop i.mem_bandwidth i.send_fifo;
          })
          r
      → Drained i
          (r.0, data_flits i.use_vch (length i.send_fifo) (take i.mem_bandwidth i.send_fifo) ++ r.1)
  both i r h d =
      let n = i.mem_bandwidth in
      let ws = i.send_fifo in
      let left : length (drop n ws) ≡ length ws - length (take n ws) =
        omega (arith, length-take n ws, length-drop n ws) in
      record {
        flits =
            ap (λ (l : List FlitEntry). data_flits i.use_vch (length ws) (take n ws) ++ l)
              (d.flits ∙ ap (λ (j : ℕ). data_flits i.use_vch j (drop n ws)) left)
            ∙ sym (data_flits-append i.use_vch (length ws) (take n ws) (drop n ws))
            ∙ ap (data_flits i.use_vch (length ws)) (take-append-drop n ws);
        empty = d.empty;
        idle_again = d.idle_again;
        received = d.received;
      }

  -- The loop of RT_STATE_BW_DATA ends after at most as many cycles as there are words in the queue,
  -- whatever the bandwidth is. The interface has then sent the words in their order, in data flits of
  -- which the last one alone is a tail, has none left, and is idle.
  pub send_block_ends :
      (d : ℕ) (i : Interface)
      → InBlock i
      → length i.send_fifo ≤ d
      → (n : ℕ) × (n ≤ d) × Drained i (cycles ready n i)
  unfolding cycles
  send_block_ends zero i b h = absurd (omega (arith, b.left))
  send_block_ends (suc d) i b h = elim (dec_lt i.mem_bandwidth (length i.send_fifo)) [
    | yes part ↦
        let i₁ = record i {
          state = bw_data;
          next_state = bw_data;
          send_fifo = drop i.mem_bandwidth i.send_fifo;
        } in
        let rest = length-drop i.mem_bandwidth i.send_fifo in
        let again : InBlock i₁ = record {
          going_on = refl;
          left = omega (arith, rest);
          moves = b.moves;
        } in
        let (n, le, r) = send_block_ends d i₁ again (omega (arith, rest, b.moves)) in
        (suc n, omega arith, rw (block_part i b part) (both i (cycles ready n i₁) part r))
    | no all ↦ (
      1,
      omega arith,
      rw (block_all i b (omega arith), append-nil)
          (record { flits = refl; empty = refl; idle_again = refl; received = refl }),
    )
  ]
