-- ===== src/Router/OutputChannel/Accounting.antt =====
-- What an acknowledgement flit of `ackSend`, router.cc, says against the counters that it is made of.
use cube_sim.Common.{
  List, [], ap, arith, false, get_or, get_or-append_right, get_or-drop, get_or-map, length,
  length-drop, length-take, map, min, refl, replicate, some, suc, take, take-append-drop, true,
  zero, ℕ, ◌++◌, ◌+◌, ◌-◌, ◌<◌, ◌∙◌, ◌∷◌, ◌≡◌, ◌≤◌, ◌⊎◌,
}
use cube_sim.Router.OutputChannel.{
  OutputChannel, ack_former, ack_send, ack_vch, any_nonzero, former, latter, left_former,
  left_latter,
}
use cube_sim.Router.Flit.{FlitEntry, ack1, ack2, decode_ack, make_ack_flit, vch_size}
use cube_sim.Router.Flit.Ack.{decode_ack-make_ack_flit}

-- Channel by channel, the sum of what is acknowledged and what is still to be acknowledged.
abbrev pub add_counts : List ℕ → List ℕ → List ℕ
add_counts [] cs = cs
add_counts (a ∷ as') [] = a ∷ as'
add_counts (a ∷ as') (c ∷ cs) = (a + c) ∷ add_counts as' cs

abbrev cut : List ℕ → List ℕ
cut cs = map (λ c. min c 15) cs

add_counts-zeros : (n : ℕ) (cs : List ℕ) → length cs ≡ n → add_counts (replicate n 0) cs ≡ cs
add_counts-zeros zero cs h = refl
add_counts-zeros (suc n) [] h = absurd (omega arith)
add_counts-zeros (suc n) (c ∷ cs) h = rw (add_counts-zeros n cs (omega arith)) (ground arith)

add_counts-former :
    (xs ys : List ℕ) (n : ℕ)
    → length ys ≡ n
    → add_counts (cut xs ++ replicate n 0) (map left_former xs ++ ys) ≡ xs ++ ys
unfolding left_former
add_counts-former [] ys n h = add_counts-zeros n ys h
add_counts-former (x ∷ xs) ys n h = ground (arith, add_counts-former xs ys n h)

-- Every count of the list fits an acknowledgement field.
abbrev pub AllFit : List ℕ → Type 0
AllFit [] = Unit
AllFit (c ∷ cs) = (c ≤ 15) × AllFit cs

add_counts-latter : (ys : List ℕ) → AllFit ys → add_counts (cut ys) (map left_latter ys) ≡ ys
unfolding left_latter
add_counts-latter [] h = refl
add_counts-latter (y ∷ ys) h = ground (arith, add_counts-latter ys h.1)

add_counts-skip :
    (xs zs ws : List ℕ) (n : ℕ)
    → length xs ≡ n
    → add_counts (replicate n 0 ++ zs) (xs ++ ws) ≡ xs ++ add_counts zs ws
add_counts-skip [] zs ws zero h = refl
add_counts-skip [] zs ws (suc n) h = absurd (omega arith)
add_counts-skip (x ∷ xs) zs ws zero h = absurd (omega arith)
add_counts-skip (x ∷ xs) zs ws (suc n) h =
    rw (add_counts-skip xs zs ws n (omega arith)) (ground arith)

former_lem :
    (cs : List ℕ)
    → length cs ≡ vch_size
    → add_counts (decode_ack (make_ack_flit ack1 cs)) (map left_former (former cs) ++ latter cs)
      ≡ cs
former_lem cs h = rw (decode_ack-make_ack_flit ack1 cs (omega arith)) (
    add_counts-former (former cs) (latter cs) 4 (omega (arith, length-drop 4 cs))
    ∙ take-append-drop 4 cs)

take_all : (cs : List ℕ) (n : ℕ) → length cs ≡ n → take n cs ≡ cs
take_all [] zero h = refl
take_all [] (suc n) h = refl
take_all (c ∷ cs) zero h = absurd (omega arith)
take_all (c ∷ cs) (suc n) h = ap (λ l. c ∷ l) (take_all cs n (omega arith))

latter_whole : (cs : List ℕ) → length cs ≡ vch_size → take 4 (latter cs) ≡ latter cs
latter_whole cs h = take_all (latter cs) 4 (omega (arith, length-drop 4 cs))

latter_lem :
    (cs : List ℕ)
    → length cs ≡ vch_size
    → AllFit (latter cs)
    → add_counts
        (decode_ack (make_ack_flit ack2 (latter cs)))
        (former cs ++ map left_latter (latter cs))
      ≡ cs
latter_lem cs h fit =
    rw
      (
        decode_ack-make_ack_flit ack2 (latter cs) (omega (arith, length-drop 4 cs)),
        latter_whole cs h,
      )
      (add_counts-skip (former cs) (cut (latter cs)) (map left_latter (latter cs)) 4
          (omega (arith, length-take 4 cs))
        ∙ rw (add_counts-latter (latter cs) fit) (take-append-drop 4 cs))

-- An acknowledgement that `ackSend` sends, from counters for all channels, on an even cycle, or on
-- an odd one on which no count of the latter four channels is above 15, accounts for every credit:
-- channel by channel, what its flit decodes to and what is left in the counters make up the
-- counters before.
pub ack_send_accounts :
    (cycle : ℕ) (oc : OutputChannel) {e : FlitEntry}
    → length oc.ack_count ≡ vch_size
    → (ack_former cycle ≡ true) ⊎ AllFit (latter oc.ack_count)
    → (ack_send cycle oc).1 ≡ some e
    → add_counts (decode_ack e.flit) (ack_send cycle oc).0.ack_count ≡ oc.ack_count
unfolding ack_send
ack_send_accounts cycle oc h fit sent =
    ground (arith, former_lem oc.ack_count h, latter_lem oc.ack_count h)

any_nonzero-get_or : (cs : List ℕ) (i : ℕ) → 0 < get_or cs i 0 → any_nonzero cs ≡ true
unfolding any_nonzero
any_nonzero-get_or [] i h = absurd (omega arith)
any_nonzero-get_or (c ∷ cs) zero h = ground arith
any_nonzero-get_or (c ∷ cs) (suc i) h = ground (arith, any_nonzero-get_or cs i h)

-- What index `i` of the latter half reads.
get_or-latter : (cs : List ℕ) (i : ℕ) → 4 ≤ i → get_or (latter cs) (i - 4) 0 ≡ get_or cs i 0
get_or-latter cs i h = get_or-drop 4 cs (i - 4) 0 ∙ ap (λ k. get_or cs k 0) (omega arith)

field_latter :
    (cs : List ℕ) (i : ℕ)
    → length cs ≡ vch_size
    → 4 ≤ i
    → get_or (decode_ack (make_ack_flit ack2 (latter cs))) i 0 ≡ min (get_or cs i 0) 15
field_latter cs i h lo =
    ap (λ w. get_or w i 0)
      (decode_ack-make_ack_flit ack2 (latter cs) (omega (arith, length-drop 4 cs))
        ∙ ap (λ l. replicate 4 0 ++ cut l) (latter_whole cs h))
    ∙ (get_or-append_right (replicate 4 0) (cut (latter cs)) i 0 lo
        ∙ get_or-map (λ c. min c 15) (latter cs) (i - 4) 0
        ∙ ap (λ c. min c 15) (get_or-latter cs i lo))

kept_latter :
    (cs : List ℕ) (i : ℕ)
    → length cs ≡ vch_size
    → 4 ≤ i
    → get_or (former cs ++ map left_latter (latter cs)) i 0 ≡ left_latter (get_or cs i 0)
unfolding left_latter
kept_latter cs i h lo =
    let four : length (former cs) ≡ 4 = omega (arith, length-take 4 cs) in
    get_or-append_right (former cs) (map left_latter (latter cs)) i 0 (omega arith)
    ∙ rw four (get_or-map left_latter (latter cs) (i - 4) 0)
    ∙ ap left_latter (get_or-latter cs i lo)

-- With counters for all channels, on an odd cycle on which a count of the latter four channels is
-- above 15, an acknowledgement is sent that decodes to 15 for that channel, and the count stays
-- what it was.
pub ack_send_repeats :
    (cycle : ℕ) (oc : OutputChannel) (i : ℕ)
    → length oc.ack_count ≡ vch_size
    → ack_former cycle ≡ false
    → 4 ≤ i
    → i < vch_size
    → 15 < get_or oc.ack_count i 0
    → (e : FlitEntry) × ((ack_send cycle oc).1 ≡ some e)
      × (get_or (decode_ack e.flit) i 0 ≡ 15)
      × (get_or (ack_send cycle oc).0.ack_count i 0 ≡ get_or oc.ack_count i 0)
unfolding ack_send left_latter
ack_send_repeats cycle oc i h odd lo hi big =
    let some_left : any_nonzero (latter oc.ack_count) ≡ true =
      any_nonzero-get_or (latter oc.ack_count) (i - 4)
        (omega (arith, get_or-latter oc.ack_count i lo)) in
    (
      record { flit = make_ack_flit ack2 (latter oc.ack_count); vch = ack_vch },
      rw (odd, some_left),
      omega (arith, field_latter oc.ack_count i h lo),
      rw (odd, some_left) (ground (arith, kept_latter oc.ack_count i h lo)),
    )
