-- ===== src/Router/Link/Counters.antt =====
-- The counters of an output channel, router.cc, read at one channel.
use cube_sim.Common.{
  Bool, List, [], arith, false, get_or, length, refl, suc, true, zero, ℕ, ◌++◌, ◌+◌, ◌<◌, ◌==◌, ◌∷◌,
  ◌≡◌,
}
use cube_sim.Common.Int.{pos, ℤ, ◌+ℤ◌, ◌-ℤ◌}
use cube_sim.Router.Flit.{Flit, FlitEntry, decode_ack}
use cube_sim.Router.OutputChannel.{bump_ack, bump_send, credit_back}
use cube_sim.Router.OutputChannel.Accounting.{add_counts}

abbrev pub one_if : Bool → ℕ
one_if true = 1
one_if false = 0

-- Flits of channel `v`.
unfoldable pub count_vch : ℕ → List FlitEntry → ℕ
count_vch v [] = 0
count_vch v (e ∷ es) = one_if (e.vch == v) + count_vch v es

-- Credits of channel `v` in a queue of acknowledgements.
unfoldable pub credits : ℕ → List Flit → ℕ
credits v [] = 0
credits v (f ∷ fs) = get_or (decode_ack f) v 0 + credits v fs

pub count_vch-cons :
    (v : ℕ) (e : FlitEntry) (es : List FlitEntry)
    → count_vch v (e ∷ es) ≡ one_if (e.vch == v) + count_vch v es
unfolding count_vch
count_vch-cons v e es = refl

pub credits-cons :
    (v : ℕ) (f : Flit) (fs : List Flit)
    → credits v (f ∷ fs) ≡ get_or (decode_ack f) v 0 + credits v fs
unfolding credits
credits-cons v f fs = refl

pub credits-nil : (v : ℕ) → credits v [] ≡ 0
unfolding credits
credits-nil v = refl

pub count_vch-append :
    (v : ℕ) (xs ys : List FlitEntry) → count_vch v (xs ++ ys) ≡ count_vch v xs + count_vch v ys
unfolding count_vch
count_vch-append v [] ys = omega arith
count_vch-append v (x ∷ xs) ys = omega (arith, count_vch-append v xs ys)

pub credits-append :
    (v : ℕ) (xs ys : List Flit) → credits v (xs ++ ys) ≡ credits v xs + credits v ys
unfolding credits
credits-append v [] ys = omega arith
credits-append v (x ∷ xs) ys = omega (arith, credits-append v xs ys)

pub get_or-bump_send :
    (w v : ℕ) (cs : List ℤ) (n : ℕ)
    → v < length cs
    → get_or cs v (pos 0) ≡ pos n
    → get_or (bump_send w cs) v (pos 0) ≡ pos (n + one_if (w == v))
unfolding bump_send ◌+ℤ◌
get_or-bump_send w v [] n h e = absurd (omega arith)
get_or-bump_send zero zero (c ∷ cs) n h e = ground arith
get_or-bump_send zero (suc v) (c ∷ cs) n h e = ground arith
get_or-bump_send (suc w) zero (c ∷ cs) n h e = ground arith
get_or-bump_send (suc w) (suc v) (c ∷ cs) n h e =
    ground (arith, get_or-bump_send w v cs n (omega arith) e)

pub get_or-bump_ack :
    (w v : ℕ) (cs : List ℕ)
    → v < length cs
    → get_or (bump_ack w cs) v 0 ≡ get_or cs v 0 + one_if (w == v)
unfolding bump_ack
get_or-bump_ack w v [] h = absurd (omega arith)
get_or-bump_ack zero zero (c ∷ cs) h = ground arith
get_or-bump_ack zero (suc v) (c ∷ cs) h = ground arith
get_or-bump_ack (suc w) zero (c ∷ cs) h = ground arith
get_or-bump_ack (suc w) (suc v) (c ∷ cs) h = ground (arith, get_or-bump_ack w v cs)

-- Taking back credits that were given.
pub get_or-credit_back :
    (cs : List ℤ) (acks : List ℕ) (v n : ℕ)
    → v < length cs
    → get_or cs v (pos 0) ≡ pos (get_or acks v 0 + n)
    → get_or (credit_back cs acks) v (pos 0) ≡ pos n
unfolding credit_back ◌-ℤ◌
get_or-credit_back [] acks v n h e = absurd (omega arith)
get_or-credit_back (c ∷ cs) [] v n h e = ground arith
get_or-credit_back (c ∷ cs) (a ∷ acks) zero n h e = ground arith
get_or-credit_back (c ∷ cs) (a ∷ acks) (suc v) n h e =
    get_or-credit_back cs acks v n (omega arith) e

pub get_or-add_counts :
    (xs ys : List ℕ) (v : ℕ) → get_or (add_counts xs ys) v 0 ≡ get_or xs v 0 + get_or ys v 0
get_or-add_counts [] ys v = omega arith
get_or-add_counts (x ∷ xs) [] v = omega arith
get_or-add_counts (x ∷ xs) (y ∷ ys) zero = refl
get_or-add_counts (x ∷ xs) (y ∷ ys) (suc v) = get_or-add_counts xs ys v
