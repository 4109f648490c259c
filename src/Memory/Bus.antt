-- ===== src/Memory/Bus.antt =====
-- `BusArbiter`, busarbiter.h and busarbiter.cc. A client is a number, which stands for its address.
-- The cycle is that of the whole machine, and does not wrap.
use cube_sim.Common.{
  Bool, List, Option, Option-cases, [], arith, false, if◌then◌else◌, inl, inr, none, some, true, ℕ,
  ℕ_discrete, ◌<◌, ◌==◌, ◌↔◌, ◌∷◌, ◌≡◌, ◌≢◌, ◌⊎◌,
}

pub record BusArbiter : Type 0 where
  pub last_released_cycle : ℕ
  pub bus_holder : Option ℕ

-- The constructor.
unfoldable pub new_bus : BusArbiter
new_bus = record { last_released_cycle = 0; bus_holder = none }

-- The tests after the first, on the holder.
unfoldable pub grant : Option ℕ → ℕ → BusArbiter → BusArbiter × Bool
grant none client b = (record b { bus_holder = some client }, true)
grant (some h) client b = (b, client == h)

unfoldable pub acquire_bus : ℕ → ℕ → BusArbiter → BusArbiter × Bool
unfolding grant
acquire_bus cycle client b =
    if b.last_released_cycle == cycle then (b, false) else grant b.bus_holder client b

abbrev pub is_client : Option ℕ → ℕ → Bool
is_client none client = false
is_client (some h) client = h == client

unfoldable pub release_bus : ℕ → ℕ → BusArbiter → BusArbiter
release_bus cycle client b =
    if is_client b.bus_holder client
    then record b { bus_holder = none; last_released_cycle = cycle }
    else b

-- Whoever is given the bus holds it, and had it or found it free.
pub acquire_bus-holds :
    (cycle client : ℕ) (b : BusArbiter)
    → (acquire_bus cycle client b).1 ≡ true
    → ((acquire_bus cycle client b).0.bus_holder ≡ some client)
      × ((b.bus_holder ≡ none) ⊎ (b.bus_holder ≡ some client))
      × (b.last_released_cycle ≢ cycle)
unfolding acquire_bus
acquire_bus-holds cycle client b h = ground arith

-- The bus is refused exactly if it was released in this very cycle or another client holds it.
pub acquire_bus-refused :
    (cycle client : ℕ) (b : BusArbiter)
    → ((acquire_bus cycle client b).1 ≡ false)
      ↔ ((b.last_released_cycle ≡ cycle) ⊎ ((h : ℕ) × (b.bus_holder ≡ some h) × (h ≢ client)))
unfolding acquire_bus
acquire_bus-refused cycle client b = elim (Option-cases b.bus_holder) [
  | inl e ↦ (λ h. inl (ground arith), λ h. elim h [ inl r ↦ ground arith | inr q ↦ cc (q.1) ])
  | inr (h, e) ↦ elim (ℕ_discrete b.last_released_cycle cycle) [
    | yes r ↦ (λ k. inl r, λ k. ground arith)
    | no r ↦ (
      λ k. inr (h, e, ground arith),
      λ k. elim k [
        | inl s ↦ absurd (r s)
        | inr q ↦ let same : h ≡ q.0 = cc (q.1) in ground (arith, q.2)
      ],
    )
  ]
]

-- A call that a client makes at a cycle.
pub data Call : Type 0 where
  acquire : ℕ → ℕ → Call
  release : ℕ → ℕ → Call

unfoldable pub call : Call → BusArbiter → BusArbiter × Bool
call (acquire cycle client) b = acquire_bus cycle client b
call (release cycle client) b = (release_bus cycle client b, false)

-- Calls in order, with the answers to the acquisitions.
unfoldable pub run : List Call → BusArbiter → BusArbiter × List Bool
run [] b = (b, [])
run (c ∷ cs) b = let (b₁, r) = call c b in let (b₂, rs) = run cs b₁ in (b₂, r ∷ rs)

-- No call of the list is the release of `holder`.
abbrev pub Keeps : ℕ → List Call → Type 0
Keeps holder [] = Unit
Keeps holder (acquire cycle client ∷ cs) = Keeps holder cs
Keeps holder (release cycle client ∷ cs) = (client ≢ holder) × Keeps holder cs

-- Every acquisition by another client than `holder` is answered with no.
abbrev pub OthersRefused : ℕ → List Call → List Bool → Type 0
OthersRefused holder (acquire cycle client ∷ cs) (r ∷ rs) =
    (client ≢ holder → r ≡ false) × OthersRefused holder cs rs
OthersRefused holder (release cycle client ∷ cs) (r ∷ rs) = OthersRefused holder cs rs
OthersRefused holder _ _ = Unit

call-Keeps_holder :
    (c : Call) (cs : List Call) (b : BusArbiter) (holder : ℕ)
    → b.bus_holder ≡ some holder
    → Keeps holder (c ∷ cs)
    → ((call c b).0.bus_holder ≡ some holder) × Keeps holder cs
unfolding call acquire_bus release_bus
call-Keeps_holder (acquire cycle client) cs b holder h k = ground arith
call-Keeps_holder (release cycle client) cs b holder h k = ground arith

acquire_bus-other :
    (cycle client holder : ℕ) (b : BusArbiter)
    → b.bus_holder ≡ some holder
    → client ≢ holder
    → (acquire_bus cycle client b).1 ≡ false
unfolding acquire_bus
acquire_bus-other cycle client holder b h ne = ground arith

-- While a client holds the bus and does not release it, whatever the clients call in whatever cycles,
-- it stays the holder and every other client is refused.
pub bus_exclusive :
    (cs : List Call) (b : BusArbiter) (holder : ℕ)
    → b.bus_holder ≡ some holder
    → Keeps holder cs
    → ((run cs b).0.bus_holder ≡ some holder) × OthersRefused holder cs (run cs b).1
unfolding run
bus_exclusive [] b holder h k = (h, tt)
bus_exclusive (acquire cycle client ∷ cs) b holder h k =
    let one = call-Keeps_holder (acquire cycle client) cs b holder h k in
    let rest = bus_exclusive cs (call (acquire cycle client) b).0 holder one.0 one.1 in
    (rest.0, (λ ne. unfold call in acquire_bus-other cycle client holder b h ne, rest.1))
bus_exclusive (release cycle client ∷ cs) b holder h k =
    let one = call-Keeps_holder (release cycle client) cs b holder h k in
    let rest = bus_exclusive cs (call (release cycle client) b).0 holder one.0 one.1 in
    (rest.0, rest.1)

-- After the holder's release the bus is free in every later cycle and in no call of the same cycle.
pub acquire_bus-release_bus :
    (cycle later holder client : ℕ) (b : BusArbiter)
    → b.bus_holder ≡ some holder
    → cycle < later
    → let b' = release_bus cycle holder b in
      ((acquire_bus cycle client b').1 ≡ false) × ((acquire_bus later client b').1 ≡ true)
unfolding acquire_bus release_bus
acquire_bus-release_bus cycle later holder client b h lt = ground arith
