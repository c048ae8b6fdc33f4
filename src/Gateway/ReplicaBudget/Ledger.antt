-- ===== src/Gateway/ReplicaBudget/Ledger.antt =====
-- The reservations that are held, beside the counters:
-- packages/syntrix/internal/gateway/realtime/replica_budget.go.
use syntrix.Common.{
  ◌≡◌, ℕ, zero, suc, ◌+◌, ◌-◌, ◌≤◌, Option, none, some, List, [], ◌∷◌, ◌==◌, if◌then◌else◌, arith,
  Bool-cases, Option-cases, inl, inr, ltb, leb, ◌||◌,
}
use syntrix.Gateway.ReplicaBudget.{
  ReplicaConfig, Used, nothing_used, Counter, connections, subscriptions, pending, reads,
  source_bytes, page_bytes, counted, Reservation, of_counter, of_subscription, reserve,
  try_subscription, try_connection, try_pending, try_read, try_page, give_back,
}

-- The reservations that have been made and not given back.
pub record Ledger : Type 0 where
  pub used : Used
  pub held : List Reservation

-- What a gateway asks of the ledger; `returning n` runs the function of the n-th reservation that is
-- held, and a function that ran before does nothing.
pub data Call : Type 0 where
  connecting registering reading : Call
  subscribing paging returning : ℕ → Call

-- The n-th reservation, and the others.
unfoldable pub drawn : ℕ → List Reservation → Option (Reservation × List Reservation)
drawn n [] = none
drawn zero (r ∷ rs) = some (r, rs)
drawn (suc n) (r ∷ rs) = elim (drawn n rs) [ none ↦ none | some (s, ss) ↦ some (s, r ∷ ss) ]

abbrev pub reserving : Option (Reservation × Used) → Ledger → Ledger
reserving none l = l
reserving (some (r, u)) l = record { used = u; held = r ∷ l.held }

abbrev pub giving_back : Option (Reservation × List Reservation) → Ledger → Ledger
giving_back none l = l
giving_back (some (r, rs)) l = record { used = give_back r l.used; held = rs }

abbrev pub step : ReplicaConfig → Call → Ledger → Ledger
step cfg connecting l = reserving (try_connection cfg l.used) l
step cfg registering l = reserving (try_pending cfg l.used) l
step cfg reading l = reserving (try_read cfg l.used) l
step cfg (subscribing n) l = reserving (try_subscription cfg n l.used) l
step cfg (paging n) l = reserving (try_page cfg n l.used) l
step cfg (returning n) l = giving_back (drawn n l.held) l

unfoldable pub run : ReplicaConfig → List Call → Ledger → Ledger
run cfg [] l = l
run cfg (c ∷ cs) l = run cfg cs (step cfg c l)

-- What one reservation holds of a counter.
abbrev number : Counter → ℕ
number connections = 0
number subscriptions = 1
number pending = 2
number reads = 3
number source_bytes = 4
number page_bytes = 5

abbrev pub share : Counter → Reservation → ℕ
share c (of_counter d n) = if number d == number c then n else 0
share subscriptions (of_subscription n) = 1
share source_bytes (of_subscription n) = n
share _ (of_subscription n) = 0

unfoldable pub owed : Counter → List Reservation → ℕ
owed c [] = 0
owed c (r ∷ rs) = share c r + owed c rs

abbrev pub limit : ReplicaConfig → Counter → ℕ
limit cfg connections = cfg.connections
limit cfg subscriptions = cfg.subscriptions
limit cfg pending = cfg.pending_registrations
limit cfg reads = cfg.read_concurrency
limit cfg source_bytes = cfg.source_bytes
limit cfg page_bytes = cfg.page_bytes

-- Each counter is the sum of what is held of it, and within its limit.
abbrev pub IsBalanced : ReplicaConfig → Ledger → Type 0
IsBalanced cfg l =
    (c : Counter) → (counted c l.used ≡ owed c l.held) × (counted c l.used ≤ limit cfg c)

owed-drawn :
    (c : Counter) (n : ℕ) (rs : List Reservation) (s : Reservation) (ss : List Reservation)
    → drawn n rs ≡ some (s, ss)
    → owed c rs ≡ share c s + owed c ss
unfolding drawn owed
owed-drawn c n [] s ss h = absurd (cc)
owed-drawn c zero (r ∷ rs) s ss h = ground (arith, h)
owed-drawn c (suc n) (r ∷ rs) s ss h = elim (Option-cases (drawn n rs)) [
  | inl e ↦ absurd (ground (arith, h, e))
  | inr ((t, ts), e) ↦ ground (arith, h, e, owed-drawn c n rs t ts e)
]

module _ (cfg : ReplicaConfig) (l : Ledger) (h : IsBalanced cfg l) where
  reserve-IsBalanced :
      (d : Counter) (n : ℕ) → IsBalanced cfg (reserving (reserve d n (limit cfg d) l.used) l)
  unfolding reserve owed
  reserve-IsBalanced d n = elim (Bool-cases (n == 0 || ltb (limit cfg d - counted d l.used) n)) [
    | inl b ↦ rw b h
    | inr b ↦ rw b λ c. ground (arith, b, h c)
  ]

  try_subscription-IsBalanced :
      (n : ℕ) → IsBalanced cfg (reserving (try_subscription cfg n l.used) l)
  unfolding try_subscription owed
  try_subscription-IsBalanced n =
      elim (Bool-cases (
        n == 0
        || (leb cfg.subscriptions l.used.subscriptions
            || ltb (cfg.source_bytes - l.used.source_bytes) n))) [
              | inl b ↦ rw b h
              | inr b ↦ rw b λ c. ground (arith, b, h c)
            ]

  giving_back-IsBalanced : (n : ℕ) → IsBalanced cfg (giving_back (drawn n l.held) l)
  giving_back-IsBalanced n = elim (Option-cases (drawn n l.held)) [
    | inl e ↦ rw e h
    | inr ((of_counter d k, rs), e) ↦
        rw e λ c. ground (arith, h c, owed-drawn c n l.held (of_counter d k) rs e)
    | inr ((of_subscription k, rs), e) ↦
        rw e λ c. ground (arith, h c, owed-drawn c n l.held (of_subscription k) rs e)
  ]

step-IsBalanced :
    (cfg : ReplicaConfig) (c : Call) (l : Ledger) → IsBalanced cfg l → IsBalanced cfg (step cfg c l)
step-IsBalanced cfg connecting l h = reserve-IsBalanced cfg l h connections 1
step-IsBalanced cfg registering l h = reserve-IsBalanced cfg l h pending 1
step-IsBalanced cfg reading l h = reserve-IsBalanced cfg l h reads 1
step-IsBalanced cfg (subscribing n) l h = try_subscription-IsBalanced cfg l h n
step-IsBalanced cfg (paging n) l h = reserve-IsBalanced cfg l h page_bytes n
step-IsBalanced cfg (returning n) l h = giving_back-IsBalanced cfg l h n

from-IsBalanced :
    (cfg : ReplicaConfig) (cs : List Call) (l : Ledger)
    → IsBalanced cfg l
    → IsBalanced cfg (run cfg cs l)
unfolding run
from-IsBalanced cfg [] l h = h
from-IsBalanced cfg (c ∷ cs) l h = from-IsBalanced cfg cs (step cfg c l) (step-IsBalanced cfg c l h)

new-IsBalanced : (cfg : ReplicaConfig) → IsBalanced cfg (record { used = nothing_used; held = [] })
unfolding owed
new-IsBalanced cfg c = ground arith

-- Behind any run of reservations and returns on a new ledger, each counter is the sum of what is
-- reserved and not given back, and within its limit of the configuration.
pub run-IsBalanced :
    (cfg : ReplicaConfig) (cs : List Call)
    → IsBalanced cfg (run cfg cs (record { used = nothing_used; held = [] }))
run-IsBalanced cfg cs =
    from-IsBalanced cfg cs (record { used = nothing_used; held = [] }) (new-IsBalanced cfg)
