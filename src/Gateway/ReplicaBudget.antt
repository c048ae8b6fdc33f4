-- ===== src/Gateway/ReplicaBudget.antt =====
-- The ledger of a server's replication work: packages/syntrix/internal/gateway/realtime/replica_budget.go,
-- without its lock. An int64 amount that is 0 or less is 0 here. The float64 tokens are a parameter.
pub mod Ledger
pub mod Queue
use syntrix.Common.{
  ℕ, zero, suc, ◌+◌, ◌-◌, Bool, true, false, ◌&&◌, ◌||◌, Option, none, some, List, [], ◌∷◌, ◌++◌,
  length, ◌==◌, ltb, leb, if◌then◌else◌, Result, ok, err,
}

-- ReplicaConfig, without the limits of one connection and without the rate, which the tokens know
pub record ReplicaConfig : Type 0 where
  pub connections : ℕ
  pub subscriptions : ℕ
  pub pending_registrations : ℕ
  pub source_bytes : ℕ
  pub read_concurrency : ℕ
  pub page_bytes : ℕ
  pub auth_concurrency : ℕ

-- replicaBudgetSnapshot, without the length of the queue
pub record Used : Type 0 where
  pub connections : ℕ
  pub subscriptions : ℕ
  pub pending : ℕ
  pub reads : ℕ
  pub source_bytes : ℕ
  pub page_bytes : ℕ

abbrev pub nothing_used : Used
nothing_used = record {
  connections = 0;
  subscriptions = 0;
  pending = 0;
  reads = 0;
  source_bytes = 0;
  page_bytes = 0;
}

-- The counters that `reserve` is given a pointer to.
pub data Counter : Type 0 where
  connections subscriptions pending reads source_bytes page_bytes : Counter

abbrev pub counted : Counter → Used → ℕ
counted connections u = u.connections
counted subscriptions u = u.subscriptions
counted pending u = u.pending
counted reads u = u.reads
counted source_bytes u = u.source_bytes
counted page_bytes u = u.page_bytes

abbrev pub set_counter : Counter → ℕ → Used → Used
set_counter connections n u = record u { connections = n }
set_counter subscriptions n u = record u { subscriptions = n }
set_counter pending n u = record u { pending = n }
set_counter reads n u = record u { reads = n }
set_counter source_bytes n u = record u { source_bytes = n }
set_counter page_bytes n u = record u { page_bytes = n }

-- What the function that a reservation returns gives back.
pub data Reservation : Type 0 where
  of_counter : Counter → ℕ → Reservation
  of_subscription : ℕ → Reservation

-- reserve
unfoldable pub reserve : Counter → ℕ → ℕ → Used → Option (Reservation × Used)
reserve counter amount maximum u =
    if amount == 0 || ltb (maximum - counted counter u) amount
    then none
    else some (of_counter counter amount, set_counter counter (counted counter u + amount) u)

-- trySubscription
unfoldable pub try_subscription : ReplicaConfig → ℕ → Used → Option (Reservation × Used)
try_subscription cfg amount u =
    if amount == 0
      || (leb cfg.subscriptions u.subscriptions || ltb (cfg.source_bytes - u.source_bytes) amount)
    then none
    else some (
      of_subscription amount,
      record u { subscriptions = u.subscriptions + 1; source_bytes = u.source_bytes + amount },
    )

-- tryConnection
abbrev pub try_connection : ReplicaConfig → Used → Option (Reservation × Used)
try_connection cfg u = reserve connections 1 cfg.connections u

-- tryPending
abbrev pub try_pending : ReplicaConfig → Used → Option (Reservation × Used)
try_pending cfg u = reserve pending 1 cfg.pending_registrations u

-- tryRead
abbrev pub try_read : ReplicaConfig → Used → Option (Reservation × Used)
try_read cfg u = reserve reads 1 cfg.read_concurrency u

-- tryPage
abbrev pub try_page : ReplicaConfig → ℕ → Used → Option (Reservation × Used)
try_page cfg bytes u = reserve page_bytes bytes cfg.page_bytes u

-- The functions that the reservations return, when they run for the first time.
abbrev pub give_back : Reservation → Used → Used
give_back (of_counter counter amount) u = set_counter counter (counted counter u - amount) u
give_back (of_subscription amount) u = record u {
  subscriptions = u.subscriptions - 1;
  source_bytes = u.source_bytes - amount;
}

-- The float64 tokens and the clock.
pub record TokenBucket (Tokens Time : Type 0) : Type 0 where
  -- The burst, or what there was and what the rate has added between two readings, if that is less.
  pub refill : Time → Time → Tokens → Tokens
  pub has_one : Tokens → Bool
  pub take_one : Tokens → Tokens
  pub burst : Tokens

-- The authorization queue of a replicaBudget. A waiter is a number of its own, the address of its record;
-- `granted` has those whose `granted` is set and that have not given their place back.
pub record AuthQueue (Tokens Time : Type 0) : Type 0 where
  pub auth_waiters : List ℕ
  pub granted : List ℕ
  pub auth_running : ℕ
  pub auth_tokens : Tokens
  pub auth_updated : Time
  pub auth_timer : Bool

-- `queued == waiter`, cut out of a list once
unfoldable pub cut_waiter : ℕ → List ℕ → List ℕ
cut_waiter w [] = []
cut_waiter w (x ∷ xs) = let rest = cut_waiter w xs in if x == w then xs else x ∷ rest

unfoldable pub is_member : ℕ → List ℕ → Bool
is_member w [] = false
is_member w (x ∷ xs) = x == w || is_member w xs

module _ {Tokens Time : Type 0} (bucket : TokenBucket Tokens Time) (cfg : ReplicaConfig) where
  -- newReplicaBudget, for the queue
  abbrev pub new_queue : Time → AuthQueue Tokens Time
  new_queue now = record {
    auth_waiters = [];
    granted = [];
    auth_running = 0;
    auth_tokens = bucket.burst;
    auth_updated = now;
    auth_timer = false;
  }

  -- The loop of dispatchAuthLocked over the waiters.
  unfoldable pub grant : List ℕ → AuthQueue Tokens Time → AuthQueue Tokens Time
  grant [] q = record q { auth_waiters = [] }
  grant (w ∷ ws) q =
      let next = grant ws (record q {
        granted = w ∷ q.granted;
        auth_running = q.auth_running + 1;
        auth_tokens = bucket.take_one q.auth_tokens;
      }) in
      if ltb q.auth_running cfg.auth_concurrency && bucket.has_one q.auth_tokens
      then next
      else record q { auth_waiters = w ∷ ws }

  abbrev has_waiter : List ℕ → Bool
  has_waiter [] = false
  has_waiter (w ∷ ws) = true

  abbrev armed : AuthQueue Tokens Time → AuthQueue Tokens Time
  armed q = record q {
    auth_timer = has_waiter q.auth_waiters && ltb q.auth_running cfg.auth_concurrency;
  }

  -- dispatchAuthLocked, which the timer runs too
  unfoldable pub dispatch_auth_locked : Time → AuthQueue Tokens Time → AuthQueue Tokens Time
  unfolding grant
  dispatch_auth_locked now q = armed (
      grant q.auth_waiters (record q {
        auth_tokens = bucket.refill q.auth_updated now q.auth_tokens;
        auth_updated = now;
      }))

  -- releaseAuth of the waiter
  unfoldable pub release_auth : Time → ℕ → AuthQueue Tokens Time → AuthQueue Tokens Time
  unfolding dispatch_auth_locked
  release_auth now w q =
      dispatch_auth_locked now
        (record q { auth_running = q.auth_running - 1; granted = cut_waiter w q.granted })

  -- acquireAuth up to its wait; `none` is the busy error
  unfoldable pub enqueue_auth : Time → ℕ → AuthQueue Tokens Time → Option (AuthQueue Tokens Time)
  unfolding dispatch_auth_locked
  enqueue_auth now w q =
      if leb cfg.pending_registrations (length q.auth_waiters)
      then none
      else some (dispatch_auth_locked now (record q { auth_waiters = q.auth_waiters ++ (w ∷ []) }))

  -- acquireAuth where its context ends before it has seen the grant
  unfoldable pub cancel_auth : Time → ℕ → AuthQueue Tokens Time → AuthQueue Tokens Time
  unfolding dispatch_auth_locked cut_waiter is_member
  cancel_auth now w q =
      if is_member w q.granted
      then dispatch_auth_locked now
          (record q { auth_running = q.auth_running - 1; granted = cut_waiter w q.granted })
      else dispatch_auth_locked now (record q { auth_waiters = cut_waiter w q.auth_waiters })
