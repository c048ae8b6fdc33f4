-- ===== src/Examples/Budgets.antt =====
-- The ledger of the replication work, with tokens that are counted in whole numbers.
use syntrix.Common.{◌≡◌, ℕ, ◌+◌, ◌-◌, true, List, [], ◌∷◌, leb, arith, refl, if◌then◌else◌}
use syntrix.Gateway.ReplicaBudget.{
  ReplicaConfig, TokenBucket, nothing_used, new_queue, is_member, grant, dispatch_auth_locked,
  enqueue_auth,
}
use syntrix.Gateway.ReplicaBudget.Ledger.{
  Call, connecting, subscribing, returning, IsBalanced, run-IsBalanced,
}
use syntrix.Gateway.ReplicaBudget.Queue.{
  Event, arrives, leaves, cancels, fires, step, IsSound, queue_run-IsSound, run-granted,
}
use syntrix.Gateway.ReplicaBudget.Ledger
use syntrix.Gateway.ReplicaBudget.Queue

abbrev small : ReplicaConfig
small = record {
  connections = 2;
  subscriptions = 2;
  pending_registrations = 2;
  source_bytes = 10;
  read_concurrency = 1;
  page_bytes = 100;
  auth_concurrency = 2;
}

abbrev calls : List Call
calls =
    connecting
    ∷ connecting
    ∷ connecting
    ∷ subscribing 7
    ∷ subscribing 7
    ∷ returning 1
    ∷ returning 9
    ∷ []

run-IsBalanced_example :
    IsBalanced small (Ledger.run small calls (record { used = nothing_used; held = [] }))
run-IsBalanced_example = run-IsBalanced small calls

-- One token per tick, two at most.
abbrev ticks : TokenBucket ℕ ℕ
ticks = record {
  refill =
      λ before now tokens. if leb 2 (tokens + (now - before)) then 2 else tokens + (now - before);
  has_one = λ tokens. leb 1 tokens;
  take_one = λ tokens. tokens - 1;
  burst = 1;
}

abbrev events : List (Event ℕ)
events = arrives 0 1 ∷ arrives 0 2 ∷ []

queue_run-IsSound_example :
    IsSound ticks small (Queue.run ticks small events (new_queue ticks small 0))
queue_run-IsSound_example = queue_run-IsSound ticks small 0 events

run-granted_example :
    ((Queue.run ticks small events (new_queue ticks small 0)).auth_timer ≡ true)
    × (is_member 2
          (step ticks small
            (fires 1)
            (Queue.run ticks small events (new_queue ticks small 0))).granted
        ≡ true)
unfolding Queue.run enqueue_auth dispatch_auth_locked grant
run-granted_example = run-granted ticks small 0 1 events 2 [] refl (ground arith) refl
