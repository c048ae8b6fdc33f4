-- ===== src/Examples/Events.antt =====
-- Runs of the coalescer and of the circuit breaker.
use syntrix.Common.{
  ◌≢◌, pos, negsuc, arith, bytes_eq, ◌≡◌, refl, ℕ, false, Option, none, some, List, [], ◌∷◌, codes,
  pos, All, map,
}
use syntrix.Puller.Events.{delete, Operation, insert, update, replace, StoreChangeEvent}
use syntrix.Puller.Coalescer.{coalesce_events, doc_key}
use syntrix.Puller.Coalescer.Effect.{state_after}
use syntrix.Puller.Coalescer.Lost.{coalesce_events-delete_insert_delete}
use syntrix.Puller.Coalescer.Documents.{coalesce_events-state_after}
use syntrix.Puller.Flow.{CircuitBreaker, state_open, state_closed, new_circuit_breaker}
use syntrix.Puller.Flow.Runs.{
  Call, asks, succeeds, fails, run, answers, run-IsSound, run-fails, run-early, IsSound,
}

abbrev event : ℕ → Operation → Option ℕ → StoreChangeEvent ℕ ℕ
event time op document = record {
  event_id = codes "e";
  database = codes "db";
  mgo_coll = codes "docs";
  mgo_doc_id = codes "a";
  op_type = op;
  full_document = document;
  update_desc = none;
  cluster_time = record { t = time; i = 1 };
  txn_number = none;
  timestamp = pos time;
  backend = codes "b";
}

abbrev history : List (StoreChangeEvent ℕ ℕ)
history = event 1 insert (some 1) ∷ event 2 update (some 2) ∷ event 3 replace (some 3) ∷ []

coalesce_events-state_after_example :
    state_after (codes "docs/a") none (coalesce_events history)
    ≡ state_after (codes "docs/a") none history
unfolding bytes_eq doc_key
coalesce_events-state_after_example =
    coalesce_events-state_after (codes "docs/a") none history
      (λ e. refl, (λ e. refl, (λ e. refl, tt)))

abbrev calls : List Call
calls = fails 1 ∷ fails 2 ∷ asks 3 ∷ succeeds ∷ asks 20 ∷ []

run-IsSound_example :
    let cb = run calls (new_circuit_breaker (record { threshold = negsuc 0; timeout = pos 10 })) in
    ((negsuc 0 ≡ pos 0) → cb.threshold ≡ pos 5)
    × (((negsuc 0 ≢ pos 0) → cb.threshold ≡ negsuc 0) × IsSound cb)
run-IsSound_example = run-IsSound calls (record { threshold = negsuc 0; timeout = pos 10 })

abbrev closed_breaker : CircuitBreaker
closed_breaker = record {
  state = state_closed;
  failure_count = 1;
  threshold = pos 3;
  timeout = pos 10;
  last_fail_time = 5;
}

run-fails_example : (run (map fails (7 ∷ 8 ∷ [])) closed_breaker).state ≡ state_open
run-fails_example = run-fails (7 ∷ 8 ∷ []) closed_breaker refl (ground arith)

abbrev open_breaker : CircuitBreaker
open_breaker = record {
  state = state_open;
  failure_count = 3;
  threshold = pos 3;
  timeout = pos 10;
  last_fail_time = 5;
}

run-early_example :
    (run (asks 6 ∷ succeeds ∷ asks 15 ∷ []) open_breaker ≡ open_breaker)
    × All (λ b. b ≡ false) (answers (asks 6 ∷ succeeds ∷ asks 15 ∷ []) open_breaker)
run-early_example =
    run-early (asks 6 ∷ succeeds ∷ asks 15 ∷ []) open_breaker refl
      ((10, (refl, ground arith)), (tt, ((10, (refl, ground arith)), tt)))

coalesce_events-delete_insert_delete_example :
    coalesce_events (event 1 delete none ∷ event 2 insert (some 2) ∷ event 3 delete none ∷ []) ≡ []
coalesce_events-delete_insert_delete_example =
    coalesce_events-delete_insert_delete (event 1 delete none) (event 2 insert (some 2))
      (event 3 delete none) refl refl refl refl refl
