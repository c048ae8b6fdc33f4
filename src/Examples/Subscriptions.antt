-- ===== src/Examples/Subscriptions.antt =====
-- The subscription manager after a few commands, with filters that are their own programs.
use syntrix.Common.{
  ◌≡◌, ◌↔◌, Bool, true, Option, none, some, List, [], ◌∷◌, Bytes, codes, bytes_eq, Result, ok, err,
  IsIn,
}
use syntrix.Streamer.Subscription.{Filter, of_string, of_other}
use syntrix.Streamer.Exact.{at}
use syntrix.Streamer.Registry.{SubscribeRequest, new_manager}
use syntrix.Streamer.Serving.{match_event}
use syntrix.Streamer.Contract.Matching.{is_wanted}
use syntrix.Streamer.Contract.Runs.{Represents, Command, subscribing, unsubscribing, unregistering}
use syntrix.Streamer.Contract.Runs.History.{
  no_entries, run, run_entries, run-Represents, match_event-run,
}

-- A filter on no field cannot be compiled; any other is its own program.
abbrev compile : Option (List Filter → Result Bytes (Option (List Filter)))
compile = some λ filters. elim filters [
  | [] ↦ ok none
  | f ∷ fs ↦ elim f.field [ [] ↦ err (codes "no field") | x ∷ xs ↦ ok (some (f ∷ fs)) ]
]

-- A program is true of the document that is the field of its first filter.
abbrev evaluate : List Filter → Bytes → Option Bool
evaluate [] doc = none
evaluate (f ∷ fs) doc = some (bytes_eq f.field doc)

abbrev on_field : Bytes → Bytes → SubscribeRequest
on_field id field = record {
  subscription_id = id;
  database = codes "db";
  collection = codes "docs";
  filters = record { field = field; op = codes ">"; value = some of_other } ∷ [];
}

abbrev on_document : Bytes → Bytes → SubscribeRequest
on_document id doc_id = record {
  subscription_id = id;
  database = codes "db";
  collection = codes "docs";
  filters = record { field = codes "_id"; op = codes "=="; value = some (of_string doc_id) } ∷ [];
}

abbrev commands : List Command
commands =
    subscribing (codes "g") (on_document (codes "s1") (codes "d"))
    ∷ subscribing (codes "g") (on_field (codes "s2") (codes "age"))
    ∷ subscribing (codes "h") (on_field (codes "s2") (codes "age"))
    ∷ subscribing (codes "h") (on_field (codes "s3") [])
    ∷ subscribing (codes "h") (on_field (codes "s4") (codes "age"))
    ∷ unsubscribing (codes "s1")
    ∷ unregistering (codes "h")
    ∷ []

run-Represents_example :
    ((run compile commands new_manager).0 ≡ (run_entries compile commands no_entries).0)
    × Represents (run compile commands new_manager).1 (run_entries compile commands no_entries).1
run-Represents_example = run-Represents compile commands

match_event-run_example :
    IsIn (codes "s2") (
      at (codes "g") (
        match_event evaluate
          (codes "db")
          (codes "docs")
          (codes "d")
          (codes "age")
          (run compile commands new_manager).1))
    ↔ (is_wanted evaluate
          (codes "g")
          (codes "db")
          (codes "docs")
          (codes "d")
          (codes "age")
          ((run_entries compile commands no_entries).1 (codes "s2"))
        ≡ true)
match_event-run_example =
    match_event-run compile evaluate commands (codes "g") (codes "db") (codes "docs") (codes "s2")
      (codes "d") (codes "age")
