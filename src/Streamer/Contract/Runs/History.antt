-- ===== src/Streamer/Contract/Runs/History.antt =====
-- Runs of commands from the new manager: packages/syntrix/internal/streamer/manager/manager.go.
use syntrix.Common.{◌≡◌, refl, ap₂, Option, none, List, [], ◌∷◌, Bytes, Result, lookup, IsIn, arith}
use syntrix.Streamer.Subscription.{Filter}
use syntrix.Streamer.Exact.{at}
use syntrix.Streamer.Exact.Buckets.{bucket}
use syntrix.Streamer.Expressions.{compiled_at}
use syntrix.Streamer.Registry.{Manager, new_manager}
use syntrix.Streamer.Contract.{Entries}
use syntrix.Streamer.Contract.Runs.{Represents, Command, Reply, execute, specify}
use syntrix.Common.{Bool, true, ◌↔◌}
use syntrix.Streamer.Serving.{match_event}
use syntrix.Streamer.Contract.Matching.{is_wanted, IsIn-match_event}
use syntrix.Streamer.Contract.Runs.Follows.{command-Agrees}

abbrev pub no_entries : {Program : Type 0} → Entries Program
no_entries j = none

new_manager-Represents :
    {Program : Type 0} → Represents (new_manager {Program = Program}) no_entries
unfolding lookup bucket compiled_at
new_manager-Represents = record {
  indexes = record {
    all = λ j. refl;
    own = λ j e h. absurd (cc);
    exact = λ s d c k. ground arith;
    exact_once = λ d c k. tt;
    compiled = λ e d c. ground arith;
    compiled_once = λ d c. tt;
  };
  served = λ g j s. ground arith;
  listed = λ g. tt;
}

module _ {Program CelError : Type 0}
    (compiler : Option (List Filter → Result CelError (Option Program))) where
  -- The commands one after the other, with their replies.
  abbrev pub run : List Command → Manager Program → List (Reply CelError) × Manager Program
  run [] m = ([], m)
  run (c ∷ cs) m = let r = execute compiler c m in let rest = run cs r.1 in (r.0 ∷ rest.0, rest.1)

  abbrev pub run_entries : List Command → Entries Program → List (Reply CelError) × Entries Program
  run_entries [] entries = ([], entries)
  run_entries (c ∷ cs) entries =
      let r = specify compiler c entries in let rest = run_entries cs r.1 in (r.0 ∷ rest.0, rest.1)

  run-Agrees :
      (cs : List Command) (m : Manager Program) (entries : Entries Program)
      → Represents m entries
      → ((run cs m).0 ≡ (run_entries cs entries).0)
        × Represents (run cs m).1 (run_entries cs entries).1
  run-Agrees [] m entries r = (refl, r)
  run-Agrees (c ∷ cs) m entries r =
      let a = command-Agrees compiler m entries r c in
      let b = run-Agrees cs (execute compiler c m).1 (specify compiler c entries).1 (a.1) in
      (ap₂ (λ x y. x ∷ y) (a.0) (b.0), b.1)

  -- Any run of Subscribe, Unsubscribe and UnregisterGateway from the new manager gives the replies that
  -- the same commands have on a map from subscription IDs to subscriptions, and leaves the manager's
  -- indexes and its gateways' maps with exactly the subscriptions of that map, each once.
  pub run-Represents :
      (cs : List Command)
      → ((run cs new_manager).0 ≡ (run_entries cs no_entries).0)
        × Represents (run cs new_manager).1 (run_entries cs no_entries).1
  run-Represents cs = run-Agrees cs new_manager no_entries new_manager-Represents

  -- After any run of the commands from the new manager, Match reports a subscription to a gateway for an
  -- event exactly where the map of the same commands has it under that gateway, the event's database and
  -- collection, and the event's document is the one of its `_id` filter, or its document ID is empty as
  -- without filters, or, where it has other filters, its program evaluates to true.
  pub match_event-run :
      {Doc : Type 0} (eval_program : Program → Doc → Option Bool) (cs : List Command)
      (g d c id doc_id : Bytes) (doc : Doc)
      → IsIn id (at g (match_event eval_program d c doc_id doc (run cs new_manager).1))
        ↔ (is_wanted eval_program g d c doc_id doc ((run_entries cs no_entries).1 id) ≡ true)
  match_event-run eval_program cs g d c id doc_id doc =
      let r = (run-Represents cs).1 in
      IsIn-match_event eval_program (run cs new_manager).1 (run_entries cs no_entries).1 r.indexes g
        d c id doc_id doc
