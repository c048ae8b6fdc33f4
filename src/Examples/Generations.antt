-- ===== src/Examples/Generations.antt =====
-- The query indexes in memory, over the ascending list.
use syntrix.Common.{
  ◌≡◌, ◌↔◌, IsIn, refl, false, none, List, [], ◌∷◌, Bytes, codes, bytes_eq, lookup, find, set, any,
}
use syntrix.Indexer.Store.{
  QueryIndexRef, ref_eq, Projection, is_incomplete, contains, resolve_generation,
}
use syntrix.Indexer.MemStore.Tree.{BtreeItem}
use syntrix.Indexer.MemStore.Projections.{key_eq, projection_index, postings_of}
use syntrix.Indexer.MemStore.Projections.Postings.{all_replaced}
use syntrix.Indexer.MemStore.Generations.{
  new_store, read_generation, publish_generation, set_failure, delete_database,
}
use syntrix.Indexer.MemStore.Histories.{
  Command, applies, publishes, fails, run, replay, is_acceptable,
}
use syntrix.Indexer.MemStore.Histories.Replay.{run-HoldsAll}
use syntrix.Indexer.MemStore.Histories.Ready.{IsPlain, read_generation-IsPlain}
use syntrix.Indexer.MemStore.Histories.Retired.{read_generation-deleted}
use syntrix.Examples.Trees.{sorted_items}

abbrev first_index : QueryIndexRef
first_index = record {
  database = codes "db";
  collection = codes "users";
  template_fingerprint = codes "t";
  generation = codes "g1";
}

abbrev posting : Bytes → List Bytes → Projection
posting id keys = record { index = first_index; document_id = id; posting_keys = keys }

abbrev commands : List Command
commands =
    publishes first_index (codes "p1")
    ∷ applies (posting (codes "a") ((1 ∷ []) ∷ (2 ∷ []) ∷ []) ∷ []) (codes "p2")
    ∷ applies (posting (codes "a") ((3 ∷ []) ∷ []) ∷ []) (codes "p3")
    ∷ applies (posting (codes "b") ([] ∷ []) ∷ []) (codes "p4")
    ∷ []

run-HoldsAll_example :
    let idx = projection_index sorted_items first_index (run sorted_items commands new_store) in
    let keys = replay commands (λ r id. []) first_index in
    ((id k : Bytes) → IsIn k (postings_of id idx.by_id) ↔ IsIn k (keys id))
    × ((x : BtreeItem) → IsIn x (sorted_items.items idx.tree) ↔ IsIn x.order_key (keys x.id))
run-HoldsAll_example = run-HoldsAll sorted_items commands first_index

-- The last accepted projection counts.
expected : replay commands (λ r id. []) first_index (codes "a") ≡ (3 ∷ []) ∷ []
unfolding replay all_replaced is_acceptable any bytes_eq ref_eq
expected = refl

abbrev failing : List Command
failing = publishes first_index (codes "p1") ∷ fails first_index (codes "x") ∷ []

read_generation-IsPlain_example : IsPlain (record {
  id = codes "g1";
  ready = false;
  bootstrap_progress = codes "p1";
  failure = codes "x";
})
unfolding run publish_generation set_failure read_generation find set resolve_generation contains
    any key_eq bytes_eq lookup is_incomplete
read_generation-IsPlain_example =
    read_generation-IsPlain sorted_items failing (codes "db") (codes "users") (codes "t")
      (record {
        id = codes "g1";
        ready = false;
        bootstrap_progress = codes "p1";
        failure = codes "x";
      })
      refl

read_generation-deleted_example :
    read_generation (codes "db") (codes "users") (codes "t") (
      run sorted_items failing (delete_database (codes "db") (run sorted_items commands new_store)))
    ≡ none
unfolding any
read_generation-deleted_example =
    read_generation-deleted sorted_items (run sorted_items commands new_store) failing (codes "db")
      (codes "users") (codes "t") refl
