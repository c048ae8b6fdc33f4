-- ===== src/Examples/Indexes.antt =====
-- One index in memory, over the ascending list.
use syntrix.Common.{◌≡◌, none, some, List, [], ◌∷◌, codes, take}
use syntrix.Indexer.MemStore.Index.{Index, SearchOptions, new_index, search}
use syntrix.Indexer.MemStore.Index.Coherence.{
  Write, upserts, deletes, run, replay, Holds, run-Holds_new,
}
use syntrix.Indexer.MemStore.Index.Search.{all_in_range, most, search_lem}
use syntrix.Common.{bytes_eq, refl}
use syntrix.Indexer.MemStore.Database.{index_key}
use syntrix.Indexer.MemStore.Generations.{new_store}
use syntrix.Indexer.MemStore.Patterns
use syntrix.Indexer.MemStore.Patterns.Lookups.{get-writes}
use syntrix.Examples.Trees.{SortedItems, sorted_items}

abbrev writes : List Write
writes =
    upserts (codes "a") (1 ∷ [])
    ∷ upserts (codes "b") (2 ∷ [])
    ∷ upserts (codes "a") (3 ∷ [])
    ∷ deletes (codes "b")
    ∷ []

run-Holds_new_example :
    Holds sorted_items
      (run sorted_items writes
        (new_index sorted_items (codes "users/*") (codes "t") (codes "users/{u}")))
      (replay writes (λ j. none))
run-Holds_new_example =
    run-Holds_new sorted_items writes (codes "users/*") (codes "t") (codes "users/{u}")

abbrev written : Index SortedItems
written =
    run sorted_items writes
      (new_index sorted_items (codes "users/*") (codes "t") (codes "users/{u}"))

abbrev behind_one : SearchOptions
behind_one = record { lower = []; upper = some (4 ∷ []); start_after = some (1 ∷ []); limit = 0 }

search_lem_example :
    search sorted_items behind_one written
    ≡ take (most 0) (all_in_range behind_one (sorted_items.items written.tree))
search_lem_example = search_lem sorted_items behind_one written

-- Two patterns whose index keys are one share an index.
shared_key : index_key (codes "a") (codes "b|c") ≡ index_key (codes "a|b") (codes "c")
unfolding index_key
shared_key = refl

get-writes_example :
    (Patterns.get (codes "db") (codes "a|b") (codes "c") (codes "x") (
        Patterns.upsert sorted_items
          (codes "db")
          (codes "a")
          (codes "b|c")
          (codes "x")
          (1 ∷ [])
          (codes "p")
          new_store)
      ≡ some (1 ∷ []))
    × (Patterns.get (codes "db") (codes "a|b") (codes "c") (codes "x") (
          Patterns.delete sorted_items
            (codes "db")
            (codes "a")
            (codes "b|c")
            (codes "x")
            (codes "p")
            new_store)
        ≡ none)
unfolding index_key bytes_eq
get-writes_example =
    get-writes sorted_items (codes "db") (codes "a") (codes "b|c") (codes "x") (codes "db")
      (codes "a|b") (codes "c") (codes "x") new_store (1 ∷ []) (codes "p")
