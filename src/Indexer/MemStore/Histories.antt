-- ===== src/Indexer/MemStore/Histories.antt =====
-- Runs of the writes of a store in memory:
-- packages/syntrix/internal/indexer/mem_store/projection.go and store.go.
pub mod Accepted
pub mod Replay
pub mod Retired
pub mod Ready
use syntrix.Common.{
  not, Bool, true, false, ◌&&◌, Option, none, some, List, [], ◌∷◌, Bytes, bytes_eq, any,
  if◌then◌else◌, Result, ok, err,
}
use syntrix.Indexer.Store.{
  QueryIndexRef, IndexState, ref_eq, Projection, BootstrapCatalog, StoreError, is_incomplete,
  own_projections,
}
use syntrix.Indexer.MemStore.Tree.{BTree}
use syntrix.Indexer.MemStore.Projections.{Store, apply_document_projection}
use syntrix.Indexer.MemStore.Projections.Postings.{Postings, all_replaced}
use syntrix.Indexer.MemStore.Patterns.{delete_pattern_index, set_index_state}
use syntrix.Indexer.MemStore.Patterns
use syntrix.Indexer.MemStore.Generations.{
  publish_bootstrap_catalog, publish_bootstrap_catalogs, publish_generation, set_failure,
  delete_query_index, delete_database,
}

-- Each write of the store.
pub data Command : Type 0 where
  applies : List Projection → Bytes → Command
  publishes : QueryIndexRef → Bytes → Command
  fails : QueryIndexRef → Bytes → Command
  deletes_index : QueryIndexRef → Command
  deletes_database : Bytes → Command
  certifies : BootstrapCatalog → Command
  certifies_all : List BootstrapCatalog → Bytes → Command
  upserts : Bytes → Bytes → Bytes → Bytes → Bytes → Bytes → Command
  deletes : Bytes → Bytes → Bytes → Bytes → Bytes → Command
  deletes_pattern : Bytes → Bytes → Bytes → Command
  sets_state : Bytes → Bytes → Bytes → IndexState → Command

-- A call that returns an error has written nothing.
abbrev pub or_unchanged : {A : Type 0} → Result StoreError A → A → A
or_unchanged (ok n) s = n
or_unchanged (err e) s = s

module _ {Tree : Type 0} (btree : BTree Tree) where
  abbrev pub execute : Command → Store Tree → Store Tree
  execute (applies ps progress) s = or_unchanged (apply_document_projection btree ps progress s) s
  execute (publishes ref progress) s = or_unchanged (publish_generation btree ref progress s) s
  execute (fails ref failure) s = or_unchanged (set_failure btree ref failure s) s
  execute (deletes_index ref) s = or_unchanged (delete_query_index ref s) s
  execute (deletes_database db) s = delete_database db s
  execute (certifies catalog) s = or_unchanged (publish_bootstrap_catalog catalog s) s
  execute (certifies_all catalogs progress) s =
      or_unchanged (publish_bootstrap_catalogs catalogs progress s) s
  execute (upserts db pattern tmpl_id doc_id key progress) s =
      Patterns.upsert btree db pattern tmpl_id doc_id key progress s
  execute (deletes db pattern tmpl_id doc_id progress) s =
      Patterns.delete btree db pattern tmpl_id doc_id progress s
  execute (deletes_pattern db pattern tmpl_id) s = delete_pattern_index db pattern tmpl_id s
  execute (sets_state db pattern tmpl_id state) s = set_index_state btree db pattern tmpl_id state s

  unfoldable pub run : List Command → Store Tree → Store Tree
  run [] s = s
  run (c ∷ cs) s = run cs (execute c s)

-- A reference without an empty part.
abbrev pub is_whole : QueryIndexRef → Bool
is_whole ref =
    not (bytes_eq ref.database [])
    && (not (bytes_eq ref.collection [])
        && (not (bytes_eq ref.template_fingerprint []) && not (bytes_eq ref.generation [])))

-- The same document of the same index.
abbrev pub is_twin : Projection → Projection → Bool
is_twin p q = ref_eq p.index q.index && bytes_eq p.document_id q.document_id

-- Projections that are complete, without empty keys, and of different documents.
unfoldable pub is_acceptable : List Projection → Bool
is_acceptable [] = true
is_acceptable (p ∷ ps) =
    (is_whole p.index && not (bytes_eq p.document_id []))
    && (not (any (λ k. bytes_eq k []) p.posting_keys)
        && (not (any (is_twin p) ps) && is_acceptable ps))

-- What a command makes of the postings.
abbrev pub specified : Command → Postings → Postings
specified (applies ps progress) postings =
    if is_acceptable ps then all_replaced ps postings else postings
specified (deletes_index ref) postings =
    if is_whole ref then (λ r id. if ref_eq r ref then [] else postings r id) else postings
specified (deletes_database db) postings =
    λ r id. if bytes_eq r.database db then [] else postings r id
specified _ postings = postings

unfoldable pub replay : List Command → Postings → Postings
replay [] postings = postings
replay (c ∷ cs) postings = replay cs (specified c postings)
