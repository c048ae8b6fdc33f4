-- ===== src/Indexer/MemStore/Patterns.antt =====
-- The older indexes of the store, by database, pattern and template:
-- packages/syntrix/internal/indexer/mem_store/store.go, without its lock. No order key is nil.
pub mod Lookups
use syntrix.Common.{
  ◌≡◌, refl, sym, ap, ◌∙◌, Bool, true, false, ◌&&◌, Option, none, some, List, [], ◌∷◌, Bytes,
  bytes_eq, bytes_eq_iff, if◌then◌else◌, Assoc, lookup, put, remove, lookup-put, lookup-remove,
  Result, ok, err, arith, Bool-cases, Option-cases, inl, inr,
}
use syntrix.Indexer.Store.{
  IndexState, index_healthy, index_rebuilding, index_failed, index_other, IndexInfo,
}
use syntrix.Indexer.MemStore.Tree.{BTree}
use syntrix.Indexer.MemStore.Index.{
  State, state_healthy, state_rebuilding, state_failed, Index, DocRef, SearchOptions, set_state,
  new_index,
}
use syntrix.Indexer.MemStore.Index
use syntrix.Indexer.MemStore.Database.{
  Database, new_database, index_key, get_index, with_index, get_or_create_index, delete_index,
  list_indexes, shared_state,
}
use syntrix.Indexer.MemStore.Projections.{Store, progressed}

module _ {Tree : Type 0} where
  -- getOrCreateDB, for what is found or made
  abbrev pub get_or_create_db : Bytes → Store Tree → Database Tree
  get_or_create_db db s = elim (lookup db s.databases) [ none ↦ new_database db | some d ↦ d ]

  abbrev pub with_database : Bytes → Database Tree → Store Tree → Store Tree
  with_database db d s = record s { databases = put db d s.databases }

  -- The index, where its database is there and has it.
  abbrev pub found_index : Bytes → Bytes → Bytes → Store Tree → Option (Index Tree)
  found_index db pattern tmpl_id s = elim (lookup db s.databases) [
    | none ↦ none
    | some d ↦ get_index pattern tmpl_id d
  ]

  -- Store.Get
  abbrev pub get : Bytes → Bytes → Bytes → Bytes → Store Tree → Option Bytes
  get db pattern tmpl_id doc_id s = elim (found_index db pattern tmpl_id s) [
    | none ↦ none
    | some idx ↦ Index.get doc_id idx
  ]

  -- Store.DeleteIndex
  abbrev pub delete_pattern_index : Bytes → Bytes → Bytes → Store Tree → Store Tree
  delete_pattern_index db pattern tmpl_id s = elim (lookup db s.databases) [
    | none ↦ s
    | some d ↦ with_database db (delete_index pattern tmpl_id d) s
  ]

  -- Store.GetState
  abbrev pub get_state : Bytes → Bytes → Bytes → Store Tree → IndexState
  get_state db pattern tmpl_id s = elim (found_index db pattern tmpl_id s) [
    | none ↦ index_healthy
    | some idx ↦ shared_state idx.state
  ]

  -- Store.ListIndexes; `none` is the error that there is no such database
  abbrev pub list_pattern_indexes : Bytes → Store Tree → Option (List IndexInfo)
  list_pattern_indexes db s = elim (lookup db s.databases) [
    | none ↦ none
    | some d ↦ some (list_indexes d)
  ]

-- The state of an index for one that the stores share.
abbrev pub own_state : IndexState → State
own_state index_rebuilding = state_rebuilding
own_state index_failed = state_failed
own_state _ = state_healthy

module _ {Tree : Type 0} (btree : BTree Tree) where
  -- A write of an index that is made where it is missing.
  abbrev pub write_index :
      Bytes → Bytes → Bytes → (Index Tree → Index Tree) → Store Tree → Store Tree
  write_index db pattern tmpl_id f s =
      let d = get_or_create_db db s in
      with_database db
        (with_index pattern tmpl_id (f (get_or_create_index btree pattern tmpl_id pattern d)) d) s

  -- Store.Upsert
  unfoldable pub upsert : Bytes → Bytes → Bytes → Bytes → Bytes → Bytes → Store Tree → Store Tree
  upsert db pattern tmpl_id doc_id order_key progress s =
      let n = write_index db pattern tmpl_id (Index.upsert btree doc_id order_key) s in
      record n { progress = progressed progress n.progress }

  abbrev delete_found :
      Bytes → Bytes → Bytes → Bytes → Option (Database Tree) → Store Tree → Store Tree
  delete_found db pattern tmpl_id doc_id none s = s
  delete_found db pattern tmpl_id doc_id (some d) s = elim (get_index pattern tmpl_id d) [
    | none ↦ s
    | some idx ↦ with_database db (with_index pattern tmpl_id (Index.delete btree doc_id idx) d) s
  ]

  -- Store.Delete
  unfoldable pub delete : Bytes → Bytes → Bytes → Bytes → Bytes → Store Tree → Store Tree
  delete db pattern tmpl_id doc_id progress s =
      let n = delete_found db pattern tmpl_id doc_id (lookup db s.databases) s in
      record n { progress = progressed progress n.progress }

  -- Store.Search
  abbrev pub search : Bytes → Bytes → Bytes → SearchOptions → Store Tree → List DocRef
  search db pattern tmpl_id opts s = elim (found_index db pattern tmpl_id s) [
    | none ↦ []
    | some idx ↦ Index.search btree opts idx
  ]

  -- Store.SetState
  abbrev pub set_index_state : Bytes → Bytes → Bytes → IndexState → Store Tree → Store Tree
  set_index_state db pattern tmpl_id state s =
      write_index db pattern tmpl_id (set_state (own_state state)) s
