-- ===== src/Indexer/MemStore/Patterns/Lookups.antt =====
-- What the store finds behind a write: packages/syntrix/internal/indexer/mem_store/store.go.
use syntrix.Common.{
  ◌++◌, codes, ◌≡◌, refl, Bool, ◌&&◌, none, some, Bytes, bytes_eq, bytes_eq_iff, if◌then◌else◌,
  lookup, lookup-put, lookup-remove, arith, Option-cases, inl, inr,
}
use syntrix.Indexer.MemStore.Tree.{BTree}
use syntrix.Indexer.MemStore.Index.{
  State, state_healthy, state_rebuilding, state_failed, Index, DocRef, SearchOptions, set_state,
  new_index,
}
use syntrix.Indexer.MemStore.Index
use syntrix.Indexer.MemStore.Database.{
  Database, index_key, get_index, with_index, get_or_create_index,
}
use syntrix.Indexer.MemStore.Projections.{Store}
use syntrix.Indexer.MemStore.Patterns.{
  get_or_create_db, with_database, found_index, write_index, delete_found,
}
use syntrix.Indexer.MemStore.Patterns

module _ {Tree : Type 0} where
  found-with_index :
      (db pattern tmpl_id db' pattern' tmpl_id' : Bytes) (idx : Index Tree) (s : Store Tree)
      (d : Database Tree)
      → get_or_create_db db s ≡ d
      → found_index db' pattern' tmpl_id' (with_database db (with_index pattern tmpl_id idx d) s)
        ≡ (if bytes_eq db db' && bytes_eq (index_key pattern tmpl_id) (index_key pattern' tmpl_id')
            then some idx
            else found_index db' pattern' tmpl_id' s)
  unfolding lookup
  found-with_index db pattern tmpl_id db' pattern' tmpl_id' idx s d e = ground (
    arith,
    e,
    lookup-put db db' (with_index pattern tmpl_id idx d) s.databases,
    lookup-put (index_key pattern tmpl_id) (index_key pattern' tmpl_id') idx d.indexes,
    bytes_eq_iff db db',
  )

module _ {Tree : Type 0} (btree : BTree Tree) (db pattern tmpl_id doc_id : Bytes)
    (db' pattern' tmpl_id' doc_id' : Bytes) (s : Store Tree) where
  -- The same database, and the same text of pattern, bar and template.
  abbrev is_same_index : Bool
  is_same_index =
      bytes_eq db db'
      && bytes_eq (pattern ++ (codes "|" ++ tmpl_id)) (pattern' ++ (codes "|" ++ tmpl_id'))

  got-upsert :
      (key progress : Bytes)
      → Patterns.get db' pattern' tmpl_id' doc_id'
          (Patterns.upsert btree db pattern tmpl_id doc_id key progress s)
        ≡ (if is_same_index && bytes_eq doc_id doc_id'
            then some key
            else Patterns.get db' pattern' tmpl_id' doc_id' s)
  unfolding index_key Patterns.upsert Index.upsert new_index lookup
  got-upsert key progress =
      let d = get_or_create_db db s in
      let old = get_or_create_index btree pattern tmpl_id pattern d in
      ground (
        arith,
        found-with_index db pattern tmpl_id db' pattern' tmpl_id'
            (Index.upsert btree doc_id key old) s d refl,
        lookup-put doc_id doc_id' key old.by_id,
        bytes_eq_iff db db',
        bytes_eq_iff (index_key pattern tmpl_id) (index_key pattern' tmpl_id'),
      )

  got-delete :
      (progress : Bytes)
      → Patterns.get db' pattern' tmpl_id' doc_id'
          (Patterns.delete btree db pattern tmpl_id doc_id progress s)
        ≡ (if is_same_index && bytes_eq doc_id doc_id'
            then none
            else Patterns.get db' pattern' tmpl_id' doc_id' s)
  unfolding index_key Patterns.delete Index.delete
  got-delete progress = elim (Option-cases (lookup db s.databases)) [
    | inl n ↦ ground (arith, n, bytes_eq_iff db db')
    | inr (d, e) ↦ elim (Option-cases (get_index pattern tmpl_id d)) [
      | inl n ↦ ground (
        arith,
        e,
        n,
        bytes_eq_iff db db',
        bytes_eq_iff (index_key pattern tmpl_id) (index_key pattern' tmpl_id'),
      )
      | inr (idx, f) ↦ ground (
        arith,
        e,
        f,
        found-with_index db pattern tmpl_id db' pattern' tmpl_id' (Index.delete btree doc_id idx) s
            d (ground (arith, e)),
        lookup-remove doc_id doc_id' idx.by_id,
        bytes_eq_iff db db',
        bytes_eq_iff (index_key pattern tmpl_id) (index_key pattern' tmpl_id'),
      )
    ]
  ]

  -- Behind Upsert, Get finds the new key of the document in its index, and behind Delete none; in both
  -- cases it finds of every other document, and of every database and pair of pattern and template that
  -- another database or another text "pattern|template" has, what it found before.
  pub get-writes :
      (key progress : Bytes)
      → (Patterns.get db' pattern' tmpl_id' doc_id'
            (Patterns.upsert btree db pattern tmpl_id doc_id key progress s)
          ≡ (if is_same_index && bytes_eq doc_id doc_id'
              then some key
              else Patterns.get db' pattern' tmpl_id' doc_id' s))
        × (Patterns.get db' pattern' tmpl_id' doc_id'
              (Patterns.delete btree db pattern tmpl_id doc_id progress s)
            ≡ (if is_same_index && bytes_eq doc_id doc_id'
                then none
                else Patterns.get db' pattern' tmpl_id' doc_id' s))
  get-writes key progress = (got-upsert key progress, got-delete progress)
