-- ===== src/Indexer/MemStore/Projections.antt =====
-- The query indexes in memory and their generations:
-- packages/syntrix/internal/indexer/mem_store/projection.go and what store.go has of them, without the
-- lock. A set of strings is a list here.
pub mod Postings
use syntrix.Common.{
  ◌≡◌, ◌↔◌, Bool, true, false, not, ◌&&◌, ◌||◌, Option, none, some, List, [], ◌∷◌, Bytes, codes,
  bytes_eq, bytes_eq_iff, if◌then◌else◌, Assoc, lookup, put, remove, KeyedMap, find, set, drop_keys,
  Result, ok, err, arith,
}
use syntrix.Indexer.Store.{
  QueryIndexRef, ref_eq, Projection, Generation, BootstrapCatalog, StoreError, incomplete_identity,
  plural_required, other_catalog, is_nil, is_incomplete, contains, own_bootstrap_catalog,
  own_bootstrap_catalogs, resolve_generation, own_projections,
}
use syntrix.Indexer.MemStore.Tree.{BTree}
use syntrix.Indexer.MemStore.Database.{Database}

-- projectionIndex
pub record ProjectionIndex (Tree : Type 0) : Type 0 where
  pub tree : Tree
  pub by_id : Assoc (List Bytes)

-- generationKey
pub record GenerationKey : Type 0 where
  pub database : Bytes
  pub collection : Bytes
  pub fingerprint : Bytes

unfoldable pub key_eq : GenerationKey → GenerationKey → Bool
key_eq a b =
    bytes_eq a.database b.database
    && (bytes_eq a.collection b.collection && bytes_eq a.fingerprint b.fingerprint)

pub key_eq_iff : (a b : GenerationKey) → (key_eq a b ≡ true) ↔ (a ≡ b)
unfolding key_eq
key_eq_iff a b = ground (
  arith,
  bytes_eq_iff a.database b.database,
  bytes_eq_iff a.collection b.collection,
  bytes_eq_iff a.fingerprint b.fingerprint,
)

-- generationIdentity
abbrev pub generation_identity : QueryIndexRef → GenerationKey
generation_identity ref = record {
  database = ref.database;
  collection = ref.collection;
  fingerprint = ref.template_fingerprint;
}

-- Store
pub record Store (Tree : Type 0) : Type 0 where
  pub databases : Assoc (Database Tree)
  pub progress : Bytes
  pub partitions : KeyedMap QueryIndexRef (ProjectionIndex Tree)
  pub generations : KeyedMap GenerationKey Generation
  pub catalogs : Assoc BootstrapCatalog
  pub catalog_inventory_published : Bool
  pub retired_databases : List Bytes

-- `if progress != "" { s.progress = progress }`
abbrev pub progressed : Bytes → Bytes → Bytes
progressed progress old = if is_nil progress then old else progress

-- `idx.byID[id]`
abbrev pub postings_of : Bytes → Assoc (List Bytes) → List Bytes
postings_of id by_id = elim (lookup id by_id) [ none ↦ [] | some keys ↦ keys ]

module _ {Tree : Type 0} (btree : BTree Tree) where
  -- Store.projectionIndex, for what is found or made
  abbrev pub projection_index : QueryIndexRef → Store Tree → ProjectionIndex Tree
  projection_index ref s = elim (find ref_eq ref s.partitions) [
    | none ↦ record { tree = btree.new; by_id = [] }
    | some idx ↦ idx
  ]

  unfoldable pub delete_postings : Bytes → List Bytes → Tree → Tree
  delete_postings id [] t = t
  delete_postings id (k ∷ ks) t =
      delete_postings id ks (btree.delete (record { order_key = k; id = id }) t)

  unfoldable pub insert_postings : Bytes → List Bytes → Tree → Tree
  insert_postings id [] t = t
  insert_postings id (k ∷ ks) t =
      insert_postings id ks (btree.replace_or_insert (record { order_key = k; id = id }) t)

  -- The body of the loop of ApplyDocumentProjection, on its index.
  unfoldable pub replace_postings : Projection → ProjectionIndex Tree → ProjectionIndex Tree
  unfolding delete_postings insert_postings
  replace_postings p idx =
      let cleared = remove p.document_id idx.by_id in
      record {
        tree =
            insert_postings p.document_id p.posting_keys
              (delete_postings p.document_id (postings_of p.document_id idx.by_id) idx.tree);
        by_id = if is_nil p.posting_keys then cleared else put p.document_id p.posting_keys cleared;
      }

  abbrev pub with_partition : QueryIndexRef → ProjectionIndex Tree → Store Tree → Store Tree
  with_partition ref idx s = record s { partitions = set ref_eq ref idx s.partitions }

  unfoldable pub apply_all : List Projection → Store Tree → Store Tree
  unfolding replace_postings
  apply_all [] s = s
  apply_all (p ∷ ps) s =
      apply_all ps (with_partition p.index (replace_postings p (projection_index p.index s)) s)

  -- Store.ApplyDocumentProjection
  unfoldable pub apply_document_projection :
      List Projection → Bytes → Store Tree → Result StoreError (Store Tree)
  unfolding own_projections apply_all
  apply_document_projection replacements progress s = elim (own_projections replacements) [
    | err e ↦ err e
    | ok owned ↦
        let n = apply_all owned s in ok (record n { progress = progressed progress n.progress })
  ]
