-- ===== src/Indexer/MemStore/Projections/Postings.antt =====
-- What an index has of each document behind a replacement of its postings:
-- packages/syntrix/internal/indexer/mem_store/projection.go.
use syntrix.Common.{
  ◌≡◌, refl, sym, ◌∙◌, subst, ◌↔◌, ◌⊎◌, inl, inr, true, false, ◌&&◌, List, [], ◌∷◌, Bytes, bytes_eq,
  bytes_eq_iff, any, if◌then◌else◌, remove, lookup-put, lookup-remove, find-set, IsIn, arith,
  Bool-cases,
}
use syntrix.Indexer.Store.{QueryIndexRef, ref_eq, ref_eq_iff, Projection, contains}
use syntrix.Indexer.MemStore.Tree.{BTree, BtreeItem}
use syntrix.Indexer.MemStore.Projections.{
  ProjectionIndex, Store, postings_of, projection_index, delete_postings, insert_postings,
  replace_postings, with_partition, apply_all,
}

-- The posting keys of each document in each index.
abbrev pub Postings : Type 0
Postings = QueryIndexRef → Bytes → List Bytes

abbrev pub replaced : Projection → Postings → Postings
replaced p postings ref id =
    if ref_eq p.index ref && bytes_eq p.document_id id then p.posting_keys else postings ref id

unfoldable pub all_replaced : List Projection → Postings → Postings
all_replaced [] postings = postings
all_replaced (p ∷ ps) postings = all_replaced ps (replaced p postings)

module _ {Tree : Type 0} (btree : BTree Tree) where
  -- The map has the keys of each document, and the tree exactly one entry for each of them.
  abbrev pub HoldsAt : ProjectionIndex Tree → (Bytes → List Bytes) → Type 0
  HoldsAt idx postings =
      ((id : Bytes) → postings_of id idx.by_id ≡ postings id)
      × ((x : BtreeItem)
          → IsIn x (btree.items idx.tree) ↔ (contains x.order_key (postings x.id) ≡ true))

  IsIn-delete_postings :
      (id : Bytes) (ks : List Bytes) (x : BtreeItem) (t : Tree)
      → IsIn x (btree.items (delete_postings btree id ks t))
        ↔ (IsIn x (btree.items t) × ((bytes_eq id x.id && contains x.order_key ks) ≡ false))
  unfolding delete_postings contains any
  IsIn-delete_postings id [] x t = ground arith
  IsIn-delete_postings id (k ∷ ks) x t = ground (
    arith,
    IsIn-delete_postings id ks x (btree.delete (record { order_key = k; id = id }) t),
    btree.items-delete x (record { order_key = k; id = id }) t,
    bytes_eq_iff id x.id,
    bytes_eq_iff k x.order_key,
  )

  IsIn-insert_postings :
      (id : Bytes) (ks : List Bytes) (x : BtreeItem) (t : Tree)
      → IsIn x (btree.items (insert_postings btree id ks t))
        ↔ (IsIn x (btree.items t) ⊎ ((bytes_eq id x.id && contains x.order_key ks) ≡ true))
  unfolding insert_postings contains any
  IsIn-insert_postings id [] x t = ground arith
  IsIn-insert_postings id (k ∷ ks) x t = ground (
    arith,
    IsIn-insert_postings id ks x (btree.replace_or_insert (record { order_key = k; id = id }) t),
    btree.items-insert x (record { order_key = k; id = id }) t,
    bytes_eq_iff id x.id,
    bytes_eq_iff k x.order_key,
  )

  replace_postings-HoldsAt :
      (p : Projection) (idx : ProjectionIndex Tree) (postings : Bytes → List Bytes)
      → HoldsAt idx postings
      → HoldsAt
          (replace_postings btree p idx)
          (λ id. if bytes_eq p.document_id id then p.posting_keys else postings id)
  unfolding replace_postings contains any
  replace_postings-HoldsAt p idx postings h =
      let id = p.document_id in
      (
        λ j. ground (
          arith,
          lookup-put id j p.posting_keys (remove id idx.by_id),
          lookup-remove id j idx.by_id,
          h.0 j,
        ),
        λ x. ground (
          arith,
          IsIn-insert_postings id p.posting_keys x
              (delete_postings btree id (postings_of id idx.by_id) idx.tree),
          IsIn-delete_postings id (postings_of id idx.by_id) x idx.tree,
          h.0 id,
          h.1 x,
          bytes_eq_iff id x.id,
        ),
      )

  -- Each index has the postings of its documents.
  abbrev pub HoldsAll : Store Tree → Postings → Type 0
  HoldsAll s postings =
      (ref : QueryIndexRef) → HoldsAt (projection_index btree ref s) (postings ref)

  projection_index-with_partition :
      (k ref : QueryIndexRef) (idx : ProjectionIndex Tree) (s : Store Tree)
      → projection_index btree ref (with_partition btree k idx s)
        ≡ (if ref_eq k ref then idx else projection_index btree ref s)
  projection_index-with_partition k ref idx s =
      ground (arith, find-set ref_eq ref_eq_iff k ref idx s.partitions)

  pub with_partition-HoldsAll :
      (k : QueryIndexRef) (idx : ProjectionIndex Tree) (now : Bytes → List Bytes) (s : Store Tree)
      (postings : Postings)
      → HoldsAll s postings
      → HoldsAt idx now
      → HoldsAll
          (with_partition btree k idx s)
          (λ ref id. if ref_eq k ref then now id else postings ref id)
  with_partition-HoldsAll k idx now s postings h n ref =
      let e = projection_index-with_partition k ref idx s in
      elim (Bool-cases (ref_eq k ref)) [
        | inl b ↦ rw b (subst (λ i. HoldsAt i now) (sym (e ∙ rw b refl)) n)
        | inr b ↦ rw b (subst (λ i. HoldsAt i (postings ref)) (sym (e ∙ rw b refl)) (h ref))
      ]

  pub apply_all-HoldsAll :
      (ps : List Projection) (s : Store Tree) (postings : Postings)
      → HoldsAll s postings
      → HoldsAll (apply_all btree ps s) (all_replaced ps postings)
  unfolding apply_all all_replaced
  apply_all-HoldsAll [] s postings h = h
  apply_all-HoldsAll (p ∷ ps) s postings h =
      let k = p.index in
      let next : Postings = λ ref id.
        if ref_eq k ref
        then (if bytes_eq p.document_id id then p.posting_keys else postings k id)
        else postings ref id in
      let same : (ref : QueryIndexRef) (id : Bytes) → next ref id ≡ replaced p postings ref id =
        λ ref id. ground (arith, ref_eq_iff k ref) in
      apply_all-HoldsAll ps
        (with_partition btree k (replace_postings btree p (projection_index btree k s)) s)
        (replaced p postings)
        (subst
          (HoldsAll
            (with_partition btree k (replace_postings btree p (projection_index btree k s)) s))
          (λ i ref id. same ref id i)
          (with_partition-HoldsAll k (replace_postings btree p (projection_index btree k s)) _ s
            postings h
            (replace_postings-HoldsAt p (projection_index btree k s) (postings k) (h k))))
