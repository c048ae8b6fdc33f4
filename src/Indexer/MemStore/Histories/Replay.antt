-- ===== src/Indexer/MemStore/Histories/Replay.antt =====
-- The indexes behind a run of writes:
-- packages/syntrix/internal/indexer/mem_store/projection.go and DeleteDatabase of store.go.
use syntrix.Common.{
  ◌≡◌, refl, sym, ap, ◌∙◌, subst, ◌⊎◌, inl, inr, Bool, none, some, List, [], ◌∷◌, Bytes, bytes_eq,
  any, if◌then◌else◌, Result-cases, ok, err, true, false, ◌↔◌, IsIn, bytes_eq_iff, lookup, find,
  drop_keys, find-drop_keys, arith, Bool-cases,
}
use syntrix.Indexer.Store.{
  QueryIndexRef, ref_eq, ref_eq_iff, Projection, is_incomplete, contains, own_projections,
}
use syntrix.Indexer.MemStore.Tree.{BTree, BtreeItem}
use syntrix.Indexer.MemStore.Projections.{
  Store, postings_of, projection_index, with_partition, apply_all, apply_document_projection,
}
use syntrix.Indexer.MemStore.Projections.Postings.{
  Postings, all_replaced, HoldsAt, HoldsAll, with_partition-HoldsAll, apply_all-HoldsAll,
}
use syntrix.Indexer.MemStore.Patterns
use syntrix.Indexer.MemStore.Generations.{
  new_store, publish_bootstrap_catalog, publish_bootstrap_catalogs, publish_generation, set_failure,
  delete_query_index, delete_database,
}
use syntrix.Indexer.MemStore.Histories.Accepted.{Same, is_whole_lem, own_projections-Same}
use syntrix.Indexer.MemStore.Histories.{
  Command, applies, publishes, fails, deletes_index, deletes_database, certifies, certifies_all,
  upserts, deletes, deletes_pattern, sets_state, execute, run, specified, replay, is_whole,
}

-- What a command makes of the postings, with the keys that OwnProjections keeps.
abbrev owned_step : Command → Postings → Postings
owned_step (applies ps progress) postings = elim (own_projections ps) [
  | ok owned ↦ all_replaced owned postings
  | err e ↦ postings
]
owned_step (deletes_index ref) postings =
    if is_incomplete ref then postings else λ r id. if ref_eq r ref then [] else postings r id
owned_step (deletes_database db) postings =
    λ r id. if bytes_eq r.database db then [] else postings r id
owned_step _ postings = postings

unfoldable owned_replay : List Command → Postings → Postings
owned_replay [] postings = postings
owned_replay (c ∷ cs) postings = owned_replay cs (owned_step c postings)

-- The keys are the ones that the specification has.
owned_step-Same :
    (c : Command) (xs ys : Postings) → Same xs ys → Same (owned_step c xs) (specified c ys)
owned_step-Same (applies ps progress) xs ys same = own_projections-Same ps xs ys same
owned_step-Same (deletes_index ref) xs ys same = elim (Bool-cases (is_incomplete ref)) [
  | inl b ↦ let w : is_whole ref ≡ false = ground (arith, b, is_whole_lem ref) in rw (b, w) same
  | inr b ↦
      let w : is_whole ref ≡ true = ground (arith, b, is_whole_lem ref) in
      rw (b, w)
        λ r id k. elim (Bool-cases (ref_eq r ref)) [
          | inl c ↦ rw c refl
          | inr c ↦ rw c (same r id k)
        ]
]
owned_step-Same (deletes_database db) xs ys same = λ r id k.
    elim (Bool-cases (bytes_eq r.database db)) [ inl c ↦ rw c refl | inr c ↦ rw c (same r id k) ]
owned_step-Same (publishes _ _) xs ys same = same
owned_step-Same (fails _ _) xs ys same = same
owned_step-Same (certifies _) xs ys same = same
owned_step-Same (certifies_all _ _) xs ys same = same
owned_step-Same (upserts _ _ _ _ _ _) xs ys same = same
owned_step-Same (deletes _ _ _ _ _) xs ys same = same
owned_step-Same (deletes_pattern _ _ _) xs ys same = same
owned_step-Same (sets_state _ _ _ _) xs ys same = same

owned_replay-Same :
    (cs : List Command) (xs ys : Postings) → Same xs ys → Same (owned_replay cs xs) (replay cs ys)
unfolding owned_replay replay
owned_replay-Same [] xs ys same = same
owned_replay-Same (c ∷ cs) xs ys same =
    owned_replay-Same cs (owned_step c xs) (specified c ys) (owned_step-Same c xs ys same)

contains_iff : (x : Bytes) (xs : List Bytes) → IsIn x xs ↔ (contains x xs ≡ true)
unfolding contains any
contains_iff x [] = ground arith
contains_iff x (y ∷ ys) = ground (arith, contains_iff x ys, bytes_eq_iff y x)

module _ {Tree : Type 0} (btree : BTree Tree) where
  empty-HoldsAt : HoldsAt btree (record { tree = btree.new; by_id = [] }) (λ id. [])
  unfolding lookup contains any
  empty-HoldsAt = (λ id. refl, λ x. rw btree.items-new ground arith)

  -- The indexes that remain behind a deletion.
  dropped-HoldsAll :
      (f : QueryIndexRef → Bool) (s n : Store Tree) (postings : Postings)
      → n.partitions ≡ drop_keys f s.partitions
      → HoldsAll btree s postings
      → HoldsAll btree n (λ r id. if f r then [] else postings r id)
  dropped-HoldsAll f s n postings e h r =
      let found : find ref_eq r n.partitions ≡ (if f r then none else find ref_eq r s.partitions) =
        ap (find ref_eq r) e ∙ find-drop_keys ref_eq ref_eq_iff f r s.partitions in
      elim (Bool-cases (f r)) [
        | inl b ↦
            let gone : projection_index btree r n ≡ record { tree = btree.new; by_id = [] } =
              ground (arith, found, b) in
            rw b (subst (λ i. HoldsAt btree i (λ id. [])) (sym gone) empty-HoldsAt)
        | inr b ↦
            let kept : projection_index btree r n ≡ projection_index btree r s =
              ground (arith, found, b) in
            rw b (subst (λ i. HoldsAt btree i (postings r)) (sym kept) (h r))
      ]

  -- An index that is looked up is made if it is missing, and changes nothing.
  touched-HoldsAll :
      (ref : QueryIndexRef) (s : Store Tree) (postings : Postings)
      → HoldsAll btree s postings
      → HoldsAll btree (with_partition btree ref (projection_index btree ref s) s) postings
  touched-HoldsAll ref s postings h =
      let same : (r : QueryIndexRef) (id : Bytes)
          → (if ref_eq ref r then postings ref id else postings r id) ≡ postings r id =
        λ r id. ground (arith, ref_eq_iff ref r) in
      subst (HoldsAll btree (with_partition btree ref (projection_index btree ref s) s))
        (λ i r id. same r id i)
        (with_partition-HoldsAll btree ref (projection_index btree ref s) (postings ref) s postings
          h (h ref))

  -- The indexes are all that counts.
  same-HoldsAll :
      (s n : Store Tree) (postings : Postings)
      → n.partitions ≡ s.partitions
      → HoldsAll btree s postings
      → HoldsAll btree n postings
  same-HoldsAll s n postings e h r =
      let same : projection_index btree r n ≡ projection_index btree r s =
        ap
          (λ m. elim (find ref_eq r m) [
            | none ↦ record { tree = btree.new; by_id = [] }
            | some idx ↦ idx
          ])
          e in
      subst (λ i. HoldsAt btree i (postings r)) (sym same) (h r)

  -- A write that may make the index of its reference.
  touching-HoldsAll :
      (ref : QueryIndexRef) (s n : Store Tree) (postings : Postings)
      → (n.partitions ≡ s.partitions)
        ⊎ (n.partitions ≡ (with_partition btree ref (projection_index btree ref s) s).partitions)
      → HoldsAll btree s postings
      → HoldsAll btree n postings
  touching-HoldsAll ref s n postings (inl e) h = same-HoldsAll s n postings e h
  touching-HoldsAll ref s n postings (inr e) h =
      same-HoldsAll (with_partition btree ref (projection_index btree ref s) s) n postings e
        (touched-HoldsAll ref s postings h)

  applies-HoldsAll :
      (ps : List Projection) (progress : Bytes) (s : Store Tree) (postings : Postings)
      → HoldsAll btree s postings
      → HoldsAll btree
          (execute btree (applies ps progress) s)
          (owned_step (applies ps progress) postings)
  unfolding apply_document_projection
  applies-HoldsAll ps progress s postings h =
      let n = execute btree (applies ps progress) s in
      elim (Result-cases (own_projections ps)) [
        | inl (owned, e) ↦
            let left : n.partitions ≡ (apply_all btree owned s).partitions = ground (arith, e) in
            let right : owned_step (applies ps progress) postings ≡ all_replaced owned postings =
              ground (arith, e) in
            subst (HoldsAll btree n) (sym right) (
              same-HoldsAll (apply_all btree owned s) n (all_replaced owned postings) left
                (apply_all-HoldsAll btree owned s postings h))
        | inr (x, e) ↦
            let left : n.partitions ≡ s.partitions = ground (arith, e) in
            let right : owned_step (applies ps progress) postings ≡ postings = ground (arith, e) in
            subst (HoldsAll btree n) (sym right) (same-HoldsAll s n postings left h)
      ]

  execute-HoldsAll :
      (c : Command) (s : Store Tree) (postings : Postings)
      → HoldsAll btree s postings
      → HoldsAll btree (execute btree c s) (owned_step c postings)
  unfolding Patterns.upsert Patterns.delete publish_generation set_failure delete_query_index
      delete_database publish_bootstrap_catalog publish_bootstrap_catalogs
  execute-HoldsAll (applies ps progress) s postings h = applies-HoldsAll ps progress s postings h
  execute-HoldsAll (publishes ref progress) s postings h =
      touching-HoldsAll ref s (execute btree (publishes ref progress) s) postings (ground arith) h
  execute-HoldsAll (fails ref failure) s postings h =
      touching-HoldsAll ref s (execute btree (fails ref failure) s) postings (ground arith) h
  execute-HoldsAll (deletes_index ref) s postings h = elim (Bool-cases (is_incomplete ref)) [
    | inl b ↦ rw b h
    | inr b ↦ rw b (
        dropped-HoldsAll (λ r. ref_eq r ref) s
          (record s { partitions = drop_keys (λ r. ref_eq r ref) s.partitions }) postings refl h)
  ]
  execute-HoldsAll (deletes_database db) s postings h =
      dropped-HoldsAll (λ r. bytes_eq r.database db) s (delete_database db s) postings refl h
  execute-HoldsAll (certifies catalog) s postings h =
      same-HoldsAll s (execute btree (certifies catalog) s) postings (ground arith) h
  execute-HoldsAll (certifies_all catalogs progress) s postings h =
      same-HoldsAll s (execute btree (certifies_all catalogs progress) s) postings (ground arith) h
  execute-HoldsAll (upserts db pattern tmpl_id doc_id key progress) s postings h =
      same-HoldsAll s (execute btree (upserts db pattern tmpl_id doc_id key progress) s) postings
        (ground arith) h
  execute-HoldsAll (deletes db pattern tmpl_id doc_id progress) s postings h =
      same-HoldsAll s (execute btree (deletes db pattern tmpl_id doc_id progress) s) postings
        (ground arith) h
  execute-HoldsAll (deletes_pattern db pattern tmpl_id) s postings h =
      same-HoldsAll s (execute btree (deletes_pattern db pattern tmpl_id) s) postings (ground arith)
        h
  execute-HoldsAll (sets_state db pattern tmpl_id state) s postings h =
      same-HoldsAll s (execute btree (sets_state db pattern tmpl_id state) s) postings
        (ground arith) h

  from-HoldsAll :
      (cs : List Command) (s : Store Tree) (postings : Postings)
      → HoldsAll btree s postings
      → HoldsAll btree (run btree cs s) (owned_replay cs postings)
  unfolding run owned_replay
  from-HoldsAll [] s postings h = h
  from-HoldsAll (c ∷ cs) s postings h =
      from-HoldsAll cs (execute btree c s) (owned_step c postings) (execute-HoldsAll c s postings h)

  new-HoldsAll : HoldsAll btree new_store (λ r id. [])
  unfolding find
  new-HoldsAll r = empty-HoldsAt

  -- Behind any run of writes on a new store, the map of each query index has for each document exactly
  -- the posting keys of the last accepted projection of it (none behind a deletion of the index or of
  -- the database), and the tree exactly one entry for each of them. A batch is accepted where all its
  -- projections are complete, without an empty key and of different documents.
  pub run-HoldsAll :
      (cs : List Command) (ref : QueryIndexRef)
      → let idx = projection_index btree ref (run btree cs new_store) in
        let keys = replay cs (λ r id. []) ref in
        ((id k : Bytes) → IsIn k (postings_of id idx.by_id) ↔ IsIn k (keys id))
        × ((x : BtreeItem) → IsIn x (btree.items idx.tree) ↔ IsIn x.order_key (keys x.id))
  run-HoldsAll cs ref =
      let h = from-HoldsAll cs new_store (λ r id. []) new-HoldsAll ref in
      let same = owned_replay-Same cs (λ r id. []) (λ r id. []) (λ r id k. refl) ref in
      (
        λ id k. ground (
          arith,
          h.0 id,
          same id k,
          contains_iff k (owned_replay cs (λ r id. []) ref id),
          contains_iff k (replay cs (λ r id. []) ref id),
        ),
        λ x. ground (
          arith,
          h.1 x,
          same x.id x.order_key,
          contains_iff x.order_key (replay cs (λ r id. []) ref x.id),
        ),
      )
