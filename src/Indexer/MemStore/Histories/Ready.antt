-- ===== src/Indexer/MemStore/Histories/Ready.antt =====
-- A generation that can be read is ready or has failed:
-- packages/syntrix/internal/indexer/mem_store/projection.go.
use syntrix.Common.{
  ◌≡◌, refl, sym, subst, inl, inr, Bool, true, false, ◌&&◌, ◌||◌, Option, none, some, List, [], ◌∷◌,
  Bytes, bytes_eq, lookup, find, set, drop_keys, find-set, find-drop_keys, KeyedMap, arith,
  Bool-cases, Result-cases,
}
use syntrix.Indexer.Store.{
  QueryIndexRef, BootstrapCatalog, Generation, Projection, is_nil, is_incomplete, contains,
  resolve_generation, own_projections,
}
use syntrix.Indexer.MemStore.Tree.{BTree}
use syntrix.Indexer.MemStore.Projections.{
  Store, GenerationKey, key_eq, key_eq_iff, generation_identity, apply_all,
  apply_document_projection,
}
use syntrix.Indexer.MemStore.Patterns
use syntrix.Indexer.MemStore.Generations.{
  is_other, has_generation, failed_generation, without_partition, new_store, read_generation,
  publish_bootstrap_catalog, publish_bootstrap_catalogs, publish_generation, set_failure,
  delete_query_index, delete_database,
}
use syntrix.Indexer.MemStore.Histories.{
  Command, applies, publishes, fails, deletes_index, deletes_database, certifies, certifies_all,
  upserts, deletes, deletes_pattern, sets_state, execute, run,
}

-- Ready exactly without a failure.
abbrev pub IsPlain : Generation → Type 0
IsPlain g = g.ready ≡ is_nil g.failure

abbrev ArePlain : KeyedMap GenerationKey Generation → Type 0
ArePlain m = (k : GenerationKey) (g : Generation) → find key_eq k m ≡ some g → IsPlain g

set-ArePlain :
    (j : GenerationKey) (v : Generation) (m : KeyedMap GenerationKey Generation)
    → ArePlain m
    → IsPlain v
    → ArePlain (set key_eq j v m)
set-ArePlain j v m h p k g e = ground (arith, find-set key_eq key_eq_iff j k v m, h k g, e, p)

drop_keys-ArePlain :
    (f : GenerationKey → Bool) (m : KeyedMap GenerationKey Generation)
    → ArePlain m
    → ArePlain (drop_keys f m)
drop_keys-ArePlain f m h k g e = ground (arith, find-drop_keys key_eq key_eq_iff f k m, h k g, e)

without_partition-ArePlain :
    (ref : QueryIndexRef) (catalog : Option BootstrapCatalog)
    (m : KeyedMap GenerationKey Generation)
    → ArePlain m
    → ArePlain (without_partition ref catalog m)
without_partition-ArePlain ref none m h = h
without_partition-ArePlain ref (some c) m h =
    elim (Bool-cases (
      bytes_eq c.generation ref.generation
      && contains ref.template_fingerprint c.template_fingerprints)) [
        | inr b ↦ rw b h
        | inl b ↦ rw b (set-ArePlain (generation_identity ref) _ m h refl)
      ]

failed_generation-IsPlain :
    (ref : QueryIndexRef) (failure : Bytes) (o : Option Generation)
    → is_nil failure ≡ false
    → IsPlain (failed_generation ref failure o)
failed_generation-IsPlain ref failure none b = sym b
failed_generation-IsPlain ref failure (some g) b = ground (arith, b)

module _ {Tree : Type 0} (btree : BTree Tree) where
  apply_all-generations :
      (ps : List Projection) (s : Store Tree) → (apply_all btree ps s).generations ≡ s.generations
  unfolding apply_all
  apply_all-generations [] s = refl
  apply_all-generations (p ∷ ps) s = apply_all-generations ps _

  execute-ArePlain :
      (c : Command) (s : Store Tree)
      → ArePlain s.generations
      → ArePlain (execute btree c s).generations
  unfolding Patterns.upsert Patterns.delete apply_document_projection publish_generation set_failure
      delete_query_index delete_database publish_bootstrap_catalog publish_bootstrap_catalogs
  execute-ArePlain (applies ps progress) s h = elim (Result-cases (own_projections ps)) [
    | inl (owned, e) ↦
        let same : (execute btree (applies ps progress) s).generations ≡ s.generations =
          ground (arith, e, apply_all-generations owned s) in
        subst ArePlain (sym same) h
    | inr (x, e) ↦
        let same : (execute btree (applies ps progress) s).generations ≡ s.generations =
          ground (arith, e) in
        subst ArePlain (sym same) h
  ]
  execute-ArePlain (publishes ref progress) s h =
      elim (Bool-cases (is_incomplete ref || is_other (lookup ref.database s.catalogs) ref)) [
        | inl b ↦
            let same : (execute btree (publishes ref progress) s).generations ≡ s.generations =
              ground (arith, b) in
            subst ArePlain (sym same) h
        | inr b ↦
            let v : Generation = record {
              id = ref.generation;
              ready = true;
              bootstrap_progress = progress;
              failure = [];
            } in
            let less : (execute btree (publishes ref progress) s).generations
                ≡ set key_eq (generation_identity ref) v s.generations =
              ground (arith, b) in
            subst ArePlain (sym less)
              (set-ArePlain (generation_identity ref) v s.generations h refl)
      ]
  execute-ArePlain (fails ref failure) s h =
      elim (Bool-cases
        ((is_incomplete ref || is_nil failure) || is_other (lookup ref.database s.catalogs) ref)) [
          | inl b ↦
              let same : (execute btree (fails ref failure) s).generations ≡ s.generations =
                ground (arith, b) in
              subst ArePlain (sym same) h
          | inr b ↦
              let key = generation_identity ref in
              let v = failed_generation ref failure (find key_eq key s.generations) in
              let less : (execute btree (fails ref failure) s).generations
                  ≡ set key_eq key v s.generations =
                ground (arith, b) in
              subst ArePlain (sym less) (
                set-ArePlain key v s.generations h (
                  failed_generation-IsPlain ref failure (find key_eq key s.generations)
                    (ground (arith, b))))
        ]
  execute-ArePlain (deletes_index ref) s h = elim (Bool-cases (is_incomplete ref)) [
    | inl b ↦ rw b h
    | inr b ↦ rw b (
        without_partition-ArePlain ref (lookup ref.database s.catalogs) _
          (elim (Bool-cases
            (has_generation ref.generation (find key_eq (generation_identity ref) s.generations))) [
              | inl o ↦
                  rw o
                    (drop_keys-ArePlain (λ k. key_eq k (generation_identity ref)) s.generations h)
              | inr o ↦ rw o h
            ]))
  ]
  execute-ArePlain (deletes_database db) s h =
      drop_keys-ArePlain (λ key. bytes_eq key.database db) s.generations h
  execute-ArePlain (certifies catalog) s h =
      let same : (execute btree (certifies catalog) s).generations ≡ s.generations = ground arith in
      subst ArePlain (sym same) h
  execute-ArePlain (certifies_all catalogs progress) s h =
      let same : (execute btree (certifies_all catalogs progress) s).generations ≡ s.generations =
        ground arith in
      subst ArePlain (sym same) h
  execute-ArePlain (upserts db pattern tmpl_id doc_id key progress) s h =
      let same : (execute btree (upserts db pattern tmpl_id doc_id key progress) s).generations
          ≡ s.generations =
        ground arith in
      subst ArePlain (sym same) h
  execute-ArePlain (deletes db pattern tmpl_id doc_id progress) s h =
      let same : (execute btree (deletes db pattern tmpl_id doc_id progress) s).generations
          ≡ s.generations =
        ground arith in
      subst ArePlain (sym same) h
  execute-ArePlain (deletes_pattern db pattern tmpl_id) s h =
      let same : (execute btree (deletes_pattern db pattern tmpl_id) s).generations
          ≡ s.generations =
        ground arith in
      subst ArePlain (sym same) h
  execute-ArePlain (sets_state db pattern tmpl_id state) s h =
      let same : (execute btree (sets_state db pattern tmpl_id state) s).generations
          ≡ s.generations =
        ground arith in
      subst ArePlain (sym same) h

  from-ArePlain :
      (cs : List Command) (s : Store Tree)
      → ArePlain s.generations
      → ArePlain (run btree cs s).generations
  unfolding run
  from-ArePlain [] s h = h
  from-ArePlain (c ∷ cs) s h = from-ArePlain cs (execute btree c s) (execute-ArePlain c s h)

  new-ArePlain : ArePlain (new_store {Tree = Tree}).generations
  unfolding find
  new-ArePlain k g e = absurd (cc)

  resolve-IsPlain :
      (catalog : Option BootstrapCatalog) (fingerprint : Bytes) (local : Option Generation)
      (g : Generation)
      → ((x : Generation) → local ≡ some x → IsPlain x)
      → resolve_generation catalog fingerprint local ≡ some g
      → IsPlain g
  unfolding resolve_generation
  resolve-IsPlain none fingerprint local g h e = h g e
  resolve-IsPlain (some c) fingerprint none g h e = ground (arith, e)
  resolve-IsPlain (some c) fingerprint (some x) g h e = ground (arith, e)

  -- Behind any run of writes on a new store, a generation that ReadGeneration answers with is ready
  -- exactly where it has no failure.
  pub read_generation-IsPlain :
      (cs : List Command) (db collection fingerprint : Bytes) (g : Generation)
      → read_generation db collection fingerprint (run btree cs new_store) ≡ some g
      → IsPlain g
  unfolding read_generation
  read_generation-IsPlain cs db collection fingerprint g e =
      let s = run btree cs new_store in
      let key : GenerationKey = record {
        database = db;
        collection = collection;
        fingerprint = fingerprint;
      } in
      resolve-IsPlain (lookup db s.catalogs) fingerprint (find key_eq key s.generations) g
        (from-ArePlain cs new_store new-ArePlain key) (ground (arith, e))
