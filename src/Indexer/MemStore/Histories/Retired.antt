-- ===== src/Indexer/MemStore/Histories/Retired.antt =====
-- A deleted database stays retired: packages/syntrix/internal/indexer/mem_store/projection.go and
-- DeleteDatabase of store.go.
use syntrix.Common.{
  ◌≡◌, refl, sym, ap, ◌∙◌, inl, inr, Bool, true, false, none, some, List, [], ◌∷◌, Bytes, bytes_eq,
  bytes_eq_iff, bytes_eq_refl, any, Assoc, lookup, put, lookup-put, arith, Option-cases,
  Result-cases, ok,
}
use syntrix.Indexer.Store.{
  BootstrapCatalog, Projection, contains, own_bootstrap_catalog, own_bootstrap_catalogs,
  own_catalogs, own_projections,
}
use syntrix.Indexer.MemStore.Tree.{BTree}
use syntrix.Indexer.MemStore.Projections.{Store, apply_all, apply_document_projection}
use syntrix.Indexer.MemStore.Patterns
use syntrix.Indexer.MemStore.Generations.{
  replacement, still_retired, read_generation, publish_bootstrap_catalog,
  publish_bootstrap_catalogs, publish_generation, set_failure, delete_query_index, delete_database,
}
use syntrix.Indexer.MemStore.Histories.{
  Command, applies, publishes, fails, deletes_index, deletes_database, certifies, certifies_all,
  upserts, deletes, deletes_pattern, sets_state, execute, run,
}

-- A whole inventory of catalogs that has the database.
abbrev is_about : Bytes → BootstrapCatalog → Bool
is_about db c = bytes_eq c.database db

abbrev pub revives : Bytes → Command → Bool
revives db (certifies_all catalogs progress) = any (is_about db) catalogs
revives db _ = false

own_bootstrap_catalog-database :
    (c o : BootstrapCatalog) → own_bootstrap_catalog c ≡ ok o → o.database ≡ c.database
unfolding own_bootstrap_catalog
own_bootstrap_catalog-database c o e = ground (arith, e)

own_catalogs-any :
    (db generation progress : Bytes) (seen : List Bytes) (cs os : List BootstrapCatalog)
    → own_catalogs generation progress seen cs ≡ ok os
    → any (is_about db) os ≡ any (is_about db) cs
unfolding own_catalogs any
own_catalogs-any db generation progress seen [] os e = ground (arith, e)
own_catalogs-any db generation progress seen (c ∷ cs) os e =
    elim (Result-cases (own_bootstrap_catalog c)) [
      | inr (x, f) ↦ absurd (ground (arith, e, f))
      | inl (o, f) ↦ elim (Result-cases (own_catalogs generation progress (c.database ∷ seen) cs)) [
        | inr (x, k) ↦ absurd (ground (arith, e, f, k))
        | inl (rest, k) ↦ ground (
          arith,
          e,
          f,
          k,
          own_bootstrap_catalog-database c o f,
          own_catalogs-any db generation progress (c.database ∷ seen) cs rest k,
        )
      ]
    ]

own_bootstrap_catalogs-any :
    (db progress : Bytes) (cs os : List BootstrapCatalog)
    → own_bootstrap_catalogs cs progress ≡ ok os
    → any (is_about db) os ≡ any (is_about db) cs
unfolding own_bootstrap_catalogs
own_bootstrap_catalogs-any db progress [] os e = absurd (ground (arith, e))
own_bootstrap_catalogs-any db progress (c ∷ cs) os e =
    own_catalogs-any db c.generation progress [] (c ∷ cs) os (ground (arith, e))

lookup-replacement :
    (db : Bytes) (cs : List BootstrapCatalog) (m : Assoc BootstrapCatalog)
    → any (is_about db) cs ≡ false
    → lookup db (replacement cs m) ≡ lookup db m
unfolding replacement any
lookup-replacement db [] m h = refl
lookup-replacement db (c ∷ cs) m h =
    lookup-replacement db cs (put c.database c m) (ground (arith, h))
    ∙ lookup-put c.database db c m
    ∙ ground (arith, h)

contains-still_retired :
    (db : Bytes) (cs : List BootstrapCatalog) (retired : List Bytes)
    → lookup db (replacement cs []) ≡ none
    → contains db retired ≡ true
    → contains db (still_retired cs retired) ≡ true
unfolding still_retired contains any
contains-still_retired db cs [] n h = h
contains-still_retired db cs (x ∷ xs) n h = elim (Option-cases (lookup x (replacement cs []))) [
  | inl e ↦
      let kept : still_retired cs (x ∷ xs) ≡ x ∷ still_retired cs xs = ground (arith, e) in
      ap (contains db) kept ∙ ground (arith, h, contains-still_retired db cs xs n)
  | inr (c, e) ↦
      let other : bytes_eq x db ≡ true → lookup db (replacement cs []) ≡ some c =
        λ b. ap (λ k. lookup k (replacement cs [])) (sym ((bytes_eq_iff x db).0 b)) ∙ e in
      let gone : still_retired cs (x ∷ xs) ≡ still_retired cs xs = ground (arith, e) in
      ap (contains db) gone ∙ ground (arith, h, n, other, contains-still_retired db cs xs n)
]

contains-cons : (x y : Bytes) (ys : List Bytes) → contains x ys ≡ true → contains x (y ∷ ys) ≡ true
unfolding contains any
contains-cons x y ys h = ground (arith, h)

module _ {Tree : Type 0} (btree : BTree Tree) where
  apply_all-retired :
      (ps : List Projection) (s : Store Tree)
      → (apply_all btree ps s).retired_databases ≡ s.retired_databases
  unfolding apply_all
  apply_all-retired [] s = refl
  apply_all-retired (p ∷ ps) s = apply_all-retired ps _

  execute-retired :
      (c : Command) (s : Store Tree) (db : Bytes)
      → revives db c ≡ false
      → contains db s.retired_databases ≡ true
      → contains db (execute btree c s).retired_databases ≡ true
  unfolding Patterns.upsert Patterns.delete apply_document_projection publish_generation set_failure
      delete_query_index delete_database publish_bootstrap_catalog publish_bootstrap_catalogs lookup
  execute-retired (applies ps progress) s db r h = elim (Result-cases (own_projections ps)) [
    | inl (owned, e) ↦
        let same : (execute btree (applies ps progress) s).retired_databases ≡ s.retired_databases =
          ground (arith, e, apply_all-retired owned s) in
        ap (contains db) same ∙ h
    | inr (x, e) ↦
        let same : (execute btree (applies ps progress) s).retired_databases ≡ s.retired_databases =
          ground (arith, e) in
        ap (contains db) same ∙ h
  ]
  execute-retired (publishes ref progress) s db r h =
      let same : (execute btree (publishes ref progress) s).retired_databases
          ≡ s.retired_databases =
        ground arith in
      ap (contains db) same ∙ h
  execute-retired (fails ref failure) s db r h =
      let same : (execute btree (fails ref failure) s).retired_databases ≡ s.retired_databases =
        ground arith in
      ap (contains db) same ∙ h
  execute-retired (deletes_index ref) s db r h =
      let same : (execute btree (deletes_index ref) s).retired_databases ≡ s.retired_databases =
        ground arith in
      ap (contains db) same ∙ h
  execute-retired (deletes_database d) s db r h =
      ground (arith, h, contains-cons db d s.retired_databases)
  execute-retired (certifies catalog) s db r h =
      let same : (execute btree (certifies catalog) s).retired_databases ≡ s.retired_databases =
        ground arith in
      ap (contains db) same ∙ h
  execute-retired (certifies_all catalogs progress) s db r h =
      elim (Result-cases (own_bootstrap_catalogs catalogs progress)) [
        | inr (x, e) ↦
            let same : (execute btree (certifies_all catalogs progress) s).retired_databases
                ≡ s.retired_databases =
              ground (arith, e) in
            ap (contains db) same ∙ h
        | inl (owned, e) ↦
            let less : (execute btree (certifies_all catalogs progress) s).retired_databases
                ≡ still_retired owned s.retired_databases =
              ground (arith, e) in
            let absent : lookup db (replacement owned []) ≡ none =
              lookup-replacement db owned []
                (own_bootstrap_catalogs-any db progress catalogs owned e ∙ r) in
            ap (contains db) less ∙ contains-still_retired db owned s.retired_databases absent h
      ]
  execute-retired (upserts d pattern tmpl_id doc_id key progress) s db r h =
      let same : (execute btree (upserts d pattern tmpl_id doc_id key progress) s).retired_databases
          ≡ s.retired_databases =
        ground arith in
      ap (contains db) same ∙ h
  execute-retired (deletes d pattern tmpl_id doc_id progress) s db r h =
      let same : (execute btree (deletes d pattern tmpl_id doc_id progress) s).retired_databases
          ≡ s.retired_databases =
        ground arith in
      ap (contains db) same ∙ h
  execute-retired (deletes_pattern d pattern tmpl_id) s db r h =
      let same : (execute btree (deletes_pattern d pattern tmpl_id) s).retired_databases
          ≡ s.retired_databases =
        ground arith in
      ap (contains db) same ∙ h
  execute-retired (sets_state d pattern tmpl_id state) s db r h =
      let same : (execute btree (sets_state d pattern tmpl_id state) s).retired_databases
          ≡ s.retired_databases =
        ground arith in
      ap (contains db) same ∙ h

  from-retired :
      (cs : List Command) (s : Store Tree) (db : Bytes)
      → any (revives db) cs ≡ false
      → contains db s.retired_databases ≡ true
      → contains db (run btree cs s).retired_databases ≡ true
  unfolding run any
  from-retired [] s db r h = h
  from-retired (c ∷ cs) s db r h =
      from-retired cs (execute btree c s) db (ground (arith, r))
        (execute-retired c s db (ground (arith, r)) h)

  -- Behind DeleteDatabase, ReadGeneration answers with no generation of the database whatever else is
  -- written, until an inventory of catalogs is published that has the database.
  pub read_generation-deleted :
      (s : Store Tree) (cs : List Command) (db collection fingerprint : Bytes)
      → any (revives db) cs ≡ false
      → read_generation db collection fingerprint (run btree cs (delete_database db s)) ≡ none
  unfolding read_generation delete_database contains any
  read_generation-deleted s cs db collection fingerprint r =
      ground (arith, from-retired cs (delete_database db s) db r (ground (arith, bytes_eq_refl db)))
