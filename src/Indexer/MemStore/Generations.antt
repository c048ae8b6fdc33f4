-- ===== src/Indexer/MemStore/Generations.antt =====
-- The generations of the query indexes and the bootstrap catalogs:
-- packages/syntrix/internal/indexer/mem_store/projection.go and store.go, without the lock. A set of
-- strings is a list here.
use syntrix.Common.{
  Bool, true, false, not, ◌&&◌, ◌||◌, Option, none, some, List, [], ◌∷◌, Bytes, codes, bytes_eq,
  if◌then◌else◌, Assoc, lookup, put, remove, KeyedMap, find, set, drop_keys, Result, ok, err,
}
use syntrix.Indexer.Store.{
  QueryIndexRef, ref_eq, Generation, BootstrapCatalog, StoreError, incomplete_identity,
  plural_required, other_catalog, is_nil, is_incomplete, contains, own_bootstrap_catalog,
  own_bootstrap_catalogs, resolve_generation,
}
use syntrix.Indexer.MemStore.Tree.{BTree}
use syntrix.Indexer.MemStore.Projections.{
  GenerationKey, key_eq, generation_identity, Store, progressed, projection_index,
}

-- A catalog that has the template under another generation.
abbrev pub is_other : Option BootstrapCatalog → QueryIndexRef → Bool
is_other none ref = false
is_other (some c) ref =
    not (bytes_eq c.generation ref.generation)
    && contains ref.template_fingerprint c.template_fingerprints

-- Store.ReadGeneration
unfoldable pub read_generation :
    {Tree : Type 0} → Bytes → Bytes → Bytes → Store Tree → Option Generation
unfolding resolve_generation contains
read_generation db collection fingerprint s =
    let catalog = lookup db s.catalogs in
    let g =
      find key_eq (record { database = db; collection = collection; fingerprint = fingerprint })
        s.generations in
    if contains db s.retired_databases then none else elim catalog [
      | none ↦ if s.catalog_inventory_published then none else resolve_generation none fingerprint g
      | some c ↦ resolve_generation (some c) fingerprint g
    ]

-- The new map of PublishBootstrapCatalogs.
unfoldable pub replacement : List BootstrapCatalog → Assoc BootstrapCatalog → Assoc BootstrapCatalog
replacement [] m = m
replacement (c ∷ cs) m = replacement cs (put c.database c m)

-- `delete(s.retiredDatabases, database)` for each database of the map
unfoldable pub still_retired : List BootstrapCatalog → List Bytes → List Bytes
unfolding contains
still_retired cs [] = []
still_retired cs (db ∷ dbs) =
    let rest = still_retired cs dbs in
    elim (lookup db (replacement cs [])) [ some c ↦ rest | none ↦ db ∷ rest ]

abbrev pub has_generation : Bytes → Option Generation → Bool
has_generation id none = is_nil id
has_generation id (some g) = bytes_eq g.id id

-- The generation that a catalog keeps when its partition is deleted.
abbrev pub without_partition :
    QueryIndexRef
    → Option BootstrapCatalog
    → KeyedMap GenerationKey Generation
    → KeyedMap GenerationKey Generation
without_partition ref none generations = generations
without_partition ref (some c) generations =
    if bytes_eq c.generation ref.generation
      && contains ref.template_fingerprint c.template_fingerprints
    then set key_eq (generation_identity ref)
        (record {
          id = ref.generation;
          ready = false;
          bootstrap_progress = c.bootstrap_progress;
          failure = codes "index partition deleted";
        })
        generations
    else generations

abbrev pub failed_generation : QueryIndexRef → Bytes → Option Generation → Generation
failed_generation ref failure none = record {
  id = ref.generation;
  ready = false;
  bootstrap_progress = [];
  failure = failure;
}
failed_generation ref failure (some g) =
    if bytes_eq g.id ref.generation
    then record g { ready = false; failure = failure }
    else record { id = ref.generation; ready = false; bootstrap_progress = []; failure = failure }

module _ {Tree : Type 0} where
  -- Store.PublishBootstrapCatalog
  unfoldable pub publish_bootstrap_catalog :
      BootstrapCatalog → Store Tree → Result StoreError (Store Tree)
  unfolding own_bootstrap_catalog
  publish_bootstrap_catalog catalog s = elim (own_bootstrap_catalog catalog) [
    | err e ↦ err e
    | ok owned ↦
        if s.catalog_inventory_published
        then err plural_required
        else ok (record s {
          catalogs = put catalog.database owned s.catalogs;
          progress = progressed catalog.bootstrap_progress s.progress;
        })
  ]

  -- Store.PublishBootstrapCatalogs
  unfoldable pub publish_bootstrap_catalogs :
      List BootstrapCatalog → Bytes → Store Tree → Result StoreError (Store Tree)
  unfolding own_bootstrap_catalogs replacement still_retired
  publish_bootstrap_catalogs catalogs progress s = elim (own_bootstrap_catalogs catalogs progress) [
    | err e ↦ err e
    | ok owned ↦ ok (record s {
      catalogs = replacement owned [];
      retired_databases = still_retired owned s.retired_databases;
      catalog_inventory_published = true;
      progress = progress;
    })
  ]

  -- Store.ReadBootstrapCatalog
  abbrev pub read_bootstrap_catalog : Bytes → Store Tree → Option BootstrapCatalog
  read_bootstrap_catalog database s = lookup database s.catalogs

  -- Store.DeleteDatabase
  unfoldable pub delete_database : Bytes → Store Tree → Store Tree
  unfolding contains
  delete_database db s = record s {
    databases = remove db s.databases;
    retired_databases =
        if contains db s.retired_databases then s.retired_databases else db ∷ s.retired_databases;
    catalogs = remove db s.catalogs;
    partitions = drop_keys (λ ref. bytes_eq ref.database db) s.partitions;
    generations = drop_keys (λ key. bytes_eq key.database db) s.generations;
  }

  -- Store.IsDatabaseRetired
  abbrev pub is_database_retired : Bytes → Store Tree → Bool
  is_database_retired db s = contains db s.retired_databases

  -- Store.DeleteQueryIndex
  unfoldable pub delete_query_index : QueryIndexRef → Store Tree → Result StoreError (Store Tree)
  unfolding is_incomplete
  delete_query_index ref s =
      let key = generation_identity ref in
      let less =
        if has_generation ref.generation (find key_eq key s.generations)
        then drop_keys (λ k. key_eq k key) s.generations
        else s.generations in
      if is_incomplete ref
      then err incomplete_identity
      else ok (record s {
        partitions = drop_keys (λ r. ref_eq r ref) s.partitions;
        generations = without_partition ref (lookup ref.database s.catalogs) less;
      })

module _ {Tree : Type 0} (btree : BTree Tree) where
  -- Store.PublishGeneration
  unfoldable pub publish_generation :
      QueryIndexRef → Bytes → Store Tree → Result StoreError (Store Tree)
  unfolding is_incomplete contains
  publish_generation ref progress s =
      if is_incomplete ref
      then err incomplete_identity
      else if is_other (lookup ref.database s.catalogs) ref
      then err other_catalog
      else ok (record s {
        generations =
            set key_eq (generation_identity ref)
              (record {
                id = ref.generation;
                ready = true;
                bootstrap_progress = progress;
                failure = [];
              })
              s.generations;
        partitions = set ref_eq ref (projection_index btree ref s) s.partitions;
        progress = progressed progress s.progress;
      })

  -- Store.SetFailure
  unfoldable pub set_failure : QueryIndexRef → Bytes → Store Tree → Result StoreError (Store Tree)
  unfolding is_incomplete contains
  set_failure ref failure s =
      let key = generation_identity ref in
      if is_incomplete ref || is_nil failure
      then err incomplete_identity
      else if is_other (lookup ref.database s.catalogs) ref
      then ok s
      else ok (record s {
        generations =
            set key_eq key (failed_generation ref failure (find key_eq key s.generations))
              s.generations;
        partitions = set ref_eq ref (projection_index btree ref s) s.partitions;
      })

-- New
abbrev pub new_store : {Tree : Type 0} → Store Tree
new_store = record {
  databases = [];
  progress = [];
  partitions = [];
  generations = [];
  catalogs = [];
  catalog_inventory_published = false;
  retired_databases = [];
}
