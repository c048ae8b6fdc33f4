-- ===== src/Database/Lookups.antt =====
-- Lookups through the cache: packages/syntrix/internal/core/database/cache.go.
use syntrix.Common.{
  ℕ, ◌+◌, Bool, true, false, Option, none, some, List, [], ◌∷◌, ◌++◌, Bytes, codes, ltb,
  if◌then◌else◌, lookup, put, Result, ok, err,
}
use syntrix.Database.Types.{
  Database, DatabaseError, database_not_found, DatabaseStore, status_active,
}
use syntrix.Database.Cache.{Cache, CacheEntry, evict_if_needed, add_to_cache}

-- The entry of an ID, unless it is missing or has expired.
abbrev pub fresh_entry : ℕ → Option CacheEntry → Option Database
fresh_entry now none = none
fresh_entry now (some entry) = if ltb now entry.expires_at then some entry.db else none

abbrev pub is_negative : ℕ → Option ℕ → Bool
is_negative now none = false
is_negative now (some expires_at) = ltb now expires_at

abbrev remember_missing : ℕ → Bytes → Cache → Cache
remember_missing now key c = record {
  config = c.config;
  id_cache = c.id_cache;
  slug_cache = c.slug_cache;
  negative_cache = put key (now + c.config.negative_ttl) c.negative_cache;
}

abbrev is_not_found : DatabaseError → Bool
is_not_found database_not_found = true
is_not_found _ = false

-- What GetByID and GetBySlug do with the store's answer; `none` only if the eviction does not end.
abbrev cache_answer :
    ℕ
    → Bytes
    → Cache
    → Result DatabaseError Database
    → Option (Result DatabaseError Database × Cache)
cache_answer now key c (ok db) = elim (add_to_cache now db c) [
  | none ↦ none
  | some d ↦ some (ok db, d)
]
cache_answer now key c (err e) =
    if is_not_found e
    then (elim (evict_if_needed now (remember_missing now key c)) [
      | none ↦ none
      | some d ↦ some (err e, d)
    ])
    else some (err e, c)

-- The rest of a lookup behind the search for a fresh entry.
abbrev look_up :
    ℕ
    → Bytes
    → Cache
    → Option Database
    → Result DatabaseError Database
    → Option (Result DatabaseError Database × Cache)
look_up now key c (some db) answer = some (ok db, c)
look_up now key c none answer =
    if is_negative now (lookup key c.negative_cache)
    then some (err database_not_found, c)
    else cache_answer now key c answer

abbrev slug_entry : Cache → Option Bytes → Option CacheEntry
slug_entry c none = none
slug_entry c (some id) = lookup id c.id_cache

module _ {Store : Type 0} (api : DatabaseStore Store) where
  -- Cache.GetByID
  unfoldable pub get_by_id :
      ℕ → Bytes → Store → Cache → Option (Result DatabaseError Database × Cache)
  unfolding add_to_cache
  get_by_id now id store c =
      look_up now (codes "id:" ++ id) c (fresh_entry now (lookup id c.id_cache)) (api.get id store)

  -- Cache.GetBySlug
  unfoldable pub get_by_slug :
      ℕ → Bytes → Store → Cache → Option (Result DatabaseError Database × Cache)
  unfolding add_to_cache
  get_by_slug now slug store c =
      look_up now (codes "slug:" ++ slug) c
        (fresh_entry now (slug_entry c (lookup slug c.slug_cache))) (api.get_by_slug slug store)

  -- The loop of Warm.
  unfoldable pub add_all : ℕ → List Database → Cache → Option Cache
  add_all now [] c = some c
  add_all now (db ∷ dbs) c = elim (add_to_cache now db c) [
    | none ↦ none
    | some d ↦ add_all now dbs d
  ]

  -- Cache.Warm
  unfoldable pub warm : ℕ → Store → Cache → Option (Result DatabaseError Unit × Cache)
  unfolding add_all
  warm now store c =
      elim (api.list
        (record { owner_id = []; status = some status_active; limit = c.config.size; offset = 0 })
        store) [
          | err e ↦ some (err e, c)
          | ok (dbs, total) ↦ elim (add_all now dbs c) [ none ↦ none | some d ↦ some (ok tt, d) ]
        ]
