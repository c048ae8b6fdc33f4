-- ===== src/Database/Cache.antt =====
-- The cache of databases: packages/syntrix/internal/core/database/cache.go, without its lock. An entry
-- holds a pointer; the service writes through it, which `write_through` of the module Service does.
pub mod Eviction
use syntrix.Common.{
  ℕ, zero, suc, ◌+◌, Bool, true, false, not, Option, none, some, List, [], ◌∷◌, ◌++◌, Bytes, codes,
  bytes_eq, ◌&&◌, ◌||◌, ltb, leb, ◌==◌, if◌then◌else◌, length, Assoc, lookup, put, remove, Result,
  ok, err,
}
use syntrix.Database.Types.{
  Database, DatabaseError, database_not_found, DatabaseStore, ListOptions, status_active,
}

-- CacheConfig
pub record CacheConfig : Type 0 where
  pub size : ℕ
  pub ttl : ℕ
  pub negative_ttl : ℕ

-- DefaultCacheConfig
abbrev pub default_cache_config : CacheConfig
default_cache_config = record { size = 1000; ttl = 300000000000; negative_ttl = 30000000000 }

-- cacheEntry
pub record CacheEntry : Type 0 where
  pub db : Database
  pub expires_at : ℕ

-- Cache
pub record Cache : Type 0 where
  pub config : CacheConfig
  pub id_cache : Assoc CacheEntry
  pub slug_cache : Assoc Bytes
  pub negative_cache : Assoc ℕ

abbrev or_default : ℕ → ℕ → ℕ
or_default value default = if value == 0 then default else value

-- NewCache
unfoldable pub new_cache : CacheConfig → Cache
new_cache config = record {
  config = record {
    size = or_default config.size default_cache_config.size;
    ttl = or_default config.ttl default_cache_config.ttl;
    negative_ttl = or_default config.negative_ttl default_cache_config.negative_ttl;
  };
  id_cache = [];
  slug_cache = [];
  negative_cache = [];
}

-- `if db.Slug != nil { delete(m, prefix + *db.Slug) }`
abbrev pub remove_slug {ℓ} : {V : Type ℓ} → Bytes → Database → Assoc V → Assoc V
remove_slug prefix db m = elim db.slug [ none ↦ m | some slug ↦ remove (prefix ++ slug) m ]

-- The first loop of evictIfNeeded.
unfoldable pub live : ℕ → Assoc ℕ → Assoc ℕ
live now [] = []
live now ((key, expires_at) ∷ m) =
    let rest = live now m in if ltb expires_at now then rest else (key, expires_at) ∷ rest

-- Its second loop, on both maps; the entries left and those to delete keep their order.
unfoldable pub drop_expired : ℕ → Assoc CacheEntry → Assoc Bytes → Assoc CacheEntry × Assoc Bytes
drop_expired now [] slugs = ([], slugs)
drop_expired now ((id, entry) ∷ m) slugs =
    if ltb entry.expires_at now
    then drop_expired now m (remove_slug [] entry.db slugs)
    else ((id, entry) ∷ (drop_expired now m slugs).0, (drop_expired now m slugs).1)

-- The search for the oldest entry: an ID that is empty counts as none, as in the source.
unfoldable pub find_oldest : Assoc CacheEntry → Bytes → ℕ → Bytes
find_oldest [] oldest_id oldest_time = oldest_id
find_oldest ((id, entry) ∷ m) oldest_id oldest_time =
    let newer = find_oldest m oldest_id oldest_time in
    let older = find_oldest m id entry.expires_at in
    if bytes_eq oldest_id [] || ltb entry.expires_at oldest_time then older else newer

-- One round of the last loop.
unfoldable pub evict_oldest : Assoc CacheEntry → Assoc Bytes → Assoc CacheEntry × Assoc Bytes
unfolding find_oldest
evict_oldest m slugs =
    let oldest_id = find_oldest m [] 0 in
    if bytes_eq oldest_id [] then (m, slugs) else (
      remove oldest_id m,
      elim (lookup oldest_id m) [ none ↦ slugs | some entry ↦ remove_slug [] entry.db slugs ],
    )

-- The last loop on fuel; `none` says that the fuel ran out.
unfoldable pub evict :
    ℕ → ℕ → Assoc CacheEntry → Assoc Bytes → Option (Assoc CacheEntry × Assoc Bytes)
unfolding evict_oldest
evict zero size m slugs = if leb (length m) size then some (m, slugs) else none
evict (suc fuel) size m slugs =
    let next = evict fuel size (evict_oldest m slugs).0 (evict_oldest m slugs).1 in
    if leb (length m) size then some (m, slugs) else next

abbrev evicted : Cache → Assoc ℕ → Option (Assoc CacheEntry × Assoc Bytes) → Option Cache
evicted c negative none = none
evicted c negative (some (ids, slugs)) =
    some
      (record { config = c.config; id_cache = ids; slug_cache = slugs; negative_cache = negative })

-- evictIfNeeded
unfoldable pub evict_if_needed : ℕ → Cache → Option Cache
unfolding live drop_expired evict
evict_if_needed now c =
    let kept = drop_expired now c.id_cache c.slug_cache in
    evicted c (live now c.negative_cache) (evict (length kept.0) c.config.size kept.0 kept.1)

-- addToCache
unfoldable pub add_to_cache : ℕ → Database → Cache → Option Cache
unfolding evict_if_needed
add_to_cache now db c = evict_if_needed now (record {
  config = c.config;
  id_cache = put db.id (record { db = db; expires_at = now + c.config.ttl }) c.id_cache;
  slug_cache = elim db.slug [ none ↦ c.slug_cache | some slug ↦ put slug db.id c.slug_cache ];
  negative_cache = remove_slug (codes "slug:") db (remove (codes "id:" ++ db.id) c.negative_cache);
})

-- Cache.Invalidate
unfoldable pub invalidate : Database → Cache → Cache
invalidate db c = record {
  config = c.config;
  id_cache = remove db.id c.id_cache;
  slug_cache = remove_slug [] db c.slug_cache;
  negative_cache = c.negative_cache;
}

abbrev invalidate_entry : Bytes → Option CacheEntry → Cache → Cache
invalidate_entry id none c = c
invalidate_entry id (some entry) c = record {
  config = c.config;
  id_cache = remove id c.id_cache;
  slug_cache = remove_slug [] entry.db c.slug_cache;
  negative_cache = c.negative_cache;
}

-- Cache.InvalidateByID
unfoldable pub invalidate_by_id : Bytes → Cache → Cache
invalidate_by_id id c = invalidate_entry id (lookup id c.id_cache) c

-- Cache.Clear
abbrev pub clear : Cache → Cache
clear c = record { config = c.config; id_cache = []; slug_cache = []; negative_cache = [] }

-- Cache.Size
abbrev pub size_of : Cache → ℕ
size_of c = length c.id_cache
