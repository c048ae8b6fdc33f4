-- ===== src/Examples/Databases.antt =====
-- Runs of the database service over a store that is a list.
use syntrix.Common.{
  IsIn, ◌≡◌, ◌≢◌, refl, ◌↔◌, ◌⊎◌, ℕ, ◌≤◌, ◌<◌, Bool, true, false, Option, none, some, List, [], ◌∷◌,
  Bytes, codes, bytes_eq, pos, length, if◌then◌else◌, Result, ok, err, lookup, put, remove, arith,
  any,
}
use syntrix.Database.Types.{
  Database, status_active, other_status, DatabaseError, database_not_found, DatabaseStore,
  status_deleting, invalid_status,
}
use syntrix.Database.Identifier.{
  parse_identifier, validate_slug, validate_slug_for_system, matches_slug, is_reserved_slug, all,
}
use syntrix.Database.Identifier.Slugs.{IsSlug, reserved_words, validate_slug_iff}
use syntrix.Database.Cache.{
  Cache, evict_if_needed, CacheEntry, add_to_cache, evict, drop_expired, live, invalidate,
}
use syntrix.Database.Lookups.{get_by_id}
use syntrix.Database.Cache.Eviction.{evict_if_needed-bound, IsNamed}
use syntrix.Database.Service.{
  Caller, CreateRequest, UpdateRequest, State, database_of, write_through,
}
use syntrix.Database.Operations.{
  get_database, update_database, delete_database, resolve_identifier, create_database,
}
use syntrix.Database.Operations.Access.{create_database-granted}
use syntrix.Database.Operations.Granted.{
  IsRenamed, update_database-granted, delete_database-granted,
}
use syntrix.Database.Operations.Reads.{get_database-granted}
use syntrix.Database.Operations.Refused.{get_database-update_database}

validate_slug_iff_example :
    (validate_slug (codes "my-db") ≡ ok tt)
    ↔ ((codes "my-db" ≡ []) ⊎ (IsSlug (codes "my-db") × (IsIn (codes "my-db") reserved_words → ⊥)))
validate_slug_iff_example = validate_slug_iff (codes "my-db")

abbrev home : Database
home = record {
  id = codes "00aa";
  slug = some (codes "default");
  display_name = codes "Home";
  description = none;
  owner_id = codes "ann";
  created_at = 0;
  updated_at = 0;
  max_documents = pos 0;
  max_storage_bytes = pos 0;
  status = status_active;
}

abbrev find : (Database → Bool) → List Database → Result DatabaseError Database
find p [] = err database_not_found
find p (d ∷ ds) = if p d then ok d else find p ds

abbrev has_slug : Bytes → Option Bytes → Bool
has_slug slug none = false
has_slug slug (some s) = bytes_eq s slug

abbrev store_of_list : DatabaseStore (List Database)
store_of_list = record {
  create = λ d ds. ok (d ∷ ds);
  get = λ id. find (λ d. bytes_eq d.id id);
  get_by_slug = λ slug. find (λ d. has_slug slug d.slug);
  list = λ opts ds. ok (ds, length ds);
  update = λ d ds. ok (d ∷ ds);
  count_by_owner = λ owner ds. ok (length ds);
}

abbrev entry : CacheEntry
entry = record { db = home; expires_at = 50 }

abbrev full_cache : Cache
full_cache = record {
  config = record { size = 1; ttl = 10; negative_ttl = 5 };
  id_cache = (codes "00aa", entry) ∷ (codes "00bb", record { db = home; expires_at = 30 }) ∷ [];
  slug_cache = [];
  negative_cache = [];
}

evict_if_needed-bound_example :
    (d : Cache) × ((evict_if_needed 20 full_cache ≡ some d) × (length d.id_cache ≤ 1))
unfolding IsNamed bytes_eq
evict_if_needed-bound_example = evict_if_needed-bound 20 full_cache (refl, (refl, tt))

abbrev state : State (List Database)
state = record { store = home ∷ []; cache = full_cache; max_databases_per_user = 3 }

abbrev bob : Caller
bob = record { user_id = codes "bob"; is_admin = false }

abbrev root : Caller
root = record { user_id = codes "root"; is_admin = true }

abbrev renaming : UpdateRequest
renaming = record {
  slug = none;
  display_name = some (codes "New");
  description = none;
  status = some other_status;
  settings = none;
}

resolved : resolve_identifier store_of_list 20 (codes "id:00aa") state ≡ some (ok home, state)
unfolding resolve_identifier parse_identifier get_by_id lookup bytes_eq
resolved = refl

abbrev ann : Caller
ann = record { user_id = codes "ann"; is_admin = false }

-- A database without the reserved slug.
abbrev shop : Database
shop = record home { slug = some (codes "shop") }

abbrev shops : State (List Database)
shops = record {
  store = shop ∷ [];
  cache = record {
    config = record { size = 5; ttl = 10; negative_ttl = 5 };
    id_cache = (codes "00aa", record { db = shop; expires_at = 50 }) ∷ [];
    slug_cache = [];
    negative_cache = [];
  };
  max_databases_per_user = 3;
}

renamed :
    (n : Database) × (t : State (List Database)) × (update_database store_of_list 20 ann
        (codes "id:00aa")
        renaming
        shops
      ≡ some (ok n, t))
unfolding update_database resolve_identifier parse_identifier get_by_id lookup bytes_eq
    write_through put invalidate remove
renamed = (_, _, refl)

abbrev answer : Result DatabaseError Database
answer = ok renamed.0

abbrev done : Result DatabaseError Unit
done = ok tt

update_database-granted_example :
    ((e : DatabaseError) × ((answer ≡ err e) × (renamed.1.store ≡ shops.store)))
    ⊎ ((db : Database) × (n : Database) × (s₁ : State (List Database)) × (resolve_identifier
            store_of_list 20
            (codes "id:00aa")
            shops
          ≡ some (ok db, s₁))
        × (db.owner_id ≡ codes "ann")
        × (answer ≡ ok n)
        × (store_of_list.update n shops.store ≡ ok renamed.1.store)
        × IsRenamed n db)
update_database-granted_example =
    update_database-granted store_of_list 20 ann (codes "id:00aa") renaming shops renamed.1 answer
      refl renamed.2

deleted :
    (t : State (List Database)) × (delete_database store_of_list 20 root (codes "id:00aa") shops
      ≡ some (ok tt, t))
unfolding delete_database resolve_identifier parse_identifier get_by_id lookup bytes_eq
    write_through put invalidate remove
deleted = (_, refl)

delete_database-granted_example :
    ((e : DatabaseError) × ((done ≡ err e) × (deleted.0.store ≡ shops.store)))
    ⊎ ((db : Database) × (s₁ : State (List Database)) × (resolve_identifier store_of_list 20
            (codes "id:00aa")
            shops
          ≡ some (ok db, s₁))
        × ((true ≡ true) ⊎ (db.owner_id ≡ codes "root"))
        × (db.slug ≢ some (codes "default"))
        × (done ≡ ok tt)
        × (store_of_list.update (record db { status = status_deleting }) shops.store
            ≡ ok deleted.0.store))
delete_database-granted_example =
    delete_database-granted store_of_list 20 root (codes "id:00aa") shops deleted.0 done deleted.1

get_database-update_database_example :
    (t : State (List Database)) × (seen : Database) × (update_database store_of_list 20 root
        (codes "id:00aa")
        renaming
        state
      ≡ some (err invalid_status, t))
    × (get_database store_of_list 20 root (codes "id:00aa") t ≡ some (ok seen, t))
    × (seen.display_name ≡ codes "New")
    × (t.store ≡ state.store)
unfolding lookup bytes_eq
get_database-update_database_example =
    get_database-update_database store_of_list 20 root (codes "00aa") (codes "New") renaming state
      entry refl refl refl (ground arith) refl refl refl

abbrev shown : Result DatabaseError Database
shown = ok shop

read :
    (t : State (List Database)) × (get_database store_of_list 20 ann (codes "id:00aa") shops
      ≡ some (ok shop, t))
unfolding get_database resolve_identifier parse_identifier get_by_id lookup bytes_eq
read = (_, refl)

get_database-granted_example :
    (read.0.store ≡ shops.store)
    × ((db : Database)
        → shown ≡ ok db
        → (resolve_identifier store_of_list 20 (codes "id:00aa") shops ≡ some (ok db, read.0))
          × ((ann.is_admin ≡ true) ⊎ (db.owner_id ≡ codes "ann")))
get_database-granted_example =
    get_database-granted store_of_list 20 ann (codes "id:00aa") shops read.0 shown read.1

abbrev request : CreateRequest
request = record {
  slug = some (codes "my-db");
  display_name = codes "Mine";
  description = none;
  owner_id = codes "ann";
  settings = none;
}

abbrev mine : Database
mine = database_of (codes "00cc") bob request

abbrev empty_cache : Cache
empty_cache = record {
  config = record { size = 5; ttl = 10; negative_ttl = 5 };
  id_cache = [];
  slug_cache = [];
  negative_cache = [];
}

abbrev before : State (List Database)
before = record { store = home ∷ []; cache = empty_cache; max_databases_per_user = 3 }

abbrev after : State (List Database)
after = record {
  store = mine ∷ home ∷ [];
  cache = record {
    config = record { size = 5; ttl = 10; negative_ttl = 5 };
    id_cache = (codes "00cc", record { db = mine; expires_at = 30 }) ∷ [];
    slug_cache = (codes "my-db", codes "00cc") ∷ [];
    negative_cache = [];
  };
  max_databases_per_user = 3;
}

created : create_database store_of_list 20 (codes "00cc") bob request before ≡ some (ok mine, after)
unfolding create_database add_to_cache evict_if_needed evict drop_expired live put remove
    validate_slug validate_slug_for_system matches_slug is_reserved_slug any bytes_eq all
created = refl

create_database-granted_example :
    (mine.owner_id ≡ codes "bob")
    × ((mine.status ≡ status_active)
        × ((mine.max_documents ≡ pos 0)
            × ((mine.display_name ≢ [])
                × (((slug : Bytes) → mine.slug ≡ some slug → validate_slug slug ≡ ok tt)
                    × ((0 < 3)
                        → (n : ℕ) × ((store_of_list.count_by_owner (codes "bob") (home ∷ []) ≡ ok n)
                            × (n < 3)))))))
create_database-granted_example =
    create_database-granted store_of_list 20 (codes "00cc") bob request before after mine refl
      created
