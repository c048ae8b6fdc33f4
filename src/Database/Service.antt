-- ===== src/Database/Service.antt =====
-- The data of the database service and the checks and writes that its operations share:
-- packages/syntrix/internal/core/database/service.go. The module Operations has the operations.
use syntrix.Common.{
  ℕ, Bool, true, not, Option, none, some, List, Bytes, bytes_eq, ◌&&◌, ◌||◌, if◌then◌else◌, lookup,
  put, Result, ok, err, ℤ, pos, require,
}
use syntrix.Database.Types.{
  Database, DatabaseStatus, status_active, status_suspended, status_deleting, other_status,
  is_valid_status, DatabaseSettings, DatabaseError, database_not_found, database_suspended,
  database_deleting, not_owner, slug_immutable,
}
use syntrix.Database.Identifier.{validate_slug, validate_slug_for_system, is_empty}
use syntrix.Database.Cache.{Cache, CacheEntry}

-- CreateRequest
pub record CreateRequest : Type 0 where
  pub slug : Option Bytes
  pub display_name : Bytes
  pub description : Option Bytes
  pub owner_id : Bytes
  pub settings : Option DatabaseSettings

-- UpdateRequest
pub record UpdateRequest : Type 0 where
  pub slug : Option Bytes
  pub display_name : Option Bytes
  pub description : Option Bytes
  pub status : Option DatabaseStatus
  pub settings : Option DatabaseSettings

-- ListResult with its QuotaInfo, the number used and the limit
pub record ListResult : Type 0 where
  pub databases : List Database
  pub total : ℕ
  pub quota : Option (ℕ × ℕ)

-- The caller: its user and whether it is an administrator.
pub record Caller : Type 0 where
  pub user_id : Bytes
  pub is_admin : Bool

-- service: the store, the cache and MaxDatabasesPerUser
pub record State (Store : Type 0) : Type 0 where
  pub store : Store
  pub cache : Cache
  pub max_databases_per_user : ℕ

-- What an operation returns, with the state behind it.
abbrev pub Outcome : Type 0 → Type 0 → Type 0
Outcome Store A = Option (Result DatabaseError A × State Store)

abbrev pub with_cache : {Store : Type 0} → State Store → Cache → State Store
with_cache s c = record {
  store = s.store;
  cache = c;
  max_databases_per_user = s.max_databases_per_user;
}

-- The check of a slug that is given and not empty.
abbrev pub check_slug : Bool → Option Bytes → Result DatabaseError Unit
check_slug is_admin none = ok tt
check_slug is_admin (some slug) =
    if is_admin then validate_slug_for_system slug else validate_slug slug

-- `if isAdmin && req.OwnerID != ""`
abbrev pub owner_of : Caller → CreateRequest → Bytes
owner_of caller req =
    if caller.is_admin && not (is_empty req.owner_id) then req.owner_id else caller.user_id

abbrev pub setting : Bool → Option DatabaseSettings → (DatabaseSettings → ℤ) → ℤ → ℤ
setting is_admin none field old = old
setting is_admin (some settings) field old = if is_admin then field settings else old

-- The database of a request; the times are set by the store.
abbrev pub database_of : Bytes → Caller → CreateRequest → Database
database_of id caller req = record {
  id = id;
  slug = req.slug;
  display_name = req.display_name;
  description = req.description;
  owner_id = owner_of caller req;
  created_at = 0;
  updated_at = 0;
  max_documents = setting caller.is_admin req.settings (λ t. t.max_documents) (pos 0);
  max_storage_bytes = setting caller.is_admin req.settings (λ t. t.max_storage_bytes) (pos 0);
  status = status_active;
}

-- `!isAdmin && db.OwnerID != userID`
abbrev pub check_owner : Caller → Database → Result DatabaseError Unit
check_owner caller db = require (caller.is_admin || bytes_eq db.owner_id caller.user_id) not_owner

-- The checks of an update on the slug.
abbrev pub check_new_slug : Caller → Option Bytes → Option Bytes → Result DatabaseError Unit
check_new_slug caller none old = ok tt
check_new_slug caller (some slug) none =
    if is_empty slug then ok tt else check_slug caller.is_admin (some slug)
check_new_slug caller (some slug) (some old) = require (is_empty slug) slug_immutable

abbrev pub new_slug : Option Bytes → Option Bytes → Option Bytes
new_slug none old = old
new_slug (some slug) old = if is_empty slug then old else some slug

abbrev or_old : {A : Type 0} → Option A → A → A
or_old none old = old
or_old (some a) old = a

abbrev or_else : {A : Type 0} → Option A → Option A → Option A
or_else none old = old
or_else (some a) old = some a

-- The fields that UpdateDatabase writes before it looks at the status.
abbrev pub with_texts : UpdateRequest → Database → Database
with_texts req db = record {
  id = db.id;
  slug = new_slug req.slug db.slug;
  display_name = or_old req.display_name db.display_name;
  description = or_else req.description db.description;
  owner_id = db.owner_id;
  created_at = db.created_at;
  updated_at = db.updated_at;
  max_documents = db.max_documents;
  max_storage_bytes = db.max_storage_bytes;
  status = db.status;
}

-- The fields that only an administrator may write.
abbrev pub with_limits : Caller → UpdateRequest → Database → Database
with_limits caller req db = record {
  id = db.id;
  slug = db.slug;
  display_name = db.display_name;
  description = db.description;
  owner_id = db.owner_id;
  created_at = db.created_at;
  updated_at = db.updated_at;
  max_documents = setting caller.is_admin req.settings (λ t. t.max_documents) db.max_documents;
  max_storage_bytes =
      setting caller.is_admin req.settings (λ t. t.max_storage_bytes) db.max_storage_bytes;
  status = if caller.is_admin then or_old req.status db.status else db.status;
}

abbrev pub with_status : DatabaseStatus → Database → Database
with_status status db = record {
  id = db.id;
  slug = db.slug;
  display_name = db.display_name;
  description = db.description;
  owner_id = db.owner_id;
  created_at = db.created_at;
  updated_at = db.updated_at;
  max_documents = db.max_documents;
  max_storage_bytes = db.max_storage_bytes;
  status = status;
}

abbrev pub is_valid_request : Option DatabaseStatus → Bool
is_valid_request none = true
is_valid_request (some status) = is_valid_status status

abbrev rewritten : Database → Option CacheEntry → Cache → Cache
rewritten db none c = c
rewritten db (some entry) c = record {
  config = c.config;
  id_cache = put db.id (record { db = db; expires_at = entry.expires_at }) c.id_cache;
  slug_cache = c.slug_cache;
  negative_cache = c.negative_cache;
}

-- A write to the resolved database. The entry of its ID, if the cache has one, holds the same pointer.
unfoldable pub write_through : {Store : Type 0} → Database → State Store → State Store
write_through db s = with_cache s (rewritten db (lookup db.id s.cache.id_cache) s.cache)

-- validateResolvedDatabase
unfoldable pub validate_resolved_database : Database → Result DatabaseError Database
validate_resolved_database db = elim db.status [
  | status_active ↦ ok db
  | status_suspended ↦ err database_suspended
  | status_deleting ↦ err database_deleting
  | other_status ↦ err database_not_found
]
