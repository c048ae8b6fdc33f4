-- ===== src/Database/Operations.antt =====
-- The operations of the database service: packages/syntrix/internal/core/database/service.go, over any
-- store. The new ID is an argument of CreateDatabase, since a library makes it; logging has no model.
-- Each operation returns `none` only if the eviction of the cache does not end.
pub mod Access
pub mod Writes
pub mod Granted
pub mod Reads
pub mod Refused
use syntrix.Common.{
  ℕ, Bool, true, false, not, Option, none, some, List, [], ◌∷◌, Bytes, bytes_eq, ◌&&◌, ◌||◌, ltb,
  leb, if◌then◌else◌, Result, ok, err, ◌>>=◌, ◌>>◌, require,
}
use syntrix.Database.Types.{
  Database, DatabaseStatus, status_deleting, DatabaseError, protected_database, quota_exceeded,
  invalid_status, display_name_required, is_protected, ListOptions, DatabaseStore,
}
use syntrix.Database.Identifier.{parse_identifier, Identifier, by_id, by_slug, is_empty}
use syntrix.Database.Cache.{Cache, add_to_cache, invalidate}
use syntrix.Database.Lookups.{get_by_id, get_by_slug}
use syntrix.Database.Service.{
  CreateRequest, UpdateRequest, ListResult, Caller, State, Outcome, with_cache, check_slug,
  owner_of, database_of, check_owner, check_new_slug, with_texts, with_limits, with_status,
  is_valid_request, write_through, validate_resolved_database,
}

abbrev pub finished : {Store A : Type 0} → Result DatabaseError A → State Store → Outcome Store A
finished r s = some (r, s)

-- The next step of an operation, unless it has failed.
abbrev then_do :
    {Store A B : Type 0} → Outcome Store A → (A → State Store → Outcome Store B) → Outcome Store B
then_do none next = none
then_do (some (ok a, s)) next = next a s
then_do (some (err e, s)) next = some (err e, s)

abbrev pub on_cache :
    {Store A : Type 0} → State Store → Option (Result DatabaseError A × Cache) → Outcome Store A
on_cache s none = none
on_cache s (some (r, c)) = some (r, with_cache s c)

abbrev with_store : {Store : Type 0} → State Store → Store → State Store
with_store s store = record {
  store = store;
  cache = s.cache;
  max_databases_per_user = s.max_databases_per_user;
}

-- A call of the store that writes.
abbrev write_store :
    {Store : Type 0} → Result DatabaseError Store → State Store → Outcome Store Unit
write_store (ok store) s = some (ok tt, with_store s store)
write_store (err e) s = some (err e, s)

abbrev is_limited : {Store : Type 0} → Caller → State Store → Bool
is_limited caller s = not caller.is_admin && ltb 0 s.max_databases_per_user

module _ {Store : Type 0} (api : DatabaseStore Store) (now : ℕ) where
  -- resolveIdentifier
  unfoldable pub resolve_identifier : Bytes → State Store → Outcome Store Database
  resolve_identifier identifier s = elim (parse_identifier identifier) [
    | by_id id ↦ on_cache s (get_by_id api now id s.store s.cache)
    | by_slug slug ↦ on_cache s (get_by_slug api now slug s.store s.cache)
  ]

  -- The check of the quota in CreateDatabase.
  abbrev check_quota : Caller → Bytes → State Store → Result DatabaseError Unit
  check_quota caller owner s =
      if is_limited caller s
      then (api.count_by_owner owner s.store >>= λ count.
          require (not (leb s.max_databases_per_user count)) quota_exceeded)
      else ok tt

  -- The checks of CreateDatabase, in its order.
  abbrev pub check_request : Caller → CreateRequest → State Store → Result DatabaseError Unit
  check_request caller req s =
      (require (not (is_empty req.display_name)) display_name_required
        >> check_slug caller.is_admin req.slug)
      >> check_quota caller (owner_of caller req) s

  -- CreateDatabase
  unfoldable pub create_database :
      Bytes → Caller → CreateRequest → State Store → Outcome Store Database
  create_database id caller req s = then_do (finished (check_request caller req s) s) λ ready s₁.
      let db = database_of id caller req in
      then_do (write_store (api.create db s₁.store) s₁) λ created s₂.
        elim (add_to_cache now db s₂.cache) [
          | none ↦ none
          | some c ↦ finished (ok db) (with_cache s₂ c)
        ]

  abbrev quota_info : Caller → State Store → Result DatabaseError (Option (ℕ × ℕ))
  quota_info caller s =
      if is_limited caller s
      then (api.count_by_owner caller.user_id s.store >>= λ count.
          ok (some (count, s.max_databases_per_user)))
      else ok none

  -- ListDatabases, which changes nothing
  unfoldable pub list_databases :
      Caller → ListOptions → State Store → Result DatabaseError ListResult
  list_databases caller opts s =
      api.list
        (record {
          owner_id = if caller.is_admin then opts.owner_id else caller.user_id;
          status = opts.status;
          limit = opts.limit;
          offset = opts.offset;
        })
        s.store
      >>= λ found. quota_info caller s >>= λ quota.
          ok (record { databases = found.0; total = found.1; quota = quota })

  -- GetDatabase
  unfoldable pub get_database : Caller → Bytes → State Store → Outcome Store Database
  get_database caller identifier s =
      then_do (resolve_identifier identifier s)
        λ db s₁. finished (check_owner caller db >> ok db) s₁

  -- The end of UpdateDatabase and of DeleteDatabase: the store is written, and the cache forgets.
  abbrev pub save : Database → State Store → Outcome Store Database
  save db s =
      then_do (write_store (api.update db s.store) s)
        λ saved s₁. finished (ok db) (with_cache s₁ (invalidate db s₁.cache))

  -- What UpdateDatabase does behind its checks; the texts are written before the status is checked.
  abbrev pub write_update : Caller → UpdateRequest → Database → State Store → Outcome Store Database
  write_update caller req db s =
      let texts = with_texts req db in
      let s₁ = write_through texts s in
      then_do
        (finished (require (not caller.is_admin || is_valid_request req.status) invalid_status) s₁)
        λ valid s₂. let final = with_limits caller req texts in save final (write_through final s₂)

  -- UpdateDatabase
  unfoldable pub update_database :
      Caller → Bytes → UpdateRequest → State Store → Outcome Store Database
  update_database caller identifier req s = then_do (resolve_identifier identifier s) λ db s₁.
      then_do (finished (check_owner caller db >> check_new_slug caller req.slug db.slug) s₁)
        λ ready s₂. write_update caller req db s₂

  -- DeleteDatabase
  unfoldable pub delete_database : Caller → Bytes → State Store → Outcome Store Unit
  delete_database caller identifier s = then_do (resolve_identifier identifier s) λ db s₁.
      then_do
        (finished (check_owner caller db >> require (not (is_protected db)) protected_database) s₁)
        λ ready s₂.
          let gone = with_status status_deleting db in
          then_do (save gone (write_through gone s₂)) λ saved s₃. finished (ok tt) s₃

  -- ResolveDatabase
  unfoldable pub resolve_database : Bytes → State Store → Outcome Store Database
  resolve_database identifier s =
      then_do (resolve_identifier identifier s) λ db s₁. finished (validate_resolved_database db) s₁

  -- ResolveDatabaseAuthoritative, which changes nothing
  unfoldable pub resolve_database_authoritative : Bytes → Store → Result DatabaseError Database
  resolve_database_authoritative identifier store =
      elim (parse_identifier identifier) [
        | by_id id ↦ api.get id store
        | by_slug slug ↦ api.get_by_slug slug store
      ]
      >>= validate_resolved_database

  -- ValidateDatabase
  abbrev pub validate_database : Bytes → State Store → Outcome Store Unit
  validate_database identifier s =
      then_do (resolve_database identifier s) λ db s₁. finished (ok tt) s₁
