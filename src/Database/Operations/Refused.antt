-- ===== src/Database/Operations/Refused.antt =====
-- A refused update and a read behind it: UpdateDatabase and GetDatabase of
-- packages/syntrix/internal/core/database/service.go.
use syntrix.Common.{
  ◌++◌, ltb, ◌≡◌, refl, sym, ap, ◌∙◌, ℕ, ◌<◌, true, none, some, Bytes, bytes_eq, ok, err, arith,
  lookup, lookup-put, bytes_eq_refl, codes,
}
use syntrix.Database.Types.{Database, DatabaseStore, invalid_status, other_status}
use syntrix.Database.Cache.{CacheEntry}
use syntrix.Database.Identifier.{parse_identifier}
use syntrix.Database.Lookups.{get_by_id}
use syntrix.Database.Service.{UpdateRequest, Caller, State, write_through, with_texts}
use syntrix.Database.Operations.{resolve_identifier, get_database, update_database}

module _ {Store : Type 0} (api : DatabaseStore Store) (now : ℕ) where
  -- A fresh entry answers a lookup by its ID.
  resolve_identifier-cached :
      (id : Bytes) (s : State Store) (entry : CacheEntry)
      → lookup id s.cache.id_cache ≡ some entry
      → now < entry.expires_at
      → resolve_identifier api now (codes "id:" ++ id) s ≡ some (ok entry.db, s)
  unfolding resolve_identifier parse_identifier get_by_id bytes_eq
  resolve_identifier-cached id s entry c f =
      let fresh : ltb now entry.expires_at ≡ true = ground (arith, f) in rw (c, fresh) refl

  write_through-cached :
      (db : Database) (s : State Store) (entry : CacheEntry)
      → lookup db.id s.cache.id_cache ≡ some entry
      → lookup db.id (write_through db s).cache.id_cache
        ≡ some (record { db = db; expires_at = entry.expires_at })
  unfolding write_through
  write_through-cached db s entry c = rw c (
      lookup-put db.id db.id (record { db = db; expires_at = entry.expires_at }) s.cache.id_cache
      ∙ rw (bytes_eq_refl db.id) refl)

  -- If a database is cached under its own ID and the entry is fresh, an administrator's update by this
  -- ID with a new name, no slug and an unknown status is refused, and a read by this ID at the same
  -- time answers with the new name, although the store is as before.
  pub get_database-update_database :
      (caller : Caller) (id name : Bytes) (req : UpdateRequest) (s : State Store)
      (entry : CacheEntry)
      → caller.is_admin ≡ true
      → lookup id s.cache.id_cache ≡ some entry
      → entry.db.id ≡ id
      → now < entry.expires_at
      → req.slug ≡ none
      → req.display_name ≡ some name
      → req.status ≡ some other_status
      → (t : State Store) × (seen : Database) × (update_database api now caller
            (codes "id:" ++ id)
            req
            s
          ≡ some (err invalid_status, t))
        × (get_database api now caller (codes "id:" ++ id) t ≡ some (ok seen, t))
        × (seen.display_name ≡ name)
        × (t.store ≡ s.store)
  unfolding update_database get_database write_through
  get_database-update_database caller id name req s entry a c e f g n b =
      let texts = with_texts req entry.db in
      let t = write_through texts s in
      let found = resolve_identifier-cached id s entry c f in
      let named = ap (λ k. lookup k s.cache.id_cache) e ∙ c in
      let kept =
        ap (λ k. lookup k t.cache.id_cache) (sym e) ∙ write_through-cached texts s entry named in
      let again =
        resolve_identifier-cached id t (record { db = texts; expires_at = entry.expires_at }) kept
          f in
      (t, texts, rw (found, a, g, b) refl, rw (again, a) refl, rw n refl, refl)
