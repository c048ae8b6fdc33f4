-- ===== src/Database/Operations/Access.antt =====
-- What a caller can create: CreateDatabase of packages/syntrix/internal/core/database/service.go.
use syntrix.Common.{
  [], ◌≡◌, ◌≢◌, refl, sym, ℕ, ◌<◌, false, Option, none, some, Bytes, ok, arith, Result-cases,
  Option-cases, inl, inr, pos,
}
use syntrix.Database.Types.{Database, DatabaseStore, status_active}
use syntrix.Database.Cache.{Cache, add_to_cache}
use syntrix.Database.Identifier.{validate_slug}
use syntrix.Database.Service.{
  CreateRequest, with_cache, Caller, State, check_slug, database_of, owner_of, setting, Outcome,
}
use syntrix.Database.Operations.{create_database, check_request, with_store}

abbrev cached_outcome :
    {Store : Type 0} → Database → State Store → Option Cache → Outcome Store Database
cached_outcome db s none = none
cached_outcome db s (some c) = some (ok db, with_cache s c)

stored :
    {Store : Type 0} (db₀ db : Database) (s₂ s₁ : State Store) (o : Option Cache)
    → cached_outcome db₀ s₂ o ≡ some (ok db, s₁)
    → db₀ ≡ db
stored db₀ db s₂ s₁ none h = absurd cc
stored db₀ db s₂ s₁ (some c) h = cc

module _ {Store : Type 0} (api : DatabaseStore Store) (now : ℕ) where
  create_database-checked :
      (id : Bytes) (caller : Caller) (req : CreateRequest) (s s₁ : State Store) (db : Database)
      → create_database api now id caller req s ≡ some (ok db, s₁)
      → (check_request api now caller req s ≡ ok tt) × (database_of id caller req ≡ db)
  unfolding create_database
  create_database-checked id caller req s s₁ db h =
      elim (Result-cases (check_request api now caller req s)) [
        | inr (e, g) ↦ let k = rw g at h in absurd cc
        | inl (u, g) ↦
            let k = rw g at h in
            elim (Result-cases (api.create (database_of id caller req) s.store)) [
              | inr (e, f) ↦ let l = rw f at k in absurd cc
              | inl (store, f) ↦
                  let l = rw f at k in
                  (
                    g,
                    stored (database_of id caller req) db (with_store s store) s₁
                        (add_to_cache now (database_of id caller req) s.cache) l,
                  )
            ]
      ]

  request-granted :
      (id : Bytes) (caller : Caller) (req : CreateRequest) (s : State Store)
      → caller.is_admin ≡ false
      → check_request api now caller req s ≡ ok tt
      → (owner_of caller req ≡ caller.user_id)
        × ((status_active ≡ status_active)
            × ((setting caller.is_admin req.settings (λ t. t.max_documents) (pos 0) ≡ pos 0)
                × ((req.display_name ≢ [])
                    × (((slug : Bytes) → req.slug ≡ some slug → validate_slug slug ≡ ok tt)
                        × ((0 < s.max_databases_per_user)
                            → (n : ℕ) × ((api.count_by_owner caller.user_id s.store ≡ ok n)
                                × (n < s.max_databases_per_user)))))))
  request-granted id caller req s a g =
      let slug = Result-cases (check_slug false req.slug) in
      let count = Result-cases (api.count_by_owner caller.user_id s.store) in
      (
        ground (arith, a),
        (
          refl,
          (
            ground (arith, a, Option-cases req.settings),
            (
              ground (arith, a, g),
              (
                λ given e. ground (arith, a, g, slug, e),
                λ lt. elim count [
                  | inl (n, e) ↦ (n, (e, ground (arith, a, g, e, lt, slug)))
                  | inr (x, e) ↦ absurd (ground (arith, a, g, e, lt, slug))
                ],
              ),
            ),
          ),
        ),
      )

  -- What a caller who is no administrator can create: the database is the caller's own and active, its
  -- limit of documents is 0, it has a display name, its slug passes ValidateSlug, and before the call
  -- the store counted fewer databases of the caller than the quota, if there is one.
  pub create_database-granted :
      (id : Bytes) (caller : Caller) (req : CreateRequest) (s s₁ : State Store) (db : Database)
      → caller.is_admin ≡ false
      → create_database api now id caller req s ≡ some (ok db, s₁)
      → (db.owner_id ≡ caller.user_id)
        × ((db.status ≡ status_active)
            × ((db.max_documents ≡ pos 0)
                × ((db.display_name ≢ [])
                    × (((slug : Bytes) → db.slug ≡ some slug → validate_slug slug ≡ ok tt)
                        × ((0 < s.max_databases_per_user)
                            → (n : ℕ) × ((api.count_by_owner caller.user_id s.store ≡ ok n)
                                × (n < s.max_databases_per_user)))))))
  create_database-granted id caller req s s₁ db a h =
      let (g, e) = create_database-checked id caller req s s₁ db h in
      rw (sym e) (request-granted id caller req s a g)
