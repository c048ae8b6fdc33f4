-- ===== src/Database/Operations/Granted.antt =====
-- What a caller can change: UpdateDatabase and DeleteDatabase of
-- packages/syntrix/internal/core/database/service.go.
use syntrix.Common.{
  ◌≡◌, ◌≢◌, refl, ◌∙◌, ℕ, true, false, Option, none, some, Bytes, ok, err, arith, bytes_eq_refl,
  Result-cases, Option-cases, Bool-cases, inl, inr, Result, codes, subst, bytes_eq_iff, ◌>>◌,
  require, not, ◌⊎◌,
}
use syntrix.Database.Types.{
  Database, DatabaseStore, protected_database, is_protected, status_deleting, DatabaseError,
}
use syntrix.Database.Identifier.{validate_slug, is_empty}
use syntrix.Database.Service.{
  UpdateRequest, Caller, State, write_through, with_texts, check_new_slug, new_slug, check_owner,
  with_limits,
}
use syntrix.Database.Operations.{resolve_identifier, update_database, delete_database, write_update}
use syntrix.Database.Operations.Writes.{outcome-cases, resolve_identifier-store, save-written}

-- A database that has other texts, and a slug only where it had one or where ValidateSlug passes it.
abbrev pub IsRenamed : Database → Database → Type 0
IsRenamed n db =
    (n.id ≡ db.id)
    × ((n.owner_id ≡ db.owner_id)
        × ((n.status ≡ db.status)
            × ((n.max_documents ≡ db.max_documents)
                × ((n.max_storage_bytes ≡ db.max_storage_bytes)
                    × ((n.slug ≡ db.slug)
                        ⊎ ((slug : Bytes) × ((db.slug ≡ none)
                              × ((n.slug ≡ some slug) × (validate_slug slug ≡ ok tt)))))))))

slug-granted :
    (caller : Caller) (given old : Option Bytes)
    → caller.is_admin ≡ false
    → check_new_slug caller given old ≡ ok tt
    → (new_slug given old ≡ old)
      ⊎ ((slug : Bytes) × ((old ≡ none)
            × ((new_slug given old ≡ some slug) × (validate_slug slug ≡ ok tt))))
slug-granted caller none old a h = inl refl
slug-granted caller (some slug) none a h = elim (Bool-cases (is_empty slug)) [
  | inl b ↦ inl (rw b refl)
  | inr b ↦ inr (slug, (refl, (rw b refl, ground (arith, a, b, h))))
]
slug-granted caller (some slug) (some old) a h = inl (ground (arith, h))

module _ {Store : Type 0} (api : DatabaseStore Store) (now : ℕ) where
  -- An update of a resolved database that has passed the checks of the owner and of the slug.
  write_update-IsRenamed :
      (caller : Caller) (req : UpdateRequest) (db : Database) (s t : State Store)
      (r : Result DatabaseError Database)
      → caller.is_admin ≡ false
      → check_new_slug caller req.slug db.slug ≡ ok tt
      → write_update api now caller req db s ≡ some (r, t)
      → ((e : DatabaseError) × ((r ≡ err e) × (t.store ≡ s.store)))
        ⊎ ((n : Database) × ((r ≡ ok n) × ((api.update n s.store ≡ ok t.store) × IsRenamed n db)))
  unfolding write_through
  write_update-IsRenamed caller req db s t r a g h =
      let n = with_limits caller req (with_texts req db) in
      let k = rw a at h in
      let limits = Option-cases req.settings in
      elim (save-written api now n (write_through n (write_through (with_texts req db) s)) t r
        (ground (arith, a, h))) [
          | inl w ↦ inl w
          | inr (e, f) ↦ inr (
            n,
            (
              e,
              (
                f,
                (
                  refl,
                  (
                    refl,
                    (
                      ground (arith, a),
                      (
                        ground (arith, a, limits),
                        (ground (arith, a, limits), slug-granted caller req.slug db.slug a g),
                      ),
                    ),
                  ),
                ),
              ),
            ),
          )
        ]

  -- What a caller who is no administrator can do with UpdateDatabase: it returns an error and the store
  -- is as before, or the identifier resolves to a database of the caller, and the one write of the store
  -- is of a database with the same ID, owner, status and limits, and with the same slug unless there was
  -- none and ValidateSlug passes the new one.
  pub update_database-granted :
      (caller : Caller) (identifier : Bytes) (req : UpdateRequest) (s t : State Store)
      (r : Result DatabaseError Database)
      → caller.is_admin ≡ false
      → update_database api now caller identifier req s ≡ some (r, t)
      → ((e : DatabaseError) × ((r ≡ err e) × (t.store ≡ s.store)))
        ⊎ ((db : Database) × (n : Database) × (s₁ : State Store) × (resolve_identifier api now
                identifier s
              ≡ some (ok db, s₁))
            × (db.owner_id ≡ caller.user_id)
            × (r ≡ ok n)
            × (api.update n s.store ≡ ok t.store)
            × IsRenamed n db)
  unfolding update_database
  update_database-granted caller identifier req s t r a h =
      elim (outcome-cases (resolve_identifier api now identifier s)) [
        | inl e ↦ let k = rw e at h in absurd cc
        | inr (inl (x, s₁, e)) ↦
            inl
              (x, ground (arith, e, h, resolve_identifier-store api now identifier s s₁ (err x) e))
        | inr (inr (db, s₁, e)) ↦
            let same = resolve_identifier-store api now identifier s s₁ (ok db) e in
            elim (Result-cases (check_owner caller db >> check_new_slug caller req.slug db.slug)) [
              | inr (x, g) ↦ inl (x, ground (arith, e, g, h, same))
              | inl (u, g) ↦
                  let k : write_update api now caller req db s₁ ≡ some (r, t) =
                    ground (arith, e, g, h) in
                  let own : db.owner_id ≡ caller.user_id =
                    ground (arith, a, g, bytes_eq_iff db.owner_id caller.user_id) in
                  let slug : check_new_slug caller req.slug db.slug ≡ ok tt = ground (arith, g) in
                  elim (write_update-IsRenamed caller req db s₁ t r a slug k) [
                    | inl (x, (f, w)) ↦ inl (x, (f, w ∙ same))
                    | inr (n, (f, (w, i))) ↦
                        inr
                          (db, n, s₁, e, own, f, subst (λ m. api.update n m ≡ ok t.store) same w, i)
                  ]
            ]
      ]

  -- What DeleteDatabase does for any caller: it returns an error and the store is as before, or the
  -- identifier resolves to a database of the caller, or of anyone if the caller is an administrator,
  -- whose slug is not `default`, and the one write of the store is of this database with the status
  -- `deleting` and nothing else changed.
  pub delete_database-granted :
      (caller : Caller) (identifier : Bytes) (s t : State Store) (r : Result DatabaseError Unit)
      → delete_database api now caller identifier s ≡ some (r, t)
      → ((e : DatabaseError) × ((r ≡ err e) × (t.store ≡ s.store)))
        ⊎ ((db : Database) × (s₁ : State Store) × (resolve_identifier api now identifier s
              ≡ some (ok db, s₁))
            × ((caller.is_admin ≡ true) ⊎ (db.owner_id ≡ caller.user_id))
            × (db.slug ≢ some (codes "default"))
            × (r ≡ ok tt)
            × (api.update (record db { status = status_deleting }) s.store ≡ ok t.store))
  unfolding delete_database write_through
  delete_database-granted caller identifier s t r h =
      elim (outcome-cases (resolve_identifier api now identifier s)) [
        | inl e ↦ let k = rw e at h in absurd cc
        | inr (inl (x, s₁, e)) ↦
            inl
              (x, ground (arith, e, h, resolve_identifier-store api now identifier s s₁ (err x) e))
        | inr (inr (db, s₁, e)) ↦
            let same = resolve_identifier-store api now identifier s s₁ (ok db) e in
            let gone = record db { status = status_deleting } in
            elim (Result-cases
              (check_owner caller db >> require (not (is_protected db)) protected_database)) [
                | inr (x, g) ↦ inl (x, ground (arith, e, g, h, same))
                | inl (u, g) ↦
                    let mine : (caller.is_admin ≡ true) ⊎ (db.owner_id ≡ caller.user_id) =
                      ground (arith, g, bytes_eq_iff db.owner_id caller.user_id) in
                    let free : db.slug ≢ some (codes "default") = λ f.
                      let p = rw f at g in ground (arith, p, bytes_eq_refl (codes "default")) in
                    elim (Result-cases (api.update gone s₁.store)) [
                      | inl (n, f) ↦ inr (
                        db,
                        s₁,
                        e,
                        mine,
                        free,
                        ground (arith, e, g, f, h),
                        subst (λ m. api.update gone m ≡ ok t.store) same
                            (ground (arith, e, g, f, h)),
                      )
                      | inr (x, f) ↦ inl (x, ground (arith, e, g, f, h, same))
                    ]
              ]
      ]
