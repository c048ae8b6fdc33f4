-- ===== src/Database/Operations/Reads.antt =====
-- What a caller can read: GetDatabase of packages/syntrix/internal/core/database/service.go.
use syntrix.Common.{
  ◌≡◌, ap, ◌∙◌, ℕ, true, some, Bytes, ok, err, arith, Result-cases, inl, inr, Result, subst,
  bytes_eq_iff, ◌⊎◌,
}
use syntrix.Database.Types.{Database, DatabaseStore, DatabaseError}
use syntrix.Database.Service.{Caller, State, check_owner}
use syntrix.Database.Operations.{resolve_identifier, get_database, finished}
use syntrix.Database.Operations.Writes.{outcome-cases, resolve_identifier-store}

module _ {Store : Type 0} (api : DatabaseStore Store) (now : ℕ) where
  -- What GetDatabase does for any caller: the store is as before, and it answers only with the database
  -- that the identifier resolves to, which is the caller's own unless the caller is an administrator.
  pub get_database-granted :
      (caller : Caller) (identifier : Bytes) (s t : State Store) (r : Result DatabaseError Database)
      → get_database api now caller identifier s ≡ some (r, t)
      → (t.store ≡ s.store)
        × ((db : Database)
            → r ≡ ok db
            → (resolve_identifier api now identifier s ≡ some (ok db, t))
              × ((caller.is_admin ≡ true) ⊎ (db.owner_id ≡ caller.user_id)))
  unfolding get_database
  get_database-granted caller identifier s t r h =
      elim (outcome-cases (resolve_identifier api now identifier s)) [
        | inl e ↦ let k = rw e at h in absurd cc
        | inr (inl (x, s₁, e)) ↦
            let same = resolve_identifier-store api now identifier s s₁ (err x) e in
            (ground (arith, e, h, same), λ db f. absurd (ground (arith, e, h, f)))
        | inr (inr (found, s₁, e)) ↦
            let same = resolve_identifier-store api now identifier s s₁ (ok found) e in
            elim (Result-cases (check_owner caller found)) [
              | inr (x, g) ↦
                  (ground (arith, e, g, h, same), λ db f. absurd (ground (arith, e, g, h, f)))
              | inl (u, g) ↦
                  let k : finished (ok found) s₁ ≡ some (r, t) = ground (arith, e, g, h) in
                  let own : (caller.is_admin ≡ true) ⊎ (found.owner_id ≡ caller.user_id) =
                    ground (arith, g, bytes_eq_iff found.owner_id caller.user_id) in
                  (
                    ground (arith, k, same),
                    λ db f.
                        let one : found ≡ db = ground (arith, k, f) in
                        let here : s₁ ≡ t = ground (arith, k) in
                        (
                          e ∙ ap (λ d. finished (ok d) s₁) one ∙ ap (finished (ok db)) here,
                          subst (λ d. (caller.is_admin ≡ true) ⊎ (d.owner_id ≡ caller.user_id)) one
                              own,
                        ),
                  )
            ]
      ]
