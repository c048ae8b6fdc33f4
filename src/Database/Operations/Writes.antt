-- ===== src/Database/Operations/Writes.antt =====
-- What the steps of an operation write to the store:
-- packages/syntrix/internal/core/database/service.go.
use syntrix.Common.{
  ◌≡◌, refl, ℕ, Option, none, some, Bytes, ok, err, arith, Result-cases, inl, inr, Result, ◌⊎◌,
}
use syntrix.Database.Types.{Database, DatabaseStore, DatabaseError}
use syntrix.Database.Cache.{Cache}
use syntrix.Database.Identifier.{Identifier, by_id, by_slug, parse_identifier}
use syntrix.Database.Lookups.{get_by_id, get_by_slug}
use syntrix.Database.Service.{State, Outcome}
use syntrix.Database.Operations.{resolve_identifier, save, on_cache}

Identifier-cases :
    (i : Identifier) → ((id : Bytes) × (i ≡ by_id id)) ⊎ ((slug : Bytes) × (i ≡ by_slug slug))
Identifier-cases (by_id id) = inl (id, refl)
Identifier-cases (by_slug slug) = inr (slug, refl)

on_cache-store :
    {Store A : Type 0} (s t : State Store) (r : Result DatabaseError A)
    (o : Option (Result DatabaseError A × Cache))
    → on_cache s o ≡ some (r, t)
    → t.store ≡ s.store
on_cache-store s t r none h = absurd cc
on_cache-store s t r (some (x, c)) h = ground (arith, h)

-- The outcomes of a step.
pub outcome-cases :
    {Store A : Type 0} (o : Outcome Store A)
    → (o ≡ none)
      ⊎ (((e : DatabaseError) × (s : State Store) × (o ≡ some (err e, s)))
          ⊎ ((a : A) × (s : State Store) × (o ≡ some (ok a, s))))
outcome-cases none = inl refl
outcome-cases (some (err e, s)) = inr (inl (e, s, refl))
outcome-cases (some (ok a, s)) = inr (inr (a, s, refl))

module _ {Store : Type 0} (api : DatabaseStore Store) (now : ℕ) where
  -- A lookup writes nothing to the store.
  pub resolve_identifier-store :
      (identifier : Bytes) (s t : State Store) (r : Result DatabaseError Database)
      → resolve_identifier api now identifier s ≡ some (r, t)
      → t.store ≡ s.store
  unfolding resolve_identifier
  resolve_identifier-store identifier s t r h =
      elim (Identifier-cases (parse_identifier identifier)) [
        | inl (id, e) ↦
            on_cache-store s t r (get_by_id api now id s.store s.cache) (ground (arith, e, h))
        | inr (slug, e) ↦
            on_cache-store s t r (get_by_slug api now slug s.store s.cache) (ground (arith, e, h))
      ]

  pub save-written :
      (db : Database) (s t : State Store) (r : Result DatabaseError Database)
      → save api now db s ≡ some (r, t)
      → ((e : DatabaseError) × ((r ≡ err e) × (t.store ≡ s.store)))
        ⊎ ((r ≡ ok db) × (api.update db s.store ≡ ok t.store))
  save-written db s t r h = elim (Result-cases (api.update db s.store)) [
    | inl (n, e) ↦ inr (ground (arith, e, h))
    | inr (x, e) ↦ inl (x, ground (arith, e, h))
  ]
