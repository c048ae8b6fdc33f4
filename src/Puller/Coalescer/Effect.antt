-- ===== src/Puller/Coalescer/Effect.antt =====
-- What a run of events does to one document, and what the coalescer keeps of it.
use syntrix.Common.{
  ◌≡◌, refl, ap, ◌∙◌, Bool, true, false, Option, none, some, List, [], ◌∷◌, Bytes, arith, bytes_eq,
  bytes_eq_iff, if◌then◌else◌, lookup, lookup-put, lookup-remove, Option-cases, inl, inr, ◌&&◌, ◌⊎◌,
}
use syntrix.Puller.Events.{Operation, insert, update, replace, delete, other, StoreChangeEvent}
use syntrix.Puller.Coalescer.{is_delete, merge, store_merged, Pending, key_of, add}

Operation-cases :
    (o : Operation) → (o ≡ insert) ⊎ ((o ≡ update) ⊎ ((o ≡ replace) ⊎ ((o ≡ delete) ⊎ (o ≡ other))))
Operation-cases insert = inl refl
Operation-cases update = inr (inl refl)
Operation-cases replace = inr (inr (inl refl))
Operation-cases delete = inr (inr (inr (inl refl)))
Operation-cases other = inr (inr (inr (inr refl)))

abbrev is_none {ℓ} : {A : Type ℓ} → Option A → Bool
is_none none = true
is_none (some a) = false

abbrev is_some {ℓ} : {A : Type ℓ} → Option A → Bool
is_some none = false
is_some (some a) = true

-- A document's state: `none` if it does not exist, otherwise what the last event carried of it.
abbrev pub State : Type 0 → Type 0
State Doc = Option (Option Doc)

-- Whether an operation can happen in state `s` of a document that was in state `s₀` when the run
-- began: what exists is not inserted, what does not exist is only inserted, and a document that
-- existed at the beginning is not inserted again.
abbrev pub is_legal : {Doc : Type 0} → State Doc → State Doc → Operation → Bool
is_legal s₀ s insert = is_none s && is_none s₀
is_legal s₀ s update = is_some s
is_legal s₀ s replace = is_some s
is_legal s₀ s delete = is_some s
is_legal s₀ s other = false

module _ {Doc Desc : Type 0} where
  abbrev pub apply_event : State Doc → StoreChangeEvent Doc Desc → State Doc
  apply_event s e = if is_delete e.op_type then none else some e.full_document

  -- The state of the document with key `k` behind a run.
  unfoldable pub state_after : Bytes → State Doc → List (StoreChangeEvent Doc Desc) → State Doc
  state_after k s [] = s
  state_after k s (e ∷ es) = state_after k (if bytes_eq (key_of e) k then apply_event s e else s) es

  -- Every event of the document with key `k` is legal.
  abbrev pub IsLegal : Bytes → State Doc → State Doc → List (StoreChangeEvent Doc Desc) → Type 0
  IsLegal k s₀ s [] = Unit
  IsLegal k s₀ s (e ∷ es) =
      (bytes_eq (key_of e) k ≡ true → is_legal s₀ s e.op_type ≡ true)
      × IsLegal k s₀ (if bytes_eq (key_of e) k then apply_event s e else s) es

  abbrev pub apply_pending : State Doc → Option (StoreChangeEvent Doc Desc) → State Doc
  apply_pending s none = s
  apply_pending s (some e) = apply_event s e

  -- The pending event of one document behind one more event of it.
  abbrev pub step :
      Option (StoreChangeEvent Doc Desc)
      → StoreChangeEvent Doc Desc
      → Option (StoreChangeEvent Doc Desc)
  step none e = some e
  step (some p) e = merge p e

  lookup-store_merged :
      (k j : Bytes) (m : Option (StoreChangeEvent Doc Desc)) (c : Pending Doc Desc)
      → lookup k (store_merged j m c) ≡ (if bytes_eq j k then m else lookup k c)
  lookup-store_merged k j none c = lookup-remove j k c
  lookup-store_merged k j (some p) c = lookup-put j k p c

  pub lookup-add :
      (k : Bytes) (e : StoreChangeEvent Doc Desc) (c : Pending Doc Desc)
      → lookup k (add e c) ≡ (if bytes_eq (key_of e) k then step (lookup k c) e else lookup k c)
  unfolding add
  lookup-add k e c = elim (Option-cases (lookup (key_of e) c)) [
    | inl h ↦ rw h (ground (arith, lookup-put (key_of e) k e c, bytes_eq_iff (key_of e) k))
    | inr (p, h) ↦
        rw h (
          ground (arith, lookup-store_merged k (key_of e) (merge p e) c, bytes_eq_iff (key_of e) k))
  ]

  -- The pending event could have happened at the beginning, and leads to the state now.
  abbrev pub Explains : State Doc → Option (StoreChangeEvent Doc Desc) → State Doc → Type 0
  Explains s₀ none s = s₀ ≡ s
  Explains s₀ (some p) s = (is_legal s₀ s₀ p.op_type ≡ true) × (apply_event s₀ p ≡ s)

  pub step-Explains :
      (s₀ s : State Doc) (p : Option (StoreChangeEvent Doc Desc)) (e : StoreChangeEvent Doc Desc)
      → Explains s₀ p s
      → is_legal s₀ s e.op_type ≡ true
      → Explains s₀ (step p e) (apply_event s e)
  unfolding merge
  step-Explains s₀ s none e h l = (ap (λ x. is_legal s₀ x e.op_type) h ∙ l, refl)
  step-Explains s₀ s (some p) e h l =
      ground (
        arith,
        Operation-cases p.op_type,
        Operation-cases e.op_type,
        Option-cases s₀,
        Option-cases s,
      )
