-- ===== src/Streamer/Exact/Writes.antt =====
-- What one write of the exact index means for the events that it matches:
-- packages/syntrix/internal/streamer/manager/manager.go.
use syntrix.Common.{
  ◌≡◌, refl, sym, ap, ◌∙◌, ◌↔◌, ◌⊎◌, inl, inr, false, List, [], ◌∷◌, ◌++◌, Bytes, bytes_eq,
  bytes_eq_iff, bytes_eq_refl, IsIn, All, Assoc, arith, Bool-cases,
}
use syntrix.Streamer.Subscription.{Subscriber, get_document_id}
use syntrix.Streamer.Exact.{cut, add_exact_match, remove_exact_match, exact_subscribers}
use syntrix.Streamer.Exact.Buckets.{
  bucket, is_at, place, bucket-add_exact_match, bucket-remove_exact_match,
}

-- No subscriber of the list has this ID.
abbrev pub IsFree : Bytes → List Subscriber → Type 0
IsFree id subs = All (λ s. bytes_eq s.id id ≡ false) subs

cut-append :
    (sub : Subscriber) (subs : List Subscriber)
    → IsFree sub.id subs
    → cut sub.id (subs ++ (sub ∷ [])) ≡ subs
unfolding cut
cut-append sub [] h = rw (bytes_eq_refl sub.id) refl
cut-append sub (s ∷ subs) h = rw (h.0) (ap (λ x. s ∷ x) (cut-append sub subs (h.1)))

-- If no subscriber in the place of a new one has its ID, then behind addExactMatch and removeExactMatch
-- of it the list under every database, collection and key is what it was.
pub remove_exact_match-add_exact_match :
    (sub : Subscriber) (d c k : Bytes) (exact : Assoc (Assoc (Assoc (List Subscriber))))
    → IsFree sub.id (bucket sub.database sub.collection (get_document_id sub) exact)
    → bucket d c k (remove_exact_match sub (add_exact_match sub exact)) ≡ bucket d c k exact
remove_exact_match-add_exact_match sub d c k exact h =
    let key = get_document_id sub in
    let own : bucket sub.database sub.collection key (add_exact_match sub exact)
        ≡ bucket sub.database sub.collection key exact ++ (sub ∷ []) =
      bucket-add_exact_match sub sub.database sub.collection key exact
      ∙ rw (bytes_eq_refl sub.database, bytes_eq_refl sub.collection, bytes_eq_refl key) refl in
    bucket-remove_exact_match sub d c k (add_exact_match sub exact)
    ∙ elim (Bool-cases (is_at d c k sub)) [
      | inl b ↦ rw b (ap (cut sub.id) own ∙ cut-append sub _ h ∙ sym (place sub d c k exact b))
      | inr b ↦ rw b (bucket-add_exact_match sub d c k exact ∙ rw b refl)
    ]

pub IsIn-append :
    {A : Type 0} (x : A) (xs ys : List A) → IsIn x (xs ++ ys) ↔ (IsIn x xs ⊎ IsIn x ys)
IsIn-append x [] ys = ground arith
IsIn-append x (y ∷ xs) ys = ground (arith, IsIn-append x xs ys)

pub IsIn-bucket-add :
    (s sub : Subscriber) (d c k : Bytes) (exact : Assoc (Assoc (Assoc (List Subscriber))))
    → IsIn s (bucket d c k (add_exact_match sub exact)) ↔ (
        IsIn s (bucket d c k exact)
        ⊎ ((sub ≡ s) × ((sub.database ≡ d) × ((sub.collection ≡ c) × (get_document_id sub ≡ k)))))
IsIn-bucket-add s sub d c k exact = elim (Bool-cases (is_at d c k sub)) [
  | inl b ↦
      rw (bucket-add_exact_match sub d c k exact, b) rw (sym (place sub d c k exact b)) ground
        (
          arith,
          b,
          IsIn-append s (bucket d c k exact) (sub ∷ []),
          bytes_eq_iff sub.database d,
          bytes_eq_iff sub.collection c,
          bytes_eq_iff (get_document_id sub) k,
        )
  | inr b ↦
      rw (bucket-add_exact_match sub d c k exact, b) ground
        (
          arith,
          b,
          bytes_eq_iff sub.database d,
          bytes_eq_iff sub.collection c,
          bytes_eq_iff (get_document_id sub) k,
        )
]

-- A subscriber is matched by an event behind addExactMatch if and only if it was before, or it is the
-- one that was added, of the event's database and collection, and its document ID is that of the event
-- or empty.
pub exact_subscribers-add_exact_match :
    (s sub : Subscriber) (database collection doc_id : Bytes)
    (exact : Assoc (Assoc (Assoc (List Subscriber))))
    → IsIn s (exact_subscribers database collection doc_id (add_exact_match sub exact)) ↔ (
        IsIn s (exact_subscribers database collection doc_id exact)
        ⊎ ((sub ≡ s)
            × ((sub.database ≡ database)
                × ((sub.collection ≡ collection)
                    × ((get_document_id sub ≡ doc_id) ⊎ (get_document_id sub ≡ []))))))
unfolding exact_subscribers bucket
exact_subscribers-add_exact_match s sub database collection doc_id exact = ground (
  arith,
  IsIn-append s (bucket database collection doc_id exact) (bucket database collection [] exact),
  IsIn-append s (bucket database collection doc_id (add_exact_match sub exact))
      (bucket database collection [] (add_exact_match sub exact)),
  IsIn-bucket-add s sub database collection doc_id exact,
  IsIn-bucket-add s sub database collection [] exact,
)
