-- ===== src/Streamer/Exact/Buckets.antt =====
-- The lists of the exact index under one document, behind its two writes:
-- packages/syntrix/internal/streamer/manager/manager.go.
use syntrix.Common.{
  ◌≡◌, refl, sym, ap, ap₂, ◌∙◌, Bool, true, none, some, List, [], ◌∷◌, ◌++◌, Bytes, bytes_eq,
  bytes_eq_iff, ◌&&◌, if◌then◌else◌, Assoc, lookup, put, lookup-put, lookup-remove, arith,
  Bool-cases, Option-cases, inl, inr,
}
use syntrix.Streamer.Subscription.{Subscriber, get_document_id}
use syntrix.Streamer.Exact.{
  at, put_or_delete, cut, add_exact_match, remove_exact_match, remove_from_database,
  remove_from_collection,
}

-- The list under a database, a collection and a key.
unfoldable pub bucket :
    Bytes → Bytes → Bytes → Assoc (Assoc (Assoc (List Subscriber))) → List Subscriber
bucket d c k exact = at k (at c (at d exact))

abbrev pub is_at : Bytes → Bytes → Bytes → Subscriber → Bool
is_at d c k sub =
    bytes_eq sub.database d && (bytes_eq sub.collection c && bytes_eq (get_document_id sub) k)

pub at-put :
    {A : Type 0} (k j : Bytes) (v : List A) (m : Assoc (List A))
    → at j (put k v m) ≡ (if bytes_eq k j then v else at j m)
at-put k j v m = ground (arith, lookup-put k j v m)

pub at-put_or_delete :
    {A : Type 0} (k j : Bytes) (v : List A) (m : Assoc (List A))
    → at j (put_or_delete k v m) ≡ (if bytes_eq k j then v else at j m)
at-put_or_delete k j [] m = ground (arith, lookup-remove k j m)
at-put_or_delete k j (x ∷ v) m = at-put k j (x ∷ v) m

-- A write under a database, a collection and a key, by any way of storing a list in a map.
at-nested :
    (store : (A : Type 0) → Bytes → List A → Assoc (List A) → Assoc (List A))
    → ((A : Type 0) (k j : Bytes) (v : List A) (m : Assoc (List A))
        → at j (store A k v m) ≡ (if bytes_eq k j then v else at j m))
    → (i j l d c k : Bytes) (v : List Subscriber) (exact : Assoc (Assoc (Assoc (List Subscriber))))
    → at k
        (at c (at d (store _ i (store _ j (store _ l v (at j (at i exact))) (at i exact)) exact)))
      ≡ (if bytes_eq i d && (bytes_eq j c && bytes_eq l k) then v else at k (at c (at d exact)))
at-nested store law i j l d c k v exact = elim (Bool-cases (bytes_eq i d)) [
  | inr b ↦ ap (λ x. at k (at c x)) (law _ i d _ exact) ∙ rw b refl
  | inl b ↦
      ap (λ x. at k (at c x)) (law _ i d _ exact)
      ∙ rw (b, sym ((bytes_eq_iff i d).0 b))
          elim (Bool-cases (bytes_eq j c)) [
            | inr e ↦ ap (λ x. at k x) (law _ j c _ (at i exact)) ∙ rw e refl
            | inl e ↦
                ap (λ x. at k x) (law _ j c _ (at i exact))
                ∙ rw (e, sym ((bytes_eq_iff j c).0 e)) (law _ l k v (at j (at i exact)))
          ]
]

pub bucket-add_exact_match :
    (sub : Subscriber) (d c k : Bytes) (exact : Assoc (Assoc (Assoc (List Subscriber))))
    → bucket d c k (add_exact_match sub exact) ≡ (
        if is_at d c k sub
        then bucket sub.database sub.collection (get_document_id sub) exact ++ (sub ∷ [])
        else bucket d c k exact)
unfolding bucket add_exact_match
bucket-add_exact_match sub d c k exact =
    at-nested (λ A. put) (λ A. at-put) sub.database sub.collection (get_document_id sub) d c k _
      exact

-- What is stored is what `at` reads, and nothing is read as the empty list.
pub at-some :
    {A : Type 0} (k : Bytes) (v : List A) (m : Assoc (List A)) → lookup k m ≡ some v → at k m ≡ v
at-some k v m h = ground (arith, h)

pub at-none : {A : Type 0} (k : Bytes) (m : Assoc (List A)) → lookup k m ≡ none → at k m ≡ []
at-none k m h = ground (arith, h)

pub place :
    (sub : Subscriber) (d c k : Bytes) (exact : Assoc (Assoc (Assoc (List Subscriber))))
    → is_at d c k sub ≡ true
    → bucket d c k exact ≡ bucket sub.database sub.collection (get_document_id sub) exact
place sub d c k exact b = ground (
  arith,
  b,
  bytes_eq_iff sub.database d,
  bytes_eq_iff sub.collection c,
  bytes_eq_iff (get_document_id sub) k,
)

-- Where the subscriber's list is empty, cutting it out changes nothing.
cut-untouched :
    (sub : Subscriber) (d c k : Bytes) (exact : Assoc (Assoc (Assoc (List Subscriber))))
    → bucket sub.database sub.collection (get_document_id sub) exact ≡ []
    → bucket d c k exact ≡ (
        if is_at d c k sub
        then cut sub.id (bucket sub.database sub.collection (get_document_id sub) exact)
        else bucket d c k exact)
unfolding cut
cut-untouched sub d c k exact h = elim (Bool-cases (is_at d c k sub)) [
  | inr b ↦ rw b refl
  | inl b ↦ rw (b, h) (place sub d c k exact b ∙ h)
]

-- What removeExactMatch makes where it finds both inner maps.
removed :
    (sub : Subscriber)
    → Assoc (Assoc (List Subscriber))
    → Assoc (List Subscriber)
    → Assoc (Assoc (Assoc (List Subscriber)))
    → Assoc (Assoc (Assoc (List Subscriber)))
removed sub dm cm exact =
    put_or_delete sub.database
      (put_or_delete sub.collection
        (put_or_delete (get_document_id sub) (cut sub.id (at (get_document_id sub) cm)) cm) dm)
      exact

pub bucket-remove_exact_match :
    (sub : Subscriber) (d c k : Bytes) (exact : Assoc (Assoc (Assoc (List Subscriber))))
    → bucket d c k (remove_exact_match sub exact) ≡ (
        if is_at d c k sub
        then cut sub.id (bucket sub.database sub.collection (get_document_id sub) exact)
        else bucket d c k exact)
unfolding bucket remove_exact_match removed lookup
bucket-remove_exact_match sub d c k exact =
    let key = get_document_id sub in
    elim (Option-cases (lookup sub.database exact)) [
      | inl h ↦
          ap (λ o. bucket d c k (remove_from_database sub o exact)) h
          ∙ cut-untouched sub d c k exact
              (ap (λ x. at key (at sub.collection x)) (at-none sub.database exact h))
      | inr (dm, h) ↦
          ap (λ o. bucket d c k (remove_from_database sub o exact)) h
          ∙ elim (Option-cases (lookup sub.collection dm)) [
            | inl g ↦
                ap (λ o. bucket d c k (remove_from_collection sub dm o exact)) g
                ∙ cut-untouched sub d c k exact (
                    ap (λ x. at key (at sub.collection x)) (at-some sub.database dm exact h)
                    ∙ ap (at key) (at-none sub.collection dm g))
            | inr (cm, g) ↦
                let e : at sub.database exact ≡ dm = at-some sub.database dm exact h in
                ap (λ o. bucket d c k (remove_from_collection sub dm o exact)) g
                ∙ ap₂ (λ x y. bucket d c k (removed sub x y exact)) (sym e)
                    (sym (ap (at sub.collection) e ∙ at-some sub.collection cm dm g))
                ∙ at-nested (λ A. put_or_delete) (λ A. at-put_or_delete) sub.database sub.collection
                    key d c k _ exact
          ]
    ]
