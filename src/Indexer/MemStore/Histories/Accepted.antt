-- ===== src/Indexer/MemStore/Histories/Accepted.antt =====
-- What OwnProjections of packages/syntrix/internal/indexer/store/store.go accepts and keeps.
use syntrix.Common.{
  ◌≡◌, refl, sym, ap, subst, ◌∙◌, inl, inr, Bool, true, false, not, ◌&&◌, ◌||◌, List, [], ◌∷◌,
  Bytes, bytes_eq, bytes_eq_iff, any, if◌then◌else◌, Result, ok, err, Result-cases, arith,
  Bool-cases,
}
use syntrix.Indexer.Store.{
  QueryIndexRef, ref_eq, Projection, StoreError, is_nil, is_incomplete, contains, own_keys,
  own_loop, same_identity, own_projections,
}
use syntrix.Indexer.MemStore.Projections.Postings.{Postings, replaced, all_replaced}
use syntrix.Indexer.MemStore.Histories.{is_whole, is_twin, is_acceptable}

is_nil-bytes_eq : (x : Bytes) → is_nil x ≡ bytes_eq x []
unfolding bytes_eq
is_nil-bytes_eq [] = refl
is_nil-bytes_eq (c ∷ cs) = refl

pub is_whole_lem : (ref : QueryIndexRef) → is_whole ref ≡ not (is_incomplete ref)
unfolding is_incomplete
is_whole_lem ref = ground (
  arith,
  is_nil-bytes_eq ref.database,
  is_nil-bytes_eq ref.collection,
  is_nil-bytes_eq ref.template_fingerprint,
  is_nil-bytes_eq ref.generation,
)

-- The keys that are kept are the keys, whatever was seen before.
abbrev AreKept : List Bytes → List Bytes → Result StoreError (List Bytes) → Type 0
AreKept seen ks (ok os) =
    (any (λ k. bytes_eq k []) ks ≡ false)
    × ((k : Bytes) → (contains k os || contains k seen) ≡ (contains k ks || contains k seen))
AreKept seen ks (err e) = any (λ k. bytes_eq k []) ks ≡ true

kept-skipped :
    (x : Bytes) (seen xs : List Bytes) (r : Result StoreError (List Bytes))
    → is_nil x ≡ false
    → contains x seen ≡ true
    → AreKept seen xs r
    → AreKept seen (x ∷ xs) r
unfolding contains any
kept-skipped x seen xs (ok os) b c (none_empty, h) = (
  ground (arith, b, none_empty, is_nil-bytes_eq x),
  λ k. elim (Bool-cases (bytes_eq x k)) [
    | inl e ↦
        let same : x ≡ k = ground (arith, e, bytes_eq_iff x k) in
        let there : contains k seen ≡ true = ap (λ y. contains y seen) (sym same) ∙ c in
        ground (arith, h k, there, e)
    | inr e ↦ ground (arith, h k, e)
  ],
)
kept-skipped x seen xs (err e) b c h = ground (arith, h)

kept-added :
    (x : Bytes) (seen xs os : List Bytes)
    → is_nil x ≡ false
    → AreKept (x ∷ seen) xs (ok os)
    → AreKept seen (x ∷ xs) (ok (x ∷ os))
unfolding contains any
kept-added x seen xs os b (none_empty, h) =
    (ground (arith, b, none_empty, is_nil-bytes_eq x), λ k. ground (arith, h k))

own_keys-AreKept : (seen ks : List Bytes) → AreKept seen ks (own_keys seen ks)
unfolding own_keys any
own_keys-AreKept seen [] = (refl, λ k. refl)
own_keys-AreKept seen (x ∷ xs) = elim (Bool-cases (is_nil x)) [
  | inl b ↦ rw b ground (arith, b, is_nil-bytes_eq x)
  | inr b ↦ elim (Bool-cases (contains x seen)) [
    | inl c ↦ rw (b, c) (kept-skipped x seen xs (own_keys seen xs) b c (own_keys-AreKept seen xs))
    | inr c ↦
        let rest = own_keys-AreKept (x ∷ seen) xs in
        elim (Result-cases (own_keys (x ∷ seen) xs)) [
          | inl (os, e) ↦
              let h = subst (AreKept (x ∷ seen) xs) e rest in
              rw (b, c, e) (kept-added x seen xs os b h)
          | inr (f, e) ↦
              let h = subst (AreKept (x ∷ seen) xs) e rest in rw (b, c, e) ground (arith, h)
        ]
  ]
]

-- Postings with the same keys.
abbrev pub Same : Postings → Postings → Type 0
Same ps qs = (ref : QueryIndexRef) (id k : Bytes) → contains k (ps ref id) ≡ contains k (qs ref id)

replaced-Same :
    (o p : Projection) (ps qs : Postings)
    → o.index ≡ p.index
    → o.document_id ≡ p.document_id
    → ((k : Bytes) → contains k o.posting_keys ≡ contains k p.posting_keys)
    → Same ps qs
    → Same (replaced o ps) (replaced p qs)
replaced-Same o p ps qs e f h same ref id k =
    rw (e, f)
      elim (Bool-cases (ref_eq p.index ref && bytes_eq p.document_id id)) [
        | inl b ↦ rw b (h k)
        | inr b ↦ rw b (same ref id k)
      ]

abbrev meets : List Projection → List Projection → Bool
meets seen ps = any (λ q. any (same_identity q) seen) ps

meets_cons :
    (p : Projection) (seen ps : List Projection)
    → meets (p ∷ seen) ps ≡ (any (is_twin p) ps || meets seen ps)
unfolding any
meets_cons p seen [] = refl
meets_cons p seen (q ∷ qs) = ground (arith, meets_cons p seen qs)

-- What is accepted, and that it replaces what the projections replace.
abbrev AreOwned : List Projection → List Projection → Result StoreError (List Projection) → Type 0
AreOwned seen ps (ok os) =
    ((is_acceptable ps && not (meets seen ps)) ≡ true)
    × ((xs ys : Postings) → Same xs ys → Same (all_replaced os xs) (all_replaced ps ys))
AreOwned seen ps (err e) = (is_acceptable ps && not (meets seen ps)) ≡ false

contains_nil : (k : Bytes) → contains k [] ≡ false
unfolding contains any
contains_nil k = refl

own_loop-AreOwned : (seen ps : List Projection) → AreOwned seen ps (own_loop seen ps)
unfolding own_loop is_acceptable all_replaced any
own_loop-AreOwned seen [] = (refl, λ xs ys h. h)
own_loop-AreOwned seen (p ∷ ps) =
    let rest = own_loop-AreOwned (p ∷ seen) ps in
    let split = meets_cons p seen ps in
    let kept = own_keys-AreKept [] p.posting_keys in
    let whole = is_whole_lem p.index in
    let named = is_nil-bytes_eq p.document_id in
    elim (Bool-cases (is_incomplete p.index || is_nil p.document_id)) [
      | inl b ↦ rw b ground (arith, b, whole, named)
      | inr b ↦ elim (Bool-cases (any (same_identity p) seen)) [
        | inl c ↦ rw (b, c) ground (arith, c)
        | inr c ↦ elim (Result-cases (own_keys [] p.posting_keys)) [
          | inr (f, e) ↦
              let h = subst (AreKept [] p.posting_keys) e kept in rw (b, c, e) ground (arith, h)
          | inl (keys, e) ↦
              let h = subst (AreKept [] p.posting_keys) e kept in
              elim (Result-cases (own_loop (p ∷ seen) ps)) [
                | inr (f, g) ↦
                    let i = subst (AreOwned (p ∷ seen) ps) g rest in
                    rw (b, c, e, g) ground (arith, i, split)
                | inl (os, g) ↦
                    let i = subst (AreOwned (p ∷ seen) ps) g rest in
                    rw (b, c, e, g)
                      (
                        ground (arith, i.0, split, h.0, b, c, whole, named),
                        λ xs ys same.
                            let o = record p { posting_keys = keys } in
                            let keeps : (k : Bytes) → contains k keys ≡ contains k p.posting_keys =
                              λ k. ground (arith, h.1 k, contains_nil k) in
                            i.1 (replaced o xs) (replaced p ys)
                              (replaced-Same o p xs ys refl refl keeps same),
                      )
              ]
        ]
      ]
    ]

meets_nil : (ps : List Projection) → meets [] ps ≡ false
unfolding any
meets_nil [] = refl
meets_nil (p ∷ ps) = meets_nil ps

-- What OwnProjections accepts replaces the postings of the projections.
pub own_projections-Same :
    (ps : List Projection) (xs ys : Postings)
    → Same xs ys
    → Same
        (elim (own_projections ps) [ ok owned ↦ all_replaced owned xs | err e ↦ xs ])
        (if is_acceptable ps then all_replaced ps ys else ys)
unfolding own_projections
own_projections-Same ps xs ys same =
    let h = own_loop-AreOwned [] ps in
    elim (Result-cases (own_loop [] ps)) [
      | inl (os, e) ↦
          let i = subst (AreOwned [] ps) e h in
          let yes : is_acceptable ps ≡ true = ground (arith, i.0) in rw (e, yes) (i.1 xs ys same)
      | inr (f, e) ↦
          let i = subst (AreOwned [] ps) e h in
          let no : is_acceptable ps ≡ false = ground (arith, i, meets_nil ps) in rw (e, no) same
    ]
