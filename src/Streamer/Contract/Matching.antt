-- ===== src/Streamer/Contract/Matching.antt =====
-- Match of packages/syntrix/internal/streamer/manager/manager.go beside the entries: which subscription
-- is told of an event.
use syntrix.Common.{
  ◌≡◌, sym, ap, ◌∙◌, ◌↔◌, ◌⊎◌, inl, inr, Bool, true, false, Option, none, some, List, [], ◌∷◌, ◌++◌,
  Bytes, bytes_eq, bytes_eq_iff, if◌then◌else◌, ◌&&◌, ◌||◌, Assoc, lookup, IsIn, any, IsIn-any,
  found_by, arith, Bool-cases, Option-cases,
}
use syntrix.Streamer.Subscription.{Subscriber, ExpressionSubscriber, get_document_id}
use syntrix.Streamer.Exact.{at, report, report_all, exact_subscribers, match_exact}
use syntrix.Streamer.Exact.Buckets.{bucket, at-put}
use syntrix.Streamer.Exact.Writes.{IsIn-append}
use syntrix.Streamer.Expressions.{compiled_at}
use syntrix.Streamer.Registry.{Manager, is_indexed_exactly}
use syntrix.Streamer.Serving.{evaluate_cel, report_matching, match_expressions, match_event}
use syntrix.Streamer.Contract.{Entries, Holds, subscriber_at}

abbrev is_named : Bytes → Bytes → Subscriber → Bool
is_named g id s = bytes_eq s.gateway_id g && bytes_eq s.id id

IsIn-report :
    (g id : Bytes) (s : Subscriber) (result : Assoc (List Bytes))
    → IsIn id (at g (report s result)) ↔ (IsIn id (at g result) ⊎ (is_named g id s ≡ true))
IsIn-report g id s result = elim (Bool-cases (bytes_eq s.gateway_id g)) [
  | inr b ↦
      rw (at-put s.gateway_id g (at s.gateway_id result ++ (s.id ∷ [])) result, b) ground (arith, b)
  | inl b ↦
      rw
        (
          at-put s.gateway_id g (at s.gateway_id result ++ (s.id ∷ [])) result,
          b,
          (bytes_eq_iff s.gateway_id g).0 b,
        )
        ground (arith, b, bytes_eq_iff s.id id, IsIn-append id (at g result) (s.id ∷ []))
]

IsIn-report_all :
    (g id : Bytes) (ss : List Subscriber) (result : Assoc (List Bytes))
    → IsIn id (at g (report_all ss result))
      ↔ (IsIn id (at g result) ⊎ (any (is_named g id) ss ≡ true))
unfolding report_all any
IsIn-report_all g id [] result = ground arith
IsIn-report_all g id (s ∷ ss) result =
    ground (arith, IsIn-report g id s result, IsIn-report_all g id ss (report s result))

module _ {Program Doc : Type 0} (eval_program : Program → Doc → Option Bool) where
  abbrev is_told : Bytes → Bytes → Doc → ExpressionSubscriber Program → Bool
  is_told g id doc e = is_named g id e.subscriber && evaluate_cel eval_program e doc

  IsIn-report_matching :
      (g id : Bytes) (doc : Doc) (es : List (ExpressionSubscriber Program))
      (result : Assoc (List Bytes))
      → IsIn id (at g (report_matching eval_program es doc result))
        ↔ (IsIn id (at g result) ⊎ (any (is_told g id doc) es ≡ true))
  unfolding report_matching any
  IsIn-report_matching g id doc [] result = ground arith
  IsIn-report_matching g id doc (e ∷ es) result =
      elim (Bool-cases (evaluate_cel eval_program e doc)) [
        | inl b ↦ rw b ground (
          arith,
          IsIn-report g id e.subscriber result,
          IsIn-report_matching g id doc es (report e.subscriber result),
        )
        | inr b ↦ rw b ground (arith, IsIn-report_matching g id doc es result)
      ]

  -- Whether an entry is to be told of an event, on the gateway, of the document in the collection.
  abbrev pub is_wanted :
      Bytes → Bytes → Bytes → Bytes → Doc → Option (ExpressionSubscriber Program) → Bool
  is_wanted g d c doc_id doc none = false
  is_wanted g d c doc_id doc (some e) =
      let s = e.subscriber in
      bytes_eq s.gateway_id g
      && (bytes_eq s.database d
          && (bytes_eq s.collection c
              && (if is_indexed_exactly s
                  then bytes_eq (get_document_id s) doc_id || bytes_eq (get_document_id s) []
                  else evaluate_cel eval_program e doc)))

  module _ (m : Manager Program) (entries : Entries Program) (h : Holds m entries)
      (g d c id doc_id : Bytes) (doc : Doc) where
    IsIn-exact_subscribers :
        (s : Subscriber)
        → IsIn s (exact_subscribers d c doc_id m.exact_matches) ↔ (
            (is_indexed_exactly s ≡ true)
            × ((subscriber_at (entries s.id) ≡ some s)
                × ((s.database ≡ d)
                    × ((s.collection ≡ c)
                        × ((get_document_id s ≡ doc_id) ⊎ (get_document_id s ≡ []))))))
    unfolding exact_subscribers bucket
    IsIn-exact_subscribers s = ground (
      arith,
      IsIn-append s (bucket d c doc_id m.exact_matches) (bucket d c [] m.exact_matches),
      h.exact s d c doc_id,
      h.exact s d c [],
    )

    wanted : Bool
    wanted = is_wanted g d c doc_id doc (entries id)

    exact-wanted :
        (s : Subscriber)
        → IsIn s (exact_subscribers d c doc_id m.exact_matches)
        → is_named g id s ≡ true
        → wanted ≡ true
    unfolding wanted
    exact-wanted s i n =
        let facts = (IsIn-exact_subscribers s).0 i in
        let own : s.id ≡ id = (bytes_eq_iff s.id id).0 (ground (arith, n)) in
        let here : subscriber_at (entries id) ≡ some s =
          ap (λ j. subscriber_at (entries j)) (sym own) ∙ (facts.1).0 in
        elim (Option-cases (entries id)) [
          | inl k ↦ absurd (ground (arith, k, here))
          | inr (e, k) ↦
              let same : e.subscriber ≡ s = ground (arith, k, here) in
              rw (k) rw (same) ground (
                arith,
                facts,
                n,
                bytes_eq_iff s.database d,
                bytes_eq_iff s.collection c,
                bytes_eq_iff (get_document_id s) doc_id,
                bytes_eq_iff (get_document_id s) [],
              )
        ]

    compiled-wanted :
        (e : ExpressionSubscriber Program)
        → IsIn e (compiled_at d c m.expressions)
        → is_told g id doc e ≡ true
        → wanted ≡ true
    unfolding wanted
    compiled-wanted e i n =
        let facts = (h.compiled e d c).0 i in
        let own : e.subscriber.id ≡ id = (bytes_eq_iff e.subscriber.id id).0 (ground (arith, n)) in
        let here : entries id ≡ some e = ap entries (sym own) ∙ (facts.1).0 in
        rw here ground (
          arith,
          facts,
          n,
          bytes_eq_iff e.subscriber.database d,
          bytes_eq_iff e.subscriber.collection c,
        )

    wanted-found :
        (e : ExpressionSubscriber Program)
        → entries id ≡ some e
        → is_wanted g d c doc_id doc (some e) ≡ true
        → (any (is_named g id) (exact_subscribers d c doc_id m.exact_matches) ≡ true)
          ⊎ (any (is_told g id doc) (compiled_at d c m.expressions) ≡ true)
    wanted-found e k w =
        let s = e.subscriber in
        let own : s.id ≡ id = h.own id e k in
        let here : entries s.id ≡ some e = ap entries own ∙ k in
        let named : is_named g id s ≡ true = ground (arith, w, bytes_eq_iff s.id id, own) in
        elim (Bool-cases (is_indexed_exactly s)) [
          | inl t ↦ inl (
              IsIn-any (is_named g id) s (exact_subscribers d c doc_id m.exact_matches)
                ((IsIn-exact_subscribers s).1 (
                  ground (
                    arith,
                    t,
                    w,
                    ap subscriber_at here,
                    bytes_eq_iff s.database d,
                    bytes_eq_iff s.collection c,
                    bytes_eq_iff (get_document_id s) doc_id,
                    bytes_eq_iff (get_document_id s) [],
                  )))
                named)
          | inr f ↦ inr (
              IsIn-any (is_told g id doc) e (compiled_at d c m.expressions)
                ((h.compiled e d c).1 (
                  ground
                    (arith, f, w, here, bytes_eq_iff s.database d, bytes_eq_iff s.collection c)))
                (ground (arith, named, f, w)))
        ]

    pub IsIn-match_event :
        IsIn id (at g (match_event eval_program d c doc_id doc m))
        ↔ (is_wanted g d c doc_id doc (entries id) ≡ true)
    unfolding wanted match_event match_expressions match_exact compiled_at lookup
    IsIn-match_event =
        let exact = exact_subscribers d c doc_id m.exact_matches in
        let compiled = compiled_at d c m.expressions in
        let told : IsIn id (at g (match_event eval_program d c doc_id doc m))
            ↔ ((any (is_named g id) exact ≡ true) ⊎ (any (is_told g id doc) compiled ≡ true)) =
          ground (
            arith,
            IsIn-report_matching g id doc compiled (report_all exact []),
            IsIn-report_all g id exact [],
          ) in
        (
          λ i. elim (told.0 i) [
            | inl a ↦ let (s, (j, n)) = found_by (is_named g id) exact a in exact-wanted s j n
            | inr a ↦
                let (e, (j, n)) = found_by (is_told g id doc) compiled a in compiled-wanted e j n
          ],
          λ w. elim (Option-cases (entries id)) [
            | inl k ↦ absurd (ground (arith, k, w))
            | inr (e, k) ↦ told.1 (wanted-found e k (ap (is_wanted g d c doc_id doc) (sym k) ∙ w))
          ],
        )
