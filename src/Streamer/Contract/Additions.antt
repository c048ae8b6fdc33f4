-- ===== src/Streamer/Contract/Additions.antt =====
-- A new subscription keeps the contract: packages/syntrix/internal/streamer/manager/manager.go.
use syntrix.Common.{
  ◌≡◌, ◌∙◌, ◌↔◌, ◌⊎◌, inl, inr, true, false, Option, none, [], ◌∷◌, Bytes, bytes_eq, bytes_eq_iff,
  lookup-put, IsIn, arith, Bool-cases,
}
use syntrix.Streamer.Subscription.{Subscriber, ExpressionSubscriber, get_document_id}
use syntrix.Streamer.Exact.Buckets.{bucket, is_at, bucket-add_exact_match}
use syntrix.Streamer.Exact.{add_exact_match}
use syntrix.Streamer.Exact.Writes.{IsIn-append, IsIn-bucket-add}
use syntrix.Streamer.Cuts.{IsDistinct, IsUnused, IsDistinct-append, All-of_IsIn}
use syntrix.Streamer.Expressions.{compiled_at, is_in, compiled_at-with_expression}
use syntrix.Streamer.Registry.{Manager, is_indexed_exactly, registered, with_exact, with_expression}
use syntrix.Streamer.Contract.{Entries, Holds, with_entry}

module _ {Program : Type 0} (m : Manager Program) (entries : Entries Program) (h : Holds m entries)
    (sub : Subscriber) (new : entries sub.id ≡ none) where
  IsUnused-exact :
      (d c k : Bytes) → IsUnused (λ (s : Subscriber). s.id) sub.id (bucket d c k m.exact_matches)
  IsUnused-exact d c k =
      All-of_IsIn (λ s. bytes_eq s.id sub.id ≡ false) (bucket d c k m.exact_matches)
        λ s i. ground (arith, (h.exact s d c k).0 i, bytes_eq_iff s.id sub.id, new)

  IsUnused-compiled :
      (d c : Bytes)
      → IsUnused
          (λ (e : ExpressionSubscriber Program). e.subscriber.id)
          sub.id
          (compiled_at d c m.expressions)
  IsUnused-compiled d c =
      All-of_IsIn (λ e. bytes_eq e.subscriber.id sub.id ≡ false) (compiled_at d c m.expressions)
        λ e i. ground (arith, (h.compiled e d c).0 i, bytes_eq_iff e.subscriber.id sub.id, new)

  added-exact_once :
      (d c k : Bytes)
      → IsDistinct (λ (s : Subscriber). s.id) (bucket d c k (add_exact_match sub m.exact_matches))
  added-exact_once d c k = elim (Bool-cases (is_at d c k sub)) [
    | inr f ↦ rw (bucket-add_exact_match sub d c k m.exact_matches, f) (h.exact_once d c k)
    | inl b ↦
        rw (bucket-add_exact_match sub d c k m.exact_matches, b)
          (IsDistinct-append (λ (s : Subscriber). s.id)
            (bucket sub.database sub.collection (get_document_id sub) m.exact_matches) sub
            (h.exact_once sub.database sub.collection (get_document_id sub))
            (IsUnused-exact sub.database sub.collection (get_document_id sub)))
  ]

  pub with_exact-Holds :
      is_indexed_exactly sub ≡ true
      → Holds
          (with_exact sub (registered sub m))
          (with_entry (record { subscriber = sub; program = none }) entries)
  with_exact-Holds t = record {
    all = λ j. lookup-put sub.id j sub m.all_subs ∙ ground (arith, h.all j);
    own = λ j e r. ground (arith, r, h.own j e, bytes_eq_iff sub.id j);
    exact = λ s d c k. ground (
      arith,
      IsIn-bucket-add s sub d c k m.exact_matches,
      h.exact s d c k,
      bytes_eq_iff sub.id s.id,
      new,
      t,
    );
    exact_once = added-exact_once;
    compiled =
        λ e d c. ground (arith, h.compiled e d c, bytes_eq_iff sub.id e.subscriber.id, new, t);
    compiled_once = h.compiled_once;
  }

  module _ (program : Option Program) where
    entry : ExpressionSubscriber Program
    entry = record { subscriber = sub; program = program }

    added-compiled_once :
        (d c : Bytes)
        → IsDistinct
            (λ (e : ExpressionSubscriber Program). e.subscriber.id)
            (compiled_at d c (with_expression sub program m).expressions)
    added-compiled_once d c = elim (Bool-cases (is_in d c sub)) [
      | inr f ↦ rw (compiled_at-with_expression sub program d c m, f) (h.compiled_once d c)
      | inl b ↦
          rw (compiled_at-with_expression sub program d c m, b)
            (IsDistinct-append (λ (e : ExpressionSubscriber Program). e.subscriber.id)
              (compiled_at sub.database sub.collection m.expressions)
              (record { subscriber = sub; program = program })
              (h.compiled_once sub.database sub.collection)
              (IsUnused-compiled sub.database sub.collection))
    ]

    IsIn-with_expression :
        (e : ExpressionSubscriber Program) (d c : Bytes)
        → IsIn e (compiled_at d c (with_expression sub program m).expressions) ↔ (
            IsIn e (compiled_at d c m.expressions)
            ⊎ ((entry ≡ e) × ((sub.database ≡ d) × (sub.collection ≡ c))))
    unfolding entry
    IsIn-with_expression e d c = elim (Bool-cases (is_in d c sub)) [
      | inr f ↦
          rw (compiled_at-with_expression sub program d c m, f) ground
            (arith, f, bytes_eq_iff sub.database d, bytes_eq_iff sub.collection c)
      | inl b ↦
          let e₁ = (bytes_eq_iff sub.database d).0 (ground (arith, b)) in
          let e₂ = (bytes_eq_iff sub.collection c).0 (ground (arith, b)) in
          rw (compiled_at-with_expression sub program d c m, b) rw (e₁, e₂) ground
            (
              arith,
              IsIn-append e (compiled_at d c m.expressions)
                  (record { subscriber = sub; program = program } ∷ []),
            )
    ]

    pub with_expression-Holds :
        is_indexed_exactly sub ≡ false
        → Holds
            (with_expression sub program (registered sub m))
            (with_entry (record { subscriber = sub; program = program }) entries)
    unfolding entry
    with_expression-Holds f = record {
      all = λ j. lookup-put sub.id j sub m.all_subs ∙ ground (arith, h.all j);
      own = λ j e r. ground (arith, r, h.own j e, bytes_eq_iff sub.id j);
      exact = λ s d c k. ground (arith, h.exact s d c k, bytes_eq_iff sub.id s.id, new, f);
      exact_once = h.exact_once;
      compiled = λ e d c. ground (
        arith,
        IsIn-with_expression e d c,
        h.compiled e d c,
        bytes_eq_iff sub.id e.subscriber.id,
        new,
        f,
      );
      compiled_once = added-compiled_once;
    }
