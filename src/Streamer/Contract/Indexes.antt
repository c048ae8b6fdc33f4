-- ===== src/Streamer/Contract/Indexes.antt =====
-- The writes of the indexes keep the contract: packages/syntrix/internal/streamer/manager/manager.go.
use syntrix.Common.{
  ◌≡◌, sym, ap, ◌∙◌, ◌↔◌, ◌⊎◌, inl, inr, true, false, none, some, Bytes, bytes_eq, bytes_eq_iff,
  if◌then◌else◌, lookup-remove, IsIn, arith, Bool-cases,
}
use syntrix.Streamer.Subscription.{Subscriber, ExpressionSubscriber, get_document_id}
use syntrix.Streamer.Exact.{remove_exact_match}
use syntrix.Streamer.Exact.Buckets.{bucket, is_at, place, bucket-remove_exact_match}
use syntrix.Streamer.Cuts.{
  IsDistinct, IsIn-cut_by, IsDistinct-cut_by, cut-eq-cut_by, cut_expression-eq-cut_by,
}
use syntrix.Streamer.Expressions.{compiled_at, is_in, compiled_at-remove_expression_match}
use syntrix.Streamer.Registry.{Manager, is_indexed_exactly, remove_expression_match, forget}
use syntrix.Streamer.Contract.{Entries, Holds, without, subscriber_at}

module _ {Program : Type 0} (m : Manager Program) (entries : Entries Program)
    (h : Holds m entries) where
  -- A subscriber of an entry, or of none.
  abbrev IsKnown : Subscriber → Type 0
  IsKnown sub =
      (subscriber_at (entries sub.id) ≡ none) ⊎ (subscriber_at (entries sub.id) ≡ some sub)

  known-eq :
      (sub s : Subscriber)
      → IsKnown sub
      → subscriber_at (entries s.id) ≡ some s
      → bytes_eq s.id sub.id ≡ true
      → s ≡ sub
  known-eq sub s known r b =
      let e : subscriber_at (entries sub.id) ≡ some s =
        ap (λ j. subscriber_at (entries j)) (sym ((bytes_eq_iff s.id sub.id).0 b)) ∙ r in
      elim known [ inl n ↦ absurd (cc) | inr p ↦ cc ]

  -- In a place that is not its own a known subscriber's ID is not in use.
  elsewhere :
      (sub s : Subscriber) (d c k : Bytes)
      → IsKnown sub
      → (is_indexed_exactly sub ≡ false) ⊎ (is_at d c k sub ≡ false)
      → IsIn s (bucket d c k m.exact_matches)
      → bytes_eq s.id sub.id ≡ false
  elsewhere sub s d c k known away i = elim (Bool-cases (bytes_eq s.id sub.id)) [
    | inr b ↦ b
    | inl b ↦
        let at = (h.exact s d c k).0 i in
        let e = known-eq sub s known ((at.1).0) b in
        let t : is_indexed_exactly sub ≡ true = ap is_indexed_exactly (sym e) ∙ at.0 in
        let own : is_at d c k sub ≡ true =
          ap (is_at d c k) (sym e)
          ∙ ground (
            arith,
            at,
            bytes_eq_iff s.database d,
            bytes_eq_iff s.collection c,
            bytes_eq_iff (get_document_id s) k,
          ) in
        elim away [ inl f ↦ absurd (cc) | inr f ↦ absurd (cc) ]
  ]

  removed-exact :
      (sub : Subscriber)
      → IsKnown sub
      → (s : Subscriber) (d c k : Bytes)
      → IsIn s (
          bucket d c k (
            if is_indexed_exactly sub
            then remove_exact_match sub m.exact_matches
            else m.exact_matches))
        ↔ (IsIn s (bucket d c k m.exact_matches) × (bytes_eq s.id sub.id ≡ false))
  removed-exact sub known s d c k = elim (Bool-cases (is_indexed_exactly sub)) [
    | inr f ↦ rw f (λ i. (i, elsewhere sub s d c k known (inl f) i), λ i. i.0)
    | inl t ↦ elim (Bool-cases (is_at d c k sub)) [
      | inr f ↦
          rw (t, bucket-remove_exact_match sub d c k m.exact_matches, f)
            (λ i. (i, elsewhere sub s d c k known (inr f) i), λ i. i.0)
      | inl b ↦
          rw
            (
              t,
              bucket-remove_exact_match sub d c k m.exact_matches,
              b,
              sym (place sub d c k m.exact_matches b),
              cut-eq-cut_by sub.id (bucket d c k m.exact_matches),
            )
            (IsIn-cut_by (λ (x : Subscriber). x.id) sub.id s (bucket d c k m.exact_matches)
              (h.exact_once d c k))
    ]
  ]

  removed-exact_once :
      (sub : Subscriber) (d c k : Bytes)
      → IsDistinct
          (λ (x : Subscriber). x.id)
          (bucket d c k (
            if is_indexed_exactly sub
            then remove_exact_match sub m.exact_matches
            else m.exact_matches))
  removed-exact_once sub d c k = elim (Bool-cases (is_indexed_exactly sub)) [
    | inr f ↦ rw f (h.exact_once d c k)
    | inl t ↦ elim (Bool-cases (is_at d c k sub)) [
      | inr f ↦ rw (t, bucket-remove_exact_match sub d c k m.exact_matches, f) (h.exact_once d c k)
      | inl b ↦
          rw
            (
              t,
              bucket-remove_exact_match sub d c k m.exact_matches,
              b,
              sym (place sub d c k m.exact_matches b),
              cut-eq-cut_by sub.id (bucket d c k m.exact_matches),
            )
            (IsDistinct-cut_by (λ (x : Subscriber). x.id) sub.id (bucket d c k m.exact_matches)
              (h.exact_once d c k))
    ]
  ]

  compiled_elsewhere :
      (sub : Subscriber) (e : ExpressionSubscriber Program) (d c : Bytes)
      → IsKnown sub
      → (is_indexed_exactly sub ≡ true) ⊎ (is_in d c sub ≡ false)
      → IsIn e (compiled_at d c m.expressions)
      → bytes_eq e.subscriber.id sub.id ≡ false
  compiled_elsewhere sub e d c known away i = elim (Bool-cases (bytes_eq e.subscriber.id sub.id)) [
    | inr b ↦ b
    | inl b ↦
        let at = (h.compiled e d c).0 i in
        let r : subscriber_at (entries e.subscriber.id) ≡ some e.subscriber =
          ap subscriber_at ((at.1).0) in
        let q = known-eq sub e.subscriber known r b in
        let t : is_indexed_exactly sub ≡ false = ap is_indexed_exactly (sym q) ∙ at.0 in
        let own : is_in d c sub ≡ true =
          ap (is_in d c) (sym q)
          ∙ ground (
            arith,
            at,
            bytes_eq_iff e.subscriber.database d,
            bytes_eq_iff e.subscriber.collection c,
          ) in
        elim away [ inl f ↦ absurd (cc) | inr f ↦ absurd (cc) ]
  ]

  compiled_place :
      (sub : Subscriber) (d c : Bytes)
      → is_in d c sub ≡ true
      → compiled_at d c m.expressions ≡ compiled_at sub.database sub.collection m.expressions
  compiled_place sub d c b =
      ground (arith, b, bytes_eq_iff sub.database d, bytes_eq_iff sub.collection c)

  removed-compiled :
      (sub : Subscriber)
      → IsKnown sub
      → (e : ExpressionSubscriber Program) (d c : Bytes)
      → IsIn e (
          compiled_at d c (
            if is_indexed_exactly sub
            then m.expressions
            else remove_expression_match sub m.expressions))
        ↔ (IsIn e (compiled_at d c m.expressions) × (bytes_eq e.subscriber.id sub.id ≡ false))
  removed-compiled sub known e d c = elim (Bool-cases (is_indexed_exactly sub)) [
    | inl t ↦ rw t (λ i. (i, compiled_elsewhere sub e d c known (inl t) i), λ i. i.0)
    | inr t ↦ elim (Bool-cases (is_in d c sub)) [
      | inr f ↦
          rw (t, compiled_at-remove_expression_match sub d c m.expressions, f)
            (λ i. (i, compiled_elsewhere sub e d c known (inr f) i), λ i. i.0)
      | inl b ↦
          rw
            (
              t,
              compiled_at-remove_expression_match sub d c m.expressions,
              b,
              sym (compiled_place sub d c b),
              cut_expression-eq-cut_by sub.id (compiled_at d c m.expressions),
            )
            (IsIn-cut_by (λ (x : ExpressionSubscriber Program). x.subscriber.id) sub.id e
              (compiled_at d c m.expressions) (h.compiled_once d c))
    ]
  ]

  removed-compiled_once :
      (sub : Subscriber) (d c : Bytes)
      → IsDistinct
          (λ (x : ExpressionSubscriber Program). x.subscriber.id)
          (compiled_at d c (
            if is_indexed_exactly sub
            then m.expressions
            else remove_expression_match sub m.expressions))
  removed-compiled_once sub d c = elim (Bool-cases (is_indexed_exactly sub)) [
    | inl t ↦ rw t (h.compiled_once d c)
    | inr t ↦ elim (Bool-cases (is_in d c sub)) [
      | inr f ↦
          rw (t, compiled_at-remove_expression_match sub d c m.expressions, f) (h.compiled_once d c)
      | inl b ↦
          rw
            (
              t,
              compiled_at-remove_expression_match sub d c m.expressions,
              b,
              sym (compiled_place sub d c b),
              cut_expression-eq-cut_by sub.id (compiled_at d c m.expressions),
            )
            (IsDistinct-cut_by (λ (x : ExpressionSubscriber Program). x.subscriber.id) sub.id
              (compiled_at d c m.expressions) (h.compiled_once d c))
    ]
  ]

  -- Forgetting a known subscriber takes its entry, and no other.
  pub forget-Holds :
      (sub : Subscriber) → IsKnown sub → Holds (forget sub.id sub m) (without sub.id entries)
  unfolding forget
  forget-Holds sub known = record {
    all = λ j. lookup-remove sub.id j m.all_subs ∙ ground (arith, h.all j);
    own = λ j e r. h.own j e (ground (arith, r));
    exact = λ s d c k. ground (
      arith,
      removed-exact sub known s d c k,
      h.exact s d c k,
      bytes_eq_iff s.id sub.id,
      bytes_eq_iff sub.id s.id,
    );
    exact_once = removed-exact_once sub;
    compiled = λ e d c. ground (
      arith,
      removed-compiled sub known e d c,
      h.compiled e d c,
      bytes_eq_iff e.subscriber.id sub.id,
      bytes_eq_iff sub.id e.subscriber.id,
    );
    compiled_once = removed-compiled_once sub;
  }
