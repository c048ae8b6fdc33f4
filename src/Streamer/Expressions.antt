-- ===== src/Streamer/Expressions.antt =====
-- The lists of compiled subscriptions under one collection, behind their two writes:
-- packages/syntrix/internal/streamer/manager/manager.go.
use syntrix.Common.{
  ◌≡◌, refl, sym, ap, ◌∙◌, Bool, Option, some, List, [], ◌∷◌, ◌++◌, Bytes, bytes_eq, bytes_eq_iff,
  ◌&&◌, if◌then◌else◌, Assoc, lookup, put, arith, Bool-cases, Option-cases, inl, inr,
}
use syntrix.Streamer.Subscription.{Subscriber, ExpressionSubscriber}
use syntrix.Streamer.Exact.{at, put_or_delete}
use syntrix.Streamer.Exact.Buckets.{at-put, at-put_or_delete, at-some, at-none}
use syntrix.Streamer.Registry.{
  Manager, cut_expression, remove_expression_match, remove_expression_from, with_expression,
}

abbrev pub is_in : Bytes → Bytes → Subscriber → Bool
is_in d c sub = bytes_eq sub.database d && bytes_eq sub.collection c

module _ {Program : Type 0} where
  -- The list under a database and a collection.
  unfoldable pub compiled_at :
      Bytes
      → Bytes
      → Assoc (Assoc (List (ExpressionSubscriber Program)))
      → List (ExpressionSubscriber Program)
  compiled_at d c expressions = at c (at d expressions)

  compiled-nested :
      (store : (A : Type 0) → Bytes → List A → Assoc (List A) → Assoc (List A))
      → ((A : Type 0) (k j : Bytes) (v : List A) (m : Assoc (List A))
          → at j (store A k v m) ≡ (if bytes_eq k j then v else at j m))
      → (i j d c : Bytes) (v : List (ExpressionSubscriber Program))
        (expressions : Assoc (Assoc (List (ExpressionSubscriber Program))))
      → at c (at d (store _ i (store _ j v (at i expressions)) expressions))
        ≡ (if bytes_eq i d && bytes_eq j c then v else at c (at d expressions))
  compiled-nested store law i j d c v expressions = elim (Bool-cases (bytes_eq i d)) [
    | inr b ↦ ap (at c) (law _ i d _ expressions) ∙ rw b refl
    | inl b ↦
        ap (at c) (law _ i d _ expressions)
        ∙ rw (b, sym ((bytes_eq_iff i d).0 b)) (law _ j c v (at i expressions))
  ]

  pub compiled_at-with_expression :
      (sub : Subscriber) (program : Option Program) (d c : Bytes) (m : Manager Program)
      → compiled_at d c (with_expression sub program m).expressions ≡ (
          if is_in d c sub
          then compiled_at sub.database sub.collection m.expressions
            ++ (record { subscriber = sub; program = program } ∷ [])
          else compiled_at d c m.expressions)
  unfolding compiled_at
  compiled_at-with_expression sub program d c m =
      compiled-nested (λ A. put) (λ A. at-put) sub.database sub.collection d c _ m.expressions

  pub compiled_at-remove_expression_match :
      (sub : Subscriber) (d c : Bytes)
      (expressions : Assoc (Assoc (List (ExpressionSubscriber Program))))
      → compiled_at d c (remove_expression_match sub expressions) ≡ (
          if is_in d c sub
          then cut_expression sub.id (compiled_at sub.database sub.collection expressions)
          else compiled_at d c expressions)
  unfolding compiled_at remove_expression_match cut_expression lookup
  compiled_at-remove_expression_match sub d c expressions =
      elim (Option-cases (lookup sub.database expressions)) [
        | inl h ↦
            ap (λ o. compiled_at d c (remove_expression_from sub o expressions)) h
            ∙ ground (arith, at-none sub.database expressions h, bytes_eq_iff sub.database d)
        | inr (dm, h) ↦
            ap (λ o. compiled_at d c (remove_expression_from sub o expressions)) h
            ∙ ap (λ x. compiled_at d c (remove_expression_from sub (some x) expressions))
                (sym (at-some sub.database dm expressions h))
            ∙ compiled-nested (λ A. put_or_delete) (λ A. at-put_or_delete) sub.database
                sub.collection d c _ expressions
      ]
