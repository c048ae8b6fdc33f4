-- ===== src/Streamer/Serving.antt =====
-- Subscribe and Match of packages/syntrix/internal/streamer/manager/manager.go. The compiler of CEL
-- expressions and the evaluation of its programs are parameters.
use syntrix.Common.{
  Bool, false, Option, none, some, List, [], ◌∷◌, Bytes, not, if◌then◌else◌, Assoc, lookup, Result,
  ok, err,
}
use syntrix.Streamer.Subscription.{Filter, Subscriber, is_exact_match, ExpressionSubscriber}
use syntrix.Streamer.Exact.{at, is_empty, match_exact, report}
use syntrix.Streamer.Registry.{
  SubscribeRequest, SubscribeError, already_exists, not_configured, compile_failed, Manager,
  registered, rolled_back, with_exact, with_expression,
}

-- The subscriber of a request.
abbrev pub subscriber_of : Bytes → SubscribeRequest → Subscriber
subscriber_of gateway_id req = record {
  id = req.subscription_id;
  gateway_id = gateway_id;
  database = req.database;
  collection = req.collection;
  filters = req.filters;
}

-- addExpressionMatch and the rollback where it fails
abbrev pub add_expression_match :
    {Program CelError : Type 0}
    → Subscriber
    → Result (SubscribeError CelError) (Option Program)
    → Manager Program
    → Result (SubscribeError CelError) Unit × Manager Program
add_expression_match sub (ok program) m = (ok tt, with_expression sub program m)
add_expression_match sub (err e) m = (err e, rolled_back sub m)

module _ {Program CelError : Type 0}
    (compiler : Option (List Filter → Result CelError (Option Program))) where
  -- CompileProtoFilters, with the check that there is a compiler
  abbrev pub compile_filters : List Filter → Result (SubscribeError CelError) (Option Program)
  compile_filters filters = elim compiler [
    | none ↦ err not_configured
    | some compile ↦ elim (compile filters) [
      | ok program ↦ ok program
      | err e ↦ err (compile_failed e)
    ]
  ]

  -- Manager.Subscribe; `ok` is the response with Success.
  unfoldable pub subscribe :
      Bytes
      → SubscribeRequest
      → Manager Program
      → Result (SubscribeError CelError) Unit × Manager Program
  subscribe gateway_id req m = elim (lookup req.subscription_id m.all_subs) [
    | some sub ↦ (err already_exists, m)
    | none ↦
        let sub = subscriber_of gateway_id req in
        let n = registered sub m in
        if is_exact_match sub
        then (ok tt, with_exact sub n)
        else if not (is_empty sub.filters)
        then add_expression_match sub (compile_filters sub.filters) n
        else (ok tt, with_exact sub n)
  ]

module _ {Program Doc : Type 0} (eval_program : Program → Doc → Option Bool) where
  -- evaluateCEL; an evaluation gives `none` for an error and for a value that is no bool.
  abbrev pub evaluate_cel : ExpressionSubscriber Program → Doc → Bool
  evaluate_cel expr_sub doc = elim expr_sub.program [
    | none ↦ false
    | some program ↦ elim (eval_program program doc) [ none ↦ false | some b ↦ b ]
  ]

  -- The loop of matchExpressions.
  unfoldable pub report_matching :
      List (ExpressionSubscriber Program) → Doc → Assoc (List Bytes) → Assoc (List Bytes)
  report_matching [] doc result = result
  report_matching (s ∷ ss) doc result =
      report_matching ss doc (if evaluate_cel s doc then report s.subscriber result else result)

  -- matchExpressions
  unfoldable pub match_expressions :
      Bytes → Bytes → Doc → Manager Program → Assoc (List Bytes) → Assoc (List Bytes)
  unfolding report_matching
  match_expressions database collection doc m result =
      report_matching (at collection (at database m.expressions)) doc result

  -- Manager.Match
  unfoldable pub match_event : Bytes → Bytes → Bytes → Doc → Manager Program → Assoc (List Bytes)
  unfolding match_expressions
  match_event database collection doc_id doc m =
      match_expressions database collection doc m
        (match_exact database collection doc_id m.exact_matches [])
