-- ===== src/Streamer/Registry.antt =====
-- The state of the subscription manager and its removals:
-- packages/syntrix/internal/streamer/manager/manager.go. The module Serving has Subscribe and Match.
use syntrix.Common.{
  ℕ, Bool, Option, none, some, List, [], ◌∷◌, ◌++◌, Bytes, bytes_eq, ◌||◌, if◌then◌else◌, Assoc,
  lookup, put, remove, length,
}
use syntrix.Streamer.Subscription.{
  Filter, Subscriber, is_exact_match, ExpressionSubscriber, GatewaySubscriptions,
  new_gateway_subscriptions, add_subscription, remove_subscription, list_subscriptions,
}
use syntrix.Streamer.Exact.{
  at, is_empty, put_or_delete, add_exact_match, remove_exact_match, count_exact_matches,
}

-- SubscribeRequest
pub record SubscribeRequest : Type 0 where
  pub subscription_id : Bytes
  pub database : Bytes
  pub collection : Bytes
  pub filters : List Filter

-- Why a SubscribeResponse is no success, with the compiler's error.
pub data SubscribeError (CelError : Type 0) : Type 0 where
  already_exists : SubscribeError CelError
  not_configured : SubscribeError CelError
  compile_failed : CelError → SubscribeError CelError

-- Manager, without its lock and its compiler. A missing list of a map is the empty list.
pub record Manager (Program : Type 0) : Type 0 where
  pub exact_matches : Assoc (Assoc (Assoc (List Subscriber)))
  pub expressions : Assoc (Assoc (List (ExpressionSubscriber Program)))
  pub gateways : Assoc GatewaySubscriptions
  pub all_subs : Assoc Subscriber
  pub expression_subs : Assoc (ExpressionSubscriber Program)

abbrev pub new_manager : {Program : Type 0} → Manager Program
new_manager = record {
  exact_matches = [];
  expressions = [];
  gateways = [];
  all_subs = [];
  expression_subs = [];
}

-- getOrCreateGateway, on the map; what it makes is stored by the caller's next write.
abbrev pub get_or_create_gateway : Bytes → Assoc GatewaySubscriptions → GatewaySubscriptions
get_or_create_gateway id gateways = elim (lookup id gateways) [
  | none ↦ new_gateway_subscriptions
  | some gw ↦ gw
]

-- `sub.IsExactMatch() || len(sub.Filters) == 0`
abbrev pub is_indexed_exactly : Subscriber → Bool
is_indexed_exactly sub = is_exact_match sub || is_empty sub.filters

-- The gateways behind `gw.Remove(subscriptionID)`.
abbrev pub without_subscription :
    Bytes → Subscriber → Assoc GatewaySubscriptions → Assoc GatewaySubscriptions
without_subscription id sub gateways = elim (lookup sub.gateway_id gateways) [
  | none ↦ gateways
  | some gw ↦ put sub.gateway_id (remove_subscription id gw) gateways
]

module _ {Program : Type 0} where
  -- The loop that cuts the first expression with this subscriber's ID out of a list.
  unfoldable pub cut_expression :
      Bytes → List (ExpressionSubscriber Program) → List (ExpressionSubscriber Program)
  cut_expression id [] = []
  cut_expression id (s ∷ ss) =
      let rest = cut_expression id ss in if bytes_eq s.subscriber.id id then ss else s ∷ rest

  abbrev pub remove_expression_from :
      Subscriber
      → Option (Assoc (List (ExpressionSubscriber Program)))
      → Assoc (Assoc (List (ExpressionSubscriber Program)))
      → Assoc (Assoc (List (ExpressionSubscriber Program)))
  remove_expression_from sub none expressions = expressions
  remove_expression_from sub (some database_map) expressions =
      put_or_delete sub.database
        (put_or_delete sub.collection (cut_expression sub.id (at sub.collection database_map))
          database_map)
        expressions

  -- removeExpressionMatch, on the map
  unfoldable pub remove_expression_match :
      Subscriber
      → Assoc (Assoc (List (ExpressionSubscriber Program)))
      → Assoc (Assoc (List (ExpressionSubscriber Program)))
  unfolding cut_expression
  remove_expression_match sub expressions =
      remove_expression_from sub (lookup sub.database expressions) expressions

  -- The removal from the indexes and from both maps of subscriptions.
  unfoldable pub forget : Bytes → Subscriber → Manager Program → Manager Program
  forget id sub m =
      let exact = is_indexed_exactly sub in
      record {
        exact_matches = if exact then remove_exact_match sub m.exact_matches else m.exact_matches;
        expressions = if exact then m.expressions else remove_expression_match sub m.expressions;
        gateways = m.gateways;
        all_subs = remove id m.all_subs;
        expression_subs = remove id m.expression_subs;
      }

  abbrev pub with_gateways : Assoc GatewaySubscriptions → Manager Program → Manager Program
  with_gateways gateways m = record {
    exact_matches = m.exact_matches;
    expressions = m.expressions;
    gateways = gateways;
    all_subs = m.all_subs;
    expression_subs = m.expression_subs;
  }

  abbrev pub unsubscribe_found :
      Bytes → Option Subscriber → Manager Program → Option (Manager Program)
  unsubscribe_found id none m = none
  unsubscribe_found id (some sub) m =
      some (forget id sub (with_gateways (without_subscription id sub m.gateways) m))

  -- Manager.Unsubscribe; `none` is the error that there is no such subscription.
  unfoldable pub unsubscribe : Bytes → Manager Program → Option (Manager Program)
  unfolding forget
  unsubscribe id m = unsubscribe_found id (lookup id m.all_subs) m

  -- The loop of UnregisterGateway.
  unfoldable pub forget_all : List Subscriber → Manager Program → Manager Program
  unfolding forget
  forget_all [] m = m
  forget_all (sub ∷ subs) m = forget_all subs (forget sub.id sub m)

  abbrev pub unregister_found :
      Bytes → Option GatewaySubscriptions → Manager Program → Manager Program
  unregister_found id none m = m
  unregister_found id (some gw) m =
      let n = forget_all (list_subscriptions gw) m in with_gateways (remove id n.gateways) n

  -- Manager.UnregisterGateway
  unfoldable pub unregister_gateway : Bytes → Manager Program → Manager Program
  unfolding forget_all
  unregister_gateway id m = unregister_found id (lookup id m.gateways) m

  -- Manager.GetSubscription
  abbrev pub get_subscription : Bytes → Manager Program → Option Subscriber
  get_subscription id m = lookup id m.all_subs

  -- Manager.Stats
  abbrev pub stats : Manager Program → ℕ × (ℕ × (ℕ × ℕ))
  stats m = (
    length m.all_subs,
    (count_exact_matches m.exact_matches, (length m.expression_subs, length m.gateways)),
  )

  -- What Subscribe has written before it looks at the filters.
  abbrev pub registered : Subscriber → Manager Program → Manager Program
  registered sub m = record {
    exact_matches = m.exact_matches;
    expressions = m.expressions;
    gateways =
        put sub.gateway_id (add_subscription sub (get_or_create_gateway sub.gateway_id m.gateways))
          m.gateways;
    all_subs = put sub.id sub m.all_subs;
    expression_subs = m.expression_subs;
  }

  -- The rollback of Subscribe; the gateway's entry stays.
  abbrev pub rolled_back : Subscriber → Manager Program → Manager Program
  rolled_back sub m = record {
    exact_matches = m.exact_matches;
    expressions = m.expressions;
    gateways = without_subscription sub.id sub m.gateways;
    all_subs = remove sub.id m.all_subs;
    expression_subs = m.expression_subs;
  }

  abbrev pub with_exact : Subscriber → Manager Program → Manager Program
  with_exact sub m = record {
    exact_matches = add_exact_match sub m.exact_matches;
    expressions = m.expressions;
    gateways = m.gateways;
    all_subs = m.all_subs;
    expression_subs = m.expression_subs;
  }

  abbrev pub with_expression : Subscriber → Option Program → Manager Program → Manager Program
  with_expression sub program m =
      let compiled : ExpressionSubscriber Program = record {
        subscriber = sub;
        program = program;
      } in
      let database_map = at sub.database m.expressions in
      record {
        exact_matches = m.exact_matches;
        expressions =
            put sub.database
              (put sub.collection (at sub.collection database_map ++ (compiled ∷ [])) database_map)
              m.expressions;
        gateways = m.gateways;
        all_subs = m.all_subs;
        expression_subs = put sub.id compiled m.expression_subs;
      }
