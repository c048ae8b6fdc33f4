-- ===== src/Streamer/Contract.antt =====
-- What the subscription manager promises: a map from subscription IDs to subscriptions, and the
-- reading of the manager's five maps as that one (packages/syntrix/internal/streamer/manager).
pub mod Indexes
pub mod Additions
pub mod Gateways
pub mod Listings
pub mod Runs
pub mod Matching
use syntrix.Common.{
  ◌≡◌, ◌↔◌, Bool, true, false, Option, none, some, List, Bytes, bytes_eq, if◌then◌else◌, Assoc,
  lookup, IsIn, ◌||◌, Result, ok, err,
}
use syntrix.Streamer.Subscription.{
  Subscriber, ExpressionSubscriber, get_document_id, Filter, GatewaySubscriptions,
}
use syntrix.Streamer.Exact.{at}
use syntrix.Streamer.Exact.Buckets.{bucket}
use syntrix.Streamer.Cuts.{IsDistinct}
use syntrix.Streamer.Expressions.{compiled_at}
use syntrix.Streamer.Registry.{Manager, SubscribeRequest, is_indexed_exactly}

-- Each subscription ID with its subscriber and the program of its filters, if it has one.
abbrev pub Entries : Type 0 → Type 0
Entries Program = Bytes → Option (ExpressionSubscriber Program)

abbrev pub subscriber_at :
    {Program : Type 0} → Option (ExpressionSubscriber Program) → Option Subscriber
subscriber_at none = none
subscriber_at (some e) = some e.subscriber

module _ {Program : Type 0} where
  abbrev pub without : Bytes → Entries Program → Entries Program
  without id entries j = if bytes_eq id j then none else entries j

  abbrev pub with_entry : ExpressionSubscriber Program → Entries Program → Entries Program
  with_entry e entries j = if bytes_eq e.subscriber.id j then some e else entries j

  -- The maps of the manager have the entries, each in its place and once.
  pub record Holds (m : Manager Program) (entries : Entries Program) : Type 0 where
    pub all : (j : Bytes) → lookup j m.all_subs ≡ subscriber_at (entries j)
    pub own :
        (j : Bytes) (e : ExpressionSubscriber Program) → entries j ≡ some e → e.subscriber.id ≡ j
    pub exact :
        (s : Subscriber) (d c k : Bytes)
        → IsIn s (bucket d c k m.exact_matches) ↔ (
            (is_indexed_exactly s ≡ true)
            × ((subscriber_at (entries s.id) ≡ some s)
                × ((s.database ≡ d) × ((s.collection ≡ c) × (get_document_id s ≡ k)))))
    pub exact_once :
        (d c k : Bytes) → IsDistinct (λ (s : Subscriber). s.id) (bucket d c k m.exact_matches)
    pub compiled :
        (e : ExpressionSubscriber Program) (d c : Bytes)
        → IsIn e (compiled_at d c m.expressions) ↔ (
            (is_indexed_exactly e.subscriber ≡ false)
            × ((entries e.subscriber.id ≡ some e)
                × ((e.subscriber.database ≡ d) × (e.subscriber.collection ≡ c))))
    pub compiled_once :
        (d c : Bytes)
        → IsDistinct
            (λ (e : ExpressionSubscriber Program). e.subscriber.id)
            (compiled_at d c m.expressions)

  -- Each gateway has the subscribers of its ID.
  abbrev pub Serves : Assoc GatewaySubscriptions → Entries Program → Type 0
  Serves gateways entries =
      (g j : Bytes) (s : Subscriber)
      → (lookup j (at g gateways) ≡ some s)
        ↔ ((subscriber_at (entries j) ≡ some s) × (s.gateway_id ≡ g))
