-- ===== src/Streamer/Contract/Gateways.antt =====
-- The gateways' maps of the manager: packages/syntrix/internal/streamer/manager/manager.go.
use syntrix.Common.{
  ◌≡◌, refl, sym, ap, ◌∙◌, inl, inr, none, some, Bytes, bytes_eq, bytes_eq_iff, if◌then◌else◌, ◌&&◌,
  Assoc, lookup, put, remove, lookup-put, lookup-remove, arith, Bool-cases, Option-cases,
}
use syntrix.Streamer.Subscription.{Subscriber, ExpressionSubscriber, GatewaySubscriptions}
use syntrix.Streamer.Exact.{at}
use syntrix.Streamer.Exact.Buckets.{at-put, at-some, at-none}
use syntrix.Streamer.Registry.{get_or_create_gateway, without_subscription}
use syntrix.Streamer.Contract.{Entries, Serves, without, with_entry, subscriber_at}

-- The gateway that is made or found is the one that `at` reads.
pub get_or_create_gateway-eq-at :
    (id : Bytes) (gateways : Assoc GatewaySubscriptions)
    → get_or_create_gateway id gateways ≡ at id gateways
get_or_create_gateway-eq-at id gateways = ground arith

lookup-at-put :
    (i id g j : Bytes) (sub : Subscriber) (gateways : Assoc GatewaySubscriptions)
    → lookup j (at g (put i (put id sub (get_or_create_gateway i gateways)) gateways))
      ≡ (if bytes_eq i g && bytes_eq id j then some sub else lookup j (at g gateways))
lookup-at-put i id g j sub gateways =
    ap (lookup j) (at-put i g (put id sub (get_or_create_gateway i gateways)) gateways)
    ∙ elim (Bool-cases (bytes_eq i g)) [
      | inr b ↦ rw b refl
      | inl b ↦
          rw (b, get_or_create_gateway-eq-at i gateways, (bytes_eq_iff i g).0 b)
            (lookup-put id j sub (at g gateways))
    ]

lookup-at-without :
    (id g j : Bytes) (sub : Subscriber) (gateways : Assoc GatewaySubscriptions)
    → lookup j (at g (without_subscription id sub gateways))
      ≡ (if bytes_eq sub.gateway_id g && bytes_eq id j then none else lookup j (at g gateways))
unfolding lookup
lookup-at-without id g j sub gateways = elim (Option-cases (lookup sub.gateway_id gateways)) [
  | inl n ↦
      let same : without_subscription id sub gateways ≡ gateways = ground (arith, n) in
      ap (λ x. lookup j (at g x)) same
      ∙ ground (arith, at-none sub.gateway_id gateways n, bytes_eq_iff sub.gateway_id g)
  | inr (gw, e) ↦
      let less : without_subscription id sub gateways ≡ put sub.gateway_id (remove id gw) gateways =
        ground (arith, e) in
      ap (λ x. lookup j (at g x)) less
      ∙ ap (lookup j) (at-put sub.gateway_id g (remove id gw) gateways)
      ∙ elim (Bool-cases (bytes_eq sub.gateway_id g)) [
        | inr b ↦ rw b refl
        | inl b ↦ rw b (
            lookup-remove id j gw
            ∙ ap (λ x. if bytes_eq id j then none else lookup j x)
                (sym (at-some sub.gateway_id gw gateways e)
                  ∙ ap (λ x. at x gateways) ((bytes_eq_iff sub.gateway_id g).0 b)))
      ]
]

module _ {Program : Type 0} (gateways : Assoc GatewaySubscriptions) (entries : Entries Program)
    (h : Serves gateways entries) where
  pub add-Serves :
      (e : ExpressionSubscriber Program)
      → entries e.subscriber.id ≡ none
      → Serves
          (put e.subscriber.gateway_id
            (put e.subscriber.id e.subscriber
              (get_or_create_gateway e.subscriber.gateway_id gateways))
            gateways)
          (with_entry e entries)
  add-Serves e n g j s =
      let k = e.subscriber.gateway_id in
      let made = lookup-at-put k e.subscriber.id g j e.subscriber gateways in
      ground (
        arith,
        made,
        n,
        h g j s,
        bytes_eq_iff e.subscriber.gateway_id g,
        bytes_eq_iff e.subscriber.id j,
      )

  pub remove-Serves :
      (sub : Subscriber)
      → subscriber_at (entries sub.id) ≡ some sub
      → Serves (without_subscription sub.id sub gateways) (without sub.id entries)
  remove-Serves sub k g j s = ground (
    arith,
    lookup-at-without sub.id g j sub gateways,
    k,
    h g j s,
    bytes_eq_iff sub.gateway_id g,
    bytes_eq_iff sub.id j,
  )
