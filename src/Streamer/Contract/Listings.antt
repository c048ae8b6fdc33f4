-- ===== src/Streamer/Contract/Listings.antt =====
-- The list of a gateway's subscriptions, beside its map:
-- packages/syntrix/internal/streamer/manager/subscriber.go.
use syntrix.Common.{
  ◌≡◌, ◌≢◌, refl, sym, subst, ap, ◌∙◌, ◌↔◌, inl, inr, none, some, List, [], ◌∷◌, Bytes, bytes_eq,
  bytes_eq_iff, if◌then◌else◌, Assoc, lookup, put, remove, lookup-put, lookup-remove, IsIn, arith,
  Bool-cases, Option-cases,
}
use syntrix.Streamer.Subscription.{Subscriber, GatewaySubscriptions, list_subscriptions}
use syntrix.Streamer.Exact.{at}
use syntrix.Streamer.Exact.Buckets.{at-put, at-some}
use syntrix.Streamer.Contract.Gateways.{get_or_create_gateway-eq-at}
use syntrix.Streamer.Registry.{get_or_create_gateway, without_subscription}

pub at-remove :
    {A : Type 0} (k j : Bytes) (m : Assoc (List A))
    → at j (remove k m) ≡ (if bytes_eq k j then [] else at j m)
at-remove k j m = ground (arith, lookup-remove k j m)

-- Each subscription stands under its own ID, and once.
abbrev pub IsListing : GatewaySubscriptions → Type 0
IsListing [] = Unit
IsListing ((k, s) ∷ gw) = (s.id ≡ k) × ((lookup k gw ≡ none) × IsListing gw)

IsListing-put :
    (sub : Subscriber) (gw : GatewaySubscriptions) → IsListing gw → IsListing (put sub.id sub gw)
unfolding put lookup
IsListing-put sub [] l = (refl, (refl, tt))
IsListing-put sub ((k, s) ∷ gw) l = elim (Bool-cases (bytes_eq k sub.id)) [
  | inl b ↦ rw b (sym ((bytes_eq_iff k sub.id).0 b), (l.1))
  | inr b ↦ rw b (
    l.0,
    (
      lookup-put sub.id k sub gw
          ∙ ground (arith, b, (l.1).0, bytes_eq_iff sub.id k, bytes_eq_iff k sub.id),
      IsListing-put sub gw ((l.1).1),
    ),
  )
]

IsListing-remove :
    (id : Bytes) (gw : GatewaySubscriptions) → IsListing gw → IsListing (remove id gw)
unfolding remove lookup
IsListing-remove id [] l = tt
IsListing-remove id ((k, s) ∷ gw) l = elim (Bool-cases (bytes_eq k id)) [
  | inl b ↦ rw b (IsListing-remove id gw ((l.1).1))
  | inr b ↦
      rw b (
        l.0,
        (lookup-remove id k gw ∙ ground (arith, b, (l.1).0), IsListing-remove id gw ((l.1).1)),
      )
]

pub list_subscriptions_iff :
    (s : Subscriber) (gw : GatewaySubscriptions)
    → IsListing gw
    → IsIn s (list_subscriptions gw) ↔ (lookup s.id gw ≡ some s)
unfolding lookup
list_subscriptions_iff s [] l = ground arith
list_subscriptions_iff s ((k, x) ∷ gw) l = elim (Bool-cases (bytes_eq k s.id)) [
  | inl b ↦
      let e : k ≡ s.id = (bytes_eq_iff k s.id).0 b in
      let away : lookup s.id gw ≡ none = ap (λ j. lookup j gw) (sym e) ∙ (l.1).0 in
      rw b (ground (arith, list_subscriptions_iff s gw ((l.1).1), away))
  | inr b ↦
      let other : x ≢ s = λ e.
        absurd (ground (arith, b, l.0, ap (λ (y : Subscriber). y.id) e, bytes_eq_iff k s.id)) in
      rw b (ground (arith, list_subscriptions_iff s gw ((l.1).1), other))
]

module _ (gateways : Assoc GatewaySubscriptions) (l : (g : Bytes) → IsListing (at g gateways)) where
  pub add-IsListing :
      (sub : Subscriber) (g : Bytes)
      → IsListing (
          at g (
            put sub.gateway_id
              (put sub.id sub (get_or_create_gateway sub.gateway_id gateways))
              gateways))
  add-IsListing sub g = elim (Bool-cases (bytes_eq sub.gateway_id g)) [
    | inr b ↦
        rw
          (
            at-put sub.gateway_id g (put sub.id sub (get_or_create_gateway sub.gateway_id gateways))
                gateways,
            b,
          )
          (l g)
    | inl b ↦
        rw
          (
            at-put sub.gateway_id g (put sub.id sub (get_or_create_gateway sub.gateway_id gateways))
                gateways,
            b,
            get_or_create_gateway-eq-at sub.gateway_id gateways,
          )
          (IsListing-put sub (at sub.gateway_id gateways) (l sub.gateway_id))
  ]

  IsListing-found :
      (g : Bytes) (gw : GatewaySubscriptions) → lookup g gateways ≡ some gw → IsListing gw
  IsListing-found g gw e = rw (sym (at-some g gw gateways e)) (l g)

  pub remove-IsListing :
      (id : Bytes) (sub : Subscriber) (g : Bytes)
      → IsListing (at g (without_subscription id sub gateways))
  remove-IsListing id sub g = elim (Option-cases (lookup sub.gateway_id gateways)) [
    | inl n ↦
        let same : without_subscription id sub gateways ≡ gateways = ground (arith, n) in
        subst (λ x. IsListing (at g x)) (sym same) (l g)
    | inr (gw, e) ↦
        let less : without_subscription id sub gateways
            ≡ put sub.gateway_id (remove id gw) gateways =
          ground (arith, e) in
        subst (λ x. IsListing (at g x)) (sym less)
          (subst IsListing (sym (at-put sub.gateway_id g (remove id gw) gateways))
            (elim (Bool-cases (bytes_eq sub.gateway_id g)) [
              | inr b ↦ rw b (l g)
              | inl b ↦ rw b (IsListing-remove id gw (IsListing-found sub.gateway_id gw e))
            ]))
  ]

  pub drop-IsListing : (id g : Bytes) → IsListing (at g (remove id gateways))
  drop-IsListing id g =
      subst IsListing (sym (at-remove id g gateways))
        (elim (Bool-cases (bytes_eq id g)) [ inr b ↦ rw b (l g) | inl b ↦ rw b tt ])
