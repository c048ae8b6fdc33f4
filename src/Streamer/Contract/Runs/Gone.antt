-- ===== src/Streamer/Contract/Runs/Gone.antt =====
-- UnregisterGateway of packages/syntrix/internal/streamer/manager/manager.go keeps the entries
-- represented.
use syntrix.Common.{
  ◌≡◌, refl, sym, subst, ap, ◌∙◌, ◌↔◌, ◌⊎◌, inl, inr, Bool, true, none, some, List, [], ◌∷◌, Bytes,
  bytes_eq, bytes_eq_iff, if◌then◌else◌, lookup, remove, IsIn, any, IsIn-any, found_by, arith,
  Bool-cases, Option-cases,
}
use syntrix.Streamer.Subscription.{Subscriber, GatewaySubscriptions, list_subscriptions}
use syntrix.Streamer.Exact.{at}
use syntrix.Streamer.Exact.Buckets.{at-some, at-none}
use syntrix.Streamer.Registry.{
  Manager, unregister_gateway, unregister_found, forget, forget_all, with_gateways,
}
use syntrix.Streamer.Contract.{Entries, Holds, Serves, without, subscriber_at}
use syntrix.Streamer.Contract.Indexes.{forget-Holds}
use syntrix.Streamer.Contract.Listings.{
  IsListing, at-remove, list_subscriptions_iff, drop-IsListing,
}
use syntrix.Streamer.Contract.Runs.{Represents, unless_of_gateway}

-- Whether a subscriber of the list has the ID.
abbrev names : Bytes → List Subscriber → Bool
names j ss = any (λ s. bytes_eq s.id j) ss

module _ {Program : Type 0} where
  unfoldable without_all : List Subscriber → Entries Program → Entries Program
  without_all [] entries = entries
  without_all (s ∷ ss) entries = without_all ss (without s.id entries)

  without_all-at :
      (j : Bytes) (ss : List Subscriber) (entries : Entries Program)
      → without_all ss entries j ≡ (if names j ss then none else entries j)
  unfolding without_all any
  without_all-at j [] entries = refl
  without_all-at j (s ∷ ss) entries = without_all-at j ss (without s.id entries) ∙ ground arith

  forget_all-Holds :
      (ss : List Subscriber) (m : Manager Program) (entries : Entries Program)
      → Holds m entries
      → ((s : Subscriber)
          → IsIn s ss
          → (subscriber_at (entries s.id) ≡ none) ⊎ (subscriber_at (entries s.id) ≡ some s))
      → Holds (forget_all ss m) (without_all ss entries)
  unfolding forget_all without_all
  forget_all-Holds [] m entries h known = h
  forget_all-Holds (s ∷ ss) m entries h known =
      forget_all-Holds ss (forget s.id s m) (without s.id entries)
        (forget-Holds m entries h s (known s (inl refl))) λ x i. ground (arith, known x (inr i))

  forget_all-gateways :
      (ss : List Subscriber) (m : Manager Program) → (forget_all ss m).gateways ≡ m.gateways
  unfolding forget_all forget
  forget_all-gateways [] m = refl
  forget_all-gateways (s ∷ ss) m = forget_all-gateways ss (forget s.id s m)

  module _ (m : Manager Program) (entries : Entries Program) (r : Represents m entries)
      (g : Bytes) where
    gone : List Subscriber
    gone = list_subscriptions (at g m.gateways)

    gone_iff :
        (s : Subscriber)
        → IsIn s gone ↔ ((subscriber_at (entries s.id) ≡ some s) × (s.gateway_id ≡ g))
    unfolding gone
    gone_iff s =
        ground (arith, list_subscriptions_iff s (at g m.gateways) (r.listed g), r.served g s.id s)

    without_all-gone : (j : Bytes) → without_all gone entries j ≡ unless_of_gateway g (entries j)
    without_all-gone j = without_all-at j gone entries ∙ elim (Bool-cases (names j gone)) [
      | inl b ↦
          let (s, (i, e)) = found_by (λ s. bytes_eq s.id j) gone b in
          let (k, q) = (gone_iff s).0 i in
          let here : subscriber_at (entries j) ≡ some s =
            ap (λ x. subscriber_at (entries x)) (sym ((bytes_eq_iff s.id j).0 e)) ∙ k in
          rw b ground (arith, here, q, bytes_eq_iff s.gateway_id g)
      | inr b ↦ elim (Option-cases (entries j)) [
        | inl n ↦ rw (b, n) refl
        | inr (e, n) ↦
            let own = r.indexes.own j e n in
            let here : subscriber_at (entries e.subscriber.id) ≡ some e.subscriber =
              ap (λ x. subscriber_at (entries x)) own ∙ ap subscriber_at n in
            let named : IsIn e.subscriber gone → names j gone ≡ true = λ i.
              IsIn-any (λ s. bytes_eq s.id j) e.subscriber gone i
                ((bytes_eq_iff e.subscriber.id j).1 own) in
            rw (b, n) ground
              (arith, gone_iff e.subscriber, here, named, b, bytes_eq_iff e.subscriber.gateway_id g)
      ]
    ]

    gone-Holds : Holds (forget_all gone m) (λ j. unless_of_gateway g (entries j))
    gone-Holds =
        subst (Holds (forget_all gone m)) (λ i j. without_all-gone j i)
          (forget_all-Holds gone m entries r.indexes λ s i. inr (((gone_iff s).0 i).0))

    unregister-none : lookup g m.gateways ≡ none → unregister_gateway g m ≡ m
    unfolding unregister_gateway
    unregister-none n = ground (arith, n)

    unregister-some :
        (gw : GatewaySubscriptions)
        → lookup g m.gateways ≡ some gw
        → unregister_gateway g m ≡ with_gateways (remove g m.gateways) (forget_all gone m)
    unfolding unregister_gateway gone
    unregister-some gw e =
        let found : unregister_gateway g m
            ≡ with_gateways (remove g (forget_all (list_subscriptions gw) m).gateways)
                (forget_all (list_subscriptions gw) m) =
          ap (λ o. unregister_found g o m) e in
        found
        ∙ ap (λ x. with_gateways (remove g x) (forget_all (list_subscriptions gw) m))
            (forget_all-gateways (list_subscriptions gw) m)
        ∙ ap (λ x. with_gateways (remove g m.gateways) (forget_all (list_subscriptions x) m))
            (sym (at-some g gw m.gateways e))

    gone-none : lookup g m.gateways ≡ none → (λ j. unless_of_gateway g (entries j)) ≡ entries
    unfolding lookup
    gone-none n =
        let each : (j : Bytes) → unless_of_gateway g (entries j) ≡ entries j = λ j.
          elim (Option-cases (entries j)) [
            | inl o ↦ rw o refl
            | inr (e, o) ↦ rw o ground (
              arith,
              ap (lookup j) (at-none g m.gateways n),
              r.served g j e.subscriber,
              ap subscriber_at o,
              bytes_eq_iff e.subscriber.gateway_id g,
            )
          ] in
        λ i j. each j i

    gone-Listed : (k : Bytes) → IsListing (at k (remove g m.gateways))
    gone-Listed k = drop-IsListing m.gateways r.listed g k

    gone-Serves : Serves (remove g m.gateways) (λ j. unless_of_gateway g (entries j))
    unfolding lookup
    gone-Serves k j s = ground (
      arith,
      ap (lookup j) (at-remove g k m.gateways),
      r.served k j s,
      bytes_eq_iff g k,
      bytes_eq_iff s.gateway_id g,
    )

    -- The manager without a gateway represents the entries without its subscribers.
    pub unregistered-Represents :
        Represents (unregister_gateway g m) (λ j. unless_of_gateway g (entries j))
    unregistered-Represents = elim (Option-cases (lookup g m.gateways)) [
      | inl n ↦
          let same : unregister_gateway g m ≡ m = unregister-none n in
          subst (λ x. Represents x (λ j. unless_of_gateway g (entries j))) (sym same)
            (subst (Represents m) (sym (gone-none n)) r)
      | inr (gw, e) ↦
          subst (λ x. Represents x (λ j. unless_of_gateway g (entries j)))
            (sym (unregister-some gw e))
            record {
              indexes = record {
                all = gone-Holds.all;
                own = gone-Holds.own;
                exact = gone-Holds.exact;
                exact_once = gone-Holds.exact_once;
                compiled = gone-Holds.compiled;
                compiled_once = gone-Holds.compiled_once;
              };
              served = gone-Serves;
              listed = gone-Listed;
            }
    ]
