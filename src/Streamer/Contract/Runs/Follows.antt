-- ===== src/Streamer/Contract/Runs/Follows.antt =====
-- The commands of packages/syntrix/internal/streamer/manager/manager.go do what the commands on the
-- entries do.
use syntrix.Common.{
  ◌≡◌, refl, sym, subst, ap, ◌∙◌, inl, inr, true, false, Option, none, some, List, Bytes,
  if◌then◌else◌, lookup, arith, Bool-cases, Option-cases, Result, ok, err, Result-cases,
}
use syntrix.Streamer.Subscription.{Filter, Subscriber}
use syntrix.Streamer.Registry.{
  Manager, SubscribeRequest, already_exists, is_indexed_exactly, unsubscribe, unsubscribe_found,
  rolled_back, with_expression, registered, with_exact,
}
use syntrix.Streamer.Serving.{compile_filters, subscriber_of, subscribe, add_expression_match}
use syntrix.Streamer.Contract.{Entries, without, with_entry, subscriber_at}
use syntrix.Streamer.Contract.Runs.{
  Represents, Command, Reply, subscribing, unsubscribing, unregistering, subscribed, unsubscribed,
  execute, specify,
}
use syntrix.Streamer.Contract.Runs.Gone.{unregistered-Represents}
use syntrix.Streamer.Contract.Runs.Steps.{
  with_exact-Represents, with_expression-Represents, rolled_back-Represents, forgotten,
  forgotten-Represents, unchanged,
}

module _ {Program CelError : Type 0}
    (compiler : Option (List Filter → Result CelError (Option Program))) where
  -- The same reply, and the manager represents the entries.
  abbrev pub Agrees : Reply CelError × Manager Program → Reply CelError × Entries Program → Type 0
  Agrees x y = (x.0 ≡ y.0) × Represents x.1 y.1

  Agrees-by :
      (x x' : Reply CelError × Manager Program) (y y' : Reply CelError × Entries Program)
      → x ≡ x'
      → y ≡ y'
      → Agrees x' y'
      → Agrees x y
  Agrees-by x x' y y' p q a = subst (λ z. Agrees z y) (sym p) (subst (Agrees x') (sym q) a)

  module _ (m : Manager Program) (entries : Entries Program) (r : Represents m entries) where
    subscribe-some :
        (g : Bytes) (req : SubscribeRequest) (sub : Subscriber)
        → lookup req.subscription_id m.all_subs ≡ some sub
        → subscribe compiler g req m ≡ (err already_exists, m)
    unfolding subscribe
    subscribe-some g req sub e = ground (arith, e)

    subscribe-none :
        (g : Bytes) (req : SubscribeRequest)
        → lookup req.subscription_id m.all_subs ≡ none
        → subscribe compiler g req m ≡ (
            let sub = subscriber_of g req in
            if is_indexed_exactly sub
            then (ok tt, with_exact sub (registered sub m))
            else add_expression_match sub (compile_filters compiler sub.filters) (registered sub m))
    unfolding subscribe
    subscribe-none g req n = ground (arith, n)

    subscribing-Agrees :
        (g : Bytes) (req : SubscribeRequest)
        → Agrees
            (execute compiler (subscribing g req) m)
            (specify compiler (subscribing g req) entries)
    subscribing-Agrees g req =
        let id = req.subscription_id in
        let sub = subscriber_of g req in
        elim (Option-cases (entries id)) [
          | inr (e, k) ↦
              let p = subscribe-some g req e.subscriber (r.indexes.all id ∙ ap subscriber_at k) in
              Agrees-by _ (subscribed (err already_exists), m) _
                (subscribed (err already_exists), entries) (ap (λ x. (subscribed x.0, x.1)) p)
                (ground (arith, k)) (refl, r)
          | inl k ↦
              let p = subscribe-none g req (r.indexes.all id ∙ ap subscriber_at k) in
              elim (Bool-cases (is_indexed_exactly sub)) [
                | inl t ↦
                    Agrees-by _ (subscribed (ok tt), with_exact sub (registered sub m)) _
                      (
                        subscribed (ok tt),
                        with_entry (record { subscriber = sub; program = none }) entries,
                      )
                      (ap (λ x. (subscribed x.0, x.1)) (p ∙ rw t refl)) (ground (arith, k, t))
                      (refl, with_exact-Represents m entries r sub k t)
                | inr f ↦ elim (Result-cases (compile_filters compiler sub.filters)) [
                  | inl (program, c) ↦
                      Agrees-by _
                        (subscribed (ok tt), with_expression sub program (registered sub m)) _
                        (
                          subscribed (ok tt),
                          with_entry (record { subscriber = sub; program = program }) entries,
                        )
                        (ap (λ x. (subscribed x.0, x.1)) (p ∙ rw (f, c) refl))
                        (ground (arith, k, f, c))
                        (refl, with_expression-Represents m entries r sub k program f)
                  | inr (x, c) ↦
                      Agrees-by _ (subscribed (err x), rolled_back sub (registered sub m)) _
                        (subscribed (err x), entries)
                        (ap (λ x. (subscribed x.0, x.1)) (p ∙ rw (f, c) refl))
                        (ground (arith, k, f, c)) (refl, rolled_back-Represents m entries r sub k)
                ]
              ]
        ]

    unsubscribing-Agrees :
        (id : Bytes)
        → Agrees
            (execute compiler (unsubscribing id) m)
            (specify compiler (unsubscribing id) entries)
    unfolding unsubscribe
    unsubscribing-Agrees id = elim (Option-cases (entries id)) [
      | inl k ↦
          let p : unsubscribe id m ≡ none =
            ap (λ o. unsubscribe_found id o m) (r.indexes.all id ∙ ap subscriber_at k) in
          Agrees-by _ (unsubscribed false, m) _ (unsubscribed false, without id entries)
            (ground (arith, p)) (ground (arith, k))
            (refl, subst (Represents m) (sym (unchanged m entries r id k)) r)
      | inr (e, k) ↦
          let own = r.indexes.own id e k in
          let sub = e.subscriber in
          let p : unsubscribe id m ≡ some (forgotten m entries r id sub) =
            ap (λ o. unsubscribe_found id o m) (r.indexes.all id ∙ ap subscriber_at k) in
          Agrees-by _ (unsubscribed true, forgotten m entries r id sub) _
            (unsubscribed true, without id entries) (ground (arith, p)) (ground (arith, k))
            (
              refl,
              subst (λ j. Represents (forgotten m entries r j sub) (without j entries)) own
                  (forgotten-Represents m entries r sub
                    (ap (λ j. subscriber_at (entries j)) own ∙ ap subscriber_at k)),
            )
    ]

    pub command-Agrees : (c : Command) → Agrees (execute compiler c m) (specify compiler c entries)
    command-Agrees (subscribing g req) = subscribing-Agrees g req
    command-Agrees (unsubscribing id) = unsubscribing-Agrees id
    command-Agrees (unregistering g) = (refl, unregistered-Represents m entries r g)
