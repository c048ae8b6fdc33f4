-- ===== src/Streamer/Contract/Runs/Steps.antt =====
-- Subscribe and Unsubscribe of packages/syntrix/internal/streamer/manager/manager.go keep the entries
-- represented.
use syntrix.Common.{
  ◌≡◌, subst, ◌∙◌, inr, true, false, Option, none, some, Bytes, bytes_eq_iff, bytes_eq_refl,
  lookup-put, lookup-remove, arith,
}
use syntrix.Streamer.Subscription.{Subscriber, ExpressionSubscriber}
use syntrix.Streamer.Registry.{
  Manager, is_indexed_exactly, forget, with_gateways, without_subscription, registered, rolled_back,
  with_exact, with_expression,
}
use syntrix.Streamer.Contract.{Entries, Serves, without, with_entry, subscriber_at}
use syntrix.Streamer.Contract.Indexes.{forget-Holds}
use syntrix.Streamer.Contract.Additions.{with_exact-Holds, with_expression-Holds}
use syntrix.Streamer.Contract.Gateways.{add-Serves, remove-Serves}
use syntrix.Streamer.Contract.Listings.{add-IsListing, remove-IsListing}
use syntrix.Streamer.Contract.Runs.{Represents}

module _ {Program : Type 0} (m : Manager Program) (entries : Entries Program)
    (r : Represents m entries) where
  module _ (sub : Subscriber) (new : entries sub.id ≡ none) where
    pub with_exact-Represents :
        is_indexed_exactly sub ≡ true
        → Represents
            (with_exact sub (registered sub m))
            (with_entry (record { subscriber = sub; program = none }) entries)
    with_exact-Represents t = record {
      indexes = with_exact-Holds m entries r.indexes sub new t;
      served =
          add-Serves m.gateways entries r.served (record { subscriber = sub; program = none }) new;
      listed = add-IsListing m.gateways r.listed sub;
    }

    pub with_expression-Represents :
        (program : Option Program)
        → is_indexed_exactly sub ≡ false
        → Represents
            (with_expression sub program (registered sub m))
            (with_entry (record { subscriber = sub; program = program }) entries)
    with_expression-Represents program f = record {
      indexes = with_expression-Holds m entries r.indexes sub new program f;
      served =
          add-Serves m.gateways entries r.served (record { subscriber = sub; program = program })
            new;
      listed = add-IsListing m.gateways r.listed sub;
    }

    entry : ExpressionSubscriber Program
    entry = record { subscriber = sub; program = none }

    restored : without sub.id (with_entry entry entries) ≡ entries
    unfolding entry
    restored =
        let each : (j : Bytes) → without sub.id (with_entry entry entries) j ≡ entries j =
          λ j. ground (arith, new, bytes_eq_iff sub.id j) in
        λ i j. each j i

    pub rolled_back-Represents : Represents (rolled_back sub (registered sub m)) entries
    unfolding entry
    rolled_back-Represents =
        let added = registered sub m in
        record {
          indexes = record {
            all = λ j.
                lookup-remove sub.id j added.all_subs
                ∙ ground (
                  arith,
                  lookup-put sub.id j sub m.all_subs,
                  r.indexes.all j,
                  new,
                  bytes_eq_iff sub.id j,
                );
            own = r.indexes.own;
            exact = r.indexes.exact;
            exact_once = r.indexes.exact_once;
            compiled = r.indexes.compiled;
            compiled_once = r.indexes.compiled_once;
          };
          served = subst (Serves (rolled_back sub added).gateways) restored (
              remove-Serves added.gateways (with_entry entry entries)
                (add-Serves m.gateways entries r.served entry new) sub
                (ground (arith, bytes_eq_refl sub.id)));
          listed =
              remove-IsListing added.gateways (add-IsListing m.gateways r.listed sub) sub.id sub;
        }

  abbrev pub forgotten : Bytes → Subscriber → Manager Program
  forgotten id sub = forget id sub (with_gateways (without_subscription id sub m.gateways) m)

  pub forgotten-Represents :
      (sub : Subscriber)
      → subscriber_at (entries sub.id) ≡ some sub
      → Represents (forgotten sub.id sub) (without sub.id entries)
  unfolding forget
  forgotten-Represents sub k =
      let less = forget-Holds m entries r.indexes sub (inr k) in
      record {
        indexes = record {
          all = less.all;
          own = less.own;
          exact = less.exact;
          exact_once = less.exact_once;
          compiled = less.compiled;
          compiled_once = less.compiled_once;
        };
        served = remove-Serves m.gateways entries r.served sub k;
        listed = remove-IsListing m.gateways r.listed sub.id sub;
      }

  pub unchanged : (id : Bytes) → entries id ≡ none → without id entries ≡ entries
  unchanged id new =
      let each : (j : Bytes) → without id entries j ≡ entries j =
        λ j. ground (arith, new, bytes_eq_iff id j) in
      λ i j. each j i
