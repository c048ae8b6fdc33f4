-- ===== src/Streamer/Contract/Runs.antt =====
-- Runs of Subscribe, Unsubscribe and UnregisterGateway of
-- packages/syntrix/internal/streamer/manager/manager.go beside the same commands on the entries.
pub mod Steps
pub mod Gone
pub mod Follows
pub mod History
use syntrix.Common.{
  ◌≡◌, Bool, true, false, Option, none, some, List, [], ◌∷◌, Bytes, bytes_eq, if◌then◌else◌, ◌&&◌,
  Result, ok, err,
}
use syntrix.Streamer.Subscription.{Filter, Subscriber, ExpressionSubscriber, GatewaySubscriptions}
use syntrix.Streamer.Exact.{at}
use syntrix.Streamer.Registry.{
  Manager, SubscribeRequest, SubscribeError, already_exists, is_indexed_exactly, unsubscribe,
  unregister_gateway, new_manager,
}
use syntrix.Streamer.Serving.{compile_filters, subscriber_of, subscribe}
use syntrix.Streamer.Contract.{Entries, Holds, Serves, without, with_entry, subscriber_at}
use syntrix.Streamer.Contract.Listings.{IsListing}

-- What a client of the manager asks for.
pub data Command : Type 0 where
  subscribing : Bytes → SubscribeRequest → Command
  unsubscribing : Bytes → Command
  unregistering : Bytes → Command

pub data Reply (CelError : Type 0) : Type 0 where
  subscribed : Result (SubscribeError CelError) Unit → Reply CelError
  unsubscribed : Bool → Reply CelError
  unregistered : Reply CelError

-- The maps of the manager are the entries' maps.
pub record Represents {Program : Type 0} (m : Manager Program) (entries : Entries Program)
    : Type 0 where
  pub indexes : Holds m entries
  pub served : Serves m.gateways entries
  pub listed : (g : Bytes) → IsListing (at g m.gateways)

abbrev is_there : {Program : Type 0} → Option (ExpressionSubscriber Program) → Bool
is_there none = false
is_there (some e) = true

abbrev pub unless_of_gateway :
    {Program : Type 0}
    → Bytes
    → Option (ExpressionSubscriber Program)
    → Option (ExpressionSubscriber Program)
unless_of_gateway g none = none
unless_of_gateway g (some e) = if bytes_eq e.subscriber.gateway_id g then none else some e

module _ {Program CelError : Type 0}
    (compiler : Option (List Filter → Result CelError (Option Program))) where
  abbrev reply_of : Option (Manager Program) → Reply CelError
  reply_of none = unsubscribed false
  reply_of (some n) = unsubscribed true

  abbrev manager_of : Option (Manager Program) → Manager Program → Manager Program
  manager_of none m = m
  manager_of (some n) m = n

  -- A command on the manager.
  abbrev pub execute : Command → Manager Program → Reply CelError × Manager Program
  execute (subscribing g req) m = let r = subscribe compiler g req m in (subscribed r.0, r.1)
  execute (unsubscribing id) m = (reply_of (unsubscribe id m), manager_of (unsubscribe id m) m)
  execute (unregistering g) m = (unregistered, unregister_gateway g m)

  abbrev admitted_compiled :
      Subscriber
      → Result (SubscribeError CelError) (Option Program)
      → Entries Program
      → Result (SubscribeError CelError) Unit × Entries Program
  admitted_compiled sub (err e) entries = (err e, entries)
  admitted_compiled sub (ok program) entries =
      (ok tt, with_entry (record { subscriber = sub; program = program }) entries)

  abbrev admitted :
      Subscriber → Entries Program → Result (SubscribeError CelError) Unit × Entries Program
  admitted sub entries =
      if is_indexed_exactly sub
      then (ok tt, with_entry (record { subscriber = sub; program = none }) entries)
      else admitted_compiled sub (compile_filters compiler sub.filters) entries

  abbrev asked :
      Bytes
      → SubscribeRequest
      → Option (ExpressionSubscriber Program)
      → Entries Program
      → Result (SubscribeError CelError) Unit × Entries Program
  asked g req (some e) entries = (err already_exists, entries)
  asked g req none entries = admitted (subscriber_of g req) entries

  -- The command on the entries.
  abbrev pub specify : Command → Entries Program → Reply CelError × Entries Program
  specify (subscribing g req) entries =
      let r = asked g req (entries req.subscription_id) entries in (subscribed r.0, r.1)
  specify (unsubscribing id) entries = (unsubscribed (is_there (entries id)), without id entries)
  specify (unregistering g) entries = (unregistered, λ j. unless_of_gateway g (entries j))
