-- ===== src/Streamer/Subscription.antt =====
-- Subscribers and the subscriptions of one gateway:
-- packages/syntrix/internal/streamer/manager/subscriber.go. The messages of the protocol are data here;
-- a compiled program is a parameter.
use syntrix.Common.{
  ℕ, Bool, false, Option, none, some, List, [], ◌∷◌, Bytes, codes, bytes_eq, ◌&&◌, Assoc, lookup,
  put, remove, length, if◌then◌else◌,
}

-- The value of a filter; `of_other` is any kind that is not a string.
pub data FilterValue : Type 0 where
  of_string : Bytes → FilterValue
  of_other : FilterValue

-- pb.Filter
pub record Filter : Type 0 where
  pub field : Bytes
  pub op : Bytes
  pub value : Option FilterValue

-- Subscriber
pub record Subscriber : Type 0 where
  pub id : Bytes
  pub gateway_id : Bytes
  pub database : Bytes
  pub collection : Bytes
  pub filters : List Filter

abbrev is_exact_filters : List Filter → Bool
is_exact_filters [] = false
is_exact_filters (f ∷ []) = bytes_eq f.field (codes "_id") && bytes_eq f.op (codes "==")
is_exact_filters (f ∷ g ∷ fs) = false

-- Subscriber.IsExactMatch
unfoldable pub is_exact_match : Subscriber → Bool
is_exact_match s = is_exact_filters s.filters

abbrev string_of : Option FilterValue → Bytes
string_of none = []
string_of (some (of_string v)) = v
string_of (some of_other) = []

abbrev first_value : List Filter → Bytes
first_value [] = []
first_value (f ∷ fs) = string_of f.value

-- Subscriber.GetDocumentID
unfoldable pub get_document_id : Subscriber → Bytes
get_document_id s = if is_exact_match s then first_value s.filters else []

-- ExpressionSubscriber, whose program may be nil
pub record ExpressionSubscriber (Program : Type 0) : Type 0 where
  pub subscriber : Subscriber
  pub program : Option Program

-- GatewaySubscriptions, without its lock
abbrev pub GatewaySubscriptions : Type 0
GatewaySubscriptions = Assoc Subscriber

-- NewGatewaySubscriptions
abbrev pub new_gateway_subscriptions : GatewaySubscriptions
new_gateway_subscriptions = []

-- GatewaySubscriptions.Add
abbrev pub add_subscription : Subscriber → GatewaySubscriptions → GatewaySubscriptions
add_subscription sub gs = put sub.id sub gs

-- GatewaySubscriptions.Remove
abbrev pub remove_subscription : Bytes → GatewaySubscriptions → GatewaySubscriptions
remove_subscription sub_id gs = remove sub_id gs

-- GatewaySubscriptions.Get
abbrev pub get : Bytes → GatewaySubscriptions → Option Subscriber
get sub_id gs = lookup sub_id gs

-- GatewaySubscriptions.List
abbrev pub list_subscriptions : GatewaySubscriptions → List Subscriber
list_subscriptions [] = []
list_subscriptions ((k, sub) ∷ gs) = sub ∷ list_subscriptions gs

-- GatewaySubscriptions.Len
abbrev pub len : GatewaySubscriptions → ℕ
len gs = length gs
