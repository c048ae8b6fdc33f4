-- ===== src/Streamer/Exact.antt =====
-- The index of the exact matches, from database to collection to document ID:
-- packages/syntrix/internal/streamer/manager/manager.go. Subscribers are never written after they were
-- made, so the pointers to them are their values.
pub mod Buckets
pub mod Writes
use syntrix.Common.{
  ℕ, ◌+◌, Bool, true, false, Option, none, some, List, [], ◌∷◌, ◌++◌, Bytes, bytes_eq,
  if◌then◌else◌, Assoc, lookup, put, remove, length,
}
use syntrix.Streamer.Subscription.{Subscriber, get_document_id}

-- `m[k]` for a map of maps or of lists, where a missing key gives nil.
abbrev pub at {ℓ} : {A : Type ℓ} → Bytes → Assoc (List A) → List A
at k m = elim (lookup k m) [ none ↦ [] | some xs ↦ xs ]

abbrev pub is_empty {ℓ} : {A : Type ℓ} → List A → Bool
is_empty [] = true
is_empty (x ∷ xs) = false

-- `m[k] = v`, then `delete(m, k)` if `v` has no element.
abbrev pub put_or_delete {ℓ} : {A : Type ℓ} → Bytes → List A → Assoc (List A) → Assoc (List A)
put_or_delete k v m = if is_empty v then remove k m else put k v m

-- The loop that cuts the first subscriber with this ID out of a list.
unfoldable pub cut : Bytes → List Subscriber → List Subscriber
cut id [] = []
cut id (s ∷ ss) = let rest = cut id ss in if bytes_eq s.id id then ss else s ∷ rest

-- addExactMatch, on the map
unfoldable pub add_exact_match :
    Subscriber → Assoc (Assoc (Assoc (List Subscriber))) → Assoc (Assoc (Assoc (List Subscriber)))
add_exact_match sub exact =
    let database_map = at sub.database exact in
    let coll_map = at sub.collection database_map in
    let key = get_document_id sub in
    put sub.database
      (put sub.collection (put key (at key coll_map ++ (sub ∷ [])) coll_map) database_map) exact

abbrev remove_from_collection :
    Subscriber
    → Assoc (Assoc (List Subscriber))
    → Option (Assoc (List Subscriber))
    → Assoc (Assoc (Assoc (List Subscriber)))
    → Assoc (Assoc (Assoc (List Subscriber)))
remove_from_collection sub database_map none exact = exact
remove_from_collection sub database_map (some coll_map) exact =
    let key = get_document_id sub in
    put_or_delete sub.database
      (put_or_delete sub.collection (put_or_delete key (cut sub.id (at key coll_map)) coll_map)
        database_map)
      exact

abbrev remove_from_database :
    Subscriber
    → Option (Assoc (Assoc (List Subscriber)))
    → Assoc (Assoc (Assoc (List Subscriber)))
    → Assoc (Assoc (Assoc (List Subscriber)))
remove_from_database sub none exact = exact
remove_from_database sub (some database_map) exact =
    remove_from_collection sub database_map (lookup sub.collection database_map) exact

-- removeExactMatch, on the map
unfoldable pub remove_exact_match :
    Subscriber → Assoc (Assoc (Assoc (List Subscriber))) → Assoc (Assoc (Assoc (List Subscriber)))
remove_exact_match sub exact = remove_from_database sub (lookup sub.database exact) exact

-- The subscribers of a document, and those of its collection behind them, as matchExact ranges over
-- them.
unfoldable pub exact_subscribers :
    Bytes → Bytes → Bytes → Assoc (Assoc (Assoc (List Subscriber))) → List Subscriber
exact_subscribers database collection doc_id exact =
    let coll_map = at collection (at database exact) in at doc_id coll_map ++ at [] coll_map

-- `result[sub.GatewayID] = append(result[sub.GatewayID], sub.ID)`
abbrev pub report : Subscriber → Assoc (List Bytes) → Assoc (List Bytes)
report sub result = put sub.gateway_id (at sub.gateway_id result ++ (sub.id ∷ [])) result

unfoldable pub report_all : List Subscriber → Assoc (List Bytes) → Assoc (List Bytes)
report_all [] result = result
report_all (sub ∷ subs) result = report_all subs (report sub result)

-- matchExact
unfoldable pub match_exact :
    Bytes
    → Bytes
    → Bytes
    → Assoc (Assoc (Assoc (List Subscriber)))
    → Assoc (List Bytes)
    → Assoc (List Bytes)
unfolding exact_subscribers report_all
match_exact database collection doc_id exact result =
    report_all (exact_subscribers database collection doc_id exact) result

-- countExactMatches
unfoldable pub count_lists : Assoc (List Subscriber) → ℕ
count_lists [] = 0
count_lists ((k, subs) ∷ m) = length subs + count_lists m

unfoldable pub count_collections : Assoc (Assoc (List Subscriber)) → ℕ
unfolding count_lists
count_collections [] = 0
count_collections ((k, coll_map) ∷ m) = count_lists coll_map + count_collections m

unfoldable pub count_exact_matches : Assoc (Assoc (Assoc (List Subscriber))) → ℕ
unfolding count_collections
count_exact_matches [] = 0
count_exact_matches ((k, database_map) ∷ m) = count_collections database_map + count_exact_matches m
