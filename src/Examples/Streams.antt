-- ===== src/Examples/Streams.antt =====
-- The exact index of the Streamer with two subscribers.
use syntrix.Common.{◌≡◌, ◌↔◌, ◌⊎◌, some, List, [], ◌∷◌, codes, bytes_eq, Assoc, IsIn, lookup}
use syntrix.Streamer.Subscription.{Subscriber, of_string, get_document_id, is_exact_match}
use syntrix.Streamer.Exact.{add_exact_match, remove_exact_match, exact_subscribers}
use syntrix.Streamer.Exact.Buckets.{bucket}
use syntrix.Streamer.Exact.Writes.{
  remove_exact_match-add_exact_match, exact_subscribers-add_exact_match,
}

abbrev one_document : Subscriber
one_document = record {
  id = codes "s1";
  gateway_id = codes "g";
  database = codes "db";
  collection = codes "docs";
  filters =
      record { field = codes "_id"; op = codes "=="; value = some (of_string (codes "a")) } ∷ [];
}

abbrev whole_collection : Subscriber
whole_collection = record {
  id = codes "s2";
  gateway_id = codes "g";
  database = codes "db";
  collection = codes "docs";
  filters = [];
}

abbrev index : Assoc (Assoc (Assoc (List Subscriber)))
index = (codes "db", (codes "docs", (codes "a", one_document ∷ []) ∷ []) ∷ []) ∷ []

remove_exact_match-add_exact_match_example :
    bucket
      (codes "db")
      (codes "docs")
      (codes "a")
      (remove_exact_match whole_collection (add_exact_match whole_collection index))
    ≡ bucket (codes "db") (codes "docs") (codes "a") index
unfolding bucket lookup bytes_eq get_document_id is_exact_match
remove_exact_match-add_exact_match_example =
    remove_exact_match-add_exact_match whole_collection (codes "db") (codes "docs") (codes "a")
      index tt

exact_subscribers-add_exact_match_example :
    IsIn whole_collection (
      exact_subscribers
        (codes "db")
        (codes "docs")
        (codes "b")
        (add_exact_match whole_collection index))
    ↔ (IsIn whole_collection (exact_subscribers (codes "db") (codes "docs") (codes "b") index)
        ⊎ ((whole_collection ≡ whole_collection)
            × ((codes "db" ≡ codes "db")
                × ((codes "docs" ≡ codes "docs")
                    × ((get_document_id whole_collection ≡ codes "b")
                        ⊎ (get_document_id whole_collection ≡ []))))))
exact_subscribers-add_exact_match_example =
    exact_subscribers-add_exact_match whole_collection whole_collection (codes "db") (codes "docs")
      (codes "b") index
