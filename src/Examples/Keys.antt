-- ===== src/Examples/Keys.antt =====
-- Index keys at concrete inputs (packages/syntrix/internal/indexer/encoding).
use syntrix.Common.{
  ◌≡◌, ◌≢◌, refl, Bool, true, false, Option, none, List, [], ◌∷◌, Bytes, codes, arith, pos,
  then_compare, bytes_compare, Ordering, ok, err, valid_utf8,
}
use syntrix.Model.Number.{Float64, integer}
use syntrix.Model.Value.{Value, null, text, int}
use syntrix.Model.Value.Order.{number, string}
use syntrix.Indexer.OrderKey.{
  Direction, asc, desc, Field, encode, extract_doc_id, invalid_order_key, out_of_fuel,
}
use syntrix.Indexer.OrderKey.Cells.{Cell, absent, present}
use syntrix.Indexer.OrderKey.Order.{AllStand, compare_cells, tuple, encode_lem, encode-compare}
use syntrix.Indexer.OrderKey.Extract.{extract_doc_id-encode, extract_doc_id-ne-out_of_fuel}

abbrev refuse : Bytes → Option Float64
refuse s = none

-- A column of numbers, descending, and one of texts.
abbrev columns : List Direction
columns = desc ∷ asc ∷ []

abbrev fields : Value → Bool → Value → List Field
fields n gap s =
    record { value = n; direction = desc; missing = gap }
    ∷ record { value = s; direction = asc; missing = false }
    ∷ []

abbrev first_fields : List Field
first_fields = fields (int (pos 7)) false (text (codes "a"))

abbrev first_cells : List Cell
first_cells = present (number (integer (pos 7))) ∷ present (string (codes "a")) ∷ []

first_stand : AllStand columns first_cells first_fields
unfolding valid_utf8
first_stand = (
  record { direction = refl; defined = refl; cell = refl; short = refl },
  (record { direction = refl; defined = refl; cell = refl; short = refl }, tt),
)

-- A document in which the number is missing.
abbrev second_fields : List Field
second_fields = fields null true (text (codes "a"))

abbrev second_cells : List Cell
second_cells = absent ∷ present (string (codes "a")) ∷ []

second_stand : AllStand columns second_cells second_fields
unfolding valid_utf8
second_stand = (
  record { direction = refl; defined = refl; cell = refl; short = refl },
  (record { direction = refl; defined = refl; cell = refl; short = refl }, tt),
)

first_encoded :
    encode refuse first_fields (codes "x1") ≡ ok (tuple columns first_cells (codes "x1"))
unfolding valid_utf8
first_encoded =
    encode_lem refuse columns first_cells first_fields (codes "x1") first_stand (omega arith) refl

encode_lem_example :
    encode refuse first_fields (codes "x2") ≡ ok (tuple columns first_cells (codes "x2"))
unfolding valid_utf8
encode_lem_example =
    encode_lem refuse columns first_cells first_fields (codes "x2") first_stand (omega arith) refl

second_encoded :
    encode refuse second_fields (codes "x1") ≡ ok (tuple columns second_cells (codes "x1"))
unfolding valid_utf8
second_encoded =
    encode_lem refuse columns second_cells second_fields (codes "x1") second_stand (omega arith)
      refl

encode-compare_example :
    bytes_compare (tuple columns first_cells (codes "x1")) (tuple columns second_cells (codes "x1"))
    ≡ then_compare
        (compare_cells columns first_cells second_cells)
        (bytes_compare (codes "x1") (codes "x1"))
encode-compare_example =
    encode-compare refuse columns first_cells second_cells first_fields second_fields (codes "x1")
      (codes "x1") (tuple columns first_cells (codes "x1"))
      (tuple columns second_cells (codes "x1")) first_stand second_stand (omega arith) (omega arith)
      (omega arith) (omega arith) first_encoded second_encoded

-- The document without the number comes last in the descending column.
missing_last : compare_cells columns first_cells second_cells ≡ Ordering.lt
missing_last = refl

extract_doc_id-encode_example :
    extract_doc_id (tuple columns first_cells (codes "x1")) ≡ ok (codes "x1")
extract_doc_id-encode_example =
    extract_doc_id-encode refuse columns first_cells first_fields (codes "x1") first_stand
      (omega arith) (omega arith) first_encoded

extract_doc_id-ne-out_of_fuel_example : extract_doc_id (2 ∷ 0x50 ∷ 0 ∷ 1 ∷ []) ≢ err out_of_fuel
extract_doc_id-ne-out_of_fuel_example = extract_doc_id-ne-out_of_fuel (2 ∷ 0x50 ∷ 0 ∷ 1 ∷ [])

unterminated : extract_doc_id (2 ∷ 0x50 ∷ 0 ∷ 1 ∷ []) ≡ err invalid_order_key
unfolding extract_doc_id
unterminated = refl
