-- ===== src/Examples/Values.antt =====
-- Values, filters and their keys at concrete inputs (packages/syntrix/pkg/model).
use syntrix.Common.{
  ◌≡◌, ◌↔◌, refl, true, Option, none, some, [], ◌∷◌, Bytes, codes, arith, All, ℤ, pos, negsuc,
  compareℤ, Ordering, bytes_compare, ok, bytes_eq, len64, big_endian, parse_int, valid_utf8,
  if◌then◌else◌,
}
use syntrix.Model.Number.{Float64, integer, floating, number_key}
use syntrix.Model.Number.Exact.{exact}
use syntrix.Model.Number.Order.{number_key-compare}
use syntrix.Model.Value.{
  Value, text, int, float32, float, token, array, Items, nil, cons, normalize_value, scalar_key,
  compare_values, equal_values,
}
use syntrix.Model.Value.Normal.{normalize_value-idempotent}
use syntrix.Model.Value.Order.{number, compare_scalar, compare_values-scalar, equal_values_iff}
use syntrix.Model.Filter.{
  Filter, lt, among, any_equal, normalize_operand, evaluate_normalized, evaluate_filters,
}
use syntrix.Model.Filter.Range.{decides, evaluate_normalized-decides}
use syntrix.Model.Filter.Members.{any_equal-normalize_operand}
use syntrix.Model.Filter.Conjunction.{IsTrue, evaluate_filters_iff}

-- A ParseFloat that refuses every text.
abbrev refuse : Bytes → Option Float64
refuse s = none

-- 2^53 as a float64, and the integer above it, which no float64 is.
abbrev two_53 : Float64
two_53 = 0x4340000000000000

abbrev above : ℤ
above = pos 9007199254740993

number_key-above :
    bytes_compare (number_key (integer above)) (number_key (floating two_53)) ≡ Ordering.gt
unfolding number_key bytes_compare len64 big_endian
number_key-above = refl

number_key-compare_example :
    bytes_compare (number_key (integer above)) (number_key (floating two_53))
    ≡ compareℤ (exact (integer above)) (exact (floating two_53))
number_key-compare_example =
    number_key-compare (integer above) (floating two_53) (omega arith) (omega arith)

-- Minus zero and a nested array.
abbrev nested : Value
nested = array (cons (float 0x8000000000000000) (cons (token (codes "-7")) nil))

nested_normal :
    normalize_value refuse nested ≡ ok (array (cons (float 0) (cons (int (negsuc 6)) nil)))
unfolding normalize_value parse_int
nested_normal = refl

normalize_value-idempotent_example :
    normalize_value refuse (array (cons (float 0) (cons (int (negsuc 6)) nil)))
    ≡ ok (array (cons (float 0) (cons (int (negsuc 6)) nil)))
normalize_value-idempotent_example = normalize_value-idempotent refuse nested nested_normal

compare_values-scalar_example :
    compare_values refuse (int above) (float two_53)
    ≡ ok (compare_scalar (number (integer above)) (number (floating two_53)))
compare_values-scalar_example =
    compare_values-scalar refuse (int above) (float two_53) (number (integer above))
      (number (floating two_53)) refl refl (omega arith) (omega arith)

equal_values_iff_example : (equal_values refuse (int (pos 1)) (float 0x3FF0000000000000) ≡ true) ↔ (
    compare_scalar (number (integer (pos 1))) (number (floating 0x3FF0000000000000)) ≡ Ordering.eq)
equal_values_iff_example =
    equal_values_iff refuse (int (pos 1)) (float 0x3FF0000000000000) (number (integer (pos 1)))
      (number (floating 0x3FF0000000000000)) refl refl (omega arith) (omega arith)

abbrev below_two : Filter
below_two = record { field = codes "n"; op = lt; value = int (pos 2) }

evaluate_normalized-decides_example :
    evaluate_normalized refuse below_two (some (float32 0x3FF8000000000000))
    ≡ ok (decides lt (number (floating 0x3FF8000000000000)) (number (integer (pos 2))))
unfolding normalize_value
evaluate_normalized-decides_example =
    evaluate_normalized-decides refuse below_two (float32 0x3FF8000000000000)
      (number (floating 0x3FF8000000000000)) (number (integer (pos 2))) tt refl refl (omega arith)
      (omega arith)

abbrev members : Items
members = cons (int (pos 1)) (cons (float 0x3FF0000000000000) (cons (text (codes "a")) nil))

abbrev kept_members : Items
kept_members = cons (int (pos 1)) (cons (text (codes "a")) nil)

members_kept : normalize_operand refuse among (array members) ≡ ok (array kept_members)
unfolding normalize_operand scalar_key normalize_value number_key valid_utf8 bytes_eq len64
    big_endian
members_kept = refl

any_equal-normalize_operand_example :
    any_equal refuse (text (codes "a")) kept_members ≡ any_equal refuse (text (codes "a")) members
any_equal-normalize_operand_example =
    any_equal-normalize_operand refuse (text (codes "a")) members kept_members members_kept

-- A document with the one field n, 1.5.
abbrev document : Bytes → Option Value
document k = if bytes_eq k (codes "n") then some (float 0x3FF8000000000000) else none

evaluate_filters_iff_example :
    (evaluate_filters refuse (below_two ∷ []) document ≡ ok true)
    ↔ All (IsTrue refuse document) (below_two ∷ [])
evaluate_filters_iff_example = evaluate_filters_iff refuse document (below_two ∷ [])
