-- ===== src/Model/Filter/Members.antt =====
-- The operator `in`: NormalizeFilters of packages/syntrix/pkg/model/filter_eval.go drops members.
use syntrix.Common.{
  ◌≡◌, Bool, true, false, Option, List, [], ◌∷◌, Bytes, arith, bytes_compare, eq_of_bytes_eq, ok,
  Result-cases, Bool-cases, ◌>>=◌, ◌||◌, inl, inr,
}
use syntrix.Model.Number.{Float64}
use syntrix.Model.Value.{
  Value, Items, nil, cons, array, scalar_key, compare_values, equal_values, is_tie,
}
use syntrix.Model.Filter.{among, is_seen, unique_members, any_equal, normalize_operand}

module _ (parse_float : Bytes → Option Float64) where
  -- The value has this key.
  has_key : Value → Bytes → Bool
  has_key v key = is_tie (scalar_key parse_float v >>= λ left. ok (bytes_compare left key))

  has_any_key : Value → List Bytes → Bool
  unfolding has_key
  has_any_key v [] = false
  has_any_key v (k ∷ seen) = has_key v k || has_any_key v seen

  equal_values-has_key :
      (v c : Value) (key : Bytes)
      → scalar_key parse_float c ≡ ok key
      → equal_values parse_float v c ≡ has_key v key
  unfolding equal_values compare_values has_key
  equal_values-has_key v c key h = rw h

  has_any_key-is_seen :
      (v : Value) (key : Bytes) (seen : List Bytes)
      → is_seen key seen ≡ true
      → has_key v key ≡ true
      → has_any_key v seen ≡ true
  unfolding has_any_key is_seen
  has_any_key-is_seen v key [] h k = cc
  has_any_key-is_seen v key (s ∷ seen) h k =
      ground (arith, eq_of_bytes_eq s key, has_any_key-is_seen v key seen)

  -- With the keys that were met before, the members left match what all members match.
  any_equal-unique_members :
      (v : Value) (seen : List Bytes) (items : Items) {kept : Items}
      → unique_members parse_float seen items ≡ ok kept
      → (any_equal parse_float v kept || has_any_key v seen)
        ≡ (any_equal parse_float v items || has_any_key v seen)
  unfolding unique_members any_equal has_any_key
  any_equal-unique_members v seen nil h = ground arith
  any_equal-unique_members v seen (cons item items) {kept} h =
      elim (Result-cases (scalar_key parse_float item)) [
        | inr (x, e) ↦ ground arith
        | inl (key, e) ↦ elim (Bool-cases (is_seen key seen)) [
          | inl old ↦ ground (
            arith,
            any_equal-unique_members v seen items {kept = kept},
            equal_values-has_key v item key e,
            has_any_key-is_seen v key seen old,
          )
          | inr new ↦ elim (Result-cases (unique_members parse_float (key ∷ seen) items)) [
            | inl (rest, e') ↦ ground (
              arith,
              any_equal-unique_members v (key ∷ seen) items e',
              equal_values-has_key v item key e,
            )
            | inr (x, e') ↦ ground arith
          ]
        ]
      ]

  -- Dropping the members whose key was met before changes no answer of `in`: the normalized operand
  -- matches a value exactly if the operand as given does.
  pub any_equal-normalize_operand :
      (v : Value) (items kept : Items)
      → normalize_operand parse_float among (array items) ≡ ok (array kept)
      → any_equal parse_float v kept ≡ any_equal parse_float v items
  unfolding normalize_operand has_any_key
  any_equal-normalize_operand v items kept h =
      elim (Result-cases (unique_members parse_float [] items)) [
        | inl (rest, e) ↦ ground (arith, any_equal-unique_members v [] items e)
        | inr (x, e) ↦ ground arith
      ]
