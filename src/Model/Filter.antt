-- ===== src/Model/Filter.antt =====
-- Query filters: packages/syntrix/pkg/model/filter.go and filter_eval.go.
pub mod Members
pub mod Conjunction
pub mod Range
use syntrix.Common.{
  ℕ, zero, suc, ◌+◌, Bool, true, false, not, Option, none, some, List, [], ◌∷◌, Bytes, ◌==◌, ltb,
  leb, bytes_eq, codes, ◌&&◌, ◌||◌, if◌then◌else◌, Ordering, Result, ok, err, ◌>>=◌, ◌>>◌, require,
  valid_utf8,
}
use syntrix.Model.Number.{Float64}
use syntrix.Model.Value.{
  Value, text, int, float, array, Items, nil, cons, ValueError, normalize_value, scalar_key,
  compare_values, equal_values,
}

-- FilterOp; `unknown` is any string that is no operator.
pub data FilterOp : Type 0 where
  eq ne gt gte lt lte among contains : FilterOp
  unknown : Bytes → FilterOp

-- FilterOp.IsValid
abbrev pub is_valid_op : FilterOp → Bool
is_valid_op (unknown s) = false
is_valid_op _ = true

pub record Filter : Type 0 where
  pub field : Bytes
  pub op : FilterOp
  pub value : Value

pub data FilterError : Type 0 where
  invalid_field invalid_operator needs_array needs_range_value : FilterError
  bad_value bad_member bad_document_value : ValueError → FilterError
  at_filter : ℕ → FilterError → FilterError
  at_query_field : Bytes → FilterError → FilterError
  panic : FilterError

-- The error of a part of type ValueError, wrapped.
abbrev pub blame :
    {A : Type 0} → (ValueError → FilterError) → Result ValueError A → Result FilterError A
blame f (ok a) = ok a
blame f (err e) = err (f e)

abbrev pub locate :
    {A : Type 0} → (FilterError → FilterError) → Result FilterError A → Result FilterError A
locate f (ok a) = ok a
locate f (err e) = err (f e)

-- Filter.Validate
unfoldable pub validate : Filter → Bool
validate f = if bytes_eq f.field [] then false else is_valid_op f.op

abbrev pub contains_byte : ℕ → Bytes → Bool
contains_byte b [] = false
contains_byte b (c ∷ rest) = c == b || contains_byte b rest

-- `strings.IndexFunc(field, unicode.IsControl) >= 0` of valid UTF-8: U+0000 to U+001F, U+007F, and
-- U+0080 to U+009F, which are the byte 0xC2 and a byte up to 0x9F.
unfoldable pub has_control : Bytes → Bool
has_control [] = false
has_control (b ∷ []) = ltb b 0x20 || b == 0x7F
has_control (b ∷ c ∷ rest) =
    (ltb b 0x20 || (b == 0x7F || (b == 0xC2 && leb c 0x9F))) || has_control (c ∷ rest)

-- ValidateQueryField
unfoldable pub validate_query_field : Bytes → Bool
unfolding has_control
validate_query_field f =
    not (bytes_eq f [] || (not (valid_utf8 f) || (contains_byte b'.' f || has_control f)))

-- isRangeValue
abbrev pub is_range_value : Value → Bool
is_range_value (int i) = true
is_range_value (float f) = true
is_range_value (text s) = true
is_range_value _ = false

-- sameRangeFamily
abbrev pub same_range_family : Value → Value → Bool
same_range_family (text s) (text t) = true
same_range_family (int i) (int j) = true
same_range_family (int i) (float g) = true
same_range_family (float f) (int j) = true
same_range_family (float f) (float g) = true
same_range_family _ _ = false

-- `seen[string(key)]`
unfoldable pub is_seen : Bytes → List Bytes → Bool
is_seen k [] = false
is_seen k (s ∷ seen) = bytes_eq s k || is_seen k seen

abbrev pub is_greater : Ordering → Bool
is_greater Ordering.gt = true
is_greater _ = false

abbrev pub is_less : Ordering → Bool
is_less Ordering.lt = true
is_less _ = false

-- The last switch of evaluateNormalizedFilter.
abbrev pub holds : FilterOp → Ordering → Bool
holds gt o = is_greater o
holds gte o = not (is_less o)
holds lt o = is_less o
holds _ o = not (is_greater o)

module _ (parse_float : Bytes → Option Float64) where
  -- The loop of the `in` case: the first of the members with one key is kept.
  unfoldable pub unique_members : List Bytes → Items → Result FilterError Items
  unfolding is_seen
  unique_members seen nil = ok nil
  unique_members seen (cons item items) = blame bad_member (scalar_key parse_float item) >>= λ key.
      let rest = unique_members (key ∷ seen) items in
      let skipped = unique_members seen items in
      if is_seen key seen then skipped else (rest >>= λ kept. ok (cons item kept))

  -- The switch of NormalizeFilters on the operator, on a normalized value.
  unfoldable pub normalize_operand : FilterOp → Value → Result FilterError Value
  unfolding unique_members
  normalize_operand among (array items) = unique_members [] items >>= λ unique. ok (array unique)
  normalize_operand among _ = err needs_array
  normalize_operand gt v = if is_range_value v then ok v else err needs_range_value
  normalize_operand gte v = if is_range_value v then ok v else err needs_range_value
  normalize_operand lt v = if is_range_value v then ok v else err needs_range_value
  normalize_operand lte v = if is_range_value v then ok v else err needs_range_value
  normalize_operand _ v = blame bad_value (scalar_key parse_float v) >>= λ _. ok v

  -- The body of the loop of NormalizeFilters.
  unfoldable pub normalize_filter : Filter → Result FilterError Filter
  normalize_filter f = do
    require (validate_query_field f.field) invalid_field
    require (is_valid_op f.op) invalid_operator
    value ← blame bad_value (normalize_value parse_float f.value)
    operand ← normalize_operand f.op value
    ok (record f { value = operand })

  -- NormalizeFilters, from filter number `i` on.
  unfoldable pub normalize_filters : ℕ → List Filter → Result FilterError (List Filter)
  normalize_filters i [] = ok []
  normalize_filters i (f ∷ fs) = do
    g ← locate (at_filter i) (normalize_filter f)
    gs ← normalize_filters (i + 1) fs
    ok (g ∷ gs)

  -- Some member equals the value, by EqualValues; the loops of the `in` and `contains` cases differ
  -- in the order of the arguments.
  unfoldable pub any_equal : Value → Items → Bool
  any_equal v nil = false
  any_equal v (cons candidate items) = equal_values parse_float v candidate || any_equal v items

  unfoldable pub any_element_equal : Value → Items → Bool
  any_element_equal v nil = false
  any_element_equal v (cons item items) =
      equal_values parse_float item v || any_element_equal v items

  abbrev pub among_items : Value → Value → Result FilterError Bool
  among_items v (array items) = ok (any_equal v items)
  among_items v _ = err panic

  abbrev pub contains_item : Value → Value → Result FilterError Bool
  contains_item (array items) v = ok (any_element_equal v items)
  contains_item _ v = ok false

  unfoldable pub in_range : FilterOp → Value → Value → Result FilterError Bool
  in_range op v operand =
      if not (same_range_family v operand)
      then ok false
      else (blame bad_document_value (compare_values parse_float v operand) >>= λ o.
          ok (holds op o))

  -- The switch of evaluateNormalizedFilter, on the normalized document value.
  unfoldable pub apply_op : FilterOp → Value → Value → Result FilterError Bool
  unfolding in_range
  apply_op eq v operand = ok (equal_values parse_float v operand)
  apply_op ne v operand = ok (not (equal_values parse_float v operand))
  apply_op among v operand = among_items v operand
  apply_op contains v operand = contains_item v operand
  apply_op (unknown s) v operand = err invalid_operator
  apply_op op v operand = in_range op v operand

  -- evaluateNormalizedFilter; a value that is not present is `none`.
  unfoldable pub evaluate_normalized : Filter → Option Value → Result FilterError Bool
  evaluate_normalized f none = ok false
  evaluate_normalized f (some value) = do
    v ← blame bad_document_value (normalize_value parse_float value)
    apply_op f.op v f.value

  -- EvaluateFilter
  unfoldable pub evaluate_filter : Filter → Option Value → Result FilterError Bool
  evaluate_filter f value = do
    g ← locate (at_filter 0) (normalize_filter f)
    evaluate_normalized g value

  -- The loop of EvaluateFilters, with `matched` so far.
  unfoldable pub evaluate_all :
      Bool → List Filter → (Bytes → Option Value) → Result FilterError Bool
  evaluate_all matched [] get = ok matched
  evaluate_all matched (f ∷ fs) get = do
    result ← locate (at_query_field f.field) (evaluate_normalized f (get f.field))
    evaluate_all (matched && result) fs get

  -- EvaluateFilters
  unfoldable pub evaluate_filters : List Filter → (Bytes → Option Value) → Result FilterError Bool
  unfolding evaluate_all
  evaluate_filters fs get = do normalized ← normalize_filters 0 fs; evaluate_all true normalized get
