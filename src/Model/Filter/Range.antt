-- ===== src/Model/Filter/Range.antt =====
-- What the scalar operators decide: evaluateNormalizedFilter of packages/syntrix/pkg/model.
use syntrix.Common.{
  Ordering, ◌≡◌, refl, Bool, true, false, Option, some, Bytes, arith, ok, valid_utf8, ◌&&◌,
}
use syntrix.Model.Number.{Float64, integer, floating, IsNumber}
use syntrix.Model.Value.{
  Value, null, bool, text, int, float, normalize_value, equal_values, compare_values,
}
use syntrix.Model.Value.Order.{
  Scalar, nothing, truth, number, string, as_scalar, InDomain, compare_scalar,
  compare_values-scalar,
}
use syntrix.Model.Filter.{
  FilterOp, eq, ne, gt, gte, lt, lte, Filter, same_range_family, apply_op, evaluate_normalized,
}

-- The normalized value of a scalar.
abbrev pub value_of : Scalar → Value
value_of nothing = null
value_of (truth b) = bool b
value_of (number (integer i)) = int i
value_of (number (floating f)) = float f
value_of (string s) = text s

-- Numbers in the range of their Go type and texts of valid UTF-8.
abbrev pub Admissible : Scalar → Type 0
Admissible (number n) = IsNumber n
Admissible (string s) = valid_utf8 s ≡ true
Admissible _ = Unit

-- Two numbers, or two strings.
abbrev pub same_family : Scalar → Scalar → Bool
same_family (number m) (number n) = true
same_family (string s) (string t) = true
same_family _ _ = false

-- What an operator says of three-way comparisons.
abbrev pub admits : FilterOp → Ordering → Bool
admits eq Ordering.eq = true
admits ne Ordering.lt = true
admits ne Ordering.gt = true
admits gt Ordering.gt = true
admits gte Ordering.gt = true
admits gte Ordering.eq = true
admits lt Ordering.lt = true
admits lte Ordering.lt = true
admits lte Ordering.eq = true
admits _ _ = false

-- What an operator says of two scalars in the documented order.
abbrev pub decides : FilterOp → Scalar → Scalar → Bool
decides eq x y = admits eq (compare_scalar x y)
decides ne x y = admits ne (compare_scalar x y)
decides op x y = same_family x y && admits op (compare_scalar x y)

abbrev pub IsScalarOp : FilterOp → Type 0
IsScalarOp eq = Unit
IsScalarOp ne = Unit
IsScalarOp gt = Unit
IsScalarOp gte = Unit
IsScalarOp lt = Unit
IsScalarOp lte = Unit
IsScalarOp _ = ⊥

as_scalar-value_of : (x : Scalar) → Admissible x → as_scalar (value_of x) ≡ some x
as_scalar-value_of nothing h = refl
as_scalar-value_of (truth b) h = refl
as_scalar-value_of (number (integer i)) h = refl
as_scalar-value_of (number (floating f)) h = ground arith
as_scalar-value_of (string s) h = ground arith

Admissible-InDomain : (x : Scalar) → Admissible x → InDomain x
Admissible-InDomain nothing h = tt
Admissible-InDomain (truth b) h = tt
Admissible-InDomain (number n) h = h
Admissible-InDomain (string s) h = tt

family-value_of : (x y : Scalar) → same_range_family (value_of x) (value_of y) ≡ same_family x y
family-value_of nothing y = refl
family-value_of (truth b) y = refl
family-value_of (number (integer i)) nothing = refl
family-value_of (number (integer i)) (truth b) = refl
family-value_of (number (integer i)) (number (integer j)) = refl
family-value_of (number (integer i)) (number (floating g)) = refl
family-value_of (number (integer i)) (string t) = refl
family-value_of (number (floating f)) nothing = refl
family-value_of (number (floating f)) (truth b) = refl
family-value_of (number (floating f)) (number (integer j)) = refl
family-value_of (number (floating f)) (number (floating g)) = refl
family-value_of (number (floating f)) (string t) = refl
family-value_of (string s) nothing = refl
family-value_of (string s) (truth b) = refl
family-value_of (string s) (number (integer j)) = refl
family-value_of (string s) (number (floating g)) = refl
family-value_of (string s) (string t) = refl

module _ (parse_float : Bytes → Option Float64) where
  compare_values-value_of :
      (x y : Scalar)
      → Admissible x
      → Admissible y
      → compare_values parse_float (value_of x) (value_of y) ≡ ok (compare_scalar x y)
  compare_values-value_of x y hx hy =
      compare_values-scalar parse_float (value_of x) (value_of y) x y (as_scalar-value_of x hx)
        (as_scalar-value_of y hy) (Admissible-InDomain x hx) (Admissible-InDomain y hy)

  apply_op-decides :
      (op : FilterOp) (x y : Scalar)
      → IsScalarOp op
      → Admissible x
      → Admissible y
      → apply_op parse_float op (value_of x) (value_of y) ≡ ok (decides op x y)
  unfolding apply_op equal_values
  apply_op-decides eq x y h hx hy = ground (arith, compare_values-value_of x y hx hy)
  apply_op-decides ne x y h hx hy = ground (arith, compare_values-value_of x y hx hy)
  apply_op-decides gt x y h hx hy =
      ground (arith, compare_values-value_of x y hx hy, family-value_of x y)
  apply_op-decides gte x y h hx hy =
      ground (arith, compare_values-value_of x y hx hy, family-value_of x y)
  apply_op-decides lt x y h hx hy =
      ground (arith, compare_values-value_of x y hx hy, family-value_of x y)
  apply_op-decides lte x y h hx hy =
      ground (arith, compare_values-value_of x y hx hy, family-value_of x y)
  apply_op-decides _ x y h hx hy = absurd h

  -- On a document value that normalizes to a scalar, each of the operators ==, !=, >, >=, < and <=
  -- answers by the documented order; the four ranges are false across families, and no operator fails.
  pub evaluate_normalized-decides :
      (f : Filter) (value : Value) (x y : Scalar)
      → IsScalarOp f.op
      → f.value ≡ value_of y
      → normalize_value parse_float value ≡ ok (value_of x)
      → Admissible x
      → Admissible y
      → evaluate_normalized parse_float f (some value) ≡ ok (decides f.op x y)
  unfolding evaluate_normalized
  evaluate_normalized-decides f value x y h e n hx hy =
      rw (n, e) (apply_op-decides f.op x y h hx hy)
