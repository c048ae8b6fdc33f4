-- ===== src/Model/Value/Order.antt =====
-- The order of scalar keys: ScalarKey and CompareValues of packages/syntrix/pkg/model/value.go.
use syntrix.Common.{
  ℕ, ◌≡◌, refl, ap, Bool, true, false, Option, none, some, [], ◌∷◌, Bytes, ◌==◌, arith, ok,
  valid_utf8, if◌then◌else◌, Ordering, compare, compareℤ, bytes_compare, ◌↔◌,
}
use syntrix.Model.Number.{Float64, Number, integer, floating, IsNumber, number_key, parts, abs_bits}
use syntrix.Model.Number.Exact.{exact}
use syntrix.Model.Number.Order.{number_key-compare}
use syntrix.Model.Value.{
  Value, null, bool, text, narrow, int, float32, float, is_non_finite, normalize_value, scalar_key,
  compare_values, equal_values, is_tie,
}

-- The scalars that values stand for.
pub data Scalar : Type 0 where
  nothing : Scalar
  truth : Bool → Scalar
  number : Number → Scalar
  string : Bytes → Scalar

abbrev pub as_scalar : Value → Option Scalar
as_scalar null = some nothing
as_scalar (bool b) = some (truth b)
as_scalar (text s) = if valid_utf8 s then some (string s) else none
as_scalar (narrow i) = some (number (integer i))
as_scalar (int i) = some (number (integer i))
as_scalar (float32 f) = if is_non_finite f then none else some (number (floating f))
as_scalar (float f) = if is_non_finite f then none else some (number (floating f))
as_scalar _ = none

-- Numbers are in the range of their Go types.
abbrev pub InDomain : Scalar → Type 0
InDomain (number n) = IsNumber n
InDomain _ = Unit

-- Null, false, true, numbers, strings.
abbrev pub family : Scalar → ℕ
family nothing = 0
family (truth false) = 1
family (truth true) = 2
family (number n) = 3
family (string s) = 4

-- The documented order: families first, then numbers by their exact value and strings by bytes.
abbrev pub compare_scalar : Scalar → Scalar → Ordering
compare_scalar (number m) (number n) = compareℤ (exact m) (exact n)
compare_scalar (string s) (string t) = bytes_compare s t
compare_scalar x y = compare (family x) (family y)

abbrev pub key : Scalar → Bytes
key nothing = 0x10 ∷ []
key (truth true) = 0x30 ∷ []
key (truth false) = 0x20 ∷ []
key (number n) = number_key n
key (string s) = 0x50 ∷ s

abbrev pub tail : Bytes → Bytes
tail [] = []
tail (x ∷ xs) = xs

tag_cases :
    (b c : Bool) (xs ys zs : Bytes)
    → let k : Bytes = if b then 0x40 ∷ xs else if c then 0x40 ∷ ys else 0x40 ∷ zs in
      k ≡ 0x40 ∷ tail k
tag_cases true c xs ys zs = refl
tag_cases false true xs ys zs = refl
tag_cases false false xs ys zs = refl

pub number_key-tag : (n : Number) → number_key n ≡ 0x40 ∷ tail (number_key n)
unfolding number_key
number_key-tag n = tag_cases ((parts n).significand == 0) (parts n).negative _ _ _

pub bytes_compare-key :
    (x y : Scalar) → InDomain x → InDomain y → bytes_compare (key x) (key y) ≡ compare_scalar x y
unfolding bytes_compare
bytes_compare-key (number m) (number n) hx hy = number_key-compare m n hx hy
bytes_compare-key (number m) nothing hx hy = rw (number_key-tag m)
bytes_compare-key (number m) (truth false) hx hy = rw (number_key-tag m)
bytes_compare-key (number m) (truth true) hx hy = rw (number_key-tag m)
bytes_compare-key (number m) (string t) hx hy = rw (number_key-tag m)
bytes_compare-key nothing (number n) hx hy = rw (number_key-tag n)
bytes_compare-key (truth false) (number n) hx hy = rw (number_key-tag n)
bytes_compare-key (truth true) (number n) hx hy = rw (number_key-tag n)
bytes_compare-key (string s) (number n) hx hy = rw (number_key-tag n)
bytes_compare-key nothing nothing hx hy = refl
bytes_compare-key nothing (truth false) hx hy = refl
bytes_compare-key nothing (truth true) hx hy = refl
bytes_compare-key nothing (string t) hx hy = refl
bytes_compare-key (truth false) nothing hx hy = refl
bytes_compare-key (truth false) (truth false) hx hy = refl
bytes_compare-key (truth false) (truth true) hx hy = refl
bytes_compare-key (truth false) (string t) hx hy = refl
bytes_compare-key (truth true) nothing hx hy = refl
bytes_compare-key (truth true) (truth false) hx hy = refl
bytes_compare-key (truth true) (truth true) hx hy = refl
bytes_compare-key (truth true) (string t) hx hy = refl
bytes_compare-key (string s) nothing hx hy = refl
bytes_compare-key (string s) (truth false) hx hy = refl
bytes_compare-key (string s) (truth true) hx hy = refl
bytes_compare-key (string s) (string t) hx hy = refl

-- Both zeros have one key.
number_key-zero : (f : Float64) → abs_bits f ≡ 0 → number_key (floating f) ≡ number_key (floating 0)
unfolding number_key
number_key-zero f h = ground arith

tie_iff : (o : Ordering) → (is_tie (ok o) ≡ true) ↔ (o ≡ Ordering.eq)
tie_iff o = ground arith

module _ (parse_float : Bytes → Option Float64) where
  scalar_key-float :
      (f : Float64) {x : Scalar}
      → as_scalar (float f) ≡ some x
      → scalar_key parse_float (float f) ≡ ok (key x)
  unfolding scalar_key normalize_value
  scalar_key-float f h = ground (arith, number_key-zero f)

  -- The key of a value that stands for a scalar.
  pub scalar_key-key :
      (v : Value) (x : Scalar) → as_scalar v ≡ some x → scalar_key parse_float v ≡ ok (key x)
  unfolding scalar_key normalize_value
  scalar_key-key null x h = ground arith
  scalar_key-key (bool true) x h = ground arith
  scalar_key-key (bool false) x h = ground arith
  scalar_key-key (text s) x h = ground arith
  scalar_key-key (narrow i) x h = ground arith
  scalar_key-key (int i) x h = ground arith
  scalar_key-key (float32 f) x h = scalar_key-float f h
  scalar_key-key (float f) x h = scalar_key-float f h
  scalar_key-key _ x h = cc

  -- Values that stand for scalars of Go's number types always compare, and as the documented order says.
  pub compare_values-scalar :
      (a b : Value) (x y : Scalar)
      → as_scalar a ≡ some x
      → as_scalar b ≡ some y
      → InDomain x
      → InDomain y
      → compare_values parse_float a b ≡ ok (compare_scalar x y)
  unfolding compare_values
  compare_values-scalar a b x y ha hb hx hy =
      rw (scalar_key-key a x ha, scalar_key-key b y hb) (ap ok (bytes_compare-key x y hx hy))

  -- EqualValues holds of two such values exactly if the documented order has them tied: of an int64
  -- and a float64 exactly if they are the same number.
  pub equal_values_iff :
      (a b : Value) (x y : Scalar)
      → as_scalar a ≡ some x
      → as_scalar b ≡ some y
      → InDomain x
      → InDomain y
      → (equal_values parse_float a b ≡ true) ↔ (compare_scalar x y ≡ Ordering.eq)
  unfolding equal_values
  equal_values_iff a b x y ha hb hx hy =
      rw (compare_values-scalar a b x y ha hb hx hy) (tie_iff (compare_scalar x y))
