-- ===== src/Model/Value.antt =====
-- Document values and their sortable keys: packages/syntrix/pkg/model/value.go.
pub mod Normal
pub mod Order
use syntrix.Common.{
  ℕ, zero, suc, ◌+◌, ◌%◌, ◌^◌, ◌<◌, Bool, true, false, not, Option, none, some, List, [], ◌∷◌, ◌++◌,
  Bytes, ◌==◌, ◌||◌, if◌then◌else◌, ℤ, IsInt64, Ordering, bytes_compare, Result, ok, err, ◌>>=◌,
  ◌>>◌, require, wrap, valid_utf8, parse_int,
}
use syntrix.Model.Number.{Float64, abs_bits, encoded_exponent, integer, floating, number_key}

-- What an `any` holds. `narrow` is an int, int8, int16 or int32 by its value, `float32` one by the
-- float64 that it converts to, `token` a json.Number by its text, and `other` any other Go type.
mutual
  pub data Value : Type 0 where
    null : Value
    bool : Bool → Value
    text : Bytes → Value
    narrow : ℤ → Value
    int : ℤ → Value
    float32 : Float64 → Value
    float : Float64 → Value
    token : Bytes → Value
    array : Items → Value
    object : Fields → Value
    other : Value

  -- A slice.
  pub data Items : Type 0 where
    nil : Items
    cons : Value → Items → Items

  -- A map with string keys, in the order in which its iteration meets them.
  pub data Fields : Type 0 where
    end : Fields
    field : Bytes → Value → Fields → Fields

-- The errors of value.go; the last two wrap the error of a part.
pub data ValueError : Type 0 where
  invalid_utf8 non_finite outside_int64 invalid_number invalid_key unsupported not_scalar :
      ValueError
  at_element : ℕ → ValueError → ValueError
  at_field : Bytes → ValueError → ValueError

-- `math.IsNaN(f) || math.IsInf(f, 0)`
abbrev pub is_non_finite : Float64 → Bool
is_non_finite f = encoded_exponent f == 2047

-- The float64 case of NormalizeValue: both zeros become plus zero.
unfoldable pub normalize_float : Float64 → Result ValueError Value
normalize_float f =
    if is_non_finite f
    then err non_finite
    else if abs_bits f == 0
    then ok (float 0)
    else ok (float f)

-- `strings.ContainsAny(v, ".eE")`
unfoldable pub is_fractional : Bytes → Bool
is_fractional [] = false
is_fractional (c ∷ rest) = (c == b'.' || (c == b'e' || c == b'E')) || is_fractional rest

-- What becomes of the results of `v.Int64()` and `v.Float64()`.
abbrev pub checked_int : Option ℤ → Result ValueError Value
checked_int none = err outside_int64
checked_int (some i) = ok (int i)

unfoldable pub checked_float : Option Float64 → Result ValueError Value
checked_float none = err invalid_number
checked_float (some f) = normalize_float f

-- `err == nil && comparison == 0`
abbrev pub is_tie : Result ValueError Ordering → Bool
is_tie (ok Ordering.eq) = true
is_tie _ = false

-- What `strconv.ParseFloat(v, 64)` makes of a text, `none` for its errors, is a parameter: Go's
-- correctly rounded conversion is not modelled.
module _ (parse_float : Bytes → Option Float64) where
  unfoldable pub normalize_token : Bytes → Result ValueError Value
  unfolding is_fractional normalize_float checked_float
  normalize_token v =
      if not (is_fractional v) then checked_int (parse_int v) else checked_float (parse_float v)

  unfoldable mutual
    unfolding normalize_token

    -- NormalizeValue
    pub normalize_value : Value → Result ValueError Value
    normalize_value null = ok null
    normalize_value (bool b) = ok (bool b)
    normalize_value (text s) = if valid_utf8 s then ok (text s) else err invalid_utf8
    normalize_value (narrow i) = ok (int i)
    normalize_value (int i) = ok (int i)
    normalize_value (float32 f) = normalize_float f
    normalize_value (float f) = normalize_float f
    normalize_value (token v) = normalize_token v
    normalize_value (array xs) = do ys ← normalize_items 0 xs; ok (array ys)
    normalize_value (object fs) = do gs ← normalize_fields fs; ok (object gs)
    normalize_value other = err unsupported

    -- The loop over a slice, at index `i`.
    pub normalize_items : ℕ → Items → Result ValueError Items
    normalize_items i nil = ok nil
    normalize_items i (cons x xs) = do
      y ← wrap (at_element i) (normalize_value x)
      ys ← normalize_items (i + 1) xs
      ok (cons y ys)

    -- The loop over a map.
    pub normalize_fields : Fields → Result ValueError Fields
    normalize_fields end = ok end
    normalize_fields (field k x fs) = do
      require (valid_utf8 k) invalid_key
      y ← wrap (at_field k) (normalize_value x)
      gs ← normalize_fields fs
      ok (field k y gs)

  -- The switch of ScalarKey on a normalized value.
  unfoldable pub scalar_key_of : Value → Result ValueError Bytes
  scalar_key_of null = ok (0x10 ∷ [])
  scalar_key_of (bool true) = ok (0x30 ∷ [])
  scalar_key_of (bool false) = ok (0x20 ∷ [])
  scalar_key_of (text s) = ok (0x50 ∷ s)
  scalar_key_of (int i) = ok (number_key (integer i))
  scalar_key_of (float f) = ok (number_key (floating f))
  scalar_key_of _ = err not_scalar

  unfoldable pub scalar_key : Value → Result ValueError Bytes
  unfolding scalar_key_of
  scalar_key value = do v ← normalize_value value; scalar_key_of v

  unfoldable pub compare_values : Value → Value → Result ValueError Ordering
  compare_values a b = do left ← scalar_key a; right ← scalar_key b; ok (bytes_compare left right)

  unfoldable pub equal_values : Value → Value → Bool
  equal_values a b = is_tie (compare_values a b)
