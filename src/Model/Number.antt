-- ===== src/Model/Number.antt =====
-- The sortable key of a number: numberKey of packages/syntrix/pkg/model/value.go.
pub mod Exact
pub mod Order
use syntrix.Common.{
  ℕ, suc, ◌+◌, ◌-◌, ◌*◌, ◌/◌, ◌%◌, ◌^◌, ◌<◌, ◌≢◌, Bool, true, false, not, ◌&&◌, ◌∷◌, [], ◌++◌, map,
  Bytes, ◌==◌, ltb, if◌then◌else◌, ℤ, pos, negsuc, IsInt64, u64, complement, big_endian, len64,
}

-- A `float64` is its IEEE 754 bit pattern, `math.Float64bits`.
abbrev pub Float64 : Type 0
Float64 = ℕ

-- `math.Float64bits(math.Abs(f))`
abbrev pub abs_bits : Float64 → ℕ
abs_bits f = f % 2 ^ 63

-- The 52 bits of the fraction and the 11 bits of the exponent.
abbrev pub fraction : Float64 → ℕ
fraction f = abs_bits f % 2 ^ 52

abbrev pub encoded_exponent : Float64 → ℕ
encoded_exponent f = abs_bits f / 2 ^ 52 % 2048

-- `f < 0`, of a float that is not a NaN: minus zero is not below zero.
abbrev pub is_below_zero : Float64 → Bool
is_below_zero f = ltb 0 (f / 2 ^ 63) && ltb 0 (abs_bits f)

-- The arguments (integer, floating, isInteger) of numberKey.
pub data Number : Type 0 where
  integer : ℤ → Number
  floating : Float64 → Number

-- An `int64`, or a `float64` that is neither infinite nor a NaN.
abbrev pub IsNumber : Number → Type 0
IsNumber (integer z) = IsInt64 z
IsNumber (floating f) = (f < 2 ^ 64) × (encoded_exponent f < 2047)

-- The local variables of numberKey when the key is written. `exponent` is the source's with the
-- 1074 added that `uint16(exponent+1074)` adds, so that it is never below 0.
pub record Parts : Type 0 where
  pub negative : Bool
  pub significand : ℕ
  pub exponent : ℕ

-- `magnitude` of an integer
abbrev pub magnitude : ℤ → ℕ
magnitude (pos n) = n
magnitude (negsuc n) = u64 (n + 1)

abbrev pub is_negative : ℤ → Bool
is_negative (pos n) = false
is_negative (negsuc n) = true

-- The top bit of a number that is not 0 is shifted to bit 63; `low` is the weight of bit 0.
normalise : Bool → ℕ → ℕ → Parts
normalise sign m low =
    if m == 0 then record { negative = sign; significand = 0; exponent = 1074 } else record {
      negative = sign;
      significand = u64 (m * 2 ^ (64 - len64 m));
      exponent = low + len64 m - 1;
    }

unfoldable pub parts : Number → Parts
unfolding normalise
parts (integer z) = normalise (is_negative z) (magnitude z) 1074
parts (floating f) =
    if encoded_exponent f == 0 then normalise (is_below_zero f) (fraction f) 0 else record {
      negative = is_below_zero f;
      significand = u64 ((2 ^ 52 + fraction f) * 2 ^ 11);
      exponent = encoded_exponent f + 51;
    }

-- The ten bytes behind the tag and the sign.
unfoldable pub digits : Parts → Bytes
digits p = big_endian 2 p.exponent ++ big_endian 8 p.significand

abbrev pub zeros : Bytes
zeros = 0 ∷ 0 ∷ 0 ∷ 0 ∷ 0 ∷ 0 ∷ 0 ∷ 0 ∷ 0 ∷ 0 ∷ []

unfoldable pub key_of_parts : Parts → Bytes
unfolding digits
key_of_parts p =
    if p.significand == 0
    then 0x40 ∷ 1 ∷ zeros
    else if p.negative
    then 0x40 ∷ 0 ∷ map complement (digits p)
    else 0x40 ∷ 2 ∷ digits p

unfoldable pub number_key : Number → Bytes
unfolding parts key_of_parts
number_key n = key_of_parts (parts n)
