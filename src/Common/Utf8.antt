-- ===== src/Common/Utf8.antt =====
-- Go's library on text: `utf8.Valid` and `strconv.ParseInt` with base 10 and 64 bits.
use Prim.Native.Nat.{ℕ, zero, suc, ◌+◌, ◌-◌, ◌*◌, ◌^◌}
use mathlib.Core.Bool.{Bool, true, false, ◌&&◌}
use mathlib.Core.Option.{Option, none, some}
use mathlib.Core.List.{[], ◌∷◌}
use mathlib.Core.Path.{◌≡◌, refl}
use syntrix.Common.Tests.{Bytes, codes, ltb, leb, ◌==◌, if◌then◌else◌}
use syntrix.Common.Int.{ℤ, pos, negsuc}

-- What a leading byte announces: the bytes that continue it, and the range of the first of them.
pub record Lead : Type 0 where
  pub more : ℕ
  pub low : ℕ
  pub high : ℕ

abbrev leads : ℕ → ℕ → ℕ → Option Lead
leads n l h = some (record { more = n; low = l; high = h })

abbrev in_range : ℕ → ℕ → ℕ → Bool
in_range l h b = leb l b && leb b h

lead : ℕ → Option Lead
lead b =
    if ltb b 0x80
    then leads 0 0x80 0xBF
    else if in_range 0xC2 0xDF b
    then leads 1 0x80 0xBF
    else if b == 0xE0
    then leads 2 0xA0 0xBF
    else if b == 0xED
    then leads 2 0x80 0x9F
    else if in_range 0xE1 0xEF b
    then leads 2 0x80 0xBF
    else if b == 0xF0
    then leads 3 0x90 0xBF
    else if b == 0xF4
    then leads 3 0x80 0x8F
    else if in_range 0xF1 0xF3 b
    then leads 3 0x80 0xBF
    else none

-- `more` continuation bytes are due, the first of them between `low` and `high`.
valid_from : Lead → Bytes → Bool
valid_from s [] = s.more == 0
valid_from s (b ∷ rest) =
    elim (if s.more == 0
      then lead b
      else if in_range s.low s.high b
      then leads (s.more - 1) 0x80 0xBF
      else none) [ none ↦ false | some s' ↦ valid_from s' rest ]

-- `utf8.Valid`, `utf8.ValidString`
unfoldable pub valid_utf8 : Bytes → Bool
unfolding valid_from lead
valid_utf8 = valid_from (record { more = 0; low = 0x80; high = 0xBF })

valid_utf8_samples :
    (valid_utf8 (codes "ab") ≡ true)
    × (valid_utf8 (0xE2 ∷ 0x82 ∷ 0xAC ∷ []) ≡ true)
    × (valid_utf8 (0xED ∷ 0xA0 ∷ 0x80 ∷ []) ≡ false)
    × (valid_utf8 (0xC3 ∷ []) ≡ false)
unfolding valid_utf8
valid_utf8_samples = (refl, refl, refl, refl)

-- The value of a run of decimal digits behind the number `acc`; `none` is a syntax error.
decimal : ℕ → Bytes → Option ℕ
decimal acc [] = some acc
decimal acc (c ∷ rest) =
    let next = decimal (acc * 10 + (c - b'0')) rest in if in_range b'0' b'9' c then next else none

-- At least one digit.
unsigned : Bytes → Option ℕ
unfolding decimal
unsigned [] = none
unsigned (c ∷ rest) = decimal 0 (c ∷ rest)

in_domain : Bool → Option ℕ → Option ℤ
in_domain negative none = none
in_domain false (some n) = if ltb n (2 ^ 63) then some (pos n) else none
in_domain true (some zero) = some (pos 0)
in_domain true (some (suc n)) = if ltb n (2 ^ 63) then some (negsuc n) else none

-- `strconv.ParseInt(s, 10, 64)`, `none` for its errors.
unfoldable pub parse_int : Bytes → Option ℤ
unfolding unsigned in_domain
parse_int [] = none
parse_int (c ∷ rest) =
    if c == b'-'
    then in_domain true (unsigned rest)
    else if c == b'+'
    then in_domain false (unsigned rest)
    else in_domain false (unsigned (c ∷ rest))

parse_int_samples :
    (parse_int (codes "-9223372036854775808") ≡ some (negsuc 9223372036854775807))
    × (parse_int (codes "9223372036854775808") ≡ none)
    × (parse_int (codes "1x") ≡ none)
unfolding parse_int
parse_int_samples = (refl, refl, refl)
