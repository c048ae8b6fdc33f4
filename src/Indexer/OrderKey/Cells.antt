-- ===== src/Indexer/OrderKey/Cells.antt =====
-- What the fields of an index tuple stand for, and their raw keys.
use syntrix.Common.{
  ℕ, ◌≤◌, ◌<◌, ◌≡◌, refl, Bool, true, false, Option, none, some, [], ◌∷◌, map, Bytes, ◌==◌, arith,
  if◌then◌else◌, All, All-append, IsByte, complement, Ordering, bytes_compare, bytes_compare_refl,
  inl, inr, ok, big_endian, big_endian-bytes, Option-cases,
}
use syntrix.Model.Number.{Float64, Number, number_key, parts, zeros}
use syntrix.Model.Value.Order.{
  Scalar, nothing, truth, number, string, as_scalar, InDomain, compare_scalar, key, scalar_key-key,
  bytes_compare-key, number_key-tag,
}
use syntrix.Indexer.OrderKey.{
  Direction, Field, frame, is_defined, is_too_long, raw_key, encode_field, type_missing,
}

-- A field of a document: missing, or a scalar.
pub data Cell : Type 0 where
  absent : Cell
  present : Scalar → Cell

-- Numbers in the range of their Go types; the bytes of a text are bytes.
abbrev pub IsCell : Cell → Type 0
IsCell absent = Unit
IsCell (present (number n)) = InDomain (number n)
IsCell (present (string s)) = All IsByte s
IsCell (present _) = Unit

-- Missing fields come first, then the scalars in their documented order.
abbrev pub compare_cell : Cell → Cell → Ordering
compare_cell absent absent = Ordering.eq
compare_cell absent (present y) = Ordering.lt
compare_cell (present x) absent = Ordering.gt
compare_cell (present x) (present y) = compare_scalar x y

abbrev to_cell : Option Scalar → Option Cell
to_cell none = none
to_cell (some x) = some (present x)

abbrev pub cell_of : Field → Option Cell
cell_of f = if f.missing then some absent else to_cell (as_scalar f.value)

-- The field stands for the cell in a column of this direction.
pub record Stands (d : Direction) (c : Cell) (f : Field) : Type 0 where
  pub direction : f.direction ≡ d
  pub defined : is_defined d ≡ true
  pub cell : cell_of f ≡ some c
  pub short : is_too_long f.value ≡ false

abbrev pub raw_of : Cell → Bytes
raw_of absent = type_missing ∷ []
raw_of (present x) = key x

InDomain-IsCell : (x : Scalar) → IsCell (present x) → InDomain x
InDomain-IsCell nothing h = tt
InDomain-IsCell (truth b) h = tt
InDomain-IsCell (number n) h = h
InDomain-IsCell (string s) h = tt

raw_key-cell :
    (parse_float : Bytes → Option Float64) (c : Cell) (f : Field)
    → cell_of f ≡ some c
    → is_too_long f.value ≡ false
    → raw_key parse_float f ≡ ok (raw_of c)
unfolding raw_key
raw_key-cell parse_float c f h short = elim (Option-cases (as_scalar f.value)) [
  | inl e ↦ ground arith
  | inr (x, e) ↦ ground (arith, scalar_key-key parse_float f.value x e)
]

-- A field that stands for a cell is encoded as the framed raw key of the cell.
pub encode_field-frame :
    (parse_float : Bytes → Option Float64) (d : Direction) (c : Cell) (f : Field)
    → Stands d c f
    → encode_field parse_float f ≡ ok (frame d (raw_of c))
unfolding encode_field
encode_field-frame parse_float d c f h =
    rw (h.direction, h.defined, raw_key-cell parse_float c f h.cell h.short)

complement-IsByte : (xs : Bytes) → All IsByte (map complement xs)
complement-IsByte [] = tt
complement-IsByte (x ∷ xs) = (omega arith, complement-IsByte xs)

tagged-bytes :
    (b c : Bool) (xs : Bytes)
    → All IsByte xs
    → All IsByte
        (if b then 0x40 ∷ 1 ∷ zeros else if c then 0x40 ∷ 0 ∷ map complement xs else 0x40 ∷ 2 ∷ xs)
tagged-bytes true c xs h = omega arith
tagged-bytes false true xs h = (omega arith, (omega arith, complement-IsByte xs))
tagged-bytes false false xs h = (omega arith, (omega arith, h))

number_key-bytes : (n : Number) → All IsByte (number_key n)
unfolding number_key
number_key-bytes n = tagged-bytes ((parts n).significand == 0) (parts n).negative _ (
    All-append IsByte (big_endian 2 (parts n).exponent) _ (big_endian-bytes 2 _)
      (big_endian-bytes 8 _))

pub raw_of-bytes : (c : Cell) → IsCell c → All IsByte (raw_of c)
raw_of-bytes absent h = omega arith
raw_of-bytes (present nothing) h = omega arith
raw_of-bytes (present (truth true)) h = omega arith
raw_of-bytes (present (truth false)) h = omega arith
raw_of-bytes (present (number n)) h = number_key-bytes n
raw_of-bytes (present (string s)) h = (omega arith, h)

type_missing-lt-key : (x : Scalar) → bytes_compare (raw_of absent) (key x) ≡ Ordering.lt
unfolding bytes_compare
type_missing-lt-key nothing = refl
type_missing-lt-key (truth true) = refl
type_missing-lt-key (truth false) = refl
type_missing-lt-key (number n) = rw (number_key-tag n)
type_missing-lt-key (string s) = refl

key-gt-type_missing : (x : Scalar) → bytes_compare (key x) (raw_of absent) ≡ Ordering.gt
unfolding bytes_compare
key-gt-type_missing nothing = refl
key-gt-type_missing (truth true) = refl
key-gt-type_missing (truth false) = refl
key-gt-type_missing (number n) = rw (number_key-tag n)
key-gt-type_missing (string s) = refl

-- Raw keys compare as the cells.
pub bytes_compare-raw_of :
    (c e : Cell) → IsCell c → IsCell e → bytes_compare (raw_of c) (raw_of e) ≡ compare_cell c e
bytes_compare-raw_of absent absent hc he = bytes_compare_refl (raw_of absent)
bytes_compare-raw_of absent (present y) hc he = type_missing-lt-key y
bytes_compare-raw_of (present x) absent hc he = key-gt-type_missing x
bytes_compare-raw_of (present x) (present y) hc he =
    bytes_compare-key x y (InDomain-IsCell x hc) (InDomain-IsCell y he)

-- The first byte of a raw key is a tag, not 0 and at most that of strings.
pub raw_of-tag :
    (c : Cell) → (t : ℕ) × (rest : Bytes) × (raw_of c ≡ t ∷ rest) × (0 < t) × (t ≤ 0x50)
raw_of-tag absent = (1, [], refl, omega arith, omega arith)
raw_of-tag (present nothing) = (0x10, [], refl, omega arith, omega arith)
raw_of-tag (present (truth true)) = (0x30, [], refl, omega arith, omega arith)
raw_of-tag (present (truth false)) = (0x20, [], refl, omega arith, omega arith)
raw_of-tag (present (number n)) = (0x40, _, number_key-tag n, omega arith, omega arith)
raw_of-tag (present (string s)) = (0x50, s, refl, omega arith, omega arith)
