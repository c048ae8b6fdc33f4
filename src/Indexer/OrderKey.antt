-- ===== src/Indexer/OrderKey.antt =====
-- Index tuples as byte strings: packages/syntrix/internal/indexer/encoding/orderkey.go.
mod Frame
pub mod Cells
pub mod Order
pub mod Extract
use syntrix.Common.{
  ℕ, zero, suc, ◌-◌, Bool, true, false, not, Option, none, some, List, [], ◌∷◌, ◌++◌, map, Bytes,
  ◌==◌, ltb, leb, ◌&&◌, ◌||◌, if◌then◌else◌, length, Result, ok, err, ◌>>=◌, ◌>>◌, require,
  valid_utf8, complement,
}
use syntrix.Model.Number.{Float64}
use syntrix.Model.Value.{Value, text, ValueError, scalar_key}

abbrev pub version : ℕ
version = 0x02

abbrev pub type_missing : ℕ
type_missing = 0x01

abbrev pub type_string : ℕ
type_string = 0x50

-- Direction is an int; `undefined` is any but 0 and 1.
pub data Direction : Type 0 where
  asc desc undefined : Direction

abbrev pub is_defined : Direction → Bool
is_defined undefined = false
is_defined _ = true

pub record Field : Type 0 where
  pub value : Value
  pub direction : Direction
  pub missing : Bool

pub data KeyError : Type 0 where
  invalid_direction string_too_long id_too_long id_not_utf8 invalid_order_key out_of_fuel : KeyError
  unsupported_type : ValueError → KeyError

abbrev pub blame_type : Result ValueError Bytes → Result KeyError Bytes
blame_type (ok b) = ok b
blame_type (err e) = err (unsupported_type e)

-- The loop that writes 0x00 as 0x00 0x01.
unfoldable pub escape : Bytes → Bytes
escape [] = []
escape (b ∷ rest) = let tail = escape rest in if b == 0 then 0 ∷ 1 ∷ tail else b ∷ tail

abbrev pub directed : Direction → Bytes → Bytes
directed desc buf = map complement buf
directed _ buf = buf

-- The bytes of a field around its raw key: escaped, ended by 0x00 0x00, complemented if descending.
unfoldable pub frame : Direction → Bytes → Bytes
unfolding escape
frame d raw = directed d (escape raw ++ (0 ∷ 0 ∷ []))

-- `value, ok := field.Value.(string); ok && len(value) > 65535`
abbrev pub is_too_long : Value → Bool
is_too_long (text s) = ltb 65535 (length s)
is_too_long _ = false

module _ (parse_float : Bytes → Option Float64) where
  unfoldable pub raw_key : Field → Result KeyError Bytes
  raw_key f =
      if f.missing
      then ok (type_missing ∷ [])
      else if is_too_long f.value
      then err string_too_long
      else blame_type (scalar_key parse_float f.value)

  -- encodeField
  unfoldable pub encode_field : Field → Result KeyError Bytes
  unfolding raw_key
  encode_field f = do
    require (is_defined f.direction) invalid_direction
    raw ← raw_key f
    ok (frame f.direction raw)

  -- The loop of EncodePrefix, behind what it has written.
  unfoldable pub encode_fields : List Field → Result KeyError Bytes
  encode_fields [] = ok []
  encode_fields (f ∷ fs) = do
    encoded ← encode_field f
    rest ← encode_fields fs
    ok (encoded ++ rest)

  -- EncodePrefix
  unfoldable pub encode_prefix : List Field → Result KeyError Bytes
  unfolding encode_fields
  encode_prefix fs = do buf ← encode_fields fs; ok (version ∷ buf)

  -- Encode
  unfoldable pub encode : List Field → Bytes → Result KeyError Bytes
  unfolding encode_prefix
  encode fs doc_id = do
    require (leb (length doc_id) 65535) id_too_long
    require (valid_utf8 doc_id) id_not_utf8
    prefix ← encode_prefix fs
    id ← encode_field (record { value = text doc_id; direction = asc; missing = false })
    ok (prefix ++ id)

-- A byte of a descending component is complemented.
abbrev pub plain : Bool → ℕ → ℕ
plain true b = complement b
plain false b = b

-- The inner loop of ExtractDocID: the component and what follows its end; `none` if it has no end
-- or a 0x00 is followed by anything but 0x00 and 0x01.
unfoldable pub component : Bool → Bytes → Bytes → Option (Bytes × Bytes)
component descending last [] = none
component descending last (b ∷ []) = none
component descending last (b ∷ n ∷ rest) =
    let next : Option (Bytes × Bytes) =
      component descending (last ++ plain descending b ∷ []) (n ∷ rest) in
    let escaped : Option (Bytes × Bytes) = component descending (last ++ 0 ∷ []) rest in
    if not (plain descending b == 0)
    then next
    else if plain descending n == 0
    then some (last, rest)
    else if plain descending n == 1
    then escaped
    else none

-- The checks behind the loop.
abbrev pub document_id : Bool → Bytes → Result KeyError Bytes
document_id descending [] = err invalid_order_key
document_id descending (t ∷ id) =
    if descending || (not (t == type_string) || not (valid_utf8 id))
    then err invalid_order_key
    else ok id

-- What the outer loop does with the result of the inner one: `!terminated || len(last) == 0` ends it.
abbrev pub resume :
    Option (Bytes × Bytes) → (Bytes → Bytes → Result KeyError Bytes) → Result KeyError Bytes
resume none go = err invalid_order_key
resume (some ([], after)) go = err invalid_order_key
resume (some (b ∷ last, after)) go = go (b ∷ last) after

-- The outer loop of ExtractDocID, on fuel: the last component read, and the bytes that are left.
unfoldable pub components : ℕ → Bool → Bytes → Bytes → Result KeyError Bytes
components fuel descending last [] = document_id descending last
components zero descending last (tag ∷ rest) = err out_of_fuel
components (suc fuel) descending last (tag ∷ rest) =
    resume (component (ltb 0x80 tag) [] (tag ∷ rest)) (components fuel (ltb 0x80 tag))

-- ExtractDocID; every component takes a byte at least, so the length of the key is fuel enough.
unfoldable pub extract_doc_id : Bytes → Result KeyError Bytes
unfolding component components
extract_doc_id [] = err invalid_order_key
extract_doc_id (v ∷ rest) =
    if ltb (length (v ∷ rest)) 4 || not (v == version)
    then err invalid_order_key
    else components (length rest) false [] rest
