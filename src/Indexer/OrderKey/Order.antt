-- ===== src/Indexer/OrderKey/Order.antt =====
-- Encoded tuples sort as the tuples: Encode of packages/syntrix/internal/indexer/encoding/orderkey.go.
use mathlib.Core.List.{append_assoc, append-nil}
use syntrix.Common.{
  ◌≤◌, ◌≡◌, refl, sym, ap, ap₂, ◌∙◌, true, false, Option, List, [], ◌∷◌, ◌++◌, Bytes, arith, All,
  IsByte, Ordering, then_compare, then_compare-eq, then_compare_assoc, bytes_compare, length, suc,
  ok, valid_utf8, leb, Bool-cases, inl, inr, ok-injective,
}
use syntrix.Model.Number.{Float64}
use syntrix.Model.Value.{text}
use syntrix.Model.Value.Order.{string}
use syntrix.Indexer.OrderKey.{
  Direction, asc, Field, frame, version, type_string, encode_fields, encode,
}
use syntrix.Indexer.OrderKey.Frame.{in_direction, bytes_compare-frame}
use syntrix.Indexer.OrderKey.Cells.{
  Cell, present, IsCell, compare_cell, Stands, raw_of, raw_of-bytes, encode_field-frame,
  bytes_compare-raw_of,
}

-- The fields stand for the cells, column by column.
abbrev pub AllStand : List Direction → List Cell → List Field → Type 0
AllStand [] [] [] = Unit
AllStand (d ∷ ds) (c ∷ cs) (f ∷ fs) = Stands d c f × AllStand ds cs fs
AllStand _ _ _ = ⊥

-- Tuples compare by their first difference, each column in its direction.
abbrev pub compare_cells : List Direction → List Cell → List Cell → Ordering
compare_cells (d ∷ ds) (c ∷ cs) (e ∷ es) =
    then_compare (in_direction d (compare_cell c e)) (compare_cells ds cs es)
compare_cells _ _ _ = Ordering.eq

unfoldable pub frames : List Direction → List Cell → Bytes
frames (d ∷ ds) (c ∷ cs) = frame d (raw_of c) ++ frames ds cs
frames _ _ = []

pub encode_fields-frames :
    (parse_float : Bytes → Option Float64) (ds : List Direction) (cs : List Cell) (fs : List Field)
    → AllStand ds cs fs
    → encode_fields parse_float fs ≡ ok (frames ds cs)
unfolding encode_fields frames
encode_fields-frames parse_float [] [] [] h = refl
encode_fields-frames parse_float (d ∷ ds) (c ∷ cs) (f ∷ fs) h =
    rw (encode_field-frame parse_float d c f h.0, encode_fields-frames parse_float ds cs fs h.1)
encode_fields-frames parse_float [] [] (f ∷ fs) h = absurd h
encode_fields-frames parse_float [] (c ∷ cs) fs h = absurd h
encode_fields-frames parse_float (d ∷ ds) [] fs h = absurd h
encode_fields-frames parse_float (d ∷ ds) (c ∷ cs) [] h = absurd h

-- The whole key.
unfoldable pub tuple : List Direction → List Cell → Bytes → Bytes
tuple ds cs id = version ∷ (frames ds cs ++ frame asc (type_string ∷ id))

id_field-Stands :
    (id : Bytes)
    → length id ≤ 65535
    → valid_utf8 id ≡ true
    → Stands asc
        (present (string id))
        (record { value = text id; direction = asc; missing = false })
id_field-Stands id h k = record {
  direction = refl;
  defined = refl;
  cell = rw k;
  short = ground arith;
}

-- Encode returns for every tuple of fields that stand for cells, and every document ID of valid UTF-8
-- and 65535 bytes at most.
pub encode_lem :
    (parse_float : Bytes → Option Float64) (ds : List Direction) (cs : List Cell) (fs : List Field)
    (id : Bytes)
    → AllStand ds cs fs
    → length id ≤ 65535
    → valid_utf8 id ≡ true
    → encode parse_float fs id ≡ ok (tuple ds cs id)
unfolding encode tuple
encode_lem parse_float ds cs fs id h short utf8 =
    let fits : leb (length id) 65535 ≡ true = ground arith in
    rw (
      fits,
      utf8,
      encode_fields-frames parse_float ds cs fs h,
      encode_field-frame parse_float asc (present (string id)) _ (id_field-Stands id short utf8),
    )

bytes_compare-frames :
    (ds : List Direction) (cs es : List Cell) (x y : Bytes)
    → length cs ≡ length ds
    → length es ≡ length ds
    → All IsCell cs
    → All IsCell es
    → bytes_compare (frames ds cs ++ x) (frames ds es ++ y)
      ≡ then_compare (compare_cells ds cs es) (bytes_compare x y)
unfolding frames
bytes_compare-frames [] cs es x y lc le hc he = refl
bytes_compare-frames (d ∷ ds) [] es x y lc le hc he = absurd (omega arith)
bytes_compare-frames (d ∷ ds) (c ∷ cs) [] x y lc le hc he = absurd (omega arith)
bytes_compare-frames (d ∷ ds) (c ∷ cs) (e ∷ es) x y lc le hc he =
    rw
      (
        append_assoc (frame d (raw_of c)) (frames ds cs) x,
        append_assoc (frame d (raw_of e)) (frames ds es) y,
        bytes_compare-frame d (raw_of c) (raw_of e) (frames ds cs ++ x) (frames ds es ++ y)
            (raw_of-bytes c hc.0) (raw_of-bytes e he.0),
        bytes_compare-raw_of c e hc.0 he.0,
        bytes_compare-frames ds cs es x y (omega arith) (omega arith) hc.1 he.1,
      )
      (sym (
        then_compare_assoc (in_direction d (compare_cell c e)) (compare_cells ds cs es)
          (bytes_compare x y)))

bytes_compare-id :
    (i j : Bytes)
    → All IsByte i
    → All IsByte j
    → bytes_compare (frame asc (type_string ∷ i)) (frame asc (type_string ∷ j)) ≡ bytes_compare i j
unfolding bytes_compare
bytes_compare-id i j hi hj =
    ap₂ bytes_compare (sym (append-nil (frame asc (type_string ∷ i))))
      (sym (append-nil (frame asc (type_string ∷ j))))
    ∙ bytes_compare-frame asc (type_string ∷ i) (type_string ∷ j) [] [] (omega arith, hi)
        (omega arith, hj)
    ∙ then_compare-eq (bytes_compare i j)

pub AllStand-length :
    (ds : List Direction) (cs : List Cell) (fs : List Field)
    → AllStand ds cs fs
    → length cs ≡ length ds
AllStand-length [] [] [] h = refl
AllStand-length (d ∷ ds) (c ∷ cs) (f ∷ fs) h = ap suc (AllStand-length ds cs fs h.1)
AllStand-length [] [] (f ∷ fs) h = absurd h
AllStand-length [] (c ∷ cs) fs h = absurd h
AllStand-length (d ∷ ds) [] fs h = absurd h
AllStand-length (d ∷ ds) (c ∷ cs) [] h = absurd h

bytes_compare-tuple :
    (ds : List Direction) (cs es : List Cell) (i j : Bytes)
    → length cs ≡ length ds
    → length es ≡ length ds
    → All IsCell cs
    → All IsCell es
    → All IsByte i
    → All IsByte j
    → bytes_compare (tuple ds cs i) (tuple ds es j)
      ≡ then_compare (compare_cells ds cs es) (bytes_compare i j)
unfolding tuple
bytes_compare-tuple ds cs es i j lc le hc he hi hj =
    unfold bytes_compare in
    bytes_compare-frames ds cs es (frame asc (type_string ∷ i)) (frame asc (type_string ∷ j)) lc le
      hc he
    ∙ rw (bytes_compare-id i j hi hj) refl

-- Encode admits only document IDs of valid UTF-8 and 65535 bytes at most.
pub encode_admits :
    (parse_float : Bytes → Option Float64) (fs : List Field) (id : Bytes) {key : Bytes}
    → encode parse_float fs id ≡ ok key
    → (length id ≤ 65535) × (valid_utf8 id ≡ true)
unfolding encode
encode_admits parse_float fs id h = elim (Bool-cases (leb (length id) 65535)) [
  | inr long ↦ ground arith
  | inl fits ↦ elim (Bool-cases (valid_utf8 id)) [
    | inr bad ↦ ground arith
    | inl good ↦ (ground arith, good)
  ]
]

-- Two documents' keys, for columns of the same directions, compare as the tuples of their fields,
-- column by column and each in its direction, with missing fields first, and where the tuples are
-- equal as the document IDs.
pub encode-compare :
    (parse_float : Bytes → Option Float64) (ds : List Direction) (cs es : List Cell)
    (fs gs : List Field) (i j a b : Bytes)
    → AllStand ds cs fs
    → AllStand ds es gs
    → All IsCell cs
    → All IsCell es
    → All IsByte i
    → All IsByte j
    → encode parse_float fs i ≡ ok a
    → encode parse_float gs j ≡ ok b
    → bytes_compare a b ≡ then_compare (compare_cells ds cs es) (bytes_compare i j)
encode-compare parse_float ds cs es fs gs i j a b hf hg hc he hi hj ha hb =
    let (short, utf8) = encode_admits parse_float fs i ha in
    let (short', utf8') = encode_admits parse_float gs j hb in
    rw
      (
        ok-injective (sym ha ∙ encode_lem parse_float ds cs fs i hf short utf8),
        ok-injective (sym hb ∙ encode_lem parse_float ds es gs j hg short' utf8'),
      )
      (bytes_compare-tuple ds cs es i j (AllStand-length ds cs fs hf) (AllStand-length ds es gs hg)
        hc he hi hj)
