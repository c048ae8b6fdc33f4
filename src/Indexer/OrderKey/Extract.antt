-- ===== src/Indexer/OrderKey/Extract.antt =====
-- The document ID is read back from a key: ExtractDocID of packages/syntrix/internal/indexer/encoding.
use mathlib.Core.List.{append_assoc, append-nil}
use syntrix.Common.{
  ℕ, zero, suc, ◌+◌, ◌≤◌, ◌<◌, ◌≡◌, ◌≢◌, refl, sym, ap, ◌∙◌, Bool, true, false, Option, none, some,
  List, [], ◌∷◌, ◌++◌, map, Bytes, arith, All, IsByte, length, length-append, length-map, Result,
  ok, err, valid_utf8, ltb, ◌==◌, ok-injective, complement,
}
use syntrix.Model.Number.{Float64}
use syntrix.Indexer.OrderKey.{
  Direction, asc, desc, undefined, Field, frame, escape, type_string, KeyError, out_of_fuel, encode,
  component, components, resume, plain, document_id, extract_doc_id,
}
use syntrix.Indexer.OrderKey.Frame.{is_descending, component-frame}
use syntrix.Indexer.OrderKey.Cells.{Cell, IsCell, raw_of, raw_of-bytes, raw_of-tag}
use syntrix.Indexer.OrderKey.Order.{
  AllStand, AllStand-length, frames, tuple, encode_lem, encode_admits,
}

-- The first byte of a framed key tells its direction.
frame_head :
    (d : Direction) (t : ℕ) (rest after : Bytes)
    → 0 < t
    → t ≤ 0x50
    → (n : ℕ) × (tail : Bytes) × (frame d (t ∷ rest) ++ after ≡ n ∷ tail)
      × (ltb 0x80 n ≡ is_descending d)
unfolding frame escape
frame_head asc t rest after h k =
    let other : (t == 0) ≡ false = ground arith in
    (t, (escape rest ++ (0 ∷ 0 ∷ [])) ++ after, rw other, ground arith)
frame_head undefined t rest after h k =
    let other : (t == 0) ≡ false = ground arith in
    (t, (escape rest ++ (0 ∷ 0 ∷ [])) ++ after, rw other, ground arith)
frame_head desc t rest after h k =
    let other : (t == 0) ≡ false = ground arith in
    (complement t, map complement (escape rest ++ (0 ∷ 0 ∷ [])) ++ after, rw other, ground arith)

-- One round of the outer loop, at a component that the inner loop reads.
components_round :
    (fuel : ℕ) (descending : Bool) (last : Bytes) (n : ℕ) (tail : Bytes) (t : ℕ)
    (rest after : Bytes)
    → component (ltb 0x80 n) [] (n ∷ tail) ≡ some (t ∷ rest, after)
    → components (suc fuel) descending last (n ∷ tail)
      ≡ components fuel (ltb 0x80 n) (t ∷ rest) after
unfolding components
components_round fuel descending last n tail t rest after h = rw (h, components)

components_step :
    (fuel : ℕ) (d : Direction) (descending : Bool) (last : Bytes) (t : ℕ) (rest after : Bytes)
    → 0 < t
    → t ≤ 0x50
    → All IsByte (t ∷ rest)
    → components (suc fuel) descending last (frame d (t ∷ rest) ++ after)
      ≡ components fuel (is_descending d) (t ∷ rest) after
components_step fuel d descending last t rest after h k bytes =
    let (n, tail, e, direction) = frame_head d t rest after h k in
    let read : component (ltb 0x80 n) [] (n ∷ tail) ≡ some (t ∷ rest, after) =
      rw (direction, ← e) (component-frame d (t ∷ rest) after bytes) in
    rw e (
      components_round fuel descending last n tail t rest after read
      ∙ ap (λ (b : Bool). components fuel b (t ∷ rest) after) direction)

length-escape : (raw : Bytes) → length raw ≤ length (escape raw)
unfolding escape
length-escape [] = omega arith
length-escape (b ∷ raw) = ground (arith, length-escape raw)

length-frame : (d : Direction) (raw : Bytes) → length raw + 2 ≤ length (frame d raw)
unfolding frame
length-frame asc raw = omega (arith, length-escape raw, length-append (escape raw) (0 ∷ 0 ∷ []))
length-frame undefined raw =
    omega (arith, length-escape raw, length-append (escape raw) (0 ∷ 0 ∷ []))
length-frame desc raw = omega (
  arith,
  length-map (escape raw ++ (0 ∷ 0 ∷ [])) complement,
  length-escape raw,
  length-append (escape raw) (0 ∷ 0 ∷ []),
)

length-frames :
    (ds : List Direction) (cs : List Cell)
    → length cs ≡ length ds
    → length ds ≤ length (frames ds cs)
unfolding frames
length-frames [] cs e = omega arith
length-frames (d ∷ ds) [] e = omega arith
length-frames (d ∷ ds) (c ∷ cs) e = omega (
  arith,
  length-append (frame d (raw_of c)) (frames ds cs),
  length-frame d (raw_of c),
  length-frames ds cs (omega arith),
)

components_last :
    (fuel : ℕ) (descending : Bool) (last id : Bytes)
    → All IsByte id
    → components (suc fuel) descending last (frame asc (type_string ∷ id))
      ≡ document_id false (type_string ∷ id)
components_last fuel descending last id h =
    ap (components (suc fuel) descending last) (sym (append-nil (frame asc (type_string ∷ id))))
    ∙ components_step fuel asc descending last type_string id [] (omega arith) (omega arith)
        (omega arith, h)
    ∙ (unfold components in refl)

components-frames :
    (fuel : ℕ) (ds : List Direction) (cs : List Cell) (id : Bytes) (descending : Bool)
    (last : Bytes)
    → length ds < fuel
    → length cs ≡ length ds
    → All IsCell cs
    → All IsByte id
    → components fuel descending last (frames ds cs ++ frame asc (type_string ∷ id))
      ≡ document_id false (type_string ∷ id)
unfolding frames
components-frames zero ds cs id descending last h e hc hi = absurd (omega arith)
components-frames (suc fuel) [] [] id descending last h e hc hi =
    components_last fuel descending last id hi
components-frames (suc fuel) (d ∷ ds) (c ∷ cs) id descending last h e hc hi =
    let (t, rest, shape, low, high) = raw_of-tag c in
    let bytes : All IsByte (t ∷ rest) = rw shape at (raw_of-bytes c hc.0) in
    rw (shape, append_assoc)
      (components_step fuel d descending last t rest _ low high bytes
        ∙ components-frames fuel ds cs id (is_descending d) (t ∷ rest) (omega arith) (omega arith)
            hc.1 hi)
components-frames (suc fuel) [] (c ∷ cs) id descending last h e hc hi = absurd (omega arith)
components-frames (suc fuel) (d ∷ ds) [] id descending last h e hc hi = absurd (omega arith)

document_id_lem : (id : Bytes) → valid_utf8 id ≡ true → document_id false (type_string ∷ id) ≡ ok id
document_id_lem id h = rw h

extract_doc_id-tuple :
    (ds : List Direction) (cs : List Cell) (id : Bytes)
    → length cs ≡ length ds
    → All IsCell cs
    → All IsByte id
    → valid_utf8 id ≡ true
    → extract_doc_id (tuple ds cs id) ≡ ok id
unfolding extract_doc_id tuple
extract_doc_id-tuple ds cs id e hc hi utf8 =
    let total = length-append (frames ds cs) (frame asc (type_string ∷ id)) in
    let long : ltb (length (tuple ds cs id)) 4 ≡ false =
      ground (arith, total, length-frame asc (type_string ∷ id)) in
    rw long (
      components-frames (length (frames ds cs ++ frame asc (type_string ∷ id))) ds cs id false []
        (omega (arith, total, length-frame asc (type_string ∷ id), length-frames ds cs e)) e hc hi
      ∙ document_id_lem id utf8)

-- The document ID that was encoded behind any fields is the one that is read back.
pub extract_doc_id-encode :
    (parse_float : Bytes → Option Float64) (ds : List Direction) (cs : List Cell) (fs : List Field)
    (id : Bytes) {k : Bytes}
    → AllStand ds cs fs
    → All IsCell cs
    → All IsByte id
    → encode parse_float fs id ≡ ok k
    → extract_doc_id k ≡ ok id
extract_doc_id-encode parse_float ds cs fs id hf hc hi h =
    let (short, utf8) = encode_admits parse_float fs id h in
    rw (ok-injective (sym h ∙ encode_lem parse_float ds cs fs id hf short utf8))
      (extract_doc_id-tuple ds cs id (AllStand-length ds cs fs hf) hc hi utf8)

-- The inner loop reads a byte at least.
component_shorter :
    (descending : Bool) (last l : Bytes) (part after : Bytes)
    → component descending last l ≡ some (part, after)
    → length after < length l
unfolding component
component_shorter descending last [] part after h = cc
component_shorter descending last (b ∷ []) part after h = cc
component_shorter descending last (b ∷ n ∷ rest) part after h = ground (
  arith,
  component_shorter descending (last ++ plain descending b ∷ []) (n ∷ rest) part after,
  component_shorter descending (last ++ 0 ∷ []) rest part after,
)

document_id-ne-out_of_fuel :
    (descending : Bool) (last : Bytes) → document_id descending last ≢ err out_of_fuel
document_id-ne-out_of_fuel descending [] e = cc
document_id-ne-out_of_fuel descending (t ∷ id) e = ground arith

resume-ne-out_of_fuel :
    (o : Option (Bytes × Bytes)) (go : Bytes → Bytes → Result KeyError Bytes)
    → ((last after : Bytes) → o ≡ some (last, after) → go last after ≢ err out_of_fuel)
    → resume o go ≢ err out_of_fuel
resume-ne-out_of_fuel none go h e = cc
resume-ne-out_of_fuel (some ([], after)) go h e = cc
resume-ne-out_of_fuel (some (b ∷ last, after)) go h e = h (b ∷ last) after refl e

components-ne-out_of_fuel :
    (fuel : ℕ) (descending : Bool) (last l : Bytes)
    → length l ≤ fuel
    → components fuel descending last l ≢ err out_of_fuel
unfolding components
components-ne-out_of_fuel zero descending last [] h = document_id-ne-out_of_fuel descending last
components-ne-out_of_fuel (suc fuel) descending last [] h =
    document_id-ne-out_of_fuel descending last
components-ne-out_of_fuel zero descending last (tag ∷ rest) h = absurd (omega arith)
components-ne-out_of_fuel (suc fuel) descending last (tag ∷ rest) h =
    resume-ne-out_of_fuel (component (ltb 0x80 tag) [] (tag ∷ rest))
      (components fuel (ltb 0x80 tag))
      λ part after read.
        components-ne-out_of_fuel fuel (ltb 0x80 tag) part after
          (omega (arith, component_shorter (ltb 0x80 tag) [] (tag ∷ rest) part after read))

-- Whatever bytes it is given, the loop ends within the length of the key.
pub extract_doc_id-ne-out_of_fuel : (k : Bytes) → extract_doc_id k ≢ err out_of_fuel
unfolding extract_doc_id
extract_doc_id-ne-out_of_fuel [] e = cc
extract_doc_id-ne-out_of_fuel (v ∷ rest) e =
    ground (arith, components-ne-out_of_fuel (length rest) false [] rest)
