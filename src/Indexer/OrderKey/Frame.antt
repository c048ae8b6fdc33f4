-- ===== src/Indexer/OrderKey/Frame.antt =====
-- The frame of a component keeps the order, and no frame is the beginning of another.
use syntrix.Common.{
  ℕ, ◌≡◌, ◌≢◌, refl, ◌∙◌, Bool, true, false, some, [], ◌∷◌, ◌++◌, map, Bytes, ◌==◌, arith, All,
  IsByte, complement, Ordering, then_compare, bytes_compare, Bool-cases, inl, inr, flip,
}
use syntrix.Indexer.OrderKey.{Direction, asc, desc, undefined, escape, frame, component, plain}
use mathlib.Core.List.{append-nil, append_assoc}

-- A comparison in the direction of a column.
abbrev pub in_direction : Direction → Ordering → Ordering
in_direction desc o = flip o
in_direction _ o = o

abbrev end : Bytes
end = 0 ∷ 0 ∷ []

ascending_frame :
    (a b x y : Bytes)
    → bytes_compare ((escape a ++ end) ++ x) ((escape b ++ end) ++ y)
      ≡ then_compare (bytes_compare a b) (bytes_compare x y)
unfolding escape bytes_compare
ascending_frame [] [] x y = refl
ascending_frame [] (b ∷ m) x y = ground arith
ascending_frame (a ∷ l) [] x y = ground arith
ascending_frame (a ∷ l) (b ∷ m) x y = ground (arith, ascending_frame l m x y)

descending_frame :
    (a b x y : Bytes)
    → All IsByte a
    → All IsByte b
    → bytes_compare (map complement (escape a ++ end) ++ x) (map complement (escape b ++ end) ++ y)
      ≡ then_compare (flip (bytes_compare a b)) (bytes_compare x y)
unfolding escape bytes_compare
descending_frame [] [] x y ha hb = refl
descending_frame [] (b ∷ m) x y ha hb = ground arith
descending_frame (a ∷ l) [] x y ha hb = ground arith
descending_frame (a ∷ l) (b ∷ m) x y ha hb = ground (arith, descending_frame l m x y ha.1 hb.1)

-- Framed components compare as their raw keys in the direction of the column, and if these are equal
-- as what follows them.
pub bytes_compare-frame :
    (d : Direction) (a b x y : Bytes)
    → All IsByte a
    → All IsByte b
    → bytes_compare (frame d a ++ x) (frame d b ++ y)
      ≡ then_compare (in_direction d (bytes_compare a b)) (bytes_compare x y)
unfolding frame
bytes_compare-frame asc a b x y ha hb = ascending_frame a b x y
bytes_compare-frame undefined a b x y ha hb = ascending_frame a b x y
bytes_compare-frame desc a b x y ha hb = descending_frame a b x y ha hb

abbrev pub is_descending : Direction → Bool
is_descending desc = true
is_descending _ = false

-- A byte that is no zero goes into the component, wherever the end of the component is still ahead.
component_step :
    (descending : Bool) (last t : Bytes) (b : ℕ)
    → t ≢ []
    → (plain descending b == 0) ≡ false
    → component descending last (b ∷ t) ≡ component descending (last ++ plain descending b ∷ []) t
unfolding component
component_step descending last [] b h k = absurd (h refl)
component_step descending last (n ∷ t) b h k = rw k

framed-ne-nil : (raw rest : Bytes) → (escape raw ++ end) ++ rest ≢ []
unfolding escape
framed-ne-nil [] rest h = cc
framed-ne-nil (b ∷ raw) rest h = ground arith

complemented-ne-nil : (raw rest : Bytes) → map complement (escape raw ++ end) ++ rest ≢ []
unfolding escape
complemented-ne-nil [] rest h = cc
complemented-ne-nil (b ∷ raw) rest h = ground arith

escaped_zero :
    (last t : Bytes) → component false last (0 ∷ 1 ∷ t) ≡ component false (last ++ 0 ∷ []) t
unfolding component
escaped_zero last t = refl

complemented_zero :
    (last t : Bytes) → component true last (255 ∷ 254 ∷ t) ≡ component true (last ++ 0 ∷ []) t
unfolding component
complemented_zero last t = refl

component-ascending :
    (last raw rest : Bytes)
    → component false last ((escape raw ++ end) ++ rest) ≡ some (last ++ raw, rest)
unfolding escape
component-ascending last [] rest = unfold component in rw append-nil
component-ascending last (b ∷ raw) rest = elim (Bool-cases (b == 0)) [
  | inl zero_byte ↦
      (let e : b ≡ 0 = ground arith in
        rw (zero_byte, e)
          (escaped_zero last ((escape raw ++ end) ++ rest)
            ∙ component-ascending (last ++ 0 ∷ []) raw rest
            ∙ rw append_assoc))
  | inr other ↦ rw other (
      component_step false last ((escape raw ++ end) ++ rest) b (framed-ne-nil raw rest) other
      ∙ component-ascending (last ++ b ∷ []) raw rest
      ∙ rw append_assoc)
]

complement-complement : (b : ℕ) → IsByte b → complement (complement b) ≡ b
complement-complement b h = omega arith

component-descending :
    (last raw rest : Bytes)
    → All IsByte raw
    → component true last (map complement (escape raw ++ end) ++ rest) ≡ some (last ++ raw, rest)
unfolding escape
component-descending last [] rest h = unfold component in rw append-nil
component-descending last (b ∷ raw) rest h = elim (Bool-cases (b == 0)) [
  | inl zero_byte ↦
      (let e : b ≡ 0 = ground arith in
        rw (zero_byte, e)
          (complemented_zero last (map complement (escape raw ++ end) ++ rest)
            ∙ component-descending (last ++ 0 ∷ []) raw rest h.1
            ∙ rw append_assoc))
  | inr other ↦ rw other (
      component_step true last (map complement (escape raw ++ end) ++ rest) (complement b)
        (complemented-ne-nil raw rest) (ground (arith, complement-complement b h.0))
      ∙ rw (complement-complement b h.0)
          (component-descending (last ++ b ∷ []) raw rest h.1 ∙ rw append_assoc))
]

-- The inner loop takes a frame apart, in either direction.
pub component-frame :
    (d : Direction) (raw rest : Bytes)
    → All IsByte raw
    → component (is_descending d) [] (frame d raw ++ rest) ≡ some (raw, rest)
unfolding frame
component-frame asc raw rest h = component-ascending [] raw rest
component-frame undefined raw rest h = component-ascending [] raw rest
component-frame desc raw rest h = component-descending [] raw rest h
