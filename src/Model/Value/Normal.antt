-- ===== src/Model/Value/Normal.antt =====
-- What NormalizeValue of packages/syntrix/pkg/model/value.go returns.
use syntrix.Common.{
  ℕ, ◌+◌, ◌≡◌, Option, none, some, Bytes, arith, inl, inr, ok, Result-cases, Bool-cases, parse_int,
  ℤ,
}
use syntrix.Model.Number.{Float64}
use syntrix.Model.Value.{
  Value, null, bool, text, narrow, int, float32, float, token, array, object, other, Items, nil,
  cons, Fields, end, field, normalize_float, normalize_token, is_fractional, checked_int,
  checked_float, normalize_value, normalize_items, normalize_fields,
}

module _ (parse_float : Bytes → Option Float64) where
  normalize_float-fixed :
      (f : Float64) {w : Value} → normalize_float f ≡ ok w → normalize_value parse_float w ≡ ok w
  unfolding normalize_float normalize_value
  normalize_float-fixed f h = ground (arith)

  checked_float-fixed :
      (o : Option Float64) {w : Value}
      → checked_float o ≡ ok w
      → normalize_value parse_float w ≡ ok w
  unfolding checked_float
  checked_float-fixed none h = cc
  checked_float-fixed (some f) h = normalize_float-fixed f h

  checked_int-fixed :
      (o : Option ℤ) {w : Value} → checked_int o ≡ ok w → normalize_value parse_float w ≡ ok w
  unfolding normalize_value
  checked_int-fixed none h = cc
  checked_int-fixed (some i) h = ground arith

  normalize_token-fixed :
      (v : Bytes) {w : Value}
      → normalize_token parse_float v ≡ ok w
      → normalize_value parse_float w ≡ ok w
  normalize_token-fixed v h = elim (Bool-cases (is_fractional v)) [
    | inl e ↦ checked_float-fixed (parse_float v) (unfold normalize_token in rw e at h)
    | inr e ↦ checked_int-fixed (parse_int v) (unfold normalize_token in rw e at h)
  ]

  mutual
    unfolding normalize_value

    normal_fixed :
        (v : Value) {w : Value}
        → normalize_value parse_float v ≡ ok w
        → normalize_value parse_float w ≡ ok w
    normal_fixed null h = ground arith
    normal_fixed (bool b) h = ground arith
    normal_fixed (text s) h = ground arith
    normal_fixed (narrow i) h = ground arith
    normal_fixed (int i) h = ground arith
    normal_fixed (float32 f) h = normalize_float-fixed f h
    normal_fixed (float f) h = normalize_float-fixed f h
    normal_fixed (token v) h = normalize_token-fixed v h
    normal_fixed (array xs) {w} h = elim (Result-cases (normalize_items parse_float 0 xs)) [
      | inl (ys, e) ↦ ground (arith, items_fixed xs 0 0 e)
      | inr (x, e) ↦ ground arith
    ]
    normal_fixed (object fs) h = elim (Result-cases (normalize_fields parse_float fs)) [
      | inl (gs, e) ↦ ground (arith, fields_fixed fs e)
      | inr (x, e) ↦ ground arith
    ]
    normal_fixed other h = ground arith

    items_fixed :
        (xs : Items) (i j : ℕ) {ys : Items}
        → normalize_items parse_float i xs ≡ ok ys
        → normalize_items parse_float j ys ≡ ok ys
    items_fixed nil i j h = ground arith
    items_fixed (cons x xs) i j h = elim (Result-cases (normalize_value parse_float x)) [
      | inl (y, e) ↦ elim (Result-cases (normalize_items parse_float (i + 1) xs)) [
        | inl (ys', e') ↦ ground (arith, normal_fixed x e, items_fixed xs (i + 1) (j + 1) e')
        | inr (x', e') ↦ ground arith
      ]
      | inr (x', e) ↦ ground arith
    ]

    fields_fixed :
        (fs : Fields) {gs : Fields}
        → normalize_fields parse_float fs ≡ ok gs
        → normalize_fields parse_float gs ≡ ok gs
    fields_fixed end h = ground arith
    fields_fixed (field k x fs) h = elim (Result-cases (normalize_value parse_float x)) [
      | inl (y, e) ↦ elim (Result-cases (normalize_fields parse_float fs)) [
        | inl (gs', e') ↦ ground (arith, normal_fixed x e, fields_fixed fs e')
        | inr (x', e') ↦ ground arith
      ]
      | inr (x', e) ↦ ground arith
    ]

-- What NormalizeValue returns it returns unchanged when asked again, at every depth.
pub normalize_value-idempotent :
    (parse_float : Bytes → Option Float64) (v : Value) {w : Value}
    → normalize_value parse_float v ≡ ok w
    → normalize_value parse_float w ≡ ok w
normalize_value-idempotent parse_float v h = normal_fixed parse_float v h
