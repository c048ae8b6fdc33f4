-- ===== src/Model/Number/Order.antt =====
-- The order of the keys of numbers is the order of the numbers.
use native.Mathlib.Nat.{mod-eq_of_lt, mul-le-mul_left, mul-le-mul_right}
use syntrix.Common.{
  ℕ, suc, ◌+◌, ◌*◌, ◌^◌, ◌<◌, ◌≤◌, ◌≡◌, refl, sym, ap₂, ◌∙◌, Bool, true, false, ◌∷◌, map, Bytes,
  ◌==◌, if◌then◌else◌, arith, compare, bytes_compare, then_compare, bytes_compare-append,
  bytes_compare-big_endian, bytes_compare-complement, length, All, All-append, length-append,
  length-big_endian, big_endian, big_endian-bytes, complement, IsByte, compareℤ, compare_signed,
  compareℤ-signed, compare_signed-scale, pow-pos, pow-le-pow, two-pow-suc, compare_of_lt,
  compare_of_eq, compare_of_gt, compare_scale, less, same, more, trichotomy,
}
use syntrix.Model.Number.{Number, IsNumber, Parts, zeros, digits, key_of_parts, parts, number_key}
use syntrix.Model.Number.Exact.{units, exact, is_minus, Means, parts-Means, negative-parts}

length-digits : (p : Parts) → length (digits p) ≡ 10
unfolding digits
length-digits p =
    length-append (big_endian 2 p.exponent) (big_endian 8 p.significand)
    ∙ ap₂ (λ (a b : ℕ). a + b) (length-big_endian 2 p.exponent) (length-big_endian 8 p.significand)

digits-bytes : (p : Parts) → All IsByte (digits p)
unfolding digits
digits-bytes p =
    All-append IsByte (big_endian 2 p.exponent) (big_endian 8 p.significand)
      (big_endian-bytes 2 p.exponent) (big_endian-bytes 8 p.significand)

bytes_compare-digits :
    (p q : Parts)
    → p.exponent < 2 ^ 16
    → q.exponent < 2 ^ 16
    → p.significand < 2 ^ 64
    → q.significand < 2 ^ 64
    → bytes_compare (digits p) (digits q)
      ≡ then_compare (compare p.exponent q.exponent) (compare p.significand q.significand)
unfolding digits
bytes_compare-digits p q ep eq sp sq =
    bytes_compare-append (big_endian 2 p.exponent) (big_endian 2 q.exponent) _ _
      (length-big_endian 2 p.exponent ∙ sym (length-big_endian 2 q.exponent))
    ∙ rw
        (
          bytes_compare-big_endian 2 p.exponent q.exponent,
          bytes_compare-big_endian 8 p.significand q.significand,
          mod-eq_of_lt ep,
          mod-eq_of_lt eq,
          mod-eq_of_lt sp,
          mod-eq_of_lt sq,
        )
        refl

higher_exponent : (s t x y : ℕ) → s < 2 ^ 64 → 2 ^ 63 ≤ t → 0 < x → 2 * x ≤ y → s * x < t * y
higher_exponent s t x y h k p d =
    omega (arith, mul-le-mul_left (2 ^ 63) d, mul-le-mul_right y k, scaled)
  where
    scaled : s * x < 2 ^ 64 * x
    scaled = grind arith

-- Numbers with the top bit at one place compare by exponent first.
compare_floating :
    (s e t f : ℕ)
    → 2 ^ 63 ≤ s
    → s < 2 ^ 64
    → 2 ^ 63 ≤ t
    → t < 2 ^ 64
    → compare (s * 2 ^ e) (t * 2 ^ f) ≡ then_compare (compare e f) (compare s t)
compare_floating s e t f s₀ s₁ t₀ t₁ = elim (trichotomy e f) [
  | less l ↦ rw (compare_of_lt e f l) (
      compare_of_lt _ _ (
        higher_exponent s t (2 ^ e) (2 ^ f) s₁ t₀ (pow-pos e)
          (omega (arith, pow-le-pow (suc e) f l, two-pow-suc e))))
  | same h ↦ rw (compare_of_eq e f h) (rw h (compare_scale (2 ^ f) s t (pow-pos f)))
  | more g ↦ rw (compare_of_gt e f g) (
      compare_of_gt _ _ (
        higher_exponent t s (2 ^ f) (2 ^ e) t₁ s₀ (pow-pos f)
          (omega (arith, pow-le-pow (suc f) e g, two-pow-suc f))))
]

abbrev value : Parts → ℕ
value p = p.significand * 2 ^ p.exponent

abbrev tagged : Bool → Bool → Bytes → Bytes
tagged none negative rest =
    if none
    then 0x40 ∷ 1 ∷ zeros
    else if negative
    then 0x40 ∷ 0 ∷ map complement rest
    else 0x40 ∷ 2 ∷ rest

record Agree (o : Bool) (a : ℕ) : Type 0 where
  none : o ≡ true → a ≡ 0
  some : o ≡ false → 0 < a

bytes_compare-tagged :
    (o m : Bool) (xs : Bytes) (a : ℕ) (p n : Bool) (ys : Bytes) (b : ℕ)
    → Agree o a
    → Agree p b
    → (o ≡ false → p ≡ false → bytes_compare xs ys ≡ compare a b)
    → (o ≡ false → p ≡ false → bytes_compare (map complement xs) (map complement ys) ≡ compare b a)
    → bytes_compare (tagged o m xs) (tagged p n ys) ≡ compare_signed m a n b
unfolding bytes_compare
bytes_compare-tagged o m xs a p n ys b ha hb up down = ground (arith, up, down)

value-Agree : (p : Parts) → Agree (p.significand == 0) (value p)
value-Agree p = record {
  none = λ h. let e : p.significand ≡ 0 = ground arith in rw e (omega arith);
  some = λ h. positive p.significand (2 ^ p.exponent) (ground arith) (pow-pos p.exponent);
}
  where
    positive : (a b : ℕ) → 0 < a → 0 < b → 0 < a * b
    positive a b h k = grind arith

bytes_compare-value :
    {u v : ℕ} (p q : Parts)
    → Means u p
    → Means v q
    → (p.significand == 0) ≡ false
    → (q.significand == 0) ≡ false
    → bytes_compare (digits p) (digits q) ≡ compare (value p) (value q)
bytes_compare-value p q hp hq zp zq =
    bytes_compare-digits p q hp.exponent_fits hq.exponent_fits hp.fits hq.fits
    ∙ sym (
        compare_floating p.significand p.exponent q.significand q.exponent
          (hp.top_bit (ground arith)) hp.fits (hq.top_bit (ground arith)) hq.fits)

module _ {u v : ℕ} (p q : Parts) (hp : Means u p) (hq : Means v q) where
  key_of_parts-compare :
      bytes_compare (key_of_parts p) (key_of_parts q)
      ≡ compare_signed p.negative (value p) q.negative (value q)
  unfolding key_of_parts
  key_of_parts-compare =
      bytes_compare-tagged (p.significand == 0) p.negative (digits p) (value p) (q.significand == 0)
        q.negative (digits q) (value q) (value-Agree p) (value-Agree q)
        (bytes_compare-value p q hp hq)
        (λ zp zq.
          bytes_compare-complement (digits p) (digits q) (length-digits p ∙ sym (length-digits q))
            (digits-bytes p) (digits-bytes q)
          ∙ bytes_compare-value q p hq hp zq zp)

  -- The keys compare as the signed units.
  key_of_parts-units :
      bytes_compare (key_of_parts p) (key_of_parts q) ≡ compare_signed p.negative u q.negative v
  key_of_parts-units =
      key_of_parts-compare
      ∙ rw (hp.value, hq.value)
          (compare_signed-scale p.negative u q.negative v (2 ^ 63) (omega arith))

-- Whatever two int64 or finite float64 values are taken, their keys compare as the exact numbers
-- that the values stand for, an integer with a float too.
pub number_key-compare :
    (a b : Number)
    → IsNumber a
    → IsNumber b
    → bytes_compare (number_key a) (number_key b) ≡ compareℤ (exact a) (exact b)
unfolding number_key
number_key-compare a b ha hb =
    key_of_parts-units (parts a) (parts b) (parts-Means a ha) (parts-Means b hb)
    ∙ rw (negative-parts a, negative-parts b)
        (sym (compareℤ-signed (is_minus a) (units a) (is_minus b) (units b)))
