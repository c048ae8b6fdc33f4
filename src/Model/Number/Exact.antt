-- ===== src/Model/Number/Exact.antt =====
-- What a number is worth, exactly, and that its parts say so.
use syntrix.Common.{
  ℕ, ◌+◌, ◌-◌, ◌*◌, ◌^◌, ◌<◌, ◌≤◌, ◌≡◌, refl, sym, ap, ◌∙◌, ◌≢◌, Bool, ◌==◌, if◌then◌else◌,
  Bool-cases, inl, inr, arith, ℤ, pos, negsuc, signed, IsInt64, len64, len64_bounds, pow-add,
  pow-pos,
}
use native.Mathlib.Nat.{mod-eq_of_lt, mul_assoc, mul-le-mul_right}
use syntrix.Model.Number.{
  fraction, encoded_exponent, is_below_zero, Number, integer, floating, IsNumber, Parts, magnitude,
  is_negative, normalise, parts,
}

-- The absolute value of a number in units of 2^-1074, the smallest positive float64, in which every
-- int64 and every finite float64 is a whole number.
abbrev pub units : Number → ℕ
units (integer z) = magnitude z * 2 ^ 1074
units (floating f) =
    if encoded_exponent f == 0
    then fraction f
    else (2 ^ 52 + fraction f) * 2 ^ (encoded_exponent f - 1)

abbrev pub is_minus : Number → Bool
is_minus (integer z) = is_negative z
is_minus (floating f) = is_below_zero f

-- The value of a number in these units.
abbrev pub exact : Number → ℤ
exact n = signed (is_minus n) (units n)

-- Parts as numberKey makes them, of a number of `u` units.
pub record Means (u : ℕ) (p : Parts) : Type 0 where
  pub value : p.significand * 2 ^ p.exponent ≡ u * 2 ^ 63
  pub top_bit : p.significand ≢ 0 → 2 ^ 63 ≤ p.significand
  pub fits : p.significand < 2 ^ 64
  pub exponent_fits : p.exponent < 2 ^ 16

split_pow : (a b c : ℕ) → a + b ≡ c → 2 ^ a * 2 ^ b ≡ 2 ^ c
split_pow a b c h = sym (pow-add 2 a b) ∙ ap (λ (t : ℕ). 2 ^ t) h

shift_value :
    (m low l : ℕ) → 0 < l → l ≤ 64 → m * 2 ^ (64 - l) * 2 ^ (low + l - 1) ≡ m * 2 ^ low * 2 ^ 63
shift_value m low l h k =
    mul_assoc m (2 ^ (64 - l)) (2 ^ (low + l - 1))
    ∙ ap (λ (t : ℕ). m * t) (split_pow (64 - l) (low + l - 1) (low + 63) (omega arith))
    ∙ ap (λ (t : ℕ). m * t) (pow-add 2 low 63)
    ∙ sym (mul_assoc m (2 ^ low) (2 ^ 63))

double_scale : (m q x : ℕ) → q ≤ 2 * m → q * x ≤ 2 * (m * x)
double_scale m q x h = omega (arith, mul-le-mul_right x h)

scale_strict : (m q x : ℕ) → 0 < x → m < q → m * x < q * x
scale_strict m q x p h = grind arith

shift_top : (m l : ℕ) → l ≤ 64 → 2 ^ l ≤ 2 * m → 2 ^ 63 ≤ m * 2 ^ (64 - l)
shift_top m l h k =
    omega (arith, double_scale m (2 ^ l) (2 ^ (64 - l)) k, split_pow l (64 - l) 64 (omega arith))

shift_fits : (m l : ℕ) → l ≤ 64 → m < 2 ^ l → m * 2 ^ (64 - l) < 2 ^ 64
shift_fits m l h k = omega (
  arith,
  scale_strict m (2 ^ l) (2 ^ (64 - l)) (pow-pos (64 - l)) k,
  split_pow l (64 - l) 64 (omega arith),
)

-- The shift of a magnitude of 64 bits means the magnitude, in units of weight 2^low.
normalise-Means :
    (sign : Bool) (m low : ℕ) → m < 2 ^ 64 → low ≤ 1074 → Means (m * 2 ^ low) (normalise sign m low)
unfolding normalise
normalise-Means sign m low h k = elim (Bool-cases (m == 0)) [
  | inl none ↦ rw none (
      let e : m ≡ 0 = ground arith in
      rw e (record {
        value = omega arith;
        top_bit = λ h'. absurd (h' refl);
        fits = omega arith;
        exponent_fits = omega arith;
      }))
  | inr some ↦
      let pos : 0 < m = ground arith in
      let b = len64_bounds m pos h in
      let fits : m * 2 ^ (64 - len64 m) < 2 ^ 64 = shift_fits m (len64 m) b.0 b.2 in
      rw (some, mod-eq_of_lt fits)
        (record {
          value = shift_value m low (len64 m) b.1 b.0;
          top_bit = λ _. shift_top m (len64 m) b.0 b.3;
          fits = fits;
          exponent_fits = omega arith;
        })
]

magnitude-lt : (z : ℤ) → IsInt64 z → magnitude z < 2 ^ 64
magnitude-lt (pos n) h = omega arith
magnitude-lt (negsuc n) h = omega arith

normal_value : (s e : ℕ) → 0 < e → s * 2 ^ 11 * 2 ^ (e + 51) ≡ s * 2 ^ (e - 1) * 2 ^ 63
normal_value s e h =
    mul_assoc s (2 ^ 11) (2 ^ (e + 51))
    ∙ ap (λ (t : ℕ). s * t) (split_pow 11 (e + 51) (e - 1 + 63) (omega arith))
    ∙ ap (λ (t : ℕ). s * t) (pow-add 2 (e - 1) 63)
    ∙ sym (mul_assoc s (2 ^ (e - 1)) (2 ^ 63))

-- The parts of a number mean its units.
pub parts-Means : (n : Number) → IsNumber n → Means (units n) (parts n)
unfolding parts
parts-Means (integer z) h =
    normalise-Means (is_negative z) (magnitude z) 1074 (magnitude-lt z h) (omega arith)
parts-Means (floating f) h = elim (Bool-cases (encoded_exponent f == 0)) [
  | inl sub ↦ rw sub (
      let whole : fraction f * 2 ^ 0 ≡ fraction f = omega arith in
      rw whole at (normalise-Means (is_below_zero f) (fraction f) 0 (omega arith) (omega arith)))
  | inr normal ↦ rw normal (
      let positive : 0 < encoded_exponent f = ground arith in
      let below : fraction f < 2 ^ 52 = omega arith in
      let fits : (2 ^ 52 + fraction f) * 2 ^ 11 < 2 ^ 64 = omega arith in
      rw (mod-eq_of_lt fits) (record {
        value = normal_value (2 ^ 52 + fraction f) (encoded_exponent f) positive;
        top_bit = λ _. omega arith;
        fits = fits;
        exponent_fits = omega arith;
      }))
]

pub negative-parts : (n : Number) → (parts n).negative ≡ is_minus n
unfolding parts normalise
negative-parts n = ground arith
