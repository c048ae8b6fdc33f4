-- ===== src/Common/Compare.antt =====
-- Three-way comparison, `bytes.Compare`, and orders read one component after the other.
use Prim.Native.Nat.{ℕ, ◌+◌, ◌*◌, ◌<◌, compare, Ordering}
use mathlib.Core.Path.{◌≡◌, refl, ap}
use mathlib.Core.List.{[], ◌∷◌}
use mathlib.Core.Bool.{Bool, true, false}
use native.Mathlib.Omega.{arith}
use syntrix.Common.Tests.{Bytes}

pub data Trichotomy (a b : ℕ) : Type 0 where
  less : a < b → Trichotomy a b
  same : a ≡ b → Trichotomy a b
  more : b < a → Trichotomy a b

Trichotomy-compare : (a b : ℕ) (o : Ordering) → compare a b ≡ o → Trichotomy a b
Trichotomy-compare a b Ordering.lt h = less (ground arith)
Trichotomy-compare a b Ordering.eq h = same (ground arith)
Trichotomy-compare a b Ordering.gt h = more (ground arith)

pub trichotomy : (a b : ℕ) → Trichotomy a b
trichotomy a b = Trichotomy-compare a b (compare a b) refl

pub compare_of_lt : (a b : ℕ) → a < b → compare a b ≡ Ordering.lt
compare_of_lt a b h = ground arith

pub compare_of_eq : (a b : ℕ) → a ≡ b → compare a b ≡ Ordering.eq
compare_of_eq a b h = ground arith

pub compare_of_gt : (a b : ℕ) → b < a → compare a b ≡ Ordering.gt
compare_of_gt a b h = ground arith

-- The first comparison decides unless it is a tie.
abbrev pub then_compare : Ordering → Ordering → Ordering
then_compare Ordering.lt o = Ordering.lt
then_compare Ordering.eq o = o
then_compare Ordering.gt o = Ordering.gt

abbrev pub flip : Ordering → Ordering
flip Ordering.lt = Ordering.gt
flip Ordering.eq = Ordering.eq
flip Ordering.gt = Ordering.lt

pub then_compare_assoc :
    (o p q : Ordering) → then_compare (then_compare o p) q ≡ then_compare o (then_compare p q)
then_compare_assoc Ordering.lt p q = refl
then_compare_assoc Ordering.eq p q = refl
then_compare_assoc Ordering.gt p q = refl

pub then_compare-eq : (o : Ordering) → then_compare o Ordering.eq ≡ o
then_compare-eq Ordering.lt = refl
then_compare-eq Ordering.eq = refl
then_compare-eq Ordering.gt = refl

pub flip-compare : (a b : ℕ) → flip (compare a b) ≡ compare b a
flip-compare a b = ground arith

pub flip-flip : (o : Ordering) → flip (flip o) ≡ o
flip-flip Ordering.lt = refl
flip-flip Ordering.eq = refl
flip-flip Ordering.gt = refl

-- `bytes.Compare(a, b)`; its -1, 0 and 1 are `lt`, `eq` and `gt`.
unfoldable pub bytes_compare : Bytes → Bytes → Ordering
bytes_compare [] [] = Ordering.eq
bytes_compare [] (y ∷ ys) = Ordering.lt
bytes_compare (x ∷ xs) [] = Ordering.gt
bytes_compare (x ∷ xs) (y ∷ ys) = then_compare (compare x y) (bytes_compare xs ys)

pub bytes_compare_refl : (a : Bytes) → bytes_compare a a ≡ Ordering.eq
unfolding bytes_compare
bytes_compare_refl [] = refl
bytes_compare_refl (x ∷ xs) = rw (compare_of_eq x x refl) (bytes_compare_refl xs)

pub eq_of_bytes_compare : (a b : Bytes) → bytes_compare a b ≡ Ordering.eq → a ≡ b
unfolding bytes_compare
eq_of_bytes_compare [] [] h = refl
eq_of_bytes_compare [] (y ∷ ys) h = cc
eq_of_bytes_compare (x ∷ xs) [] h = cc
eq_of_bytes_compare (x ∷ xs) (y ∷ ys) h = ground (arith, eq_of_bytes_compare xs ys)

pub bytes_compare-flip : (a b : Bytes) → flip (bytes_compare a b) ≡ bytes_compare b a
unfolding bytes_compare
bytes_compare-flip [] [] = refl
bytes_compare-flip [] (y ∷ ys) = refl
bytes_compare-flip (x ∷ xs) [] = refl
bytes_compare-flip (x ∷ xs) (y ∷ ys) = ground (arith, bytes_compare-flip xs ys)

-- `a` sorts no later than `b`.
abbrev pub at_most : Ordering → Bool
at_most Ordering.gt = false
at_most _ = true

pub bytes_compare_trans :
    (a b c : Bytes)
    → at_most (bytes_compare a b) ≡ true
    → at_most (bytes_compare b c) ≡ true
    → at_most (bytes_compare a c) ≡ true
unfolding bytes_compare
bytes_compare_trans [] b [] h k = refl
bytes_compare_trans [] b (z ∷ zs) h k = refl
bytes_compare_trans (x ∷ xs) [] c h k = cc
bytes_compare_trans (x ∷ xs) (y ∷ ys) [] h k = cc
bytes_compare_trans (x ∷ xs) (y ∷ ys) (z ∷ zs) h k = ground (arith, bytes_compare_trans xs ys zs)

scale_lt : (m a b r s : ℕ) → r < m → a < b → a * m + r < b * m + s
scale_lt m a b r s h k = grind arith

-- A number written with the digit `r` below `a` times the base `m` compares digit by digit.
pub compare_digits :
    (m a b r s : ℕ)
    → r < m
    → s < m
    → compare (a * m + r) (b * m + s) ≡ then_compare (compare a b) (compare r s)
compare_digits m a b r s h k = elim (trichotomy a b) [
  | less l ↦ rw (compare_of_lt a b l) (compare_of_lt _ _ (scale_lt m a b r s h l))
  | same e ↦ rw (compare_of_eq a b e) (rw e (ground arith))
  | more g ↦ rw (compare_of_gt a b g) (compare_of_gt _ _ (scale_lt m b a s r k g))
]

-- Multiplying by a positive number keeps the order.
pub compare_scale : (m a b : ℕ) → 0 < m → compare (a * m) (b * m) ≡ compare a b
compare_scale m a b h = elim (trichotomy a b) [
  | less l ↦ rw (compare_of_lt a b l) (compare_of_lt _ _ (grind arith))
  | same e ↦ rw (compare_of_eq a b e) (compare_of_eq _ _ (ap (λ (t : ℕ). t * m) e))
  | more g ↦ rw (compare_of_gt a b g) (compare_of_gt _ _ (grind arith))
]
