-- ===== src/Common/Lists.antt =====
-- Lists measured by the native numbers, under the library's names.
use Prim.Native.Nat.{ℕ, zero, suc, ◌+◌}
use mathlib.Core.Path.{◌≡◌, refl, ap, subst}
use mathlib.Core.List.{List, [], ◌∷◌, ◌++◌, map}
use native.Mathlib.Omega.{arith}
use syntrix.Common.Tests.{Bool-cases}
use mathlib.Core.Bool.{Bool, true, false, ◌||◌}
use mathlib.Core.Logic.{◌⊎◌, inl, inr}

module _ {ℓ} {A : Type ℓ} where
  abbrev pub length : List A → ℕ
  length [] = 0
  length (x ∷ xs) = suc (length xs)

  pub length-append : (xs ys : List A) → length (xs ++ ys) ≡ length xs + length ys
  length-append [] ys = omega arith
  length-append (x ∷ xs) ys = omega (arith, length-append xs ys)

-- `xs[:n]` and `xs[n:]` for an `n` that is no greater than the length.
abbrev pub take {ℓ} : {A : Type ℓ} → ℕ → List A → List A
take zero xs = []
take (suc n) [] = []
take (suc n) (x ∷ xs) = x ∷ take n xs

abbrev pub drop {ℓ} : {A : Type ℓ} → ℕ → List A → List A
drop zero xs = xs
drop (suc n) [] = []
drop (suc n) (x ∷ xs) = drop n xs

-- `P` holds of every element.
abbrev pub All {ℓ κ} : {A : Type ℓ} → (A → Type κ) → List A → Type κ
All P [] = Unit
All P (x ∷ xs) = P x × All P xs

pub All-append {ℓ κ} :
    {A : Type ℓ} (P : A → Type κ) (xs ys : List A) → All P xs → All P ys → All P (xs ++ ys)
All-append P [] ys hx hy = hy
All-append P (x ∷ xs) ys hx hy = (hx.0, All-append P xs ys hx.1 hy)

pub length-map {ℓ κ} :
    {A : Type ℓ} {B : Type κ} (xs : List A) (f : A → B) → length (map f xs) ≡ length xs
length-map [] f = refl
length-map (x ∷ xs) f = ap suc (length-map xs f)

-- `x` is an element.
abbrev pub IsIn : {A : Type 0} → A → List A → Type 0
IsIn x [] = ⊥
IsIn x (y ∷ ys) = (y ≡ x) ⊎ IsIn x ys

pub IsIn-All : {A : Type 0} (P : A → Type 0) (x : A) (xs : List A) → IsIn x xs → All P xs → P x
IsIn-All P x [] i h = absurd i
IsIn-All P x (y ∷ ys) (inl e) h = subst P e (h.0)
IsIn-All P x (y ∷ ys) (inr i) h = IsIn-All P x ys i (h.1)

-- Whether the test holds of an element.
unfoldable pub any : {A : Type 0} → (A → Bool) → List A → Bool
any f [] = false
any f (x ∷ xs) = f x || any f xs

pub IsIn-any :
    {A : Type 0} (f : A → Bool) (x : A) (xs : List A) → IsIn x xs → f x ≡ true → any f xs ≡ true
unfolding any
IsIn-any f x [] i h = absurd i
IsIn-any f x (y ∷ xs) (inl e) h = rw e ground (arith, h)
IsIn-any f x (y ∷ xs) (inr i) h = ground (arith, IsIn-any f x xs i h)

-- An element that the test holds of.
pub found_by :
    {A : Type 0} (f : A → Bool) (xs : List A)
    → any f xs ≡ true
    → (x : A) × (IsIn x xs × (f x ≡ true))
unfolding any
found_by f [] b = absurd (cc)
found_by f (x ∷ xs) b = elim (Bool-cases (f x)) [
  | inl e ↦ (x, (inl refl, e))
  | inr e ↦ let (y, (i, h)) = found_by f xs (ground (arith, b, e)) in (y, (inr i, h))
]
