-- ===== src/Common/Int.antt =====
-- The integers over the native numbers, as far as the program's `int64` values are concerned.
use Prim.Native.Nat.{ℕ, zero, suc, ◌+◌, ◌*◌, ◌^◌, ◌<◌, compare, Ordering}
use mathlib.Core.Path.{◌≡◌, refl}
use mathlib.Core.Bool.{Bool, true, false}
use native.Mathlib.Omega.{arith}
use syntrix.Common.Compare.{compare_scale}

-- `negsuc n` is -(n + 1).
pub data ℤ : Type 0 where
  pos : ℕ → ℤ
  negsuc : ℕ → ℤ

abbrev pub compareℤ : ℤ → ℤ → Ordering
compareℤ (pos a) (pos b) = compare a b
compareℤ (pos a) (negsuc b) = Ordering.gt
compareℤ (negsuc a) (pos b) = Ordering.lt
compareℤ (negsuc a) (negsuc b) = compare b a

-- The number of size `n`, negative if the flag is set.
abbrev pub signed : Bool → ℕ → ℤ
signed false n = pos n
signed true zero = pos 0
signed true (suc n) = negsuc n

-- `int64`
abbrev pub IsInt64 : ℤ → Type 0
IsInt64 (pos n) = n < 2 ^ 63
IsInt64 (negsuc n) = n < 2 ^ 63

-- How numbers given by sign and size compare.
abbrev pub compare_signed : Bool → ℕ → Bool → ℕ → Ordering
compare_signed false a false b = compare a b
compare_signed true a true b = compare b a
compare_signed false a true b = compare (a + b) 0
compare_signed true a false b = compare 0 (a + b)

pub compareℤ-signed :
    (m : Bool) (a : ℕ) (n : Bool) (b : ℕ)
    → compareℤ (signed m a) (signed n b) ≡ compare_signed m a n b
compareℤ-signed false a false b = refl
compareℤ-signed false a true zero = ground arith
compareℤ-signed false a true (suc b) = ground arith
compareℤ-signed true zero false b = ground arith
compareℤ-signed true (suc a) false b = ground arith
compareℤ-signed true zero true zero = refl
compareℤ-signed true zero true (suc b) = ground arith
compareℤ-signed true (suc a) true zero = ground arith
compareℤ-signed true (suc a) true (suc b) = ground arith

sum_scale : (a b k : ℕ) → 0 < k → compare (a * k + b * k) 0 ≡ compare (a + b) 0
sum_scale a b k h = ground (arith, compare_scale k (a + b) 0 h)

-- Both sizes may be multiplied by the same positive number.
pub compare_signed-scale :
    (m : Bool) (a : ℕ) (n : Bool) (b k : ℕ)
    → 0 < k
    → compare_signed m (a * k) n (b * k) ≡ compare_signed m a n b
compare_signed-scale false a false b k h = compare_scale k a b h
compare_signed-scale false a true b k h = sum_scale a b k h
compare_signed-scale true a false b k h = ground (arith, sum_scale a b k h)
compare_signed-scale true a true b k h = compare_scale k b a h
