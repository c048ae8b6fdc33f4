-- ===== src/Common/Word.antt =====
-- Go's fixed-width words: wrap-around, big-endian bytes, and `bits.Len64`.
use Prim.Native.Nat.{ℕ, zero, suc, ◌+◌, ◌-◌, ◌*◌, ◌/◌, ◌%◌, ◌^◌, ◌≤◌, ◌<◌, compare}
use mathlib.Core.Path.{◌≡◌, refl, sym, ap, ◌∙◌}
use mathlib.Core.Logic.{inl, inr}
use mathlib.Core.List.{[], ◌∷◌, ◌++◌, map}
use native.Mathlib.Nat.{
  mod-eq_of_lt, pow-suc, div-add-mod, mod-lt, one-le-pow, add-mul-mod_self_right,
}
use native.Mathlib.Omega.{arith}
use syntrix.Common.Tests.{Bytes, ◌==◌, if◌then◌else◌, Bool-cases}
use syntrix.Common.Lists.{All, length}
use syntrix.Common.Compare.{
  then_compare, then_compare_assoc, bytes_compare, compare_digits, less, same, more, trichotomy,
}
use syntrix.Common.Pow.{two-pow-suc}

abbrev pub u64 : ℕ → ℕ
u64 n = n % 2 ^ 64

abbrev pub IsByte : ℕ → Type 0
IsByte b = b < 256

-- `^b` of a byte.
abbrev pub complement : ℕ → ℕ
complement b = 255 - b

-- `binary.BigEndian.PutUint16` (two bytes) and `PutUint64` (eight): the bytes from the top.
unfoldable pub big_endian : ℕ → ℕ → Bytes
big_endian zero v = []
big_endian (suc k) v = (v / 256 ^ k % 256) ∷ big_endian k v

pub big_endian-bytes : (k v : ℕ) → All IsByte (big_endian k v)
unfolding big_endian
big_endian-bytes zero v = tt
big_endian-bytes (suc k) v = (omega arith, big_endian-bytes k v)

pub length-big_endian : (k v : ℕ) → length (big_endian k v) ≡ k
unfolding big_endian
length-big_endian zero v = refl
length-big_endian (suc k) v = ap suc (length-big_endian k v)

-- `bits.Len64`: the number of bits that it takes to write `n`, for `n` below `2 ^ fuel`.
bit_length : ℕ → ℕ → ℕ
bit_length zero n = 0
bit_length (suc fuel) n = let rest = bit_length fuel (n / 2) in if n == 0 then 0 else suc rest

unfoldable pub len64 : ℕ → ℕ
unfolding bit_length
len64 n = bit_length 64 n

bit_length-le : (fuel n : ℕ) → bit_length fuel n ≤ fuel
unfolding bit_length
bit_length-le zero n = omega arith
bit_length-le (suc fuel) n = ground (arith, bit_length-le fuel (n / 2))

lt-pow-bit_length : (fuel n : ℕ) → n < 2 ^ fuel → n < 2 ^ bit_length fuel n
unfolding bit_length
lt-pow-bit_length zero n h = h
lt-pow-bit_length (suc fuel) n h = elim (Bool-cases (n == 0)) [
  | inl none ↦ rw none (ground arith)
  | inr some ↦
      rw (some, two-pow-suc)
        (omega (arith, lt-pow-bit_length fuel (n / 2) (omega (arith, two-pow-suc fuel))))
]

bit_length-zero : (fuel : ℕ) → bit_length fuel 0 ≡ 0
unfolding bit_length
bit_length-zero zero = refl
bit_length-zero (suc fuel) = refl

pow-bit_length-le : (fuel n : ℕ) → n < 2 ^ fuel → 0 < n → 2 ^ bit_length fuel n ≤ 2 * n
unfolding bit_length
pow-bit_length-le zero n h k = absurd (omega arith)
pow-bit_length-le (suc fuel) n h k = elim (Bool-cases (n == 0)) [
  | inl none ↦ absurd (ground arith)
  | inr some ↦
      rw (some, two-pow-suc)
        (elim (trichotomy n 1) [
          | less l ↦ absurd (omega arith)
          | same e ↦ rw (let half : n / 2 ≡ 0 = omega arith in half, bit_length-zero) (omega arith)
          | more g ↦ omega (
            arith,
            pow-bit_length-le fuel (n / 2) (omega (arith, two-pow-suc fuel)) (omega arith),
          )
        ])
]

-- A number that is not 0 has its top bit at `len64 n - 1`.
pub len64_bounds :
    (n : ℕ)
    → 0 < n
    → n < 2 ^ 64
    → (len64 n ≤ 64) × (0 < len64 n) × (n < 2 ^ len64 n) × (2 ^ len64 n ≤ 2 * n)
unfolding len64
len64_bounds n h k =
    let upper : n < 2 ^ bit_length 64 n = lt-pow-bit_length 64 n k in
    (bit_length-le 64 n, positive (bit_length 64 n) upper, upper, pow-bit_length-le 64 n k h)
  where
    positive : (l : ℕ) → n < 2 ^ l → 0 < l
    positive zero u = absurd (omega arith)
    positive (suc l) u = omega arith

regroup : (v m : ℕ) → v ≡ v / m % 256 * m + v % m + v / m / 256 * (m * 256)
regroup v m = omega (arith, div-add-mod v m, ap (λ (t : ℕ). m * t) (div-add-mod (v / m) 256))

digit_bound : (d m r : ℕ) → d < 256 → r < m → d * m + r < m * 256
digit_bound d m r h k = grind arith

mod_regroup : (v m : ℕ) → 0 < m → v % (m * 256) ≡ v / m % 256 * m + v % m
mod_regroup v m h =
    ap (λ (t : ℕ). t % (m * 256)) (regroup v m)
    ∙ add-mul-mod_self_right (v / m % 256 * m + v % m) (v / m / 256) (m * 256)
    ∙ mod-eq_of_lt (digit_bound (v / m % 256) m (v % m) (omega arith) (mod-lt v h))

top_digit : (k v : ℕ) → v % 256 ^ suc k ≡ v / 256 ^ k % 256 * 256 ^ k + v % 256 ^ k
top_digit k v = rw pow-suc (mod_regroup v (256 ^ k) (one-le-pow k 256 (omega arith)))

-- Lists of one length compare before what follows them.
pub bytes_compare-append :
    (xs ys a b : Bytes)
    → length xs ≡ length ys
    → bytes_compare (xs ++ a) (ys ++ b) ≡ then_compare (bytes_compare xs ys) (bytes_compare a b)
unfolding bytes_compare
bytes_compare-append [] [] a b h = refl
bytes_compare-append [] (y ∷ ys) a b h = absurd (omega arith)
bytes_compare-append (x ∷ xs) [] a b h = absurd (omega arith)
bytes_compare-append (x ∷ xs) (y ∷ ys) a b h =
    rw (bytes_compare-append xs ys a b (omega arith))
      (sym (then_compare_assoc (compare x y) (bytes_compare xs ys) (bytes_compare a b)))

pub compare-complement :
    (x y : ℕ) → IsByte x → IsByte y → compare (complement x) (complement y) ≡ compare y x
compare-complement x y h k = ground arith

-- Complementing every byte turns the order of lists of one length round.
pub bytes_compare-complement :
    (xs ys : Bytes)
    → length xs ≡ length ys
    → All IsByte xs
    → All IsByte ys
    → bytes_compare (map complement xs) (map complement ys) ≡ bytes_compare ys xs
unfolding bytes_compare
bytes_compare-complement [] [] h bx by = refl
bytes_compare-complement [] (y ∷ ys) h bx by = absurd (omega arith)
bytes_compare-complement (x ∷ xs) [] h bx by = absurd (omega arith)
bytes_compare-complement (x ∷ xs) (y ∷ ys) h bx by =
    rw (compare-complement x y bx.0 by.0)
      (ap (then_compare (compare y x)) (bytes_compare-complement xs ys (omega arith) bx.1 by.1))

-- Big-endian bytes of one width compare as the numbers that they hold.
pub bytes_compare-big_endian :
    (k x y : ℕ)
    → bytes_compare (big_endian k x) (big_endian k y) ≡ compare (x % 256 ^ k) (y % 256 ^ k)
unfolding big_endian bytes_compare
bytes_compare-big_endian zero x y = ground arith
bytes_compare-big_endian (suc k) x y = rw (
  bytes_compare-big_endian k x y,
  top_digit k x,
  top_digit k y,
  compare_digits (256 ^ k) (x / 256 ^ k % 256) (y / 256 ^ k % 256) (x % 256 ^ k) (y % 256 ^ k)
      (mod-lt x (one-le-pow k 256 (omega arith))) (mod-lt y (one-le-pow k 256 (omega arith))),
)
