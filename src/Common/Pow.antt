-- ===== src/Common/Pow.antt =====
-- Powers of two, and the number of bits of a number.
use Prim.Native.Nat.{ℕ, zero, suc, ◌+◌, ◌-◌, ◌*◌, ◌^◌, ◌≤◌, ◌<◌}
use mathlib.Core.Path.{◌≡◌}
use native.Mathlib.Nat.{pow-zero, add-zero, pow-suc, mul_assoc}
use native.Mathlib.Omega.{arith}

pub pow-add : (b m n : ℕ) → b ^ (m + n) ≡ b ^ m * b ^ n
pow-add b m zero = rw (pow-zero, add-zero) (omega arith)
pow-add b m (suc n) =
    let step : m + suc n ≡ suc (m + n) = omega arith in
    rw (step, pow-suc, pow-add b m n, pow-suc, mul_assoc)

pub pow-pos : (n : ℕ) → 0 < 2 ^ n
pow-pos zero = omega arith
pow-pos (suc n) = rw pow-suc (omega (arith, pow-pos n))

pub pow-le-pow : (m n : ℕ) → m ≤ n → 2 ^ m ≤ 2 ^ n
pow-le-pow m n h =
    let e : n ≡ m + (n - m) = omega arith in
    rw (e, pow-add 2 m (n - m)) (grind (arith, pow-pos (n - m)))

pub two-pow-suc : (n : ℕ) → 2 ^ suc n ≡ 2 * 2 ^ n
two-pow-suc n = rw pow-suc (omega arith)
