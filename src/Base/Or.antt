-- ===== src/Base/Or.antt =====
-- The inclusive or of numbers with no common digit is their sum.
use Prim.Native.Nat.{ℕ, zero, suc, ◌+◌, ◌*◌, ◌/◌, ◌%◌, ◌^◌, ◌≤◌, ◌<◌, max, bit_or, bit_or-bitwise}
use mathlib.Core.Path.{◌≡◌, refl, ap}
use native.Mathlib.Nat.{pow-suc}
use native.Mathlib.Omega.{arith}
use swr.Base.Digits.{same_digits}

bit_or_digit : (x y : ℕ) → bit_or x y ≡ max (x % 2) (y % 2) + bit_or (x / 2) (y / 2) * 2
bit_or_digit zero y = simp bit_or-bitwise (omega arith)
bit_or_digit (suc x) y =
    let enough = same_digits (λ d. d) max (suc x / 2) (y / 2) x (suc x / 2) (omega arith) in
    simp bit_or-bitwise (omega (arith, enough (omega arith)))

or_zero_fuel : (n a : ℕ) → a ≤ n → bit_or a 0 ≡ a
or_zero_fuel n zero h = refl
or_zero_fuel zero (suc a) h = absurd (omega arith)
or_zero_fuel (suc n) (suc a) h =
    omega (arith, bit_or_digit (suc a) 0, or_zero_fuel n (suc a / 2) (omega arith))

-- `(hi << k) | lo` for a `lo` of `k` bits.
pub bit_or_disjoint : (k hi lo : ℕ) → lo < 2 ^ k → bit_or (hi * 2 ^ k) lo ≡ hi * 2 ^ k + lo
bit_or_disjoint zero hi lo h = ground (arith, or_zero_fuel hi hi)
bit_or_disjoint (suc k) hi lo h = ground (
  arith,
  bit_or_digit (hi * 2 ^ suc k) lo,
  ap (λ (t : ℕ). hi * t) (pow-suc 2 k),
  pow-suc 2 k,
  bit_or_disjoint k hi (lo / 2),
)
