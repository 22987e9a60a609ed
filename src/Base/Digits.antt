-- ===== src/Base/Digits.antt =====
-- The digit recursion behind the bit operations gives the same result for every fuel that is enough.
use Prim.Native.Nat.{ℕ, zero, suc, ◌/◌, ◌≤◌, digits}
use mathlib.Core.Path.{◌≡◌, refl}
use native.Mathlib.Omega.{arith}

module _ (rest : ℕ → ℕ) (join : ℕ → ℕ → ℕ) where
  pub same_digits : (x y k l : ℕ) → x ≤ k → x ≤ l → digits rest join k x y ≡ digits rest join l x y
  same_digits zero y zero zero low high = refl
  same_digits zero y zero (suc l) low high = refl
  same_digits zero y (suc k) zero low high = refl
  same_digits zero y (suc k) (suc l) low high = refl
  same_digits (suc x) y zero l low high = absurd (omega arith)
  same_digits (suc x) y (suc k) zero low high = absurd (omega arith)
  same_digits (suc x) y (suc k) (suc l) low high =
      rw (same_digits (suc x / 2) (y / 2) k l (omega arith) (omega arith))
