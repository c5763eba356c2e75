-- ===== src/Common/Digits.antt =====
-- The recursion on binary digits that the native bit operations stand for.
use Prim.Native.Nat.{ℕ, zero, suc, ◌+◌, ◌*◌, ◌/◌, ◌%◌, ◌≤◌, digits}
use mathlib.Core.Path.{◌≡◌, refl}
use native.Mathlib.Omega.{arith}

module _ (z : ℕ → ℕ) (f : ℕ → ℕ → ℕ) where
  -- Fuel from the first number on gives one result.
  digits-enough : (a b k l : ℕ) → a ≤ k → a ≤ l → digits z f k a b ≡ digits z f l a b
  digits-enough zero b zero zero h g = refl
  digits-enough zero b zero (suc l) h g = refl
  digits-enough zero b (suc k) zero h g = refl
  digits-enough zero b (suc k) (suc l) h g = refl
  digits-enough (suc a) b zero l h g = absurd (omega arith)
  digits-enough (suc a) b (suc k) zero h g = absurd (omega arith)
  digits-enough (suc a) b (suc k) (suc l) h g =
      let rest = digits-enough (suc a / 2) (b / 2) k l (omega arith) (omega arith) in
      omega (arith, rest)

  -- The lowest digit of a number above 0.
  pub digits_step :
      (a b : ℕ)
      → digits z f (suc a) (suc a) b
        ≡ digits z f (suc a / 2) (suc a / 2) (b / 2) * 2 + f (suc a % 2) (b % 2)
  digits_step a b =
      let rest = digits-enough (suc a / 2) (b / 2) a (suc a / 2) (omega arith) (omega arith) in
      omega (arith, rest)
