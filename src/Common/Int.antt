-- ===== src/Common/Int.antt =====
-- Signed integers: the operations of C on values that fit. Sums and orders go through the two parts
-- of an integer, which are numbers that `omega` reads.
use soc.Common.Tests.{ltb, leb, ◌==◌, if◌then◌else◌, Bool-cases}
use soc.Common.Lists.{All}
use soc.Common.Effects.{ℤ, pos, negsuc}
use Prim.Native.Nat.{ℕ, suc, ◌+◌, ◌-◌, ◌*◌, ◌/◌, ◌≤◌, ◌<◌}
use mathlib.Core.Path.{◌≡◌, refl, sym, subst}
use mathlib.Core.Logic.{◌⊎◌, inl, inr}
use mathlib.Core.Bool.{Bool}
use mathlib.Core.List.{List, [], ◌∷◌}
use native.Mathlib.Omega.{arith}
use native.Mathlib.Nat.{mul-le-mul_right, le-div_iff_mul-le, div-mul-le_self}

abbrev pub pos_part : ℤ → ℕ
pos_part (pos n) = n
pos_part (negsuc n) = 0

abbrev pub neg_part : ℤ → ℕ
neg_part (pos n) = 0
neg_part (negsuc n) = suc n

-- a - b, as an integer.
abbrev pub sub_ℕ : ℕ → ℕ → ℤ
sub_ℕ a b = if leb b a then pos (a - b) else negsuc (b - a - 1)

infixl 65 ◌+ℤ◌ ◌-ℤ◌
infixl 70 ◌*ℤ◌
infix 50 ◌≤ℤ◌ ◌<ℤ◌
unfoldable pub ◌+ℤ◌ : ℤ → ℤ → ℤ
a +ℤ b = sub_ℕ (pos_part a + pos_part b) (neg_part a + neg_part b)

unfoldable pub ◌-ℤ◌ : ℤ → ℤ → ℤ
a -ℤ b = sub_ℕ (pos_part a + neg_part b) (neg_part a + pos_part b)

unfoldable pub ◌*ℤ◌ : ℤ → ℤ → ℤ
a *ℤ b =
    sub_ℕ (pos_part a * pos_part b + neg_part a * neg_part b)
      (pos_part a * neg_part b + neg_part a * pos_part b)

-- Division rounds to zero.
unfoldable pub quot : ℤ → ℤ → ℤ
quot (pos a) (pos b) = pos (a / b)
quot (pos a) (negsuc b) = sub_ℕ 0 (a / suc b)
quot (negsuc a) (pos b) = sub_ℕ 0 (suc a / b)
quot (negsuc a) (negsuc b) = pos (suc a / suc b)

abbrev pub ◌≤ℤ◌ : ℤ → ℤ → Type 0
a ≤ℤ b = pos_part a + neg_part b ≤ pos_part b + neg_part a

abbrev pub ◌<ℤ◌ : ℤ → ℤ → Type 0
a <ℤ b = pos_part a + neg_part b < pos_part b + neg_part a

abbrev pub leb_ℤ : ℤ → ℤ → Bool
leb_ℤ a b = leb (pos_part a + neg_part b) (pos_part b + neg_part a)

abbrev pub ltb_ℤ : ℤ → ℤ → Bool
ltb_ℤ a b = ltb (pos_part a + neg_part b) (pos_part b + neg_part a)

abbrev pub is_zero : ℤ → Bool
is_zero a = pos_part a + neg_part a == 0

abbrev pub max_ℤ : ℤ → ℤ → ℤ
max_ℤ a b = if leb_ℤ a b then b else a

abbrev pub min_ℤ : ℤ → ℤ → ℤ
min_ℤ a b = if leb_ℤ a b then a else b

pub +ℤ_parts :
    (a b : ℤ)
    → pos_part (a +ℤ b) + neg_part a + neg_part b ≡ neg_part (a +ℤ b) + pos_part a + pos_part b
unfolding ◌+ℤ◌
+ℤ_parts a b = ground arith

pub -ℤ_parts :
    (a b : ℤ)
    → pos_part (a -ℤ b) + neg_part a + pos_part b ≡ neg_part (a -ℤ b) + pos_part a + neg_part b
unfolding ◌-ℤ◌
-ℤ_parts a b = ground arith

pub eq_of_parts : (a b : ℤ) → pos_part a + neg_part b ≡ pos_part b + neg_part a → a ≡ b
eq_of_parts a b h = ground arith

-- A product with a number.
pub *ℤ_parts :
    (a : ℤ) (k : ℕ)
    → pos_part (a *ℤ pos k) + neg_part a * k ≡ neg_part (a *ℤ pos k) + pos_part a * k
unfolding ◌*ℤ◌
*ℤ_parts a k = ground arith

pub pos_part-*ℤ : (a : ℤ) (k : ℕ) → pos_part (a *ℤ pos k) ≡ pos_part a * k
unfolding ◌*ℤ◌
pos_part-*ℤ a k = ground arith

pub neg_part-*ℤ : (a : ℤ) (k : ℕ) → neg_part (a *ℤ pos k) ≡ neg_part a * k
unfolding ◌*ℤ◌
neg_part-*ℤ a k = ground arith

-- One part is 0, so a sum is at most the sum of the parts.
pub +ℤ_bounds :
    (a b : ℤ)
    → (pos_part (a +ℤ b) ≤ pos_part a + pos_part b) × (neg_part (a +ℤ b) ≤ neg_part a + neg_part b)
unfolding ◌+ℤ◌
+ℤ_bounds a b = ground arith

pub -ℤ_bounds :
    (a b : ℤ)
    → (pos_part (a -ℤ b) ≤ pos_part a + neg_part b) × (neg_part (a -ℤ b) ≤ neg_part a + pos_part b)
unfolding ◌-ℤ◌
-ℤ_bounds a b = ground arith

pub ruleset int_laws = (arith, +ℤ_parts, -ℤ_parts, eq_of_parts)

pub *ℤ_mono : (a b : ℤ) (k : ℕ) → a ≤ℤ b → a *ℤ pos k ≤ℤ b *ℤ pos k
*ℤ_mono a b k h = omega (arith, *ℤ_parts a k, *ℤ_parts b k, mul-le-mul_right k h)

pub pos_part_mono : (a b : ℤ) → a ≤ℤ b → pos_part a ≤ pos_part b
pos_part_mono (pos m) (pos n) h = omega arith
pos_part_mono (pos m) (negsuc n) h = absurd (omega arith)
pos_part_mono (negsuc m) b h = omega arith

pub div_mono : (a b n : ℕ) → 0 < n → a ≤ b → a / n ≤ b / n
div_mono a b n more h = (le-div_iff_mul-le more).1 (omega (arith, div-mul-le_self a n))

pub quot_mono : (a b : ℤ) (n : ℕ) → 0 < n → a ≤ℤ b → quot a (pos n) ≤ℤ quot b (pos n)
unfolding quot
quot_mono (pos a) (pos b) n more h = omega (arith, div_mono a b n more (omega arith))
quot_mono (pos a) (negsuc b) n more h = absurd (omega arith)
quot_mono (negsuc a) (pos b) n more h = ground arith
quot_mono (negsuc a) (negsuc b) n more h =
    ground (arith, div_mono (suc b) (suc a) n more (omega arith))

-- The greatest and the smallest of a list that is not empty.
unfoldable pub max_element : ℤ → List ℤ → ℤ
max_element x [] = x
max_element x (y ∷ ys) = max_ℤ x (max_element y ys)

unfoldable pub min_element : ℤ → List ℤ → ℤ
min_element x [] = x
min_element x (y ∷ ys) = min_ℤ x (min_element y ys)

abbrev pub Among : ℤ → List ℤ → Type 0
Among z [] = ⊥
Among z (x ∷ xs) = (z ≡ x) ⊎ Among z xs

pub max_ℤ_bounds : (a b : ℤ) → (a ≤ℤ max_ℤ a b) × (b ≤ℤ max_ℤ a b)
max_ℤ_bounds a b = ground arith

pub min_ℤ_bounds : (a b : ℤ) → (min_ℤ a b ≤ℤ a) × (min_ℤ a b ≤ℤ b)
min_ℤ_bounds a b = ground arith

max_ℤ-cases : (a b : ℤ) → (max_ℤ a b ≡ a) ⊎ (max_ℤ a b ≡ b)
max_ℤ-cases a b = elim (Bool-cases (leb_ℤ a b)) [
  | inl e ↦ inr (rw e refl)
  | inr e ↦ inl (rw e refl)
]

All-le_trans : (a b : ℤ) (xs : List ℤ) → a ≤ℤ b → All (λ x. x ≤ℤ a) xs → All (λ x. x ≤ℤ b) xs
All-le_trans a b [] h k = tt
All-le_trans a b (x ∷ xs) h k = (omega (arith, k.0), All-le_trans a b xs h k.1)

All-ge_trans : (a b : ℤ) (xs : List ℤ) → b ≤ℤ a → All (λ x. a ≤ℤ x) xs → All (λ x. b ≤ℤ x) xs
All-ge_trans a b [] h k = tt
All-ge_trans a b (x ∷ xs) h k = (omega (arith, k.0), All-ge_trans a b xs h k.1)

pub max_element-le : (x : ℤ) (xs : List ℤ) → All (λ y. y ≤ℤ max_element x xs) (x ∷ xs)
unfolding max_element
max_element-le x [] = (omega arith, tt)
max_element-le x (y ∷ ys) =
    let (hx, hy) = max_ℤ_bounds x (max_element y ys) in
    (hx, All-le_trans (max_element y ys) _ (y ∷ ys) hy (max_element-le y ys))

pub min_element-le : (x : ℤ) (xs : List ℤ) → All (λ y. min_element x xs ≤ℤ y) (x ∷ xs)
unfolding min_element
min_element-le x [] = (omega arith, tt)
min_element-le x (y ∷ ys) =
    let (hx, hy) = min_ℤ_bounds x (min_element y ys) in
    (hx, All-ge_trans (min_element y ys) _ (y ∷ ys) hy (min_element-le y ys))

pub max_element-Among : (x : ℤ) (xs : List ℤ) → Among (max_element x xs) (x ∷ xs)
unfolding max_element
max_element-Among x [] = inl refl
max_element-Among x (y ∷ ys) = elim (max_ℤ-cases x (max_element y ys)) [
  | inl e ↦ inl e
  | inr e ↦ inr (subst (λ z. Among z (y ∷ ys)) (sym e) (max_element-Among y ys))
]

min_ℤ-cases : (a b : ℤ) → (min_ℤ a b ≡ a) ⊎ (min_ℤ a b ≡ b)
min_ℤ-cases a b = elim (Bool-cases (leb_ℤ a b)) [
  | inl e ↦ inl (rw e refl)
  | inr e ↦ inr (rw e refl)
]

pub min_element-Among : (x : ℤ) (xs : List ℤ) → Among (min_element x xs) (x ∷ xs)
unfolding min_element
min_element-Among x [] = inl refl
min_element-Among x (y ∷ ys) = elim (min_ℤ-cases x (min_element y ys)) [
  | inl e ↦ inl e
  | inr e ↦ inr (subst (λ z. Among z (y ∷ ys)) (sym e) (min_element-Among y ys))
]
