-- ===== src/Coder/Table/Index.antt =====
-- The index of a value in the table of the distribution: the `int` operations fit, the index is in
-- the table, and it grows with the value.
use soc.Common.{ℕ, suc, ◌+◌, ◌/◌, ◌^◌, ◌≤◌, ◌<◌, ◌≡◌, Bool, true, false, if◌then◌else◌, arith}
use soc.Common.Effects.{returns, ℤ, pos, negsuc}
use soc.Common.Int.{
  ◌+ℤ◌, ◌-ℤ◌, ◌*ℤ◌, ◌≤ℤ◌, ◌<ℤ◌, quot, pos_part, neg_part, *ℤ_mono, pos_part_mono, *ℤ_parts,
  quot_mono, pos_part-*ℤ, neg_part-*ℤ, +ℤ_bounds, -ℤ_bounds, int_laws,
}
use native.Mathlib.Nat.{mul-le-mul, mul-le-mul_right}
use soc.Coder.Table.{int_of, clamp, edge, cdf_index}

-- An `int16_t`.
pub record IsInt16 (z : ℤ) : Type 0 where
  pub above : neg_part z ≤ 32768
  pub below : pos_part z < 32768

int_of-fits : (z : ℤ) → pos_part z < 2 ^ 31 → neg_part z ≤ 2 ^ 31 → int_of z ≡ returns z
unfolding int_of
int_of-fits (pos n) p q = ground arith
int_of-fits (negsuc n) p q = ground arith

-- The value of the expression.
unfoldable pub edge_of : Bool → ℤ → ℕ → ℤ → ℤ
edge_of true x scale mean = x *ℤ pos scale -ℤ mean +ℤ pos (scale / 2)
edge_of false x scale mean = x *ℤ pos scale -ℤ mean -ℤ pos (scale / 2)

pub edge_fits :
    (upper : Bool) (x : ℤ) (scale : ℕ) (mean : ℤ)
    → IsInt16 x
    → IsInt16 mean
    → scale ≤ 16384
    → edge upper x scale mean ≡ returns (edge_of upper x scale mean)
unfolding edge edge_of
edge_fits upper x scale mean hx hm small = rw (scaled_fits, centred_fits) (last upper)
  where
    scaled : ℤ
    scaled = x *ℤ pos scale

    scaled_pos : pos_part scaled ≤ 536870912
    scaled_pos = omega (
      arith,
      pos_part-*ℤ x scale,
      mul-le-mul {n₁ = pos_part x} {m₁ = scale} {n₂ = 32768} {m₂ = 16384} (omega (arith, hx.below))
          small,
    )

    scaled_neg : neg_part scaled ≤ 536870912
    scaled_neg = omega (
      arith,
      neg_part-*ℤ x scale,
      mul-le-mul {n₁ = neg_part x} {m₁ = scale} {n₂ = 32768} {m₂ = 16384} hx.above small,
    )

    scaled_fits : int_of scaled ≡ returns scaled
    scaled_fits = int_of-fits scaled (omega (arith, scaled_pos)) (omega (arith, scaled_neg))

    centred_fits : int_of (scaled -ℤ mean) ≡ returns (scaled -ℤ mean)
    centred_fits =
        int_of-fits (scaled -ℤ mean) (omega (arith, scaled_pos, hm.above, -ℤ_bounds scaled mean))
          (omega (arith, scaled_neg, hm.below, -ℤ_bounds scaled mean))

    last :
        (b : Bool)
        → int_of
            (if b then scaled -ℤ mean +ℤ pos (scale / 2) else scaled -ℤ mean -ℤ pos (scale / 2))
          ≡ returns (edge_of b x scale mean)
    last true =
        int_of-fits (scaled -ℤ mean +ℤ pos (scale / 2))
          (omega (
            arith,
            small,
            scaled_pos,
            hm.above,
            -ℤ_bounds scaled mean,
            +ℤ_bounds (scaled -ℤ mean) (pos (scale / 2)),
          ))
          (omega (
            arith,
            small,
            scaled_neg,
            hm.below,
            -ℤ_bounds scaled mean,
            +ℤ_bounds (scaled -ℤ mean) (pos (scale / 2)),
          ))
    last false =
        int_of-fits (scaled -ℤ mean -ℤ pos (scale / 2))
          (omega (
            arith,
            small,
            scaled_pos,
            hm.above,
            -ℤ_bounds scaled mean,
            -ℤ_bounds (scaled -ℤ mean) (pos (scale / 2)),
          ))
          (omega (
            arith,
            small,
            scaled_neg,
            hm.below,
            -ℤ_bounds scaled mean,
            -ℤ_bounds (scaled -ℤ mean) (pos (scale / 2)),
          ))

-- The edges of a value, and of the next.
pub edge_mono :
    (upper : Bool) (x y : ℤ) (scale : ℕ) (mean : ℤ)
    → x ≤ℤ y
    → edge_of upper x scale mean ≤ℤ edge_of upper y scale mean
unfolding edge_of
edge_mono true x y scale mean h = omega (int_laws, *ℤ_mono x y scale h)
edge_mono false x y scale mean h = omega (int_laws, *ℤ_mono x y scale h)

pub edge_ordered :
    (x : ℤ) (scale : ℕ) (mean : ℤ) → edge_of false x scale mean ≤ℤ edge_of true x scale mean
unfolding edge_of
edge_ordered x scale mean = omega int_laws

pub edge_next :
    (x y : ℤ) (scale : ℕ) (mean : ℤ)
    → x <ℤ y
    → edge_of true x scale mean ≤ℤ edge_of false y scale mean
unfolding edge_of
edge_next x y scale mean h = omega (
  int_laws,
  *ℤ_parts x scale,
  *ℤ_parts y scale,
  mul-le-mul_right {m = suc (pos_part x + neg_part y)} {n = pos_part y + neg_part x} scale h,
)

clamp_mono : (a b l r : ℤ) → a ≤ℤ b → l ≤ℤ r → clamp a l r ≤ℤ clamp b l r
unfolding clamp
clamp_mono a b l r h k = ground arith

clamp-le : (a l r : ℤ) → l ≤ℤ r → clamp a l r ≤ℤ r
unfolding clamp
clamp-le a l r k = ground arith

shift_mono : (a b : ℤ) → a ≤ℤ b → pos_part (a +ℤ pos 50000) ≤ pos_part (b +ℤ pos 50000)
shift_mono a b h = pos_part_mono (a +ℤ pos 50000) (b +ℤ pos 50000) (omega int_laws)

pub cdf_index_mono :
    (d d' std : ℤ) → 0 < pos_part std → d ≤ℤ d' → cdf_index d std ≤ cdf_index d' std
unfolding cdf_index
cdf_index_mono d d' (negsuc n) more h = absurd (omega arith)
cdf_index_mono d d' (pos n) more h = shift_mono _ _ (
    clamp_mono (quot (d *ℤ pos 10000) (pos n)) (quot (d' *ℤ pos 10000) (pos n)) (negsuc 49999)
      (pos 50000) (quot_mono (d *ℤ pos 10000) (d' *ℤ pos 10000) n more (*ℤ_mono d d' 10000 h))
      (omega arith))

pub cdf_index-le : (d std : ℤ) → cdf_index d std ≤ 100000
unfolding cdf_index ◌+ℤ◌
cdf_index-le d std =
    shift_mono _ (pos 50000)
      (clamp-le (quot (d *ℤ pos 10000) std) (negsuc 49999) (pos 50000) (omega arith))
