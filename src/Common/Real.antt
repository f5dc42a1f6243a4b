-- ===== src/Common/Real.antt =====
-- Go's float64 as a parameter: the operations that the components use. `lit m n` is the constant
-- m / n. The laws that a theorem needs of rounded arithmetic are a record of their own: they hold of
-- floats that are no NaN, since rounding keeps order.
use klipper_go.Common.{ℕ, ◌≡◌, ◌⊎◌, Bool, false}

pub record Float : Type 1 where
  pub F : Type 0
  pub zero_f : F
  pub lit : ℕ → ℕ → F
  pub eq_f : F → F → Bool
  pub lt_f : F → F → Bool
  pub add_f : F → F → F
  pub sub_f : F → F → F
  pub mul_f : F → F → F
  pub div_f : F → F → F
  pub neg_f : F → F
  pub abs_f : F → F
  pub sqrt_f : F → F
  pub min_f : F → F → F
  pub max_f : F → F → F

abbrev pub LeF : (R : Float) → R.F → R.F → Type 0
LeF R a b = R.lt_f b a ≡ false

-- The order, `math.Min`, and a sum.
pub record IsOrdered (R : Float) : Type 0 where
  pub le_refl : (a : R.F) → LeF R a a
  pub le_trans : (a b c : R.F) → LeF R a b → LeF R b c → LeF R a c
  pub min-le_left : (a b : R.F) → LeF R (R.min_f a b) a
  pub min-le_right : (a b : R.F) → LeF R (R.min_f a b) b
  pub min_cases : (a b : R.F) → (R.min_f a b ≡ a) ⊎ (R.min_f a b ≡ b)
  pub add_mono : (a b d : R.F) → LeF R a b → LeF R (R.add_f a d) (R.add_f b d)
  pub le-add : (a d : R.F) → LeF R R.zero_f d → LeF R a (R.add_f a d)
