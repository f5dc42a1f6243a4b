-- ===== src/Common/Whole.antt =====
-- Whole numbers as floats: the laws that theorems ask of floats can be met.
use klipper_go.Common.{
  ℕ, ◌+◌, ◌-◌, ◌*◌, ◌/◌, ◌≡◌, ◌⊎◌, inl, inr, min, max, ◌==◌, ltb, leb, Bool-cases, arith,
}
use klipper_go.Common.Real.{Float, IsOrdered}

abbrev pub whole_numbers : Float
whole_numbers = record {
  F = ℕ;
  zero_f = 0;
  lit = λ m n. m / n;
  eq_f = λ a b. a == b;
  lt_f = λ a b. ltb a b;
  add_f = λ a b. a + b;
  sub_f = λ a b. a - b;
  mul_f = λ a b. a * b;
  div_f = λ a b. a / b;
  neg_f = λ a. 0;
  abs_f = λ a. a;
  sqrt_f = λ a. a;
  min_f = λ a b. min a b;
  max_f = λ a b. max a b;
}

min_is_one : (a b : ℕ) → (min a b ≡ a) ⊎ (min a b ≡ b)
min_is_one a b = elim (Bool-cases (leb a b)) [
  | inl less ↦ inl (ground arith)
  | inr more ↦ inr (ground arith)
]

pub whole_numbers-IsOrdered : IsOrdered whole_numbers
whole_numbers-IsOrdered = record {
  le_refl = λ a. ground arith;
  le_trans = λ a b c p q. ground arith;
  min-le_left = λ a b. ground arith;
  min-le_right = λ a b. ground arith;
  min_cases = λ a b. min_is_one a b;
  add_mono = λ a b d p. ground arith;
  le-add = λ a d p. ground arith;
}
