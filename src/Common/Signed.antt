-- ===== src/Common/Signed.antt =====
-- Integers as floats: sums are exact, and what was multiplied by a factor divides by it exactly.
use klipper_go.Common.{◌+◌, ◌*◌, ◌/◌, ◌≡◌, ap, arith, if◌then◌else◌}
use klipper_go.Common.Int.{
  ℤ, pos, negsuc, pos_part, neg_part, sub_ℕ, ◌+ℤ◌, ◌-ℤ◌, ltb_ℤ, leb_ℤ, int_eq, sub_ℕ-parts,
}
use klipper_go.Common.Real.{Float}

infixl 70 ◌*ℤ◌ ◌/ℤ◌
abbrev pub ◌*ℤ◌ : ℤ → ℤ → ℤ
a *ℤ b =
    sub_ℕ (pos_part a * pos_part b + neg_part a * neg_part b)
      (pos_part a * neg_part b + neg_part a * pos_part b)

-- The quotient, rounded down, by a positive number.
abbrev pub ◌/ℤ◌ : ℤ → ℤ → ℤ
(pos n) /ℤ (pos k) = pos (n / k)
(negsuc n) /ℤ (pos k) = negsuc (n / k)
a /ℤ (negsuc k) = pos 0

abbrev pub signed_numbers : Float
signed_numbers = record {
  F = ℤ;
  zero_f = pos 0;
  lit = λ m n. pos (m / n);
  eq_f = λ a b. int_eq a b;
  lt_f = λ a b. ltb_ℤ a b;
  add_f = λ a b. a +ℤ b;
  sub_f = λ a b. a -ℤ b;
  mul_f = λ a b. a *ℤ b;
  div_f = λ a b. a /ℤ b;
  neg_f = λ a. pos 0 -ℤ a;
  abs_f = λ a. pos (pos_part a + neg_part a);
  sqrt_f = λ a. a;
  min_f = λ a b. if leb_ℤ a b then a else b;
  max_f = λ a b. if leb_ℤ a b then b else a;
}

pub int_ext : (a b : ℤ) → pos_part a + neg_part b ≡ pos_part b + neg_part a → a ≡ b
int_ext (pos m) (pos n) h = ap pos (omega (arith, h))
int_ext (pos m) (negsuc n) h = ground arith
int_ext (negsuc m) (pos n) h = ground arith
int_ext (negsuc m) (negsuc n) h = ap negsuc (omega (arith, h))

pub add-sub_same : (v b : ℤ) → (v +ℤ b) -ℤ b ≡ v
add-sub_same v b = int_ext ((v +ℤ b) -ℤ b) v (
    omega (
      arith,
      sub_ℕ-parts (pos_part v + pos_part b) (neg_part v + neg_part b),
      sub_ℕ-parts (pos_part (v +ℤ b) + neg_part b) (neg_part (v +ℤ b) + pos_part b),
    ))

pub div-add_two : (c v : ℤ) → (c +ℤ (v *ℤ pos 2)) /ℤ pos 2 ≡ (c /ℤ pos 2) +ℤ v
div-add_two (pos m) (pos n) = ground arith
div-add_two (pos m) (negsuc n) = ground arith
div-add_two (negsuc m) (pos n) = ground arith
div-add_two (negsuc m) (negsuc n) = ground arith

pub sub-add_signed : (l v b : ℤ) → (l +ℤ v) -ℤ b ≡ (l -ℤ b) +ℤ v
sub-add_signed l v b = int_ext ((l +ℤ v) -ℤ b) ((l -ℤ b) +ℤ v) (
    omega (
      arith,
      sub_ℕ-parts (pos_part l + pos_part v) (neg_part l + neg_part v),
      sub_ℕ-parts (pos_part (l +ℤ v) + neg_part b) (neg_part (l +ℤ v) + pos_part b),
      sub_ℕ-parts (pos_part l + neg_part b) (neg_part l + pos_part b),
      sub_ℕ-parts (pos_part (l -ℤ b) + pos_part v) (neg_part (l -ℤ b) + neg_part v),
    ))

pub sub-sub_signed : (l v : ℤ) → l -ℤ (l -ℤ v) ≡ v
sub-sub_signed l v = int_ext (l -ℤ (l -ℤ v)) v (
    omega (
      arith,
      sub_ℕ-parts (pos_part l + neg_part v) (neg_part l + pos_part v),
      sub_ℕ-parts (pos_part l + neg_part (l -ℤ v)) (neg_part l + pos_part (l -ℤ v)),
    ))

pub sub_same_signed : (l : ℤ) → l -ℤ l ≡ pos 0
sub_same_signed l =
    int_ext (l -ℤ l) (pos 0)
      (omega (arith, sub_ℕ-parts (pos_part l + neg_part l) (neg_part l + pos_part l)))

pub sub-shift_signed : (l b s : ℤ) → l -ℤ (b +ℤ (l -ℤ s)) ≡ s -ℤ b
sub-shift_signed l b s = int_ext (l -ℤ (b +ℤ (l -ℤ s))) (s -ℤ b) (
    omega (
      arith,
      sub_ℕ-parts (pos_part l + neg_part s) (neg_part l + pos_part s),
      sub_ℕ-parts (pos_part b + pos_part (l -ℤ s)) (neg_part b + neg_part (l -ℤ s)),
      sub_ℕ-parts (pos_part l + neg_part (b +ℤ (l -ℤ s))) (neg_part l + pos_part (b +ℤ (l -ℤ s))),
      sub_ℕ-parts (pos_part s + neg_part b) (neg_part s + pos_part b),
    ))

pub div-mul_two : (v : ℤ) → (v *ℤ pos 2) /ℤ pos 2 ≡ v
div-mul_two (pos n) = ground arith
div-mul_two (negsuc n) = ground arith

pub div-mul_three : (v : ℤ) → (v *ℤ pos 3) /ℤ pos 3 ≡ v
div-mul_three (pos n) = ground arith
div-mul_three (negsuc n) = ground arith

pub div-add_three : (c v : ℤ) → (c +ℤ (v *ℤ pos 3)) /ℤ pos 3 ≡ (c /ℤ pos 3) +ℤ v
div-add_three (pos m) (pos n) = ground arith
div-add_three (pos m) (negsuc n) = ground arith
div-add_three (negsuc m) (pos n) = ground arith
div-add_three (negsuc m) (negsuc n) = ground arith

pub sub-add_same : (a b : ℤ) → (a -ℤ b) +ℤ b ≡ a
sub-add_same a b = int_ext ((a -ℤ b) +ℤ b) a (
    omega (
      arith,
      sub_ℕ-parts (pos_part a + neg_part b) (neg_part a + pos_part b),
      sub_ℕ-parts (pos_part (a -ℤ b) + pos_part b) (neg_part (a -ℤ b) + neg_part b),
    ))

pub add-shift_signed : (m o l n : ℤ) → m +ℤ o ≡ l → m +ℤ ((o +ℤ n) -ℤ l) ≡ n
add-shift_signed m o l n h = rw (← h) (
    int_ext (m +ℤ ((o +ℤ n) -ℤ (m +ℤ o))) n (
      omega (
        arith,
        sub_ℕ-parts (pos_part m + pos_part o) (neg_part m + neg_part o),
        sub_ℕ-parts (pos_part o + pos_part n) (neg_part o + neg_part n),
        sub_ℕ-parts (pos_part (o +ℤ n) + neg_part (m +ℤ o)) (neg_part (o +ℤ n) + pos_part (m +ℤ o)),
        sub_ℕ-parts (pos_part m + pos_part ((o +ℤ n) -ℤ (m +ℤ o)))
            (neg_part m + neg_part ((o +ℤ n) -ℤ (m +ℤ o))),
      )))
