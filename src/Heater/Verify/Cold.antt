-- ===== src/Heater/Verify/Cold.antt =====
-- A heater that stays cold is found out.
use klipper_go.Common.{
  ℕ, suc, ◌+◌, ◌*◌, ◌≤◌, ◌≡◌, refl, ap, ◌∙◌, inl, inr, Bool-cases, Bool, true, false, not, List, [],
  ◌∷◌, length, if◌then◌else◌, All, arith,
}
use klipper_go.Common.Int.{
  ℤ, pos, negsuc, ◌+ℤ◌, ◌-ℤ◌, ◌≤ℤ◌, ◌<ℤ◌, leb_ℤ, int_eq, pos_part, neg_part, sub_ℕ-parts,
}
use klipper_go.Heater.Verify.{
  VerifyHeater, in_range, never_time, goes_on, holding, below, check_heater, at_fault,
}

int_eq_refl : (a : ℤ) → int_eq a a ≡ true
int_eq_refl (pos n) = ground arith
int_eq_refl (negsuc n) = ground arith

-- The temperature is `d` below what the hysteresis allows.
abbrev pub Short : ℕ → ℤ → VerifyHeater → ℤ × ℤ → Type 0
Short d target self (eventtime, temp) = temp +ℤ pos d ≤ℤ target -ℤ self.hysteresis

out_of_range :
    (d : ℕ) (target eventtime temp : ℤ) (self : VerifyHeater)
    → 1 ≤ d
    → pos 0 <ℤ target
    → Short d target self (eventtime, temp)
    → in_range temp target self ≡ false
out_of_range d target eventtime temp self h hot short = ground arith

added :
    (d : ℕ) (target eventtime temp : ℤ) (self : VerifyHeater)
    → Short d target self (eventtime, temp)
    → self.error_value +ℤ pos d ≤ℤ self.error_value +ℤ ((target -ℤ self.hysteresis) -ℤ temp)
added d target eventtime temp self short =
    let goal = target -ℤ self.hysteresis in
    let gap = goal -ℤ temp in
    let e = self.error_value in
    omega (
      arith,
      short,
      sub_ℕ-parts (pos_part goal + neg_part temp) (neg_part goal + pos_part temp),
      sub_ℕ-parts (pos_part e + pos_part gap) (neg_part e + neg_part gap),
      sub_ℕ-parts (pos_part e + d) (neg_part e + 0),
      sub_ℕ-parts (pos_part temp + d) (neg_part temp + 0),
    )

branch : {A : Type 0} (b c : Bool) (x y : A) → b ≡ c → (if b then x else y) ≡ (if c then x else y)
branch b c x y e = ap (λ t. if t then x else y) e

abbrev error_after : ℤ → ℤ → VerifyHeater → ℤ
error_after temp target self = self.error_value +ℤ ((target -ℤ self.hysteresis) -ℤ temp)

abbrev colder : ℤ → ℤ → VerifyHeater → VerifyHeater
colder temp target self = record self { error_value = error_after temp target self }

check_cold :
    (eventtime temp target : ℤ) (self : VerifyHeater)
    → in_range temp target self ≡ false
    → self.approaching_target ≡ false
    → int_eq target self.last_target ≡ true
    → check_heater eventtime temp target self ≡ (
        if leb_ℤ self.max_error (error_after temp target self)
        then record { heater = colder temp target self; next_check = never_time; fault = true }
        else goes_on eventtime target (colder temp target self))
unfolding check_heater below holding
check_cold eventtime temp target self cold calm same =
    branch (in_range temp target self) false _ _ cold
    ∙ branch self.approaching_target false _ _ calm
    ∙ branch (not (int_eq target self.last_target)) false _ _ (ap not same)

suc_mul : (n d : ℕ) → suc n * d ≡ d + n * d
suc_mul n d = grind arith

limit_step : (m e e' : ℤ) (d k : ℕ) → m ≤ℤ e +ℤ pos (d + k) → e +ℤ pos d ≤ℤ e' → m ≤ℤ e' +ℤ pos k
limit_step m e e' d k h grown = omega (
  arith,
  h,
  grown,
  sub_ℕ-parts (pos_part e + (d + k)) (neg_part e + 0),
  sub_ℕ-parts (pos_part e + d) (neg_part e + 0),
  sub_ℕ-parts (pos_part e' + k) (neg_part e' + 0),
)

limit_reached :
    (m e e' : ℤ) (d : ℕ) → m ≤ℤ e +ℤ pos (d + 0 * d) → e +ℤ pos d ≤ℤ e' → leb_ℤ m e' ≡ true
limit_reached m e e' d h grown =
    let less : m ≤ℤ e' = omega (
      arith,
      h,
      grown,
      sub_ℕ-parts (pos_part e + (d + 0 * d)) (neg_part e + 0),
      sub_ℕ-parts (pos_part e + d) (neg_part e + 0),
    ) in
    ground (arith, less)

-- A heater that holds its target, more than 0, is reported at fault by the checks of a list as soon as
-- each one finds the temperature at least `d` short of the range around the target, `d` not 0, and
-- the error noted before together with `d` for each check reaches the limit.
pub cold_found_out :
    (d : ℕ) (target : ℤ) (reading : ℤ × ℤ) (more : List (ℤ × ℤ)) (self : VerifyHeater)
    → 1 ≤ d
    → pos 0 <ℤ target
    → self.approaching_target ≡ false
    → int_eq target self.last_target ≡ true
    → All (Short d target self) (reading ∷ more)
    → self.max_error ≤ℤ self.error_value +ℤ pos (suc (length more) * d)
    → at_fault target (reading ∷ more) self ≡ true
unfolding at_fault goes_on
cold_found_out d target (eventtime, temp) [] self h hot calm same short limit =
    let checked =
      check_cold eventtime temp target self
        (out_of_range d target eventtime temp self h hot short.0) calm same in
    let grown = added d target eventtime temp self short.0 in
    let full =
      limit_reached self.max_error self.error_value (error_after temp target self) d
        (rw (suc_mul 0 d) at limit) grown in
    rw (checked, full) refl
cold_found_out d target (eventtime, temp) (next ∷ rest) self h hot calm same short limit =
    let checked =
      check_cold eventtime temp target self
        (out_of_range d target eventtime temp self h hot short.0) calm same in
    let n = suc (length rest) in
    let grown = added d target eventtime temp self short.0 in
    let shorter =
      limit_step self.max_error self.error_value (error_after temp target self) d (n * d)
        (rw (suc_mul n d) at limit) grown in
    let later = (goes_on eventtime target (colder temp target self)).heater in
    let found =
      cold_found_out d target next rest later h hot calm (int_eq_refl target) short.1 shorter in
    elim (Bool-cases (leb_ℤ self.max_error (error_after temp target self))) [
      | inl full ↦ rw (checked, full) refl
      | inr room ↦ rw (checked, room, found) refl
    ]
