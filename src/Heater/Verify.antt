-- ===== src/Heater/Verify.antt =====
-- `VerifyHeater` of verify.go, with temperatures and times in whole thousandths. The name of the heater
-- and the log are left out, and the message of a fault is a flag.
pub mod Cold
use klipper_go.Common.{
  ℕ, suc, ◌+◌, ◌-◌, Bool, true, false, not, ◌&&◌, ◌||◌, List, [], ◌∷◌, ◌==◌, ltb, leb,
  if◌then◌else◌,
}
use klipper_go.Common.Int.{ℤ, pos, negsuc, ◌+ℤ◌, ◌-ℤ◌, leb_ℤ, int_eq}

abbrev pub never_time : ℤ
never_time = pos 9_999_999_999_999_999_000

pub record VerifyHeater : Type 0 where
  pub hysteresis : ℤ
  pub max_error : ℤ
  pub heating_gain : ℤ
  pub check_gain_time : ℤ
  pub approaching_target : Bool
  pub starting_approach : Bool
  pub last_target : ℤ
  pub goal_temp : ℤ
  pub error_value : ℤ
  pub goal_systime : ℤ

unfoldable pub new_verify_heater : ℤ → ℤ → ℤ → ℤ → VerifyHeater
new_verify_heater hysteresis max_error heating_gain check_gain_time = record {
  hysteresis = hysteresis;
  max_error = max_error;
  heating_gain = heating_gain;
  check_gain_time = check_gain_time;
  approaching_target = false;
  starting_approach = false;
  last_target = pos 0;
  goal_temp = pos 0;
  error_value = pos 0;
  goal_systime = never_time;
}

abbrev pub min_ℤ : ℤ → ℤ → ℤ
min_ℤ a b = if leb_ℤ a b then a else b

-- The new state, the time of the next check, and whether the heater is at fault.
pub record Verdict : Type 0 where
  pub heater : VerifyHeater
  pub next_check : ℤ
  pub fault : Bool

abbrev pub in_range : ℤ → ℤ → VerifyHeater → Bool
in_range temp target self = leb_ℤ (target -ℤ self.hysteresis) temp || leb_ℤ target (pos 0)

unfoldable pub reached : ℤ → ℤ → VerifyHeater → VerifyHeater
reached temp target self = record self {
  approaching_target = false;
  starting_approach = false;
  error_value = if leb_ℤ temp (target +ℤ self.hysteresis) then pos 0 else self.error_value;
  last_target = target;
}

unfoldable pub goes_on : ℤ → ℤ → VerifyHeater → Verdict
goes_on eventtime target self = record {
  heater = record self { last_target = target };
  next_check = eventtime +ℤ pos 1_000;
  fault = false;
}

unfoldable pub new_goal : ℤ → ℤ → VerifyHeater → VerifyHeater
new_goal eventtime temp self = record self {
  goal_temp = temp +ℤ self.heating_gain;
  goal_systime = eventtime +ℤ self.check_gain_time;
}

-- The heater is not on its way to a new target.
unfoldable pub holding : ℤ → ℤ → ℤ → VerifyHeater → Verdict
unfolding goes_on new_goal
holding eventtime temp target self =
    if not (int_eq target self.last_target)
    then goes_on eventtime target (record (new_goal eventtime temp self) {
      approaching_target = true;
      starting_approach = true;
    })
    else if leb_ℤ self.max_error self.error_value
    then record { heater = self; next_check = never_time; fault = true }
    else goes_on eventtime target self

-- The heater is on its way.
unfoldable pub approaching : ℤ → ℤ → VerifyHeater → VerifyHeater
unfolding new_goal
approaching eventtime temp self =
    if leb_ℤ self.goal_temp temp
    then record (new_goal eventtime temp self) { starting_approach = false; error_value = pos 0 }
    else if leb_ℤ self.goal_systime eventtime
    then record self { approaching_target = false }
    else if self.starting_approach
    then record self { goal_temp = min_ℤ self.goal_temp (temp +ℤ self.heating_gain) }
    else self

unfoldable pub below : ℤ → ℤ → ℤ → VerifyHeater → Verdict
unfolding holding approaching goes_on
below eventtime temp target self =
    if self.approaching_target
    then goes_on eventtime target (approaching eventtime temp self)
    else holding eventtime temp target self

-- `Check`
unfoldable pub check_heater : ℤ → ℤ → ℤ → VerifyHeater → Verdict
unfolding reached goes_on below
check_heater eventtime temp target self =
    if in_range temp target self
    then goes_on eventtime target (reached temp target self)
    else below eventtime temp target
        (record self { error_value = self.error_value +ℤ ((target -ℤ self.hysteresis) -ℤ temp) })

-- Checks of one target, at times and temperatures, up to the first fault.
unfoldable pub at_fault : ℤ → List (ℤ × ℤ) → VerifyHeater → Bool
at_fault target [] self = false
at_fault target ((eventtime, temp) ∷ rest) self =
    (check_heater eventtime temp target self).fault
    || at_fault target rest (check_heater eventtime temp target self).heater
