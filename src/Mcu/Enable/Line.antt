-- ===== src/Mcu/Enable/Line.antt =====
-- A shared enable line is on exactly while some motor is enabled.
use klipper_go.Common.{
  ℕ, zero, suc, ◌+◌, ◌≡◌, refl, Bool, false, List, [], ◌∷◌, arith, ltb, if◌then◌else◌,
}
use klipper_go.Common.Int.{pos}
use klipper_go.Mcu.Enable.{
  Notice, StepperEnablePin, EnableTracking, Shared, Call, enable, disable, motor_enable,
  motor_disable, on_tracker, call, calls, new_trackers, new_shared,
}

abbrev pub enabled_trackers : List EnableTracking → ℕ
enabled_trackers [] = 0
enabled_trackers (t ∷ ts) = (if t.is_enabled then 1 else 0) + enabled_trackers ts

-- The pin counts the enabled motors, and drives its line accordingly if it has one.
pub record Counts (pin : StepperEnablePin) (n : ℕ) : Type 0 where
  pub counted : pin.enable_count ≡ pos n
  pub driven : pin.line ≡ (if pin.has_out then ltb 0 n else false)

abbrev pub IsShared : Shared → Type 0
IsShared s = Counts s.pin (enabled_trackers s.trackers)

regroup : {pin : StepperEnablePin} (a b c : ℕ) → Counts pin (a + (b + c)) → Counts pin (a + b + c)
regroup {pin} a b c h = let same : a + (b + c) ≡ a + b + c = omega arith in rw same at h

ungroup : {pin : StepperEnablePin} (a b c : ℕ) → Counts pin (a + b + c) → Counts pin (a + (b + c))
ungroup {pin} a b c h = let same : a + b + c ≡ a + (b + c) = omega arith in rw same at h

from_zero : {pin : StepperEnablePin} (n : ℕ) → Counts pin n → Counts pin (0 + n)
from_zero {pin} n h = let same : n ≡ 0 + n = omega arith in rw same at h

to_zero : {pin : StepperEnablePin} (n : ℕ) → Counts pin (0 + n) → Counts pin n
to_zero {pin} n h = let same : 0 + n ≡ n = omega arith in rw same at h

-- A call changes the count of the whole list as much as that of the tracker called.
module _ (f : EnableTracking → StepperEnablePin → EnableTracking × StepperEnablePin × List Notice)
    (keeps : (t : EnableTracking) (pin : StepperEnablePin) (n : ℕ)
      → Counts pin (n + (if t.is_enabled then 1 else 0))
      → Counts (f t pin).1 (n + (if (f t pin).0.is_enabled then 1 else 0))) where
  on_tracker-Counts :
      (ts : List EnableTracking) (i other : ℕ) (pin : StepperEnablePin)
      → Counts pin (other + enabled_trackers ts)
      → Counts (on_tracker f ts i pin).1 (other + enabled_trackers (on_tracker f ts i pin).0)
  unfolding on_tracker
  on_tracker-Counts [] i other pin h = h
  on_tracker-Counts (t ∷ ts) zero other pin h =
      let swap : other + ((if t.is_enabled then 1 else 0) + enabled_trackers ts)
          ≡ other + enabled_trackers ts + (if t.is_enabled then 1 else 0) =
        omega arith in
      let after = keeps t pin (other + enabled_trackers ts) (rw swap at h) in
      let back : other + enabled_trackers ts + (if (f t pin).0.is_enabled then 1 else 0)
          ≡ other + ((if (f t pin).0.is_enabled then 1 else 0) + enabled_trackers ts) =
        omega arith in
      rw back at after
  on_tracker-Counts (t ∷ ts) (suc i) other pin h =
      ungroup other (if t.is_enabled then 1 else 0) (enabled_trackers (on_tracker f ts i pin).0) (
        on_tracker-Counts ts i (other + (if t.is_enabled then 1 else 0)) pin
          (regroup other (if t.is_enabled then 1 else 0) (enabled_trackers ts) h))

enable_keeps :
    (t : EnableTracking) (pin : StepperEnablePin) (n : ℕ)
    → Counts pin (n + (if t.is_enabled then 1 else 0))
    → Counts (motor_enable t pin).1 (n + (if (motor_enable t pin).0.is_enabled then 1 else 0))
unfolding motor_enable
enable_keeps t pin n h = ground arith

disable_keeps :
    (t : EnableTracking) (pin : StepperEnablePin) (n : ℕ)
    → Counts pin (n + (if t.is_enabled then 1 else 0))
    → Counts (motor_disable t pin).1 (n + (if (motor_disable t pin).0.is_enabled then 1 else 0))
unfolding motor_disable
disable_keeps t pin n h = ground arith

call-IsShared : (c : Call) (s : Shared) → IsShared s → IsShared (call c s)
unfolding call
call-IsShared (enable i) s h =
    to_zero (enabled_trackers (on_tracker motor_enable s.trackers i s.pin).0) (
      on_tracker-Counts motor_enable enable_keeps s.trackers i 0 s.pin
        (from_zero (enabled_trackers s.trackers) h))
call-IsShared (disable i) s h =
    to_zero (enabled_trackers (on_tracker motor_disable s.trackers i s.pin).0) (
      on_tracker-Counts motor_disable disable_keeps s.trackers i 0 s.pin
        (from_zero (enabled_trackers s.trackers) h))

calls-IsShared : (cs : List Call) (s : Shared) → IsShared s → IsShared (calls cs s)
unfolding calls
calls-IsShared [] s h = h
calls-IsShared (c ∷ cs) s h = calls-IsShared cs (call c s) (call-IsShared c s h)

new_trackers_off : (n : ℕ) → enabled_trackers (new_trackers n) ≡ 0
unfolding new_trackers
new_trackers_off zero = refl
new_trackers_off (suc n) = omega (arith, new_trackers_off n)

-- After any sequence of enables and disables of the steppers that share a pin, the pin's count is
-- the number of motors that are enabled, and the line of a pin with an output is on exactly while
-- there is one. Repeated calls for one stepper change nothing.
pub calls_counted :
    (has_out : Bool) (n : ℕ) (cs : List Call) → IsShared (calls cs (new_shared has_out n))
calls_counted has_out n cs =
    calls-IsShared cs (new_shared has_out n)
      (unfold new_shared in ground (arith, new_trackers_off n))
