-- ===== src/Mcu/Enable.antt =====
-- stepper_enable.go: motor enable pins, which several steppers may share. A pin's line is what
-- `SetDigital` last wrote; the call's print time is passed through and not modelled. Trackers are
-- listed, each with the number of its pin and of the state callbacks that it calls.
pub mod Line
use klipper_go.Common.{
  ℕ, zero, suc, ◌+◌, ◌-◌, Bool, true, false, not, ◌&&◌, Option, none, some, List, [], ◌∷◌, ◌++◌,
  ◌==◌, if◌then◌else◌,
}
use klipper_go.Common.Int.{ℤ, pos, negsuc, ◌+ℤ◌, ◌-ℤ◌, int_eq}

-- `has_out` says whether there is a digital output; `enableCount` is an `int`.
pub record StepperEnablePin : Type 0 where
  pub has_out : Bool
  pub line : Bool
  pub enable_count : ℤ

unfoldable pub set_enable : StepperEnablePin → StepperEnablePin
set_enable self =
    let driven = int_eq self.enable_count (pos 0) && self.has_out in
    record self {
      line = if driven then true else self.line;
      enable_count = self.enable_count +ℤ pos 1;
    }

unfoldable pub set_disable : StepperEnablePin → StepperEnablePin
set_disable self =
    let count = self.enable_count -ℤ pos 1 in
    record self {
      line = if int_eq count (pos 0) && self.has_out then false else self.line;
      enable_count = count;
    }

pub record EnableTracking : Type 0 where
  pub is_enabled : Bool

-- What the callbacks and the stepper get: the new state of the motor, and the registration of
-- `MotorEnable` for the stepper's next move.
pub data Notice : Type 0 where
  notice : Bool → Notice
  callback_added : Notice

unfoldable pub motor_enable :
    EnableTracking → StepperEnablePin → EnableTracking × StepperEnablePin × List Notice
unfolding set_enable
motor_enable self pin =
    if not self.is_enabled
    then (record self { is_enabled = true }, set_enable pin, notice true ∷ [])
    else (self, pin, [])

unfoldable pub motor_disable :
    EnableTracking → StepperEnablePin → EnableTracking × StepperEnablePin × List Notice
unfolding set_disable
motor_disable self pin =
    if self.is_enabled
    then (record self { is_enabled = false }, set_disable pin, notice false ∷ callback_added ∷ [])
    else (self, pin, [])

-- The trackers of one shared pin, and a call of tracker `i`.
pub record Shared : Type 0 where
  pub pin : StepperEnablePin
  pub trackers : List EnableTracking

pub data Call : Type 0 where
  enable : ℕ → Call
  disable : ℕ → Call

unfoldable pub on_tracker :
    (EnableTracking → StepperEnablePin → EnableTracking × StepperEnablePin × List Notice)
    → List EnableTracking
    → ℕ
    → StepperEnablePin
    → List EnableTracking × StepperEnablePin
on_tracker f [] i pin = ([], pin)
on_tracker f (t ∷ ts) zero pin = let (t', pin', _) = f t pin in (t' ∷ ts, pin')
on_tracker f (t ∷ ts) (suc i) pin = let (ts', pin') = on_tracker f ts i pin in (t ∷ ts', pin')

unfoldable pub call : Call → Shared → Shared
unfolding on_tracker motor_enable motor_disable
call (enable i) s =
    let (ts, p) = on_tracker motor_enable s.trackers i s.pin in record s { pin = p; trackers = ts }
call (disable i) s =
    let (ts, p) = on_tracker motor_disable s.trackers i s.pin in record s { pin = p; trackers = ts }

unfoldable pub calls : List Call → Shared → Shared
calls [] s = s
calls (c ∷ cs) s = calls cs (call c s)

-- `NewStepperEnablePin` with a count of 0, and `NewEnableTracking` for `n` steppers.
unfoldable pub new_trackers : ℕ → List EnableTracking
new_trackers zero = []
new_trackers (suc n) = record { is_enabled = false } ∷ new_trackers n

unfoldable pub new_shared : Bool → ℕ → Shared
unfolding new_trackers
new_shared has_out n = record {
  pin = record { has_out = has_out; line = false; enable_count = pos 0 };
  trackers = new_trackers n;
}
