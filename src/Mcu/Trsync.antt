-- ===== src/Mcu/Trsync.antt =====
-- trsync.go, trsync_controller.go and the handlers of trsync_managed.go: the trigger dispatch of one
-- micro-controller during a homing move. A completion is known by a number. Clocks are int64 values;
-- the start plan, which Go computes with floats, is an argument.
pub mod Once
pub mod Phases
use klipper_go.Common.{
  ℕ, ◌+◌, Bool, true, false, not, ◌||◌, Option, none, some, List, [], ◌∷◌, ◌++◌, ◌==◌,
  if◌then◌else◌,
}
use klipper_go.Common.Int.{ℤ, pos, ltb_ℤ, leb_ℤ, int_eq}

-- What the outside sees: a completion with its result, the host's own trigger, the commands of the
-- start, the end of a homing move for a stepper, and the pause between two of those.
pub data Effect : Type 0 where
  completed : ℕ → Bool → Effect
  past_end_trigger : Effect
  dispatch_set_up : Effect
  response_registered : Effect
  response_unregistered : Effect
  start_sent : ℤ → ℤ → ℤ → Effect
  stepper_stop_sent : ℕ → Effect
  timeout_sent : ℤ → Effect
  homing_end_noted : ℕ → Effect
  slept_100ms : Effect

pub record Trsync : Type 0 where
  pub steppers : List ℕ
  pub trigger_completion : Option ℕ
  pub home_end_clock : Option ℤ

pub record StartPlan : Type 0 where
  pub expire_clock : ℤ
  pub report_ticks : ℤ
  pub report_clock : ℤ

-- The parameters of a `trsync_state` report, each there or not with the type that is asked for.
pub record Report : Type 0 where
  pub can_trigger : Option ℤ
  pub trigger_reason : Option ℤ
  pub clock : Option ℤ

abbrev pub reason_comms_timeout : ℤ
reason_comms_timeout = pos 4

unfoldable pub steppers_contain : ℕ → List ℕ → Bool
steppers_contain s [] = false
steppers_contain s (t ∷ ts) = t == s || steppers_contain s ts

-- `AddStepper`
unfoldable pub add_stepper : ℕ → Trsync → Trsync
unfolding steppers_contain
add_stepper s self =
    if steppers_contain s self.steppers
    then self
    else record self { steppers = self.steppers ++ (s ∷ []) }

-- `TrsyncRuntimeState.Shutdown`
unfoldable pub shutdown_with : Option ℕ → Trsync → Trsync × List Effect
shutdown_with none self = (self, [])
shutdown_with (some c) self = (record self { trigger_completion = none }, completed c false ∷ [])

unfoldable pub shutdown : Trsync → Trsync × List Effect
unfolding shutdown_with
shutdown self = shutdown_with self.trigger_completion self

abbrev pub reason_of : Option ℤ → ℤ
reason_of none = pos 0
reason_of (some r) = r

-- The branch for `can_trigger != 1`: whoever waits is told whether communication was lost.
unfoldable pub stop_report : Option ℕ → Trsync → Report → Trsync × Bool × List Effect
stop_report none self r = (self, true, [])
stop_report (some c) self r = (
  record self { trigger_completion = none },
  true,
  completed c (leb_ℤ reason_comms_timeout (reason_of r.trigger_reason)) ∷ [],
)

-- The rest: the host triggers once the clock has passed the end of the move. A report without a
-- clock panics here.
unfoldable pub clock_report :
    (ℤ → ℤ) → Option ℤ → Option ℤ → Trsync → Option (Trsync × Bool × List Effect)
clock_report widen none clock self = some (self, false, [])
clock_report widen (some end') none self = none
clock_report widen (some end') (some clock) self =
    if ltb_ℤ (widen clock) end'
    then some (self, false, [])
    else some (record self { home_end_clock = none }, true, past_end_trigger ∷ [])

abbrev pub says_stop : Option ℤ → Bool
says_stop none = false
says_stop (some v) = not (int_eq v (pos 1))

-- `HandleState`, called by `Handle_trsync_state` with the completion of that moment.
unfoldable pub handle_state : (ℤ → ℤ) → Report → Trsync → Option (Trsync × Bool × List Effect)
unfolding stop_report clock_report
handle_state widen r self =
    if says_stop r.can_trigger
    then some (stop_report self.trigger_completion self r)
    else clock_report widen self.home_end_clock r.clock self

unfoldable pub stop_commands : List ℕ → List Effect
stop_commands [] = []
stop_commands (s ∷ ss) = stepper_stop_sent s ∷ stop_commands ss

-- `Start`, with every hook given, as `ManagedTrsync.Start` calls it.
unfoldable pub start : ℕ → StartPlan → Trsync → Trsync × List Effect
unfolding stop_commands
start completion plan self = (
  record self { trigger_completion = some completion; home_end_clock = none },
  dispatch_set_up
      ∷ response_registered
      ∷ start_sent plan.report_clock plan.report_ticks reason_comms_timeout
      ∷ (stop_commands self.steppers ++ (timeout_sent plan.expire_clock ∷ [])),
)

-- `SetHomeEndTime`, with the clock of that time.
unfoldable pub set_home_end_time : ℤ → Trsync → Trsync
set_home_end_time end' self = record self { home_end_clock = some end' }

-- The loop of `Stop`: a pause between two steppers, none after the last.
unfoldable pub note_homing_ends : List ℕ → List Effect
note_homing_ends [] = []
note_homing_ends (s ∷ []) = homing_end_noted s ∷ []
note_homing_ends (s ∷ t ∷ ss) = homing_end_noted s ∷ slept_100ms ∷ note_homing_ends (t ∷ ss)

-- `Stop`: the reason, where `queried` is what the micro-controller answers.
unfoldable pub stop : Bool → ℤ → Trsync → Trsync × ℤ × List Effect
unfolding note_homing_ends
stop true queried self =
    (record self { trigger_completion = none }, pos 1, response_unregistered ∷ [])
stop false queried self = (
  record self { trigger_completion = none },
  queried,
  response_unregistered ∷ note_homing_ends self.steppers,
)

-- One call from outside, and a run of them; a panic ends the run.
pub data Event : Type 0 where
  on_add : ℕ → Event
  on_start : ℕ → StartPlan → Event
  on_report : Report → Event
  on_home_end : ℤ → Event
  on_stop : Bool → ℤ → Event
  on_shutdown : Event

unfoldable pub step : (ℤ → ℤ) → Event → Trsync → Option (Trsync × List Effect)
unfolding add_stepper start handle_state set_home_end_time stop shutdown
step widen (on_add s) self = some (add_stepper s self, [])
step widen (on_start c plan) self = some (start c plan self)
step widen (on_report r) self = elim (handle_state widen r self) [
  | none ↦ none
  | some (self', _, out) ↦ some (self', out)
]
step widen (on_home_end end') self = some (set_home_end_time end' self, [])
step widen (on_stop file queried) self =
    let (self', _, out) = stop file queried self in some (self', out)
step widen on_shutdown self = some (shutdown self)

unfoldable pub run : (ℤ → ℤ) → List Event → Trsync → Option (Trsync × List Effect)
run widen [] self = some (self, [])
run widen (e ∷ es) self = elim (step widen e self) [
  | none ↦ none
  | some (self', out) ↦ elim (run widen es self') [
    | none ↦ none
    | some (last, more) ↦ some (last, out ++ more)
  ]
]
