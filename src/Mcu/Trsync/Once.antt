-- ===== src/Mcu/Trsync/Once.antt =====
-- How often a waiting completion is completed.
use klipper_go.Common.{
  ℕ, ◌+◌, ◌≤◌, ◌≡◌, refl, true, false, Option, none, some, List, [], ◌∷◌, ◌++◌, arith, ◌==◌,
  if◌then◌else◌, Option-cases, inl, inr,
}
use klipper_go.Common.Int.{ℤ}
use klipper_go.Mcu.Trsync.{
  Effect, completed, timeout_sent, Trsync, Event, on_add, on_start, on_report, on_home_end, on_stop,
  on_shutdown, step, run, stop_commands, note_homing_ends,
}

-- Completions of `k` among effects, and starts with `k` among events.
abbrev pub is_completed : ℕ → Effect → ℕ
is_completed k (completed c lost) = if c == k then 1 else 0
is_completed k _ = 0

abbrev pub completions : ℕ → List Effect → ℕ
completions k [] = 0
completions k (e ∷ es) = is_completed k e + completions k es

abbrev pub is_start : ℕ → Event → ℕ
is_start k (on_start c plan) = if c == k then 1 else 0
is_start k _ = 0

abbrev pub starts : ℕ → List Event → ℕ
starts k [] = 0
starts k (e ∷ es) = is_start k e + starts k es

abbrev pub waits : ℕ → Option ℕ → ℕ
waits k none = 0
waits k (some c) = if c == k then 1 else 0

completions-append :
    (k : ℕ) (xs ys : List Effect) → completions k (xs ++ ys) ≡ completions k xs + completions k ys
completions-append k [] ys = omega arith
completions-append k (x ∷ xs) ys = omega (arith, completions-append k xs ys)

completions-stop_commands : (k : ℕ) (ss : List ℕ) → completions k (stop_commands ss) ≡ 0
unfolding stop_commands
completions-stop_commands k [] = refl
completions-stop_commands k (s ∷ ss) = omega (arith, completions-stop_commands k ss)

completions-note_homing_ends : (k : ℕ) (ss : List ℕ) → completions k (note_homing_ends ss) ≡ 0
unfolding note_homing_ends
completions-note_homing_ends k [] = refl
completions-note_homing_ends k (s ∷ []) = refl
completions-note_homing_ends k (s ∷ t ∷ ss) = omega (arith, completions-note_homing_ends k (t ∷ ss))

-- One call: what is completed was waiting or has just been started, and waits no more.
step_accounts :
    (k : ℕ) (widen : ℤ → ℤ) (e : Event) (self self' : Trsync) (out : List Effect)
    → step widen e self ≡ some (self', out)
    → completions k out + waits k self'.trigger_completion
      ≤ is_start k e + waits k self.trigger_completion
unfolding step
step_accounts k widen (on_add s) self self' out h = ground arith
step_accounts k widen (on_start c plan) self self' out h = ground (
  arith,
  completions-append k (stop_commands self.steppers) (timeout_sent plan.expire_clock ∷ []),
  completions-stop_commands k self.steppers,
)
step_accounts k widen (on_report r) self self' out h = ground arith
step_accounts k widen (on_home_end end') self self' out h = ground arith
step_accounts k widen (on_stop true queried) self self' out h = ground arith
step_accounts k widen (on_stop false queried) self self' out h =
    ground (arith, completions-note_homing_ends k self.steppers)
step_accounts k widen on_shutdown self self' out h = ground arith

-- Over any sequence of calls, a completion is completed at most as often as a homing move was
-- started with it, counting one that waits at the beginning: a completion that is handed over once
-- is completed at most once, by a report, by a shutdown, or not at all.
pub run_completes_once :
    (k : ℕ) (widen : ℤ → ℤ) (es : List Event) (self last : Trsync) (out : List Effect)
    → run widen es self ≡ some (last, out)
    → completions k out + waits k last.trigger_completion
      ≤ starts k es + waits k self.trigger_completion
unfolding run
run_completes_once k widen [] self last out h = ground arith
run_completes_once k widen (e ∷ es) self last out h = elim (Option-cases (step widen e self)) [
  | inl stuck ↦ ground arith
  | inr ((self', first), stepped) ↦ elim (Option-cases (run widen es self')) [
    | inl stuck ↦ ground arith
    | inr ((last', more), ran) ↦ ground (
      arith,
      step_accounts k widen e self self' first stepped,
      run_completes_once k widen es self' last' more ran,
      completions-append k first more,
    )
  ]
]
