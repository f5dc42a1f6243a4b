-- ===== src/Mcu/Restart/Order.antt =====
-- The order of a reset's steps, and the first shutdown that is kept.
use klipper_go.Common.{
  ℕ, ◌+◌, ◌≡◌, refl, Bool, true, false, ◌&&◌, none, some, List, [], ◌∷◌, if◌then◌else◌, arith,
}
use klipper_go.Mcu.Restart.{
  LifecycleState, ShutdownPlan, handle_shutdown_plan, build_command_reset_plan,
  execute_command_reset, shutdown_marked, emergency_stop_sent, config_reset_sent, reset_sent,
  disconnected, paused, slept,
}

-- A reset command goes out exactly when the clock is synchronised and the micro-controller has one
-- of the two; `reset` is preferred, `config_reset` goes out only after the local shutdown, the
-- emergency stop and a pause, and the connection is closed last, after a pause.
pub execute_command_reset-build :
    (has_reset has_config_reset clock : Bool)
    → execute_command_reset (build_command_reset_plan has_reset has_config_reset clock) ≡ (
        if clock && has_reset
        then (reset_sent ∷ slept 15 ∷ disconnected ∷ [], false)
        else if clock && has_config_reset
        then (
          shutdown_marked
              ∷ emergency_stop_sent
              ∷ paused 15
              ∷ config_reset_sent
              ∷ slept 15
              ∷ disconnected
              ∷ [],
          false,
        )
        else ([], true))
unfolding execute_command_reset build_command_reset_plan
execute_command_reset-build true true true = refl
execute_command_reset-build true true false = refl
execute_command_reset-build true false true = refl
execute_command_reset-build true false false = refl
execute_command_reset-build false true true = refl
execute_command_reset-build false true false = refl
execute_command_reset-build false false true = refl
execute_command_reset-build false false false = refl

unfoldable pub handle_plans :
    {M : Type 0} → List (ShutdownPlan M) → LifecycleState M → LifecycleState M × ℕ
handle_plans [] self = (self, 0)
handle_plans (p ∷ ps) self =
    let (self', accepted) = handle_shutdown_plan p self in
    let (last, count) = handle_plans ps self' in (last, (if accepted then 1 else 0) + count)

refused :
    {M : Type 0} (p : ShutdownPlan M) (self : LifecycleState M)
    → self.is_shutdown ≡ true
    → handle_shutdown_plan p self ≡ (self, false)
unfolding handle_shutdown_plan
refused p self h = ground arith

ignored :
    {M : Type 0} (ps : List (ShutdownPlan M)) (self : LifecycleState M)
    → self.is_shutdown ≡ true
    → handle_plans ps self ≡ (self, 0)
unfolding handle_plans
ignored [] self h = refl
ignored (p ∷ ps) self h =
    let none_more : 0 + 0 ≡ 0 = omega arith in
    rw (refused p self h, ignored ps self h, none_more) refl

-- However many reports of a shutdown follow, the first one that finds the controller running is the
-- one that is accepted: its message stays, and its clock, or the old clock when it has none, and no other is accepted.
pub first_shutdown_kept :
    {M : Type 0} (p : ShutdownPlan M) (ps : List (ShutdownPlan M)) (self : LifecycleState M)
    → self.is_shutdown ≡ false
    → ((handle_plans (p ∷ ps) self).0.is_shutdown ≡ true)
      × ((handle_plans (p ∷ ps) self).0.shutdown_message ≡ p.shutdown_message)
      × ((handle_plans (p ∷ ps) self).0.shutdown_clock
          ≡ (elim p.shutdown_clock [ none ↦ self.shutdown_clock | some c ↦ c ]))
      × ((handle_plans (p ∷ ps) self).1 ≡ 1)
unfolding handle_plans handle_shutdown_plan
first_shutdown_kept p ps self h =
    let accepted = (handle_shutdown_plan p self).0 in
    let taken : accepted.is_shutdown ≡ true = ground arith in
    let rest = ignored ps accepted taken in
    (ground (arith, rest), ground (arith, rest), ground (arith, rest), ground (arith, rest))
