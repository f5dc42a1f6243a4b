-- ===== src/Mcu/Tests.antt =====
-- The theorems on micro-controllers at concrete inputs.
use klipper_go.Common.{
  ℕ, ◌+◌, ◌-◌, ◌≤◌, ◌≡◌, refl, true, false, none, some, List, [], ◌∷◌, ◌++◌, arith, length,
  if◌then◌else◌, ◌==◌,
}
use klipper_go.Common.Int.{ℤ, pos}
use klipper_go.Mcu.Trsync as T
use klipper_go.Mcu.Trsync.Once as O
use klipper_go.Mcu.Trsync.Phases as P
use klipper_go.Mcu.Enable as E
use klipper_go.Mcu.Enable.Line as L
use klipper_go.Mcu.Connect as C
use klipper_go.Mcu.Connect.Session as S
use klipper_go.Mcu.Connect.Sent as N
use klipper_go.Mcu.Restart as R

abbrev new_trsync : T.Trsync
new_trsync = record { steppers = []; trigger_completion = none; home_end_clock = none }

abbrev homing : List T.Event
homing =
    T.on_add 1
    ∷ T.on_add 2
    ∷ T.on_add 1
    ∷ T.on_start 7 (record { expire_clock = pos 100; report_ticks = pos 10; report_clock = pos 50 })
    ∷ T.on_report
        (record { can_trigger = some (pos 0); trigger_reason = some (pos 1); clock = none })
    ∷ T.on_shutdown
    ∷ []

abbrev homing_effects : List T.Effect
homing_effects =
    T.dispatch_set_up
    ∷ T.response_registered
    ∷ T.start_sent (pos 50) (pos 10) (pos 4)
    ∷ T.stepper_stop_sent 1
    ∷ T.stepper_stop_sent 2
    ∷ T.timeout_sent (pos 100)
    ∷ T.completed 7 false
    ∷ []

abbrev homed : T.Trsync
homed = record { steppers = 1 ∷ 2 ∷ []; trigger_completion = none; home_end_clock = none }

run-homing : T.run (λ c. c) homing new_trsync ≡ some (homed, homing_effects)
unfolding T.run T.step T.add_stepper T.start T.handle_state T.shutdown T.steppers_contain
    T.stop_commands T.stop_report T.clock_report T.shutdown_with
run-homing = refl

run_completes_once_example :
    O.completions 7 homing_effects + O.waits 7 homed.trigger_completion
    ≤ O.starts 7 homing + O.waits 7 new_trsync.trigger_completion
run_completes_once_example =
    O.run_completes_once 7 (λ c. c) homing new_trsync homed homing_effects run-homing

stop-notes_each_example :
    (P.notes 2 (T.stop false (pos 1) homed).2
      ≡ (if T.steppers_contain 2 homed.steppers then 1 else 0))
    × (P.pauses (T.stop false (pos 1) homed).2 ≡ length homed.steppers - 1)
    × ((T.stop false (pos 1) homed).0.trigger_completion ≡ none)
stop-notes_each_example =
    P.stop-notes_each (λ c. c) homing none none homed homing_effects (pos 1) 2 run-homing

calls_counted_example :
    L.IsShared (E.calls (E.enable 0 ∷ E.enable 1 ∷ E.disable 0 ∷ []) (E.new_shared true 2))
calls_counted_example = L.calls_counted true 2 (E.enable 0 ∷ E.enable 1 ∷ E.disable 0 ∷ [])

-- A controller that is configured once the configuration has been sent.
abbrev answer : ℕ → C.Snapshot
answer w = record {
  is_config = (if w == 0 then false else true);
  crc = 9;
  is_shutdown = false;
  move_count = pos 500;
}

abbrev two_queries : C.ConnectHooks ℕ
two_queries = record {
  query_snapshot = some (λ w. (w, some (answer w)));
  restart_method = C.other_method;
  start_reason = C.other_reason;
  config_sender = some (λ prev w. (w + 1, none));
  trigger_restart = none;
  restart_requested = none;
  is_fileoutput = false;
  reserved_move_slots = pos 10;
}

run_connect_sound_example : S.IsUsable (pos 10) (C.run_connect two_queries 0).1
unfolding C.run_connect C.call_query C.build_connect_decision C.act_with C.reset_with C.send_step
    C.send_with C.after_send C.finish_connect C.validate_configured
run_connect_sound_example =
    S.run_connect_sound two_queries 0 refl
      (record { no_error = refl; no_panic = refl; no_restart = refl })

abbrev params : ℤ → C.ConfigParams
params shut = record {
  is_config = some (pos 1);
  crc = some (pos 9);
  is_shutdown = some shut;
  move_count = some (pos 500);
}

abbrev sizes : List (N.Command ℕ) → ℕ
sizes cs = length cs

send_config_again_example :
    (N.finalized (N.send_config sizes (λ c. c) 3 (5 ∷ []) (6 ∷ []) (7 ∷ []) none).0 ≡ some 2)
    × ((N.send_config sizes (λ c. c) 3 (5 ∷ []) (6 ∷ []) (7 ∷ []) (some 2)).1 ≡ none)
    × (N.commands_sent (N.send_config sizes (λ c. c) 3 (5 ∷ []) (6 ∷ []) (7 ∷ []) (some 2)).0
        ≡ N.apply_update sizes (λ c. c) (6 ∷ []) ++ N.apply_update sizes (λ c. c) (7 ∷ []))
    × ((N.send_config sizes (λ c. c) 3 [] (6 ∷ []) (7 ∷ []) (some 2)).1 ≡ some C.crc_mismatch)
    × (N.commands_sent (N.send_config sizes (λ c. c) 3 [] (6 ∷ []) (7 ∷ []) (some 2)).0 ≡ [])
unfolding N.apply_update
send_config_again_example =
    N.send_config_again sizes (λ c. c) 3 3 (5 ∷ []) [] (6 ∷ []) (7 ∷ [])
      (λ e. absurd (omega (arith, e)))

abbrev running : R.LifecycleState ℕ
running = record {
  is_shutdown = false;
  shutdown_clock = pos 0;
  shutdown_message = 0;
  is_timeout = false;
}

abbrev timer_too_close : R.ShutdownPlan ℕ
timer_too_close = record { shutdown_clock = some (pos 77); shutdown_message = 5 }

abbrev later_report : R.ShutdownPlan ℕ
later_report = record { shutdown_clock = none; shutdown_message = 6 }
