-- ===== src/Mcu/Restart.antt =====
-- lifecycle.go and restart_executor.go: the shutdown that is remembered, and the plan of a reset
-- with its execution. Log texts are left out, pauses are in milliseconds, messages are texts of a
-- type `M`.
pub mod Order
use klipper_go.Common.{
  ℕ, Bool, true, false, not, ◌&&◌, ◌||◌, Option, none, some, List, [], ◌∷◌, ◌++◌, if◌then◌else◌,
}
use klipper_go.Common.Int.{ℤ, pos}

pub record LifecycleState (M : Type 0) : Type 0 where
  pub is_shutdown : Bool
  pub shutdown_clock : ℤ
  pub shutdown_message : M
  pub is_timeout : Bool

-- `HasShutdownClock` and `ShutdownClock` are one option.
pub record ShutdownPlan (M : Type 0) : Type 0 where
  pub shutdown_clock : Option ℤ
  pub shutdown_message : M

-- `HandleShutdownPlan`, with its answer.
unfoldable pub handle_shutdown_plan :
    {M : Type 0} → ShutdownPlan M → LifecycleState M → LifecycleState M × Bool
handle_shutdown_plan plan self = if self.is_shutdown then (self, false) else (
  record self {
    is_shutdown = true;
    shutdown_clock = elim plan.shutdown_clock [ none ↦ self.shutdown_clock | some c ↦ c ];
    shutdown_message = plan.shutdown_message;
  },
  true,
)

unfoldable pub clear_shutdown : {M : Type 0} → LifecycleState M → LifecycleState M
clear_shutdown self = record self { is_shutdown = false }

unfoldable pub mark_shutdown : {M : Type 0} → LifecycleState M → LifecycleState M
mark_shutdown self = record self { is_shutdown = true }

pub data ResetMode : Type 0 where
  no_reset reset_mode config_reset_mode : ResetMode

-- `ErrorMessage`, when it is set, says that no reset command can be issued.
pub record CommandResetPlan : Type 0 where
  pub mode : ResetMode
  pub is_error : Bool
  pub marks_shutdown : Bool
  pub needs_emergency_stop : Bool
  pub pre_send_pause : ℕ
  pub post_send_pause : ℕ

unfoldable pub build_command_reset_plan : Bool → Bool → Bool → CommandResetPlan
build_command_reset_plan has_reset has_config_reset clock_sync_active =
    if (not has_reset && not has_config_reset) || not clock_sync_active
    then record {
      mode = no_reset;
      is_error = true;
      marks_shutdown = false;
      needs_emergency_stop = false;
      pre_send_pause = 0;
      post_send_pause = 0;
    }
    else if not has_reset
    then record {
      mode = config_reset_mode;
      is_error = false;
      marks_shutdown = true;
      needs_emergency_stop = true;
      pre_send_pause = 15;
      post_send_pause = 15;
    }
    else record {
      mode = reset_mode;
      is_error = false;
      marks_shutdown = false;
      needs_emergency_stop = false;
      pre_send_pause = 0;
      post_send_pause = 15;
    }

pub data Effect : Type 0 where
  shutdown_marked emergency_stop_sent config_reset_sent reset_sent disconnected : Effect
  paused slept : ℕ → Effect

abbrev pub when : Bool → Effect → List Effect
when true e = e ∷ []
when false e = []

unfoldable pub send_reset_commands : ResetMode → CommandResetPlan → List Effect
send_reset_commands config_reset_mode plan =
    when plan.marks_shutdown shutdown_marked
    ++ (when plan.needs_emergency_stop emergency_stop_sent
        ++ (paused plan.pre_send_pause ∷ config_reset_sent ∷ []))
send_reset_commands _ plan = reset_sent ∷ []

-- `ExecuteCommandReset` with every hook given: what it does, or nothing with the plan's error.
unfoldable pub execute_command_reset : CommandResetPlan → List Effect × Bool
unfolding send_reset_commands
execute_command_reset plan = if plan.is_error then ([], true) else (
  send_reset_commands plan.mode plan ++ (slept plan.post_send_pause ∷ disconnected ∷ []),
  false,
)

pub data RestartMethod : Type 0 where
  rpi_usb command cheetah arduino other_method : RestartMethod

pub data RestartAction : Type 0 where
  restart_rpi_usb restart_via_command restart_cheetah restart_arduino : RestartAction

-- `BuildFirmwareRestartPlan`; nothing is a plan to skip.
unfoldable pub build_firmware_restart_plan : Bool → Bool → RestartMethod → Option RestartAction
build_firmware_restart_plan force is_bridge method =
    if is_bridge && not force then none else elim method [
      | rpi_usb ↦ some restart_rpi_usb
      | command ↦ some restart_via_command
      | cheetah ↦ some restart_cheetah
      | arduino ↦ some restart_arduino
      | other_method ↦ some restart_arduino
    ]
