-- ===== src/Mcu/Connect.antt =====
-- The configuration of a micro-controller at start-up: config_session.go, connect_runtime.go, and
-- `SendConfig` and `QueryConfigSnapshot` of config_session_runtime.go. A hook that may be nil is an
-- option; hooks act on a world `W`. An error text is a constructor, and no error is `none`.
pub mod Session
pub mod Sent
pub mod Query
use klipper_go.Common.{
  ℕ, ◌+◌, ◌%◌, ◌^◌, Bool, true, false, not, ◌&&◌, ◌||◌, Option, none, some, List, [], ◌∷◌, ◌++◌,
  map, ltb, ◌==◌, if◌then◌else◌,
}
use klipper_go.Common.Int.{ℤ, pos, negsuc, ltb_ℤ, int_eq, mask_ℤ}

pub data Message : Type 0 where
  mcu_shut_down failed_reset unable_to_configure too_few_moves crc_mismatch : Message
  error_during_config config_while_shut_down stuck_in_shutdown : Message

pub record Snapshot : Type 0 where
  pub is_config : Bool
  pub crc : ℕ
  pub is_shutdown : Bool
  pub move_count : ℤ

-- The parameters of a `config` response, each there with the type that is asked for or not.
pub record ConfigParams : Type 0 where
  pub is_config : Option ℤ
  pub crc : Option ℤ
  pub is_shutdown : Option ℤ
  pub move_count : Option ℤ

abbrev nonzero : Option ℤ → Bool
nonzero none = false
nonzero (some v) = not (int_eq v (pos 0))

-- `uint32(crc)`; an int64 keeps its 32 low bits.
unfoldable pub parse_snapshot : ConfigParams → Snapshot
parse_snapshot p = record {
  is_config = nonzero p.is_config;
  crc = elim p.crc [ none ↦ 0 | some v ↦ mask_ℤ 32 v ];
  is_shutdown = nonzero p.is_shutdown;
  move_count = elim p.move_count [ none ↦ pos 0 | some v ↦ v ];
}

unfoldable pub parse_config_snapshot : Option ConfigParams → Option Snapshot
unfolding parse_snapshot
parse_config_snapshot none = none
parse_config_snapshot (some p) = some (parse_snapshot p)

unfoldable pub default_fileoutput_snapshot : Snapshot
default_fileoutput_snapshot = record {
  is_config = false;
  crc = 0;
  is_shutdown = false;
  move_count = pos 500;
}

-- The restart methods and start reasons that the code tells apart.
pub data RestartMethod : Type 0 where
  rpi_usb other_method : RestartMethod

pub data StartReason : Type 0 where
  firmware_restart other_reason : StartReason

pub record ConnectDecision : Type 0 where
  pub return_error : Option Message
  pub panic_message : Option Message
  pub needs_pre_config_reset : Bool
  pub send_config : Bool
  pub prev_crc : Option ℕ
  pub needs_requery : Bool

abbrev no_decision : ConnectDecision
no_decision = record {
  return_error = none;
  panic_message = none;
  needs_pre_config_reset = false;
  send_config = false;
  prev_crc = none;
  needs_requery = false;
}

abbrev is_rpi_usb : RestartMethod → Bool
is_rpi_usb rpi_usb = true
is_rpi_usb other_method = false

abbrev is_firmware_restart : StartReason → Bool
is_firmware_restart firmware_restart = true
is_firmware_restart other_reason = false

-- `BuildConnectDecision`; `UsePrevCRC` and `PrevCRC` are one option.
unfoldable pub build_connect_decision :
    Option Snapshot → RestartMethod → StartReason → ConnectDecision
build_connect_decision none method reason = record no_decision { return_error = some mcu_shut_down }
build_connect_decision (some s) method reason =
    if not s.is_config
    then record no_decision {
      needs_pre_config_reset = is_rpi_usb method;
      send_config = true;
      needs_requery = true;
    }
    else if is_firmware_restart reason
    then record no_decision { panic_message = some failed_reset }
    else record no_decision { send_config = true; prev_crc = some s.crc }

unfoldable pub validate_configured : Option Snapshot → Bool → ℤ → Option Message
validate_configured none file reserved = if not file then some unable_to_configure else none
validate_configured (some s) file reserved =
    if not s.is_config && not file
    then some unable_to_configure
    else if ltb_ℤ s.move_count reserved
    then some too_few_moves
    else none

pub record ConnectResult : Type 0 where
  pub snapshot : Option Snapshot
  pub move_count : ℤ
  pub return_error : Option Message
  pub panic_message : Option Message
  pub wrap_panic : Bool
  pub restart_pending : Bool

abbrev pub no_result : ConnectResult
no_result = record {
  snapshot = none;
  move_count = pos 0;
  return_error = none;
  panic_message = none;
  wrap_panic = false;
  restart_pending = false;
}

abbrev pub move_count_of : Option Snapshot → ℤ
move_count_of none = pos 0
move_count_of (some s) = s.move_count

abbrev pub is_too_few : Option Message → Bool
is_too_few (some too_few_moves) = true
is_too_few _ = false

-- The reasons that the connection gives for a restart.
pub data RestartReason : Type 0 where
  full_reset_before_config crc_mismatch_restart : RestartReason

pub record ConnectHooks (W : Type 0) : Type 0 where
  pub query_snapshot : Option (W → W × Option Snapshot)
  pub restart_method : RestartMethod
  pub start_reason : StartReason
  pub config_sender : Option (Option ℕ → W → W × Option Message)
  pub trigger_restart : Option (RestartReason → W → W)
  pub restart_requested : Option (W → W × Bool)
  pub is_fileoutput : Bool
  pub reserved_move_slots : ℤ

-- The optional hooks; `absent` is what the code goes on with without one.
unfoldable pub call_query :
    {W : Type 0} → Option (W → W × Option Snapshot) → Option Snapshot → W → W × Option Snapshot
call_query none absent w = (w, absent)
call_query (some q) absent w = q w

unfoldable pub call_restart : {W : Type 0} → Option (RestartReason → W → W) → RestartReason → W → W
call_restart none reason w = w
call_restart (some r) reason w = r reason w

unfoldable pub call_requested : {W : Type 0} → Option (W → W × Bool) → W → W × Bool
call_requested none w = (w, false)
call_requested (some q) w = q w

-- The end of `RunConnectRuntime`: the second query and the checks on what it answers.
unfoldable pub finish_connect :
    {W : Type 0} → ConnectHooks W → ConnectDecision → Option Snapshot → W → W × ConnectResult
unfolding call_query validate_configured
finish_connect hooks decision snapshot w =
    let (w', now) =
      (if decision.needs_requery
        then call_query hooks.query_snapshot snapshot w
        else (w, snapshot)) in
    let panic = validate_configured now hooks.is_fileoutput hooks.reserved_move_slots in
    (
      w',
      record no_result {
        snapshot = now;
        move_count = move_count_of now;
        panic_message = panic;
        wrap_panic = is_too_few panic;
      },
    )

unfoldable pub after_send :
    {W : Type 0}
    → ConnectHooks W
    → ConnectDecision
    → Option Snapshot
    → W × Option Message
    → W × ConnectResult
unfolding finish_connect call_restart
after_send hooks decision snapshot (w, none) = finish_connect hooks decision snapshot w
after_send hooks decision snapshot (w, some m) = (
  call_restart hooks.trigger_restart crc_mismatch_restart w,
  record no_result { panic_message = some m },
)

-- `send` is whether the decision asks for it.
unfoldable pub send_with :
    {W : Type 0}
    → ConnectHooks W
    → ConnectDecision
    → Option Snapshot
    → Bool
    → Option (Option ℕ → W → W × Option Message)
    → W
    → W × ConnectResult
unfolding after_send finish_connect
send_with hooks decision snapshot true (some sender) w =
    after_send hooks decision snapshot (sender decision.prev_crc w)
send_with hooks decision snapshot true none w = finish_connect hooks decision snapshot w
send_with hooks decision snapshot false sender w = finish_connect hooks decision snapshot w

unfoldable pub send_step :
    {W : Type 0} → ConnectHooks W → ConnectDecision → Option Snapshot → W → W × ConnectResult
unfolding send_with
send_step hooks decision snapshot w =
    send_with hooks decision snapshot decision.send_config hooks.config_sender w

unfoldable pub after_reset :
    {W : Type 0} → ConnectHooks W → ConnectDecision → Option Snapshot → W × Bool → W × ConnectResult
unfolding send_step
after_reset hooks decision snapshot (w, true) = (w, record no_result { restart_pending = true })
after_reset hooks decision snapshot (w, false) = send_step hooks decision snapshot w

-- `reset` is whether the decision asks for it.
unfoldable pub reset_with :
    {W : Type 0}
    → ConnectHooks W
    → ConnectDecision
    → Option Snapshot
    → Bool
    → Option (RestartReason → W → W)
    → W
    → W × ConnectResult
unfolding after_reset send_step call_requested
reset_with hooks decision snapshot true (some restart) w =
    after_reset hooks decision snapshot
      (call_requested hooks.restart_requested (restart full_reset_before_config w))
reset_with hooks decision snapshot true none w = send_step hooks decision snapshot w
reset_with hooks decision snapshot false restart w = send_step hooks decision snapshot w

-- The decision's error and its panic come first.
unfoldable pub act_with :
    {W : Type 0}
    → ConnectHooks W
    → ConnectDecision
    → Option Snapshot
    → Option Message
    → Option Message
    → W
    → W × ConnectResult
unfolding reset_with
act_with hooks decision snapshot (some m) panic w = (w, record no_result { return_error = some m })
act_with hooks decision snapshot none (some m) w = (w, record no_result { panic_message = some m })
act_with hooks decision snapshot none none w =
    reset_with hooks decision snapshot decision.needs_pre_config_reset hooks.trigger_restart w

-- `RunConnectRuntime`.
unfoldable pub run_connect : {W : Type 0} → ConnectHooks W → W → W × ConnectResult
unfolding call_query build_connect_decision act_with
run_connect hooks w =
    let (w', snapshot) = call_query hooks.query_snapshot none w in
    let decision = build_connect_decision snapshot hooks.restart_method hooks.start_reason in
    act_with hooks decision snapshot decision.return_error decision.panic_message w'
