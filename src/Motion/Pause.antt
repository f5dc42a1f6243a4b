-- ===== src/Motion/Pause.antt =====
-- toolhead_pause.go, with times in whole microseconds: the pause of the toolhead when enough is
-- buffered, the priming timer, and the wait for the end of all moves. The reactor and the clock of the
-- controller act on a world, which a pause changes. A loop runs on fuel; `none` means it ran out.
pub mod Ends
pub mod Waits
use klipper_go.Common.{
  ℕ, zero, suc, ◌+◌, ◌-◌, ◌*◌, min, max, Bool, true, false, ◌||◌, Option, none, some, ltb, leb,
  if◌then◌else◌, ◌>>=◌,
}
use klipper_go.Common.Int.{ℤ, pos, negsuc, sub_ℕ, ltb_ℤ}

-- The texts of SpecialQueuingState; the empty one is `main`.
pub data SpecialQueuingState : Type 0 where
  main need_prime priming drip : SpecialQueuingState

abbrev pub is_special : SpecialQueuingState → Bool
is_special main = false
is_special need_prime = true
is_special priming = true
is_special drip = true

-- `Pause` returns the time at which it wakes.
pub record PauseTimeSource (World : Type 0) : Type 0 where
  pub monotonic : World → ℕ
  pub estimated_print_time : World → ℕ → ℕ
  pub pause : World → ℕ → World × ℕ

pub record ToolheadPauseConfig : Type 0 where
  pub buffer_time_low : ℕ
  pub buffer_time_high : ℕ
  pub pause_check_offset : ℕ
  pub max_pause_duration : ℕ
  pub min_priming_delay : ℕ
  pub wait_move_delay : ℕ

pub record ToolheadPauseState : Type 0 where
  pub print_time : ℕ
  pub check_stall_time : ℤ
  pub print_stall : ℕ
  pub special_queuing_state : SpecialQueuingState
  pub need_check_pause : ℤ
  pub can_pause : Bool

pub record ToolheadPauseResult : Type 0 where
  pub state : ToolheadPauseState
  pub needs_priming_timer : Bool
  pub priming_wake_time : ℕ
  pub event_time : ℕ
  pub estimated_print_time : ℕ
  pub buffer_time : ℤ

abbrev pub never : ℤ
never = pos (9_999_999_999_999_999 * 1_000_000)

-- A stall is counted when the controller was not behind the time noted.
unfoldable pub stalls : ℕ → ToolheadPauseState → ℕ
stalls est state =
    if ltb_ℤ (pos 0) state.check_stall_time
    then (if ltb_ℤ (pos est) state.check_stall_time
        then state.print_stall + 1
        else state.print_stall)
    else state.print_stall

unfoldable pub primed : ℕ → ToolheadPauseState → ToolheadPauseState
unfolding stalls
primed est state =
    if is_special state.special_queuing_state
    then record state {
      print_stall = stalls est state;
      special_queuing_state = priming;
      check_stall_time = negsuc 999_999;
    }
    else state

unfoldable pub priming_wake : ℕ → ℕ → ToolheadPauseConfig → ToolheadPauseState → ℕ
priming_wake eventtime est config state =
    if is_special state.special_queuing_state
    then eventtime
      + max config.min_priming_delay ((state.print_time - est) - config.buffer_time_low)
    else 0

module _ {World : Type 0} (source : PauseTimeSource World) (config : ToolheadPauseConfig) where
  open source use {monotonic, pause}
  open source use {estimated_print_time as estimated}

  -- The loop of `RunToolheadPauseCheck`, with the print time and whether pausing is possible: the
  -- world, whether the loop was left by its break, the event time and the estimate.
  unfoldable pub pause_loop : ℕ → World → ℕ → ℕ → ℕ → Bool → Option (World × Bool × ℕ × ℕ)
  pause_loop zero w eventtime est print can = none
  pause_loop (suc fuel) w eventtime est print can =
      let wait = min config.max_pause_duration (print - est - config.buffer_time_high) in
      let (w', woken) = pause w (eventtime + wait) in
      let rest = pause_loop fuel w' woken (estimated w' woken) print can in
      if leb print (est + config.buffer_time_high)
      then some (w, true, eventtime, est)
      else if can
      then rest
      else some (w, false, eventtime, est)

  unfoldable pub next_check : Bool → ℕ → ToolheadPauseState → ℤ
  next_check false est state = never
  next_check true est state =
      if is_special state.special_queuing_state
      then state.need_check_pause
      else pos (est + config.buffer_time_high + config.pause_check_offset)

  unfoldable pub pause_result :
      ℕ → ℕ → ToolheadPauseState → World × Bool × ℕ × ℕ → World × ToolheadPauseResult
  unfolding next_check priming_wake
  pause_result eventtime est state (w, broke, eventtime', est') =
      let after = primed est state in
      (
        w,
        record {
          state = record after { need_check_pause = next_check broke est' after };
          needs_priming_timer = is_special state.special_queuing_state;
          priming_wake_time = priming_wake eventtime est config state;
          event_time = eventtime';
          estimated_print_time = est';
          buffer_time = sub_ℕ state.print_time est';
        },
      )

  -- `RunToolheadPauseCheck`
  unfoldable pub run_pause_check :
      ℕ → World → ToolheadPauseState → Option (World × ToolheadPauseResult)
  unfolding pause_loop pause_result primed
  run_pause_check fuel w state =
      let eventtime = monotonic w in
      let est = estimated w eventtime in
      pause_loop fuel w eventtime est state.print_time state.can_pause >>= λ left.
      some (pause_result eventtime est state left)

  -- The loop of `WaitToolheadMoves`, whose state was read before it.
  unfoldable pub wait_loop : ℕ → World → ℕ → Bool → ℕ → Bool → Option (World × ℕ)
  wait_loop zero w eventtime special print can = none
  wait_loop (suc fuel) w eventtime special print can =
      let (w', woken) = pause w (eventtime + config.wait_move_delay) in
      let rest = wait_loop fuel w' woken special print can in
      if (if special then false else true) || leb (estimated w eventtime) print
      then (if can then rest else some (w, eventtime))
      else some (w, eventtime)

  -- `WaitToolheadMoves`
  unfoldable pub wait_toolhead_moves :
      ℕ → World → SpecialQueuingState → ℕ → Bool → Option (World × ℕ)
  unfolding wait_loop
  wait_toolhead_moves fuel w state print can =
      wait_loop fuel w (monotonic w) (is_special state) print can

-- `HandleToolheadPrimingTimer`: whether the lookahead is flushed, and the stall time then set.
unfoldable pub handle_priming_timer : SpecialQueuingState → ℕ → Bool × ℕ
handle_priming_timer main print = (false, 0)
handle_priming_timer need_prime print = (false, 0)
handle_priming_timer priming print = (true, print)
handle_priming_timer drip print = (false, 0)
