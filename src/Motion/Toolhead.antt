-- ===== src/Motion/Toolhead.antt =====
-- `ToolheadTimingState` of toolhead_runtime.go, with times in whole microseconds. What an advance hands
-- to the step generators, the move queue and the drivers is a record; the clock is an argument. The
-- times that the code takes a maximum with are never negative, so that a difference below zero counts
-- as zero; the one that is handed out, `free_time`, is an integer.
pub mod Times
pub mod Restart
mod Tests
use klipper_go.Common.{
  ℕ, zero, suc, ◌+◌, ◌-◌, min, max, Bool, true, false, List, [], ◌∷◌, ◌++◌, ◌==◌, ltb, leb,
  if◌then◌else◌,
}
use klipper_go.Common.Int.{ℤ, sub_ℕ}

pub record ToolheadTimingConfig : Type 0 where
  pub buffer_time_start : ℕ
  pub min_kin_time : ℕ
  pub move_batch_time : ℕ
  pub move_history_expire : ℕ
  pub scan_time_offset : ℕ
  pub stepcompress_flush_time : ℕ

pub record ToolheadTimingState : Type 0 where
  pub print_time : ℕ
  pub last_flush_time : ℕ
  pub last_step_gen_time : ℕ
  pub min_restart_time : ℕ
  pub need_flush_time : ℕ
  pub step_gen_time : ℕ
  pub clear_history_time : ℕ
  pub kin_flush_delay : ℕ
  pub kin_flush_times : List ℕ
  pub do_kick_flush_timer : Bool
  pub can_pause : Bool

-- What one flush hands to the actions.
pub record Flush : Type 0 where
  pub sg_flush_time : ℕ
  pub free_time : ℤ
  pub clear_history_time : ℕ
  pub flush_time : ℕ

-- The time up to which steps are generated.
unfoldable pub sg_time : ℕ → ToolheadTimingConfig → ToolheadTimingState → ℕ
sg_time flush_time config self =
    max (min (flush_time + config.stepcompress_flush_time) (self.print_time - self.kin_flush_delay))
      flush_time

unfoldable pub clear_time : ℕ → ToolheadTimingConfig → ToolheadTimingState → ℕ
clear_time sg config self =
    if self.can_pause
    then self.clear_history_time
    else (sg - self.kin_flush_delay) - config.move_history_expire

-- `AdvanceFlushTime`
unfoldable pub flush_at :
    ℕ → ℕ → ToolheadTimingConfig → ToolheadTimingState → ToolheadTimingState × Flush
unfolding clear_time
flush_at flush_time sg config self = (
  record self {
    last_step_gen_time = sg;
    min_restart_time = max self.min_restart_time sg;
    last_flush_time = flush_time;
  },
  record {
    sg_flush_time = sg;
    free_time = sub_ℕ sg self.kin_flush_delay;
    clear_history_time = clear_time sg config self;
    flush_time = flush_time;
  },
)

unfoldable pub advance_flush_time :
    ℕ → ToolheadTimingConfig → ToolheadTimingState → ToolheadTimingState × Flush
unfolding sg_time flush_at
advance_flush_time flush_time config self =
    let time = max flush_time self.last_flush_time in
    flush_at time (sg_time time config self) config self

-- The loop of `AdvanceMoveTime`, on fuel.
unfoldable pub move_loop :
    ℕ → ℕ → ℕ → ToolheadTimingConfig → ToolheadTimingState → ToolheadTimingState × List Flush × Bool
move_loop zero flush_time want config self = (self, [], false)
move_loop (suc fuel) flush_time want config self =
    let time = min (flush_time + config.move_batch_time) want in
    let (self', flush) = advance_flush_time time config self in
    let (last, rest, ended) = move_loop fuel time want config self' in
    if leb want time then (self', flush ∷ [], true) else (last, flush ∷ rest, ended)

unfoldable pub pt_delay : ToolheadTimingConfig → ToolheadTimingState → ℕ
pt_delay config self = self.kin_flush_delay + config.stepcompress_flush_time

-- The flush time before, and the one wanted.
unfoldable pub flush_from : ToolheadTimingConfig → ToolheadTimingState → ℕ
unfolding pt_delay
flush_from config self = max self.last_flush_time (self.print_time - pt_delay config self)

unfoldable pub flush_want : ℕ → ToolheadTimingConfig → ToolheadTimingState → ℕ
unfolding pt_delay flush_from
flush_want next config self =
    max (flush_from config self) (max self.print_time next - pt_delay config self)

-- `AdvanceMoveTime`, and whether the fuel was enough.
unfoldable pub advance_move_time :
    ℕ → ToolheadTimingConfig → ToolheadTimingState → ToolheadTimingState × List Flush × Bool
unfolding move_loop
advance_move_time next config self =
    let from = flush_from config self in
    let want = flush_want next config self in
    move_loop (suc (want - from)) from want config
      (record self { print_time = max self.print_time next })

-- `CalcPrintTime`, and whether the notifier is told.
unfoldable pub min_print_time : ℕ → ToolheadTimingConfig → ToolheadTimingState → ℕ
min_print_time est config self =
    max (est + config.buffer_time_start)
      (max (est + config.min_kin_time) self.min_restart_time + self.kin_flush_delay)

unfoldable pub calc_print_time :
    ℕ → ToolheadTimingConfig → ToolheadTimingState → ToolheadTimingState × Bool
unfolding min_print_time
calc_print_time est config self =
    let least = min_print_time est config self in
    if leb least self.print_time then (self, false) else (record self { print_time = least }, true)

-- `UpdateStepGenerationScanDelay`: the old delay leaves the list once, the new one comes to its end.
unfoldable pub without_delay : ℕ → List ℕ → List ℕ
without_delay old [] = []
without_delay old (value ∷ values) =
    if value == old then values else value ∷ without_delay old values

unfoldable pub take_out : ℕ → List ℕ → List ℕ
unfolding without_delay
take_out old values = if old == 0 then values else without_delay old values

unfoldable pub put_in : ℕ → List ℕ → List ℕ
put_in delay values = if delay == 0 then values else values ++ (delay ∷ [])

unfoldable pub longest : ℕ → List ℕ → ℕ → ℕ
longest offset [] delay = delay
longest offset (value ∷ values) delay =
    longest offset values (if ltb delay (value + offset) then value + offset else delay)

unfoldable pub update_scan_delay :
    ℕ → ℕ → ToolheadTimingConfig → ToolheadTimingState → ToolheadTimingState
unfolding take_out put_in longest
update_scan_delay delay old config self =
    let times = put_in delay (take_out old self.kin_flush_times) in
    record self {
      kin_flush_times = times;
      kin_flush_delay = longest config.scan_time_offset times 0;
    }

-- `NoteMovequeueActivity`, and whether the flush timer is to be kicked.
unfoldable pub note_movequeue_activity : ℕ → Bool → ToolheadTimingState → ToolheadTimingState × Bool
note_movequeue_activity mq_time set_step_gen_time self = (
  record self {
    need_flush_time = max self.need_flush_time mq_time;
    step_gen_time =
        if set_step_gen_time then max self.step_gen_time mq_time else self.step_gen_time;
    do_kick_flush_timer = false;
  },
  self.do_kick_flush_timer,
)
