-- ===== src/Motion/Toolhead/Restart.antt =====
-- After any calls, the print time at which moves begin again is behind all steps that were generated.
use klipper_go.Common.{
  ℕ, zero, suc, ◌+◌, ◌-◌, ◌≤◌, min, max, Bool, List, [], ◌∷◌, ◌++◌, leb, inl, inr, Bool-cases,
  arith, All, All-append,
}
use klipper_go.Motion.Toolhead.{
  ToolheadTimingConfig, ToolheadTimingState, Flush, flush_at, advance_flush_time, move_loop,
  flush_from, flush_want, advance_move_time, min_print_time, calc_print_time, update_scan_delay,
  note_movequeue_activity,
}

pub data TimingCall : Type 0 where
  flush_call move_call calc_call : ℕ → TimingCall
  scan_call : ℕ → ℕ → TimingCall
  activity_call : ℕ → Bool → TimingCall

unfoldable pub timing_call :
    TimingCall → ToolheadTimingConfig → ToolheadTimingState → ToolheadTimingState × List Flush
timing_call (flush_call time) config self =
    let (self', flush) = advance_flush_time time config self in (self', flush ∷ [])
timing_call (move_call next) config self =
    let (self', flushes, ended) = advance_move_time next config self in (self', flushes)
timing_call (calc_call est) config self = ((calc_print_time est config self).0, [])
timing_call (scan_call delay old) config self = (update_scan_delay delay old config self, [])
timing_call (activity_call time step_gen) config self =
    ((note_movequeue_activity time step_gen self).0, [])

unfoldable pub timing_calls :
    List TimingCall → ToolheadTimingConfig → ToolheadTimingState → ToolheadTimingState × List Flush
timing_calls [] config self = (self, [])
timing_calls (c ∷ cs) config self =
    let (self', first) = timing_call c config self in
    let (last, rest) = timing_calls cs config self' in (last, first ++ rest)

abbrev Within : ℕ → Flush → Type 0
Within time flush = flush.sg_flush_time ≤ time

-- Times do not go back, and the time to begin again is behind the steps.
abbrev IsForward : ToolheadTimingState → ToolheadTimingState × List Flush → Type 0
IsForward self (after, flushes) =
    (self.print_time ≤ after.print_time)
    × (self.last_flush_time ≤ after.last_flush_time)
    × (self.min_restart_time ≤ after.min_restart_time)
    × All (Within after.min_restart_time) flushes

later_bound :
    (a b : ℕ) (flushes : List Flush) → a ≤ b → All (Within a) flushes → All (Within b) flushes
later_bound a b [] h all = tt
later_bound a b (f ∷ fs) h (first, rest) = (omega (arith, h, first), later_bound a b fs h rest)

chained :
    (a b c : ToolheadTimingState) (first rest : List Flush)
    → IsForward a (b, first)
    → IsForward b (c, rest)
    → IsForward a (c, first ++ rest)
chained a b c first rest (p, q, r, all) (p', q', r', all') = (
  omega (arith, p, p'),
  omega (arith, q, q'),
  omega (arith, r, r'),
  All-append (Within c.min_restart_time) first rest
      (later_bound b.min_restart_time c.min_restart_time first r' all) all',
)

flush-IsForward :
    (time : ℕ) (config : ToolheadTimingConfig) (self : ToolheadTimingState)
    → let (after, flush) = advance_flush_time time config self in IsForward self (after, flush ∷ [])
unfolding advance_flush_time flush_at
flush-IsForward time config self = (omega arith, omega arith, omega arith, (omega arith, tt))

loop-IsForward :
    (fuel from want : ℕ) (config : ToolheadTimingConfig) (self : ToolheadTimingState)
    → let (after, flushes, ended) = move_loop fuel from want config self in
      IsForward self (after, flushes)
unfolding move_loop
loop-IsForward zero from want config self = (omega arith, omega arith, omega arith, tt)
loop-IsForward (suc fuel) from want config self =
    let time = min (from + config.move_batch_time) want in
    let (after, flush) = advance_flush_time time config self in
    let first = flush-IsForward time config self in
    elim (Bool-cases (leb want time)) [
      | inl last ↦ rw last first
      | inr more ↦ rw more (
          chained self after (move_loop fuel time want config after).0 (flush ∷ [])
            (move_loop fuel time want config after).1 first
            (loop-IsForward fuel time want config after))
    ]

call-IsForward :
    (c : TimingCall) (config : ToolheadTimingConfig) (self : ToolheadTimingState)
    → IsForward self (timing_call c config self)
unfolding timing_call advance_move_time calc_print_time update_scan_delay note_movequeue_activity
call-IsForward (flush_call time) config self = flush-IsForward time config self
call-IsForward (move_call next) config self =
    let from = flush_from config self in
    let want = flush_want next config self in
    let (print, flushed, restart, all) =
      loop-IsForward (suc (want - from)) from want config
        (record self { print_time = max self.print_time next }) in
    (omega (arith, print), flushed, restart, all)
call-IsForward (calc_call est) config self = (ground arith, ground arith, ground arith, tt)
call-IsForward (scan_call delay old) config self = (omega arith, omega arith, omega arith, tt)
call-IsForward (activity_call time step_gen) config self =
    (omega arith, omega arith, omega arith, tt)

calls-IsForward :
    (cs : List TimingCall) (config : ToolheadTimingConfig) (self : ToolheadTimingState)
    → IsForward self (timing_calls cs config self)
unfolding timing_calls
calls-IsForward [] config self = (omega arith, omega arith, omega arith, tt)
calls-IsForward (c ∷ cs) config self =
    let (after, first) = timing_call c config self in
    chained self after (timing_calls cs config after).0 first (timing_calls cs config after).1
      (call-IsForward c config self) (calls-IsForward cs config after)

calc-clear :
    (est : ℕ) (config : ToolheadTimingConfig) (self : ToolheadTimingState)
    → self.min_restart_time + self.kin_flush_delay ≤ (calc_print_time est config self).0.print_time
unfolding calc_print_time min_print_time
calc-clear est config self = ground arith

behind_each :
    (restart delay print : ℕ) (flushes : List Flush)
    → restart + delay ≤ print
    → All (Within restart) flushes
    → All (λ f. f.sg_flush_time + delay ≤ print) flushes
behind_each restart delay print [] h all = tt
behind_each restart delay print (f ∷ fs) h (first, rest) =
    (omega (arith, h, first), behind_each restart delay print fs h rest)

-- Whatever calls of the timing state come before, the print time that `CalcPrintTime` leaves lies
-- behind every time up to which steps were generated, by the flush delay of the kinematics; and neither
-- the print time nor the flush time ever went back.
pub restart_behind_steps :
    (cs : List TimingCall) (est : ℕ) (config : ToolheadTimingConfig) (self : ToolheadTimingState)
    → let (after, flushes) = timing_calls cs config self in
      (self.print_time ≤ after.print_time)
      × (self.last_flush_time ≤ after.last_flush_time)
      × All
          (λ f.
            f.sg_flush_time + after.kin_flush_delay
            ≤ (calc_print_time est config after).0.print_time)
          flushes
restart_behind_steps cs est config self =
    let (after, flushes) = timing_calls cs config self in
    let (print, flushed, restart, all) = calls-IsForward cs config self in
    (
      print,
      flushed,
      behind_each after.min_restart_time after.kin_flush_delay
          (calc_print_time est config after).0.print_time flushes (calc-clear est config after) all,
    )
