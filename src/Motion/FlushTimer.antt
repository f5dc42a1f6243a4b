-- ===== src/Motion/FlushTimer.antt =====
-- `BuildToolheadFlushHandlerPlan` of toolhead_flush.go: what the flush timer of the toolhead does, with
-- times in whole microseconds. A time below zero that is only compared or taken a maximum with counts
-- as zero; the next wake-up is an integer.
pub mod Progress
use klipper_go.Common.{
  ℕ, ◌+◌, ◌-◌, ◌*◌, ◌≤◌, ◌<◌, min, max, Bool, true, false, ◌&&◌, List, [], ◌∷◌, ◌++◌, ltb, leb, ◌≡◌,
  refl, ◌⊎◌, inl, inr, Bool-cases, if◌then◌else◌, arith,
}
use klipper_go.Common.Int.{ℤ, pos, sub_ℕ, ◌<ℤ◌, sub_ℕ-parts, pos_part, neg_part}

pub record ToolheadFlushConfig : Type 0 where
  pub buffer_time_low : ℕ
  pub bg_flush_low_time : ℕ
  pub bg_flush_high_time : ℕ
  pub bg_flush_sg_low_time : ℕ
  pub bg_flush_sg_high_time : ℕ
  pub bg_flush_extra_time : ℕ
  pub stepcompress_flush_time : ℕ

-- `is_special` is whether SpecialQueuingState is not empty.
pub record ToolheadFlushHandlerState : Type 0 where
  pub print_time : ℕ
  pub last_flush_time : ℕ
  pub last_step_gen_time : ℕ
  pub need_flush_time : ℕ
  pub need_step_gen_time : ℕ
  pub is_special : Bool
  pub kin_flush_delay : ℕ

pub record ToolheadFlushHandlerPlan : Type 0 where
  pub should_flush_lookahead : Bool
  pub advance_flush_times : List ℕ
  pub next_wake_time : ℤ
  pub return_never : Bool
  pub kick_flush_timer : Bool

abbrev pub wakes : Bool → List ℕ → ℤ → ToolheadFlushHandlerPlan
wakes lookahead times wake = record {
  should_flush_lookahead = lookahead;
  advance_flush_times = times;
  next_wake_time = wake;
  return_never = false;
  kick_flush_timer = false;
}

-- The step generation wanted, from the time reached and the print time estimated.
unfoldable pub batch_time : ℕ → ℕ → ToolheadFlushConfig → ℕ
batch_time last est config =
    let want = est + config.bg_flush_sg_high_time in
    let next = last + (config.bg_flush_sg_high_time - config.bg_flush_sg_low_time) in
    if ltb est next then (if ltb (want + 5_000) next then last else next) else want

-- How far a flush at the end brings the flush time.
unfoldable pub end_time : ℕ → ℕ → ℕ → ToolheadFlushConfig → ℕ
end_time last end_flush est config =
    if ltb last end_flush then max last (min (est + config.bg_flush_high_time) end_flush) else last

-- The last part: flushing what is needed, from the flush time reached.
unfoldable pub end_plan :
    ℕ → ℕ → Bool → List ℕ → ℕ → ℕ → ToolheadFlushConfig → ToolheadFlushHandlerPlan
unfolding end_time
end_plan eventtime est lookahead times last end_flush config =
    let last' = end_time last end_flush est config in
    let times' = if ltb last last' then times ++ (last' ∷ []) else times in
    if leb end_flush last'
    then record {
      should_flush_lookahead = lookahead;
      advance_flush_times = times';
      next_wake_time = pos 0;
      return_never = true;
      kick_flush_timer = true;
    }
    else wakes lookahead times' (sub_ℕ (eventtime + last') (config.bg_flush_low_time + est))

unfoldable pub end_flush_of : ToolheadFlushHandlerState → ToolheadFlushConfig → ℕ
end_flush_of state config = state.need_flush_time + config.bg_flush_extra_time

-- The next call while steps are still wanted, or the last part.
unfoldable pub wake_or_end :
    Bool
    → ℕ
    → ℕ
    → Bool
    → List ℕ
    → ℕ
    → ℕ
    → ToolheadFlushHandlerState
    → ToolheadFlushConfig
    → ToolheadFlushHandlerPlan
unfolding end_plan end_flush_of
wake_or_end true eventtime est lookahead times last steps state config =
    wakes lookahead times (sub_ℕ (eventtime + steps) (config.bg_flush_sg_low_time + est))
wake_or_end false eventtime est lookahead times last steps state config =
    end_plan eventtime est lookahead times last (end_flush_of state config) config

unfoldable pub steps_if :
    Bool
    → ℕ
    → ℕ
    → ℕ
    → ℕ
    → Bool
    → ToolheadFlushHandlerState
    → ToolheadFlushConfig
    → ToolheadFlushHandlerPlan
unfolding wake_or_end
steps_if true want aggressive eventtime est lookahead state config =
    let time = max state.last_flush_time (want - config.stepcompress_flush_time) in
    wake_or_end (ltb want aggressive) eventtime est lookahead (time ∷ []) time want state config
steps_if false want aggressive eventtime est lookahead state config =
    wake_or_end (ltb state.last_step_gen_time aggressive) eventtime est lookahead []
      state.last_flush_time state.last_step_gen_time state config

-- The middle part, with `aggressive` behind the steps generated.
unfoldable pub step_gen_plan :
    ℕ → ℕ → ℕ → Bool → ToolheadFlushHandlerState → ToolheadFlushConfig → ToolheadFlushHandlerPlan
unfolding batch_time steps_if
step_gen_plan aggressive eventtime est lookahead state config =
    let want = min (batch_time state.last_step_gen_time est config) aggressive in
    steps_if (ltb state.last_step_gen_time want) want aggressive eventtime est lookahead state
      config

unfoldable pub build_flush_plan :
    ℕ → ℕ → ToolheadFlushHandlerState → ToolheadFlushConfig → ToolheadFlushHandlerPlan
unfolding step_gen_plan
build_flush_plan eventtime est state config =
    let aggressive = state.need_step_gen_time - 2 * state.kin_flush_delay in
    let lookahead = if state.is_special then false else true in
    if lookahead && ltb (est + config.buffer_time_low) state.print_time
    then wakes false [] (sub_ℕ (eventtime + (state.print_time - est)) config.buffer_time_low)
    else if ltb state.last_step_gen_time aggressive
    then step_gen_plan aggressive eventtime est lookahead state config
    else end_plan eventtime est lookahead [] state.last_flush_time (end_flush_of state config)
        config
