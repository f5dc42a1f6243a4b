-- ===== src/Motion/Toolhead/Times.antt =====
-- The loop of `AdvanceMoveTime`: it ends, in steps of the batch time, where it should.
use klipper_go.Common.{
  sym, ℕ, zero, suc, ◌+◌, ◌-◌, ◌≤◌, ◌<◌, min, max, Bool, true, List, [], ◌∷◌, leb, ◌≡◌, refl, inl,
  inr, Bool-cases, arith,
}
use mathlib.Core.Path.{subst}
use klipper_go.Motion.Toolhead.{
  ToolheadTimingConfig, ToolheadTimingState, Flush, flush_at, advance_flush_time, move_loop,
  flush_from, flush_want, advance_move_time,
}

-- Each flush comes at most one batch after the one before.
abbrev pub Climbs : ℕ → ℕ → List Flush → Type 0
Climbs batch from [] = Unit
Climbs batch from (flush ∷ rest) =
    (from ≤ flush.flush_time)
    × (flush.flush_time ≤ from + batch)
    × Climbs batch flush.flush_time rest

abbrev Reaches : ℕ → ℕ → ToolheadTimingConfig → ToolheadTimingState × List Flush × Bool → ℕ → Type 0
Reaches print from config (self, flushes, ended) want =
    (ended ≡ true)
    × (self.last_flush_time ≡ want)
    × (self.print_time ≡ print)
    × Climbs config.move_batch_time from flushes

move_loop-Reaches :
    (fuel from want : ℕ) (config : ToolheadTimingConfig) (self : ToolheadTimingState)
    → 1 ≤ config.move_batch_time
    → self.last_flush_time ≤ from
    → from ≤ want
    → want - from < fuel
    → Reaches self.print_time from config (move_loop fuel from want config self) want
unfolding move_loop advance_flush_time flush_at
move_loop-Reaches zero from want config self batch past ahead enough =
    absurd (omega (arith, enough))
move_loop-Reaches (suc fuel) from want config self batch past ahead enough =
    let time = min (from + config.move_batch_time) want in
    elim (Bool-cases (leb want time)) [
      | inl last ↦ rw last (refl, ground arith, refl, (ground arith, ground arith, tt))
      | inr more ↦
          (let (ended, flushed, printed, climbs) =
              move_loop-Reaches fuel time want config (advance_flush_time time config self).0 batch
                (ground arith) (ground arith) (ground arith) in
            let own : max time self.last_flush_time ≡ time = ground arith in
            rw more (
              ended,
              flushed,
              printed,
              (
                ground arith,
                ground arith,
                subst
                    (λ t.
                      Climbs config.move_batch_time t
                        (move_loop fuel time want config (advance_flush_time time config self).0).1)
                    (sym own) climbs,
              ),
            ))
    ]

-- With a batch time above zero the loop of `AdvanceMoveTime` ends, the steps are flushed up to the
-- flush time that the new print time asks for, no flush is more than a batch behind the one before, and
-- the print time is the later of the old and the given one.
pub advance_move_time_ends :
    (next : ℕ) (config : ToolheadTimingConfig) (self : ToolheadTimingState)
    → 1 ≤ config.move_batch_time
    → let (after, flushes, ended) = advance_move_time next config self in
      (ended ≡ true)
      × (after.last_flush_time ≡ flush_want next config self)
      × (after.print_time ≡ max self.print_time next)
      × Climbs config.move_batch_time (flush_from config self) flushes
unfolding advance_move_time flush_from flush_want
advance_move_time_ends next config self batch =
    move_loop-Reaches (suc (flush_want next config self - flush_from config self))
      (flush_from config self) (flush_want next config self) config
      (record self { print_time = max self.print_time next }) batch (omega arith) (omega arith)
      (omega arith)
