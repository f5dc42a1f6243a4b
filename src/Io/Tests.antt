-- ===== src/Io/Tests.antt =====
-- The theorems on buttons and the encoder at concrete inputs.
use klipper_go.Common.{
  ℕ, ◌+◌, ◌-◌, ◌*◌, ◌≤◌, ◌<◌, ◌≡◌, true, false, some, List, [], ◌∷◌, arith, take, drop,
}
use klipper_go.Io.Buttons.{DigitalButtonState}
use klipper_go.Io.Buttons.InOrder.{handle_all, handle_all_in_order}
use klipper_go.Io.Encoder.{Turn, full_step, turns}
use klipper_go.Io.Encoder.Counting.{inputs, reported_cw, reported_ccw, full_step_counts}

abbrev two_counted : DigitalButtonState
two_counted = record {
  pin_count = 2;
  invert_mask = 0;
  last_button = 0;
  ack_count = 2;
  callbacks = [];
}

-- Two messages, the second of which repeats a report.
handle_all_in_order_example :
    (last : DigitalButtonState) × (scheduled : List ℕ) × (handle_all
        (0 ∷ 1 ∷ 0 ∷ 2 ∷ 3 ∷ [])
        ((0, 3) ∷ (2, 3) ∷ [])
        two_counted
      ≡ some (last, scheduled))
    × (2 ≤ last.ack_count)
    × (scheduled ≡ take (last.ack_count - 2) (drop 2 (0 ∷ 1 ∷ 0 ∷ 2 ∷ 3 ∷ [])))
handle_all_in_order_example =
    handle_all_in_order (0 ∷ 1 ∷ 0 ∷ 2 ∷ 3 ∷ []) ((0, 3) ∷ (2, 3) ∷ []) two_counted
      (omega arith, omega arith, omega arith, (omega arith, omega arith, omega arith, tt))

full_step_counts_example :
    (es : ℕ) × (ts : List Turn) × (turns full_step 0
        (inputs 0 (true ∷ true ∷ false ∷ true ∷ true ∷ true ∷ []))
      ≡ some (es, ts))
    × (5 + 4 * reported_ccw ts < 1 + 4 * reported_cw ts + 4)
    × (1 + 4 * reported_cw ts < 5 + 4 * reported_ccw ts + 4)
full_step_counts_example = full_step_counts (true ∷ true ∷ false ∷ true ∷ true ∷ true ∷ [])
