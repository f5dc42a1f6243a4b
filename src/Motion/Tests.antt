-- ===== src/Motion/Tests.antt =====
-- The theorems on the queue of moves for moves measured in whole numbers.
use klipper_go.Common.{
  ℕ, ◌≤◌, ◌≡◌, true, false, none, some, List, [], ◌∷◌, ◌++◌, length, drop, arith,
}
use klipper_go.Common.Whole.{whole_numbers, whole_numbers-IsOrdered}
use klipper_go.Motion.Move.{Axes, Move, MoveConfig, new_move}
use klipper_go.Motion.LookAhead.{LookAheadQueue, new_move_queue, flush}
use klipper_go.Motion.LookAhead.Flush.{Junction, apply_junctions, AllSafe, flush_safe}
use klipper_go.Motion.LookAhead.Order.{Call, queued, flushed, calls, ends, added, calls_in_order}

abbrev at : ℕ → Axes ℕ
at n = record { x = n; y = 0; z = 0; e = n }

abbrev config : MoveConfig ℕ
config = record { max_accel = 3; junction_deviation = 1; max_velocity = 50; max_accel_to_decel = 2 }

abbrev going : ℕ → ℕ → Move ℕ
going a b = new_move whole_numbers config (at a) (at b) 10

abbrev three_moves : List (Call ℕ)
three_moves =
    queued none (going 0 4)
    ∷ queued none (going 4 6)
    ∷ flushed true
    ∷ queued none (going 6 9)
    ∷ flushed false
    ∷ []

calls_in_order_example :
    (last : LookAheadQueue ℕ) × (out : List (Move ℕ)) × (calls whole_numbers three_moves
        (new_move_queue whole_numbers)
      ≡ some (last, out))
    × (ends out ++ ends last.queue ≡ ends (new_move_queue whole_numbers).queue ++ added three_moves)
unfolding new_move_queue new_move
calls_in_order_example =
    calls_in_order whole_numbers whole_numbers-IsOrdered three_moves (new_move_queue whole_numbers)
      tt (ground arith)

abbrev two_waiting : LookAheadQueue ℕ
two_waiting = record { queue = going 0 4 ∷ going 4 6 ∷ []; junction_flush = 0 }

flush_safe_example :
    (last : LookAheadQueue ℕ) × (out : List (Move ℕ)) × (ps : List (Junction ℕ)) × (flush
        whole_numbers false two_waiting
      ≡ some (last, out))
    × (out ≡ apply_junctions whole_numbers ps two_waiting.queue)
    × (length ps ≤ 2)
    × (last.queue ≡ drop (length ps) two_waiting.queue)
    × AllSafe whole_numbers ps two_waiting.queue
unfolding new_move
flush_safe_example =
    flush_safe whole_numbers whole_numbers-IsOrdered false two_waiting (ground arith)
