-- ===== src/Motion/LookAhead.antt =====
-- `LookAheadQueue` of move_queue.go. The moves that go to the processor are a result.
pub mod Flush
pub mod Order
pub mod Whole
use klipper_go.Common.{
  ℕ, zero, suc, ◌+◌, ◌-◌, Bool, true, false, not, ◌&&◌, ◌||◌, Option, none, some, List, [], ◌∷◌,
  ◌++◌, ◌==◌, ltb, if◌then◌else◌, length, take, drop,
}
use klipper_go.Common.Real.{Float}
use klipper_go.Motion.Move.{Move, custom_min, calc_junction, set_junction}

pub record LookAheadQueue (F : Type 0) : Type 0 where
  pub queue : List (Move F)
  pub junction_flush : F

-- `junctionNode`; `CruiseV2` and `HasCruiseV2` are one option.
pub record JunctionNode (F : Type 0) : Type 0 where
  pub move : Move F
  pub start_v2 : F
  pub cruise_v2 : Option F
  pub next_start_v2 : F

-- The variables of the loop from the last move to the first.
pub record Backward (F : Type 0) : Type 0 where
  pub next_start_v2 : F
  pub next_mcr_start_v2 : F
  pub peak_cruise_v2 : F
  pub pending_cruise_assign : ℕ
  pub update_flush_count : Bool
  pub flush_count : ℕ

module _ (R : Float) where
  open R use {F, zero_f, lit, eq_f, lt_f, add_f, sub_f, mul_f, min_f}

  abbrev pub lookahead_flush_time : F
  lookahead_flush_time = lit 150 1000

  -- A move that can accelerate: whether it begins a new peak.
  unfoldable pub new_peak : ℕ → F → F → Move F → Backward F → Backward F
  new_peak i mcr_start_v2 reachable_mcr_start_v2 move b =
      let found = b.update_flush_count && not (eq_f b.peak_cruise_v2 zero_f) in
      if lt_f b.next_mcr_start_v2 (add_f mcr_start_v2 move.mcr_delta_v2)
        || ltb 1 b.pending_cruise_assign
      then record b {
        flush_count = if found then i + b.pending_cruise_assign else b.flush_count;
        update_flush_count = if found then false else b.update_flush_count;
        peak_cruise_v2 = mul_f (add_f mcr_start_v2 reachable_mcr_start_v2) (lit 5 10);
      }
      else b

  -- One round, for the move at place `i`.
  unfoldable pub backward_step : ℕ → Move F → Backward F → Backward F × JunctionNode F
  unfolding new_peak custom_min
  backward_step i move b =
      let reachable_start_v2 = add_f b.next_start_v2 move.delta_v2 in
      let start_v2 = min_f move.max_start_v2 reachable_start_v2 in
      let reachable_mcr_start_v2 = add_f b.next_mcr_start_v2 move.mcr_delta_v2 in
      let mcr_start_v2 = min_f move.max_mcr_start_v2 reachable_mcr_start_v2 in
      let counted : Backward F = record b { pending_cruise_assign = b.pending_cruise_assign + 1 } in
      let peaked = new_peak i mcr_start_v2 reachable_mcr_start_v2 move counted in
      let accelerates = lt_f mcr_start_v2 reachable_mcr_start_v2 in
      let cruise =
        custom_min R (mul_f (add_f start_v2 reachable_start_v2) (lit 5 10))
          (move.max_cruise_v2 ∷ peaked.peak_cruise_v2 ∷ []) in
      let after : Backward F =
        (if accelerates then record peaked { pending_cruise_assign = 0 } else counted) in
      (
        record after { next_start_v2 = start_v2; next_mcr_start_v2 = mcr_start_v2 },
        record {
          move = move;
          start_v2 = start_v2;
          cruise_v2 = if accelerates then some cruise else none;
          next_start_v2 = b.next_start_v2;
        },
      )

  -- The loop over the moves from place `i` on.
  unfoldable pub backward : Bool → ℕ → ℕ → List (Move F) → Backward F × List (JunctionNode F)
  unfolding backward_step
  backward lazy total i [] = (
    record {
      next_start_v2 = zero_f;
      next_mcr_start_v2 = zero_f;
      peak_cruise_v2 = zero_f;
      pending_cruise_assign = 0;
      update_flush_count = lazy;
      flush_count = total;
    },
    [],
  )
  backward lazy total i (m ∷ ms) =
      let (b, nodes) = backward lazy total (suc i) ms in
      let (b', node) = backward_step i m b in (b', node ∷ nodes)

  unfoldable pub cruise_of : F → JunctionNode F → F
  cruise_of prev_cruise_v2 node = elim node.cruise_v2 [
    | none ↦ min_f prev_cruise_v2 node.start_v2
    | some c ↦ c
  ]

  -- The loop from the first move on.
  unfoldable pub forward : F → List (JunctionNode F) → List (Move F)
  unfolding cruise_of set_junction
  forward prev_cruise_v2 [] = []
  forward prev_cruise_v2 (node ∷ nodes) =
      let cruise_v2 = cruise_of prev_cruise_v2 node in
      set_junction R (min_f node.start_v2 cruise_v2) cruise_v2 (min_f node.next_start_v2 cruise_v2)
        node.move
      ∷ forward cruise_v2 nodes

  -- The part of `Flush` behind the first loop. A slice beyond the queue would be a panic.
  unfoldable pub flush_with :
      LookAheadQueue F
      → Backward F × List (JunctionNode F)
      → Option (LookAheadQueue F × List (Move F))
  unfolding forward
  flush_with self (b, nodes) =
      if b.update_flush_count || b.flush_count == 0
      then some (record self { junction_flush = lookahead_flush_time }, [])
      else if ltb (length self.queue) b.flush_count
      then none
      else some (
        record { queue = drop b.flush_count self.queue; junction_flush = lookahead_flush_time },
        forward zero_f (take b.flush_count nodes),
      )

  -- `Flush`
  unfoldable pub flush : Bool → LookAheadQueue F → Option (LookAheadQueue F × List (Move F))
  unfolding backward flush_with
  flush lazy self = flush_with self (backward lazy (length self.queue) 0 self.queue)

  unfoldable pub last_move : List (Move F) → Option (Move F)
  last_move [] = none
  last_move (m ∷ []) = some m
  last_move (m ∷ n ∷ ms) = last_move (n ∷ ms)

  unfoldable pub add_after :
      Option (Move F)
      → Option (Move F → Move F → F)
      → Move F
      → LookAheadQueue F
      → LookAheadQueue F × Bool
  unfolding calc_junction
  add_after none extruder move self = (record self { queue = self.queue ++ (move ∷ []) }, false)
  add_after (some prev) extruder move self =
      let left = sub_f self.junction_flush move.min_move_t in
      (
        record {
          queue = self.queue ++ (calc_junction R extruder prev move ∷ []);
          junction_flush = left;
        },
        not (lt_f zero_f left),
      )

  -- `Add_move`, with whether the queue wants to be flushed.
  unfoldable pub add_move :
      Option (Move F → Move F → F) → Move F → LookAheadQueue F → LookAheadQueue F × Bool
  unfolding last_move add_after
  add_move extruder move self = add_after (last_move self.queue) extruder move self

  unfoldable pub new_move_queue : LookAheadQueue F
  new_move_queue = record { queue = []; junction_flush = lookahead_flush_time }
