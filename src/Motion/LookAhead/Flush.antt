-- ===== src/Motion/LookAhead/Flush.antt =====
-- What a flush plans: every move that leaves can stop in time for what follows it.
use klipper_go.Common.{
  ℕ, zero, suc, ◌+◌, ◌≤◌, ◌≡◌, refl, sym, ap, ◌∙◌, inl, inr, Bool, false, ◌||◌, some, List, [], ◌∷◌,
  ◌==◌, ltb, length, take, drop, All, arith, Bool-cases,
}
use klipper_go.Common.Real.{Float, IsOrdered, LeF}
use klipper_go.Motion.Move.{Move, set_junction}
use klipper_go.Motion.LookAhead.{
  LookAheadQueue, JunctionNode, Backward, new_peak, backward_step, backward, cruise_of, forward,
  flush_with, flush, lookahead_flush_time,
}

-- Squares of the speeds of a move: at its start, while cruising, at its end.
pub record Junction (F : Type 0) : Type 0 where
  pub start_v2 : F
  pub cruise_v2 : F
  pub end_v2 : F

module _ (R : Float) where
  open R use {F, zero_f, add_f, min_f}

  abbrev pub apply_junctions : List (Junction F) → List (Move F) → List (Move F)
  apply_junctions [] ms = []
  apply_junctions (p ∷ ps) [] = []
  apply_junctions (p ∷ ps) (m ∷ ms) =
      set_junction R p.start_v2 p.cruise_v2 p.end_v2 m ∷ apply_junctions ps ms

  -- The speed at the end of a move, before the moves `ms`: what the next one may start with, and
  -- nothing where no move follows.
  abbrev pub EndsBelow : F → List (Move F) → Type 0
  EndsBelow v2 [] = LeF R v2 zero_f
  EndsBelow v2 (m ∷ ms) = LeF R v2 m.max_start_v2

  pub record Safe (p : Junction F) (m : Move F) (after : List (Move F)) : Type 0 where
    pub start-le-cruise : LeF R p.start_v2 p.cruise_v2
    pub end-le-cruise : LeF R p.end_v2 p.cruise_v2
    pub start-le-limit : LeF R p.start_v2 m.max_start_v2
    pub can_brake : LeF R p.start_v2 (add_f p.end_v2 m.delta_v2)
    pub ends_below : EndsBelow p.end_v2 after

  -- For the first moves of a queue.
  abbrev pub AllSafe : List (Junction F) → List (Move F) → Type 0
  AllSafe [] ms = Unit {0}
  AllSafe (p ∷ ps) [] = ⊥
  AllSafe (p ∷ ps) (m ∷ ms) = Safe p m ms × AllSafe ps ms

  abbrev head_start : List (JunctionNode F) → F
  head_start [] = zero_f
  head_start (n ∷ ns) = n.start_v2

  -- What the first loop finds out about a move.
  record Found (n : JunctionNode F) (m : Move F) (after : List (Move F)) : Type 0 where
    is_move : n.move ≡ m
    within : LeF R n.start_v2 m.max_start_v2
    brakes : LeF R n.start_v2 (add_f n.next_start_v2 m.delta_v2)
    follows : EndsBelow n.next_start_v2 after

  abbrev AllFound : List (JunctionNode F) → List (Move F) → Type 0
  AllFound [] [] = Unit {0}
  AllFound (n ∷ ns) [] = ⊥
  AllFound [] (m ∷ ms) = ⊥
  AllFound (n ∷ ns) (m ∷ ms) = Found n m ms × AllFound ns ms

  step_next :
      (i : ℕ) (m : Move F) (b : Backward F)
      → (backward_step R i m b).0.next_start_v2 ≡ (backward_step R i m b).1.start_v2
  unfolding backward_step
  step_next i m b = refl

  -- The count of moves that wait for a cruising speed, and the number to flush, stay in range.
  step_counts :
      (i k total : ℕ) (m : Move F) (b : Backward F)
      → i + suc k ≤ total
      → b.pending_cruise_assign ≤ k
      → b.flush_count ≤ total
      → ((backward_step R i m b).0.pending_cruise_assign ≤ suc k)
        × ((backward_step R i m b).0.flush_count ≤ total)
  unfolding backward_step new_peak
  step_counts i k total m b h p q = ground arith

  module _ (laws : IsOrdered R) where
    step-Found :
        (i : ℕ) (m : Move F) (after : List (Move F)) (b : Backward F)
        → EndsBelow b.next_start_v2 after
        → Found (backward_step R i m b).1 m after
    unfolding backward_step
    step-Found i m after b h = record {
      is_move = refl;
      within = laws.min-le_left m.max_start_v2 (add_f b.next_start_v2 m.delta_v2);
      brakes = laws.min-le_right m.max_start_v2 (add_f b.next_start_v2 m.delta_v2);
      follows = h;
    }

    record Loop (total i : ℕ) (ms : List (Move F)) (r : Backward F × List (JunctionNode F))
        : Type 0 where
      found : AllFound r.1 ms
      pending : r.0.pending_cruise_assign ≤ length ms
      count : r.0.flush_count ≤ total
      next : EndsBelow r.0.next_start_v2 ms

    backward-Loop :
        (lazy : Bool) (total i : ℕ) (ms : List (Move F))
        → i + length ms ≤ total
        → Loop total i ms (backward R lazy total i ms)
    unfolding backward
    backward-Loop lazy total i [] h = record {
      found = tt;
      pending = omega arith;
      count = omega arith;
      next = laws.le_refl zero_f;
    }
    backward-Loop lazy total i (m ∷ ms) h =
        let ih = backward-Loop lazy total (suc i) ms (omega arith) in
        let (b, nodes) = backward R lazy total (suc i) ms in
        let counts = step_counts i (length ms) total m b h ih.pending ih.count in
        let here = step-Found i m ms b ih.next in
        record {
          found = (here, ih.found);
          pending = counts.0;
          count = counts.1;
          next = laws.min-le_left m.max_start_v2 (add_f b.next_start_v2 m.delta_v2);
        }

    EndsBelow-trans : (v w : F) (ms : List (Move F)) → LeF R v w → EndsBelow w ms → EndsBelow v ms
    EndsBelow-trans v w [] p q = laws.le_trans v w zero_f p q
    EndsBelow-trans v w (m ∷ ms) p q = laws.le_trans v w m.max_start_v2 p q

    plan : F → JunctionNode F → Junction F
    plan c n = record {
      start_v2 = min_f n.start_v2 c;
      cruise_v2 = c;
      end_v2 = min_f n.next_start_v2 c;
    }

    plan-Safe :
        (c : F) (n : JunctionNode F) (m : Move F) (after : List (Move F))
        → LeF R zero_f m.delta_v2
        → Found n m after
        → Safe (plan c n) m after
    unfolding plan
    plan-Safe c n m after positive f =
        let start = min_f n.start_v2 c in
        let under_c = laws.min-le_right n.start_v2 c in
        let under_s = laws.min-le_left n.start_v2 c in
        record {
          start-le-cruise = under_c;
          end-le-cruise = laws.min-le_right n.next_start_v2 c;
          start-le-limit = laws.le_trans start n.start_v2 m.max_start_v2 under_s f.within;
          can_brake = elim (laws.min_cases n.next_start_v2 c) [
            | inl at_next ↦
                rw at_next (
                  laws.le_trans start n.start_v2 (add_f n.next_start_v2 m.delta_v2) under_s
                    f.brakes)
            | inr at_cruise ↦ rw at_cruise (
                laws.le_trans start c (add_f c m.delta_v2) under_c
                  (laws.le-add c m.delta_v2 positive))
          ];
          ends_below =
              EndsBelow-trans (min_f n.next_start_v2 c) n.next_start_v2 after
                (laws.min-le_left n.next_start_v2 c) f.follows;
        }

    plans : F → List (JunctionNode F) → List (Junction F)
    plans prev [] = []
    plans prev (n ∷ ns) = plan (cruise_of R prev n) n ∷ plans (cruise_of R prev n) ns

    plans-AllSafe :
        (prev : F) (k : ℕ) (ns : List (JunctionNode F)) (ms : List (Move F))
        → All (λ m. LeF R zero_f m.delta_v2) ms
        → AllFound ns ms
        → AllSafe (plans prev (take k ns)) ms
    unfolding plans
    plans-AllSafe prev zero ns ms positive f = tt
    plans-AllSafe prev (suc k) [] ms positive f = tt
    plans-AllSafe prev (suc k) (n ∷ ns) [] positive f = absurd f
    plans-AllSafe prev (suc k) (n ∷ ns) (m ∷ ms) positive f = (
      plan-Safe (cruise_of R prev n) n m ms positive.0 f.0,
      plans-AllSafe (cruise_of R prev n) k ns ms positive.1 f.1,
    )

    forward-plans :
        (prev : F) (k : ℕ) (ns : List (JunctionNode F)) (ms : List (Move F))
        → AllFound ns ms
        → forward R prev (take k ns) ≡ apply_junctions (plans prev (take k ns)) ms
    unfolding forward plans plan
    forward-plans prev zero ns ms f = refl
    forward-plans prev (suc k) [] ms f = refl
    forward-plans prev (suc k) (n ∷ ns) [] f = absurd f
    forward-plans prev (suc k) (n ∷ ns) (m ∷ ms) f =
        let c = cruise_of R prev n in
        ap
          (λ (m' : Move F).
            set_junction R (min_f n.start_v2 c) c (min_f n.next_start_v2 c) m'
            ∷ forward R c (take k ns))
          f.0.is_move
        ∙ ap (λ rest. set_junction R (min_f n.start_v2 c) c (min_f n.next_start_v2 c) m ∷ rest)
            (forward-plans c k ns ms f.1)

    length-plans :
        (prev : F) (k : ℕ) (ns : List (JunctionNode F)) (ms : List (Move F))
        → AllFound ns ms
        → k ≤ length ms
        → length (plans prev (take k ns)) ≡ k
    unfolding plans
    length-plans prev zero ns ms f h = refl
    length-plans prev (suc k) [] [] f h = absurd (omega arith)
    length-plans prev (suc k) [] (m ∷ ms) f h = absurd f
    length-plans prev (suc k) (n ∷ ns) [] f h = absurd f
    length-plans prev (suc k) (n ∷ ns) (m ∷ ms) f h =
        omega (arith, length-plans (cruise_of R prev n) k ns ms f.1 (omega arith))

    -- A flush, lazy or not, never slices out of range. The moves that leave are the first ones of
    -- the queue, in order, each with its junction set, and the others stay. Each of them, where no
    -- move's `Delta_v2` is negative: neither starts nor ends above its cruising speed, starts within
    -- its limit, can brake from its start to its end, and ends no faster than the next move of the
    -- queue may start, at rest where it is the last.
    pub flush_safe :
        (lazy : Bool) (self : LookAheadQueue F)
        → All (λ m. LeF R zero_f m.delta_v2) self.queue
        → (last : LookAheadQueue F) × (out : List (Move F)) × (ps : List (Junction F)) × (flush R
              lazy self
            ≡ some (last, out))
          × (out ≡ apply_junctions ps self.queue)
          × (length ps ≤ length self.queue)
          × (last.queue ≡ drop (length ps) self.queue)
          × AllSafe ps self.queue
    unfolding flush flush_with
    flush_safe lazy self positive =
        let loop = backward-Loop lazy (length self.queue) 0 self.queue (omega arith) in
        let (b, nodes) = backward R lazy (length self.queue) 0 self.queue in
        let k = b.flush_count in
        let count = loop.count in
        elim (Bool-cases (b.update_flush_count || b.flush_count == 0)) [
          | inl stays ↦ (
            record self { junction_flush = lookahead_flush_time R },
            [],
            [],
            rw stays refl,
            refl,
            omega arith,
            refl,
            tt,
          )
          | inr leaves ↦
              let ps = plans zero_f (take k nodes) in
              let many = length-plans zero_f k nodes self.queue loop.found count in
              let in_range : ltb (length self.queue) b.flush_count ≡ false = ground arith in
              (
                record { queue = drop k self.queue; junction_flush = lookahead_flush_time R },
                forward R zero_f (take k nodes),
                ps,
                rw (leaves, in_range) refl,
                forward-plans zero_f k nodes self.queue loop.found,
                omega (arith, many),
                ap (λ i. drop i self.queue) (sym many),
                plans-AllSafe zero_f k nodes self.queue positive loop.found,
              )
        ]
