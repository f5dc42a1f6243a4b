-- ===== src/Motion/LookAhead/Whole.antt =====
-- `Flush` that is not lazy: all moves of the queue are processed.
use klipper_go.Common.{
  ℕ, zero, suc, true, false, ◌||◌, ◌==◌, some, List, [], ◌∷◌, ltb, ◌≡◌, refl, ap, ◌∙◌, arith,
  length, drop, take,
}
use klipper_go.Common.Real.{Float}
use klipper_go.Motion.Move.{Move}
use klipper_go.Motion.LookAhead.{
  LookAheadQueue, Backward, JunctionNode, new_peak, backward_step, backward, forward, flush_with,
  lookahead_flush_time, flush,
}

module _ (R : Float) where
  open R use {F, zero_f}

  -- A flush that is not lazy lets the whole queue go.
  record IsWhole (total : ℕ) (ms : List (Move F)) (r : Backward F × List (JunctionNode F))
      : Type 0 where
    all : r.0.flush_count ≡ total
    not_lazy : r.0.update_flush_count ≡ false
    many : length r.1 ≡ length ms

  step-whole :
      (i total : ℕ) (m : Move F) (b : Backward F)
      → b.update_flush_count ≡ false
      → b.flush_count ≡ total
      → ((backward_step R i m b).0.flush_count ≡ total)
        × ((backward_step R i m b).0.update_flush_count ≡ false)
  unfolding backward_step new_peak
  step-whole i total m b h e = ground arith

  backward-IsWhole :
      (total i : ℕ) (ms : List (Move F)) → IsWhole total ms (backward R false total i ms)
  unfolding backward
  backward-IsWhole total i [] = record { all = refl; not_lazy = refl; many = refl }
  backward-IsWhole total i (m ∷ ms) =
      let ih = backward-IsWhole total (suc i) ms in
      let step = step-whole i total m (backward R false total (suc i) ms).0 ih.not_lazy ih.all in
      record { all = step.0; not_lazy = step.1; many = omega (arith, ih.many) }

  forward-cons :
      (v : F) (n k : ℕ) (nodes : List (JunctionNode F))
      → n ≡ suc k
      → length nodes ≡ suc k
      → (m : Move F) × (rest : List (Move F)) × (forward R v (take n nodes) ≡ m ∷ rest)
  unfolding forward
  forward-cons v zero k nodes e f = absurd (omega (arith, e))
  forward-cons v (suc n) k [] e f = absurd (omega (arith, f))
  forward-cons v (suc n) k (node ∷ nodes) e f = (_, _, refl)

  -- A flush of a queue that is not empty.
  pub flush_whole :
      (self : LookAheadQueue F) (m : Move F) (ms : List (Move F))
      → self.queue ≡ m ∷ ms
      → (after : LookAheadQueue F) × (m' : Move F) × (rest : List (Move F)) × (flush R false self
          ≡ some (after, m' ∷ rest))
  unfolding flush flush_with
  flush_whole self m ms e =
      let whole = backward-IsWhole (length self.queue) 0 self.queue in
      let (b, nodes) = backward R false (length self.queue) 0 self.queue in
      let size : length self.queue ≡ suc (length ms) = ap length e in
      let leaves : (b.update_flush_count || b.flush_count == 0) ≡ false =
        ground (arith, whole.all, whole.not_lazy, size) in
      let fits : ltb (length self.queue) b.flush_count ≡ false = ground (arith, whole.all) in
      let (m', rest, moved) =
        forward-cons zero_f b.flush_count (length ms) nodes (whole.all ∙ size)
          (whole.many ∙ size) in
      (
        record { queue = drop b.flush_count self.queue; junction_flush = lookahead_flush_time R },
        m',
        rest,
        rw (leaves, fits, moved) refl,
      )

  -- A flush of an empty queue.
  pub flush_empty :
      (self : LookAheadQueue F)
      → self.queue ≡ []
      → flush R false self ≡ some (record self { junction_flush = lookahead_flush_time R }, [])
  unfolding flush flush_with backward
  flush_empty self e =
      let whole = backward-IsWhole (length self.queue) 0 self.queue in
      let (b, nodes) = backward R false (length self.queue) 0 self.queue in
      let stays : (b.update_flush_count || b.flush_count == 0) ≡ true =
        ground (arith, whole.all, whole.not_lazy, ap length e) in
      rw stays refl
