-- ===== src/Motion/LookAhead/Order.antt =====
-- No move is lost, doubled or reordered between the queue and the processor.
use klipper_go.Common.{
  ℕ, zero, suc, ◌≤◌, ◌≡◌, refl, sym, ap, ◌∙◌, Bool, true, false, not, ◌||◌, Option, none, some,
  List, [], ◌∷◌, ◌++◌, length, drop, arith, append_assoc, append-nil, All, All-append,
}
use mathlib.Core.Path.{subst}
use klipper_go.Common.Real.{Float, IsOrdered, LeF}
use klipper_go.Motion.Move.{
  Axes, Move, set_junction, junction_v2, extruder_v2, update_junction, calc_junction,
}
use klipper_go.Motion.LookAhead.{LookAheadQueue, flush, add_move, add_after, last_move}
use klipper_go.Motion.LookAhead.Flush.{Junction, apply_junctions, flush_safe}

pub data Call (F : Type 0) : Type 0 where
  queued : Option (Move F → Move F → F) → Move F → Call F
  flushed : Bool → Call F

-- Where the moves of a list end.
abbrev pub ends : {F : Type 0} → List (Move F) → List (Axes F)
ends [] = []
ends (m ∷ ms) = m.end_pos ∷ ends ms

abbrev pub added : {F : Type 0} → List (Call F) → List (Axes F)
added [] = []
added (queued extruder m ∷ cs) = m.end_pos ∷ added cs
added (flushed lazy ∷ cs) = added cs

ends-append : {F : Type 0} (xs ys : List (Move F)) → ends (xs ++ ys) ≡ ends xs ++ ends ys
ends-append [] ys = refl
ends-append (x ∷ xs) ys = ap (λ r. x.end_pos ∷ r) (ends-append xs ys)

module _ (R : Float) where
  open R use {F, zero_f}

  unfoldable pub calls :
      List (Call F) → LookAheadQueue F → Option (LookAheadQueue F × List (Move F))
  calls [] self = some (self, [])
  calls (queued extruder m ∷ cs) self = calls cs (add_move R extruder m self).0
  calls (flushed lazy ∷ cs) self = elim (flush R lazy self) [
    | none ↦ none
    | some (self', out) ↦ elim (calls cs self') [
      | none ↦ none
      | some (last, rest) ↦ some (last, out ++ rest)
    ]
  ]

  applied_ends :
      (ps : List (Junction F)) (ms : List (Move F))
      → length ps ≤ length ms
      → ends (apply_junctions R ps ms) ++ ends (drop (length ps) ms) ≡ ends ms
  unfolding set_junction
  applied_ends [] ms h = refl
  applied_ends (p ∷ ps) [] h = absurd (omega arith)
  applied_ends (p ∷ ps) (m ∷ ms) h = ap (λ r. m.end_pos ∷ r) (applied_ends ps ms (omega arith))

  -- A move with a `Delta_v2` that is not negative.
  abbrev pub Brakes : Move F → Type 0
  Brakes m = LeF R zero_f m.delta_v2

  abbrev pub AllBrake : List (Call F) → Type 0
  AllBrake [] = Unit {0}
  AllBrake (queued extruder m ∷ cs) = Brakes m × AllBrake cs
  AllBrake (flushed lazy ∷ cs) = AllBrake cs

  -- A junction changes neither where a move ends nor how far it can brake.
  updated :
      (skip : Bool) (v : F) (prev m : Move F)
      → ((update_junction R skip v prev m).end_pos ≡ m.end_pos)
        × ((update_junction R skip v prev m).delta_v2 ≡ m.delta_v2)
  unfolding update_junction
  updated true v prev m = (refl, refl)
  updated false v prev m = (refl, refl)

  added_after :
      (prev : Option (Move F)) (extruder : Option (Move F → Move F → F)) (m : Move F)
      (self : LookAheadQueue F)
      → (m' : Move F) × ((add_after R prev extruder m self).0.queue ≡ self.queue ++ (m' ∷ []))
        × (m'.end_pos ≡ m.end_pos)
        × (m'.delta_v2 ≡ m.delta_v2)
  unfolding add_after calc_junction
  added_after none extruder m self = (m, refl, refl, refl)
  added_after (some prev) extruder m self =
      let (same_end, same_delta) =
        updated (not m.is_kinematic_move || not prev.is_kinematic_move)
          (junction_v2 R (extruder_v2 R extruder prev m) prev m) prev m in
      (calc_junction R extruder prev m, refl, same_end, same_delta)

  added_move :
      (extruder : Option (Move F → Move F → F)) (m : Move F) (self : LookAheadQueue F)
      → (m' : Move F) × ((add_move R extruder m self).0.queue ≡ self.queue ++ (m' ∷ []))
        × (m'.end_pos ≡ m.end_pos)
        × (m'.delta_v2 ≡ m.delta_v2)
  unfolding add_move
  added_move extruder m self = added_after (last_move R self.queue) extruder m self

  All-drop : (k : ℕ) (ms : List (Move F)) → All Brakes ms → All Brakes (drop k ms)
  All-drop zero ms h = h
  All-drop (suc k) [] h = tt
  All-drop (suc k) (m ∷ ms) h = All-drop k ms h.1

  flushed_first :
      (lazy : Bool) (cs : List (Call F)) (self self' last : LookAheadQueue F)
      (out rest : List (Move F))
      → flush R lazy self ≡ some (self', out)
      → calls cs self' ≡ some (last, rest)
      → calls (flushed lazy ∷ cs) self ≡ some (last, out ++ rest)
  unfolding calls
  flushed_first lazy cs self self' last out rest h k = ground (arith, h, k)

  -- Over any sequence of moves that are queued and flushes, lazy or not, no slice is out of range,
  -- and the moves that went to the processor, followed by those that still wait, are the moves that
  -- waited before and those that were queued, in that order, known by where they end. No move may
  -- have a negative `Delta_v2`.
  pub calls_in_order :
      (laws : IsOrdered R) (cs : List (Call F)) (self : LookAheadQueue F)
      → All Brakes self.queue
      → AllBrake cs
      → (last : LookAheadQueue F) × (out : List (Move F)) × (calls cs self ≡ some (last, out))
        × (ends out ++ ends last.queue ≡ ends self.queue ++ added cs)
  unfolding calls
  calls_in_order laws [] self h g = (self, [], refl, sym (append-nil (ends self.queue)))
  calls_in_order laws (queued extruder m ∷ cs) self h g =
      let self' = (add_move R extruder m self).0 in
      let (m', is_queue, same_end, same_delta) = added_move extruder m self in
      let braking : All Brakes self'.queue = subst (All Brakes) (sym is_queue) (
        All-append Brakes self.queue (m' ∷ []) h (subst (LeF R zero_f) (sym same_delta) g.0, tt)) in
      let (last, out, ran, order) = calls_in_order laws cs self' braking g.1 in
      (
        last,
        out,
        ran,
        order
            ∙ (ap (λ q. ends q ++ added cs) is_queue
                ∙ ap (λ es. es ++ added cs) (ends-append self.queue (m' ∷ []))
                ∙ append_assoc (ends self.queue) (m'.end_pos ∷ []) (added cs)
                ∙ ap (λ (e : Axes F). ends self.queue ++ (e ∷ added cs)) same_end),
      )
  calls_in_order laws (flushed lazy ∷ cs) self h g =
      let (self', out, ps, done, is_out, in_range, left, _) = flush_safe R laws lazy self h in
      let (last, rest, ran, order) =
        calls_in_order laws cs self'
          (subst (All Brakes) (sym left) (All-drop (length ps) self.queue h)) g in
      (
        last,
        out ++ rest,
        flushed_first lazy cs self self' last out rest done ran,
        ap (λ es. es ++ ends last.queue) (ends-append out rest)
            ∙ append_assoc (ends out) (ends rest) (ends last.queue)
            ∙ ap (λ es. ends out ++ es) order
            ∙ ap (λ q. ends out ++ (ends q ++ added cs)) left
            ∙ sym (append_assoc (ends out) (ends (drop (length ps) self.queue)) (added cs))
            ∙ ap (λ q. (ends q ++ ends (drop (length ps) self.queue)) ++ added cs) is_out
            ∙ ap (λ es. es ++ added cs) (applied_ends ps self.queue in_range),
      )
