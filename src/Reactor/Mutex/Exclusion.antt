-- ===== src/Reactor/Mutex/Exclusion.antt =====
-- One greenlet at a time holds the mutex, and they get it in the order in which they came.
use klipper_go.Common.{
  ℕ, ◌≤◌, ◌≡◌, ◌≢◌, refl, sym, ap, ◌∙◌, ◌⊎◌, inl, inr, Bool, true, false, Option, none, some, List,
  [], ◌∷◌, ◌++◌, ◌==◌, ==_iff, length, append_assoc, append-nil, Bool-cases, arith,
}
use mathlib.Core.Option.{some-injective}
use mathlib.Core.Path.{subst}
use klipper_go.Reactor.Timers.{without}
use klipper_go.Reactor.Timers.Covered.{contains}
use klipper_go.Reactor.Mutex.{ReactorMutex, new_mutex, enter, wake, wake_with, exit}

-- A mutex and its users: who holds it, and who came and who got it, in order.
pub record Users : Type 0 where
  pub mutex : ReactorMutex
  pub holders : List ℕ
  pub came : List ℕ
  pub got : List ℕ

unfoldable got_it : Bool → ℕ → Users → Users
got_it false g s = s
got_it true g s = record s { holders = g ∷ s.holders; got = s.got ++ (g ∷ []) }

unfoldable pub enters : ℕ → Users → Users
unfolding enter got_it
enters g s =
    got_it (enter g s.mutex).1 g
      (record s { mutex = (enter g s.mutex).0; came = s.came ++ (g ∷ []) })

unfoldable pub wakes : ℕ → Users → Option (Users)
unfolding wake got_it
wakes g s = elim (wake g s.mutex) [
  | none ↦ none
  | some (m, has) ↦ some (got_it has g (record s { mutex = m }))
]

unfoldable pub exits : ℕ → Users → Users
unfolding exit without
exits g s = record s { mutex = (exit s.mutex).0; holders = without g s.holders }

-- What the greenlets can do: anyone enters, anyone's pause ends, and a holder leaves.
pub data Reached : Users → Type 0 where
  made : Reached (record { mutex = new_mutex; holders = []; came = []; got = [] })
  entered : (g : ℕ) (s : Users) → Reached s → Reached (enters g s)
  woken : (g : ℕ) (s s' : Users) → Reached s → wakes g s ≡ some s' → Reached s'
  left : (g : ℕ) (s : Users) → Reached s → contains g s.holders ≡ true → Reached (exits g s)

abbrev users : Bool → Bool → List ℕ → List ℕ → List ℕ → List ℕ → Users
users locked pending queue holders came got = record {
  mutex = record { is_locked = locked; next_pending = pending; queue = queue };
  holders = holders;
  came = came;
  got = got;
}

data Phase : Users → Type 0 where
  free : (came got : List ℕ) → came ≡ got → Phase (users false false [] [] came got)
  held :
      (g : ℕ) (queue came got : List ℕ)
      → came ≡ got ++ queue
      → Phase (users true false queue (g ∷ []) came got)
  handed :
      (g : ℕ) (queue came got : List ℕ)
      → came ≡ got ++ (g ∷ queue)
      → Phase (users true true (g ∷ queue) [] came got)

append-append : (xs bs cs ds : List ℕ) → xs ≡ bs ++ cs → xs ++ ds ≡ bs ++ (cs ++ ds)
append-append xs bs cs ds e = ap (λ ys. ys ++ ds) e ∙ append_assoc bs cs ds

enters-Phase : (g : ℕ) (s : Users) → Phase s → Phase (enters g s)
unfolding enters
enters-Phase g _ (free came got e) =
    held g [] (came ++ (g ∷ [])) (got ++ (g ∷ []))
      (ap (λ xs. xs ++ (g ∷ [])) e ∙ sym (append-nil (got ++ (g ∷ []))))
enters-Phase g _ (held h queue came got e) =
    held h (queue ++ (g ∷ [])) (came ++ (g ∷ [])) got (append-append came got queue (g ∷ []) e)
enters-Phase g _ (handed h queue came got e) =
    handed h (queue ++ (g ∷ [])) (came ++ (g ∷ [])) got
      (append-append came got (h ∷ queue) (g ∷ []) e)

exits-Phase : (g : ℕ) (s : Users) → Phase s → contains g s.holders ≡ true → Phase (exits g s)
unfolding exits without exit
exits-Phase g _ (free came got e) p = ground arith
exits-Phase g _ (held h [] came got order) p =
    let e : h == g ≡ true = ground arith in rw e (free came got (order ∙ append-nil got))
exits-Phase g _ (held h (n ∷ queue) came got order) p =
    let e : h == g ≡ true = ground arith in rw e (handed n queue came got order)
exits-Phase g _ (handed h queue came got e) p = ground arith

wakes-Phase : (g : ℕ) (s : Users) → Phase s → (s' : Users) × (wakes g s ≡ some s') × Phase s'
unfolding wakes wake wake_with got_it
wakes-Phase g _ (free came got e) = (users false false [] [] came got, refl, free came got e)
wakes-Phase g _ (held h queue came got e) =
    (users true false queue (h ∷ []) came got, refl, held h queue came got e)
wakes-Phase g _ (handed h queue came got order) = elim (Bool-cases (h == g)) [
  | inl first ↦ (
    users true false queue (g ∷ []) came (got ++ (g ∷ [])),
    rw (first, wakes) refl,
    held g queue came (got ++ (g ∷ [])) (
        order
        ∙ ap (λ n. got ++ (n ∷ queue)) ((==_iff h g).0 first)
        ∙ sym (append_assoc got (g ∷ []) queue)),
  )
  | inr later ↦ (
    users true true (h ∷ queue) [] came got,
    rw (later, wakes) refl,
    handed h queue came got order,
  )
]

Reached-Phase : (s : Users) → Reached s → Phase s
unfolding new_mutex
Reached-Phase _ made = free [] [] refl
Reached-Phase _ (entered g s r) = enters-Phase g s (Reached-Phase s r)
Reached-Phase _ (left g s r h) = exits-Phase g s (Reached-Phase s r) h
Reached-Phase _ (woken g s s' r h) =
    let (next, does, phase) = wakes-Phase g s (Reached-Phase s r) in
    let same : next ≡ s' = some-injective next s' (sym does ∙ h) in subst Phase same phase

served :
    (g : ℕ) (s : Users)
    → Phase s
    → (length s.holders ≤ 1)
      × (s.came ≡ s.got ++ s.mutex.queue)
      × ((length s.holders ≡ 1) ⊎ (s.mutex.next_pending ≡ true) ⊎ (s.mutex.queue ≡ []))
      × (wake g s.mutex ≢ none)
unfolding wake wake_with
served g _ (free came got e) =
    (ground arith, e ∙ sym (append-nil got), inr (inr refl), λ p. ground arith)
served g _ (held h queue came got e) = (ground arith, e, inl refl, λ p. ground arith)
served g _ (handed h queue came got e) = (ground arith, e, inr (inl refl), λ p. ground arith)

-- However greenlets enter a new mutex, wake up and leave it, at most one holds it; those that came are
-- those that got it followed by those in the queue, in order; while the queue is not empty, someone
-- holds the mutex or the first in the queue is about to be woken; and a greenlet that wakes up never
-- makes the code panic.
pub held_in_order :
    (g : ℕ) (s : Users)
    → Reached s
    → (length s.holders ≤ 1)
      × (s.came ≡ s.got ++ s.mutex.queue)
      × ((length s.holders ≡ 1) ⊎ (s.mutex.next_pending ≡ true) ⊎ (s.mutex.queue ≡ []))
      × (wake g s.mutex ≢ none)
held_in_order g s r = served g s (Reached-Phase s r)
