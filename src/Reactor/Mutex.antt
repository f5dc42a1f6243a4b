-- ===== src/Reactor/Mutex.antt =====
-- `ReactorMutex`, with greenlets as numbers. The lock `mu` makes each of its parts one step: entering,
-- what a waiting greenlet looks at when its pause ends, and leaving.
pub mod Exclusion
use klipper_go.Common.{
  ℕ, Bool, true, false, Option, none, some, List, [], ◌∷◌, ◌++◌, ◌==◌, ltb, if◌then◌else◌, length,
}
use klipper_go.Reactor.Timers.{now}

pub record ReactorMutex : Type 0 where
  pub is_locked : Bool
  pub next_pending : Bool
  pub queue : List ℕ

unfoldable pub new_mutex : ReactorMutex
new_mutex = record { is_locked = false; next_pending = false; queue = [] }

-- `__enter__` before its loop, with whether it returned.
unfoldable pub enter : ℕ → ReactorMutex → ReactorMutex × Bool
enter g self =
    if self.is_locked
    then (record self { queue = self.queue ++ (g ∷ []) }, false)
    else (record self { is_locked = true }, true)

unfoldable pub wake_with : Bool → ℕ → List ℕ → ReactorMutex → Option (ReactorMutex × Bool)
wake_with false g queue self = some (self, false)
wake_with true g [] self = none
wake_with true g (first ∷ rest) self =
    if first == g
    then some (record self { next_pending = false; queue = rest }, true)
    else some (self, false)

-- One round of the loop of `__enter__`; `self.queue[0]` of an empty queue would be a panic.
unfoldable pub wake : ℕ → ReactorMutex → Option (ReactorMutex × Bool)
unfolding wake_with
wake g self = wake_with self.next_pending g self.queue self

-- `__exit__`, with the greenlet whose timer it updates and the time.
unfoldable pub exit_with : List ℕ → ReactorMutex → ReactorMutex × Option (ℕ × ℕ)
exit_with [] self = (record self { is_locked = false }, none)
exit_with (g ∷ gs) self = (record self { next_pending = true }, some (g, now))

unfoldable pub exit : ReactorMutex → ReactorMutex × Option (ℕ × ℕ)
unfolding exit_with
exit self = exit_with self.queue self
