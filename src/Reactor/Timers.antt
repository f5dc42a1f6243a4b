-- ===== src/Reactor/Timers.antt =====
-- The timers of `EPollReactor`, the reactor that the program runs, with what `_check_timers` of
-- `SelectReactor` and `Unregister_timer` of `PollReactor` do otherwise. A timer is known by a
-- number; `waketime` is the field of every timer that was ever made.
pub mod Covered
use klipper_go.Common.{
  ℕ, zero, suc, ◌+◌, ◌-◌, min, max, Bool, true, false, ◌||◌, Option, none, some, List, [], ◌∷◌,
  ◌++◌, ◌==◌, ltb, leb, if◌then◌else◌, drop,
}

abbrev pub now : ℕ
now = 0

abbrev pub never : ℕ
never = 9_999_999_999_999_999_000_000

pub record Reactor : Type 0 where
  pub timers : List ℕ
  pub waketime : ℕ → ℕ
  pub next_timer : ℕ
  pub created : ℕ

unfoldable pub new_reactor : Reactor
new_reactor = record { timers = []; waketime = λ t. never; next_timer = never; created = 0 }

abbrev pub update : (ℕ → ℕ) → ℕ → ℕ → ℕ → ℕ
update f t w u = if t == u then w else f u

-- `Register_timer`; the new timer has the number `created`.
unfoldable pub register_timer : ℕ → Reactor → Reactor
register_timer w self = record {
  timers = self.timers ++ (self.created ∷ []);
  waketime = update self.waketime self.created w;
  next_timer = min self.next_timer w;
  created = self.created + 1;
}

unfoldable pub without : ℕ → List ℕ → List ℕ
without t [] = []
without t (u ∷ us) = if u == t then without t us else u ∷ without t us

-- `Unregister_timer`
unfoldable pub unregister_timer : ℕ → Reactor → Reactor
unfolding without
unregister_timer t self = record self {
  waketime = update self.waketime t never;
  timers = without t self.timers;
}

-- `Update_timer`
unfoldable pub update_timer : ℕ → ℕ → Reactor → Reactor
update_timer t w self = record self {
  waketime = update self.waketime t w;
  next_timer = min self.next_timer w;
}

pub data Op : Type 0 where
  registers : ℕ → Op
  unregisters : ℕ → Op
  updates : ℕ → ℕ → Op

unfoldable pub apply : Op → Reactor → Reactor
unfolding register_timer unregister_timer update_timer
apply (registers w) self = register_timer w self
apply (unregisters t) self = unregister_timer t self
apply (updates t w) self = update_timer t w self

unfoldable pub apply_all : List Op → Reactor → Reactor
unfolding apply
apply_all [] self = self
apply_all (o ∷ os) self = apply_all os (apply o self)

-- What a callback does to timers, when it wants to be called again, and whether another greenlet
-- dispatches when it returns.
pub record CallbackResult : Type 0 where
  pub ops : List Op
  pub waketime : ℕ
  pub switched : Bool

abbrev pub Callbacks : Type 0
Callbacks = ℕ → ℕ → Reactor → CallbackResult

-- The timer `t`, whose time has come: `t.waketime = NEVER`, the callback, and the new time.
unfoldable pub fire : Callbacks → ℕ → ℕ → Reactor → Reactor × Bool
unfolding apply_all
fire callback eventtime t self =
    let cleared : Reactor = record self { waketime = update self.waketime t never } in
    let outcome = callback t eventtime cleared in
    let done = apply_all outcome.ops cleared in
    (
      record done {
        waketime = update done.waketime t outcome.waketime;
        next_timer = min done.next_timer outcome.waketime;
      },
      outcome.switched,
    )

-- What the loop of `_check_timers` leaves: the state, whether it was left for another greenlet, and
-- the timers that fired.
pub record Looked : Type 0 where
  pub reactor : Reactor
  pub switched : Bool
  pub fired : List ℕ

-- One round for the timer `t`, with what the round did when it fired, and the loop after the round.
unfoldable pub round : Bool → ℕ → Reactor × Bool → Reactor → (Reactor → Looked) → Looked
round false t (fired, switched) self rest =
    rest (record self { next_timer = min self.next_timer (self.waketime t) })
round true t (fired, true) self rest = record { reactor = fired; switched = true; fired = t ∷ [] }
round true t (fired, false) self rest = record (rest fired) { fired = t ∷ (rest fired).fired }

-- The loop over the timers of its beginning.
unfoldable pub timer_loop : Callbacks → ℕ → List ℕ → Reactor → Looked
unfolding fire round
timer_loop callback eventtime [] self = record { reactor = self; switched = false; fired = [] }
timer_loop callback eventtime (t ∷ ts) self =
    round (leb (self.waketime t) eventtime) t (fire callback eventtime t self) self
      (timer_loop callback eventtime ts)

-- The time to wait, in microseconds, when no timer is due.
unfoldable pub idle_timeout : ℕ → Bool → Reactor → ℕ
idle_timeout eventtime busy self =
    if busy then 0 else min 1_000_000 (max 1_000 (self.next_timer - eventtime))

pub record Checked : Type 0 where
  pub reactor : Reactor
  pub timeout : ℕ
  pub switched : Bool
  pub fired : List ℕ

unfoldable pub checked : Bool → ℕ → Reactor → Looked → Checked
checked true timeout self looked = record {
  reactor = self;
  timeout = timeout;
  switched = false;
  fired = [];
}
checked false timeout self looked = record {
  reactor = looked.reactor;
  timeout = 0;
  switched = looked.switched;
  fired = looked.fired;
}

-- `EPollReactor._check_timers`
unfoldable pub check_timers : Callbacks → ℕ → Bool → Reactor → Checked
unfolding timer_loop idle_timeout checked
check_timers callback eventtime busy self =
    checked (ltb eventtime self.next_timer) (idle_timeout eventtime busy self) self
      (timer_loop callback eventtime self.timers (record self { next_timer = never }))
