-- ===== src/Reactor/Tests.antt =====
-- The theorems on the event loop at concrete runs.
use klipper_go.Common.{
  ◌≤◌, ◌<◌, ◌≡◌, ◌≢◌, refl, ◌⊎◌, max, ◌+◌, true, false, none, [], ◌∷◌, ◌++◌, length,
}
use klipper_go.Reactor.Timers.{
  Reactor, registers, updates, Callbacks, new_reactor, apply, check_timers,
}
use klipper_go.Reactor.Timers.Covered.{Reached, sleeps_in_time}
use klipper_go.Reactor.Mutex.{wake, new_mutex}
use klipper_go.Reactor.Mutex.Exclusion as exclusion
use klipper_go.Reactor.Mutex.Exclusion.{Users, enters, wakes, exits, held_in_order}

-- Each callback wants to be called again after 300 microseconds; the first moves the second timer.
abbrev callback : Callbacks
callback t eventtime r = record {
  ops = updates 1 450 ∷ [];
  waketime = eventtime + 300;
  switched = false;
}

abbrev two_timers : Reactor
two_timers = apply (registers 900) (apply (registers 100) new_reactor)

abbrev fired_once : Reactor
fired_once = (check_timers callback 150 false two_timers).reactor

fired_once_Reached : Reached fired_once
unfolding new_reactor apply check_timers
fired_once_Reached =
    Reached.checks callback 150 false two_timers
      (Reached.does (registers 900) (apply (registers 100) new_reactor)
        (Reached.does (registers 100) new_reactor Reached.starts))
      refl

sleeps_in_time_example :
    ((200 < fired_once.waketime 1) ⊎ (fired_once.next_timer ≤ 200))
    × ((check_timers callback 200 false fired_once).timeout ≤ 1_000_000)
    × (200 + (check_timers callback 200 false fired_once).timeout
        ≤ max 1_200 (fired_once.waketime 1))
unfolding new_reactor apply check_timers
sleeps_in_time_example = sleeps_in_time callback 200 false fired_once 1 fired_once_Reached refl

fired_next : fired_once.next_timer ≡ 450
unfolding new_reactor apply check_timers
fired_next = refl

abbrev no_users : Users
no_users = record { mutex = new_mutex; holders = []; came = []; got = [] }

abbrev handed_over : Users
handed_over = exits 3 (enters 4 (enters 5 (enters 3 no_users)))

held_in_order_example :
    (length handed_over.holders ≤ 1)
    × (handed_over.came ≡ handed_over.got ++ handed_over.mutex.queue)
    × ((length handed_over.holders ≡ 1)
        ⊎ (handed_over.mutex.next_pending ≡ true)
        ⊎ (handed_over.mutex.queue ≡ []))
    × (wake 5 handed_over.mutex ≢ none)
unfolding new_mutex enters
held_in_order_example = held_in_order 5 handed_over (
    exclusion.Reached.left 3 (enters 4 (enters 5 (enters 3 no_users)))
      (exclusion.Reached.entered 4 (enters 5 (enters 3 no_users)) (
        exclusion.Reached.entered 5 (enters 3 no_users)
          (exclusion.Reached.entered 3 no_users exclusion.Reached.made)))
      refl)
