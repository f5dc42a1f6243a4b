-- ===== src/Print/IdleTimeout.antt =====
-- idle_timeout.go. Times are whole milliseconds; the names of events are constructors, and the argument
-- of an event its time.
pub mod Wakes
use klipper_go.Common.{
  ℕ, ◌+◌, Bool, true, false, not, ◌||◌, Option, none, some, ltb, leb, if◌then◌else◌,
}
use klipper_go.Common.Int.{ℤ, pos, negsuc, ◌+ℤ◌, ◌-ℤ◌, leb_ℤ, ltb_ℤ}

abbrev pub ready_timeout : ℤ
ready_timeout = pos 500

abbrev pub pin_min_time : ℤ
pin_min_time = pos 100

pub data Phase : Type 0 where
  idle : Phase
  printing : Phase
  ready : Phase

pub data Event : Type 0 where
  went_idle : ℤ → Event
  became_ready : ℤ → Event
  began_printing : ℤ → Event

-- `Decision`, whose time is `none` where it is NEVER or not set.
pub record Decision : Type 0 where
  pub next_wake : Option ℤ
  pub event : Option Event
  pub enter_idle : Bool

pub record IdleTimeout : Type 0 where
  pub idle_timeout : ℤ
  pub state : Phase
  pub last_print_start_systime : ℤ

unfoldable pub new_idle_timeout : ℤ → IdleTimeout
new_idle_timeout timeout = record {
  idle_timeout = timeout;
  state = idle;
  last_print_start_systime = pos 0;
}

abbrev pub wake_at : ℤ → Decision
wake_at time = record { next_wake = some time; event = none; enter_idle = false }

-- What the code knows of the printer at a check.
pub record Printer : Type 0 where
  pub eventtime : ℤ
  pub print_time : ℤ
  pub est_print_time : ℤ
  pub lookahead_empty : Bool
  pub gcode_busy : Bool

unfoldable pub begin_idle_transition : IdleTimeout → IdleTimeout
begin_idle_transition self = record self { state = printing }

unfoldable pub fail_idle_transition : IdleTimeout → IdleTimeout
fail_idle_transition self = record self { state = ready }

unfoldable pub complete_idle_transition : ℤ → IdleTimeout → IdleTimeout × Decision
complete_idle_transition print_time self = (
  record self { state = idle },
  record { next_wake = none; event = some (went_idle print_time); enter_idle = false },
)

-- `CheckIdleTimeout`
unfoldable pub check_idle_timeout : Printer → IdleTimeout → Decision
check_idle_timeout p self =
    let idle_time = p.est_print_time -ℤ p.print_time in
    if not p.lookahead_empty || ltb_ℤ idle_time (pos 1_000)
    then wake_at (p.eventtime +ℤ self.idle_timeout)
    else if ltb_ℤ idle_time self.idle_timeout
    then wake_at ((p.eventtime +ℤ self.idle_timeout) -ℤ idle_time)
    else if p.gcode_busy
    then wake_at (p.eventtime +ℤ pos 1_000)
    else record { next_wake = none; event = none; enter_idle = true }

abbrev pub min_ℤ : ℤ → ℤ → ℤ
min_ℤ a b = if leb_ℤ a b then a else b

abbrev pub max_ℤ : ℤ → ℤ → ℤ
max_ℤ a b = if leb_ℤ a b then b else a

unfoldable pub busy_handler : Printer → IdleTimeout → IdleTimeout × Decision
busy_handler p self =
    let buffer_time = min_ℤ (pos 2_000) (p.print_time -ℤ p.est_print_time) in
    if not p.lookahead_empty
    then (self, wake_at ((p.eventtime +ℤ ready_timeout) +ℤ max_ℤ (pos 0) buffer_time))
    else if ltb_ℤ (negsuc 499) buffer_time
    then (self, wake_at ((p.eventtime +ℤ ready_timeout) +ℤ buffer_time))
    else if p.gcode_busy
    then (self, wake_at (p.eventtime +ℤ ready_timeout))
    else (
      record self { state = ready },
      record {
        next_wake = some (p.eventtime +ℤ self.idle_timeout);
        event = some (became_ready (p.est_print_time +ℤ pin_min_time));
        enter_idle = false;
      },
    )

unfoldable pub handler_in : Phase → Printer → IdleTimeout → IdleTimeout × Decision
unfolding check_idle_timeout busy_handler
handler_in ready p self = (self, check_idle_timeout p self)
handler_in idle p self = busy_handler p self
handler_in printing p self = busy_handler p self

-- `TimeoutHandler`
unfoldable pub timeout_handler : Printer → IdleTimeout → IdleTimeout × Decision
unfolding handler_in
timeout_handler p self = handler_in self.state p self

unfoldable pub sync_in : Phase → ℤ → ℤ → ℤ → IdleTimeout → IdleTimeout × Option Decision
sync_in printing curtime est_print_time print_time self = (self, none)
sync_in other curtime est_print_time print_time self = (
  record self { state = printing; last_print_start_systime = curtime },
  some (record {
    next_wake = some (curtime +ℤ ((ready_timeout +ℤ print_time) -ℤ est_print_time));
    event = some (began_printing (est_print_time +ℤ pin_min_time));
    enter_idle = false;
  }),
)

-- `SyncPrintTime`
unfoldable pub sync_print_time : ℤ → ℤ → ℤ → IdleTimeout → IdleTimeout × Option Decision
unfolding sync_in
sync_print_time curtime est_print_time print_time self =
    sync_in self.state curtime est_print_time print_time self
