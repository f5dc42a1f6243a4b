-- ===== src/Print/Stats.antt =====
-- stats.go, over a parameter for floats. Layers are natural numbers, and the state of a print one of a
-- few constructors; the rounding of the status is left out.
pub mod Consistent
use Prim.Native.String.{String}
use klipper_go.Common.{ℕ, Bool, true, false, not, ◌&&◌, min, List, [], ◌∷◌, ◌==◌, if◌then◌else◌}
use klipper_go.Common.Real.{Float}

pub data PrintState : Type 0 where
  standby : PrintState
  printing : PrintState
  paused : PrintState
  complete : PrintState
  failed : PrintState
  cancelled : PrintState

unfoldable pub paused_from : PrintState → PrintState
paused_from failed = failed
paused_from other = paused

pub record ExtrusionStatus (F : Type 0) : Type 0 where
  pub position : F
  pub extrude_factor : F

pub record Stats (F : Type 0) : Type 0 where
  pub filament_used : F
  pub last_e_pos : F
  pub filename : String
  pub print_start_time : F
  pub last_pause_time : F
  pub prev_pause_duration : F
  pub state : PrintState
  pub error_message : String
  pub total_duration : F
  pub init_duration : F
  pub info_total_layer : ℕ
  pub info_current_layer : ℕ

-- `GetStatus`, before rounding.
pub record Status (F : Type 0) : Type 0 where
  pub total_duration : F
  pub print_duration : F
  pub filament_used : F

module _ (R : Float) where
  open R use {F, zero_f, lit, eq_f, lt_f, add_f, sub_f, div_f}

  -- `Reset`, which sets every field.
  unfoldable pub new_stats : Stats F
  new_stats = record {
    filament_used = zero_f;
    last_e_pos = zero_f;
    filename = "";
    print_start_time = zero_f;
    last_pause_time = zero_f;
    prev_pause_duration = zero_f;
    state = standby;
    error_message = "";
    total_duration = zero_f;
    init_duration = zero_f;
    info_total_layer = 0;
    info_current_layer = 0;
  }

  unfoldable pub set_current_file : String → Stats F → Stats F
  unfolding new_stats
  set_current_file name self = record new_stats { filename = name }

  unfoldable pub update_filament_usage : ExtrusionStatus F → Stats F → Stats F
  update_filament_usage status self = record self {
    filament_used =
        if eq_f status.extrude_factor zero_f
        then self.filament_used
        else add_f self.filament_used
            (div_f (sub_f status.position self.last_e_pos) status.extrude_factor);
    last_e_pos = status.position;
  }

  unfoldable pub note_start : F → ExtrusionStatus F → Stats F → Stats F
  note_start eventtime status self =
      let fresh = eq_f self.print_start_time zero_f in
      let resumes = not fresh && not (eq_f self.last_pause_time zero_f) in
      record self {
        print_start_time = if fresh then eventtime else self.print_start_time;
        prev_pause_duration =
            if resumes
            then add_f self.prev_pause_duration (sub_f eventtime self.last_pause_time)
            else self.prev_pause_duration;
        last_pause_time = if resumes then zero_f else self.last_pause_time;
        last_e_pos = status.position;
        state = printing;
        error_message = "";
      }

  unfoldable pub begin_pause : Bool → F → ExtrusionStatus F → Stats F → Stats F
  unfolding update_filament_usage
  begin_pause true eventtime status self =
      update_filament_usage status (record self { last_pause_time = eventtime })
  begin_pause false eventtime status self = self

  unfoldable pub note_pause : F → ExtrusionStatus F → Stats F → Stats F
  unfolding begin_pause paused_from
  note_pause eventtime status self =
      record (begin_pause (eq_f self.last_pause_time zero_f) eventtime status self) {
        state = paused_from self.state;
      }

  unfoldable pub end_print : Bool → PrintState → String → F → Stats F → Stats F
  end_print true state message eventtime self = self
  end_print false state message eventtime self =
      let total = sub_f eventtime self.print_start_time in
      record self {
        state = state;
        error_message = message;
        total_duration = total;
        init_duration =
            if lt_f self.filament_used (lit 1 10_000_000)
            then sub_f total self.prev_pause_duration
            else self.init_duration;
        print_start_time = zero_f;
      }

  unfoldable pub note_finish : PrintState → String → F → Stats F → Stats F
  unfolding end_print
  note_finish state message eventtime self =
      end_print (eq_f self.print_start_time zero_f) state message eventtime self

  unfoldable pub set_info : ℕ → ℕ → Stats F → Stats F
  set_info total_layer current_layer self =
      let total = if total_layer == 0 then 0 else total_layer in
      let current =
        if total_layer == 0
        then 0
        else if total_layer == self.info_total_layer
        then self.info_current_layer
        else 0 in
      record self {
        info_total_layer = total;
        info_current_layer =
            if not (total == 0) && not (current_layer == 0) && not (current_layer == current)
            then min current_layer total
            else current;
      }

  unfoldable pub refresh : Bool → F → ExtrusionStatus F → Stats F → Stats F
  unfolding update_filament_usage
  refresh true eventtime status self = self
  refresh false eventtime status self =
      let pausing = not (eq_f self.last_pause_time zero_f) in
      let time_paused =
        if pausing
        then add_f self.prev_pause_duration (sub_f eventtime self.last_pause_time)
        else self.prev_pause_duration in
      let used = (update_filament_usage status self).filament_used in
      let filament = if pausing then self.filament_used else used in
      let total = sub_f eventtime self.print_start_time in
      record self {
        filament_used = filament;
        last_e_pos = if pausing then self.last_e_pos else status.position;
        total_duration = total;
        init_duration =
            if lt_f filament (lit 1 10_000_000)
            then sub_f total time_paused
            else self.init_duration;
      }

  -- `GetStatus`, which changes the statistics too.
  unfoldable pub get_status : F → ExtrusionStatus F → Stats F → Stats F × Status F
  unfolding refresh
  get_status eventtime status self =
      let started = not (eq_f self.print_start_time zero_f) in
      let time_paused =
        if started && not (eq_f self.last_pause_time zero_f)
        then add_f self.prev_pause_duration (sub_f eventtime self.last_pause_time)
        else self.prev_pause_duration in
      let after = refresh (eq_f self.print_start_time zero_f) eventtime status self in
      (
        after,
        record {
          total_duration = after.total_duration;
          print_duration = sub_f (sub_f after.total_duration after.init_duration) time_paused;
          filament_used = after.filament_used;
        },
      )
