-- ===== src/Print/Stats/Consistent.antt =====
-- What holds of the statistics of a print whatever is noted.
use Prim.Native.String.{String}
use klipper_go.Common.{
  ℕ, ◌≤◌, ◌≡◌, refl, ap, ◌⊎◌, inl, inr, Bool, true, false, List, [], ◌∷◌, arith,
}
use klipper_go.Common.Real.{Float}
use klipper_go.Print.Stats.{
  PrintState, complete, failed, cancelled, ExtrusionStatus, Stats, new_stats, set_current_file,
  note_start, paused_from, begin_pause, note_pause, end_print, note_finish, set_info, refresh,
  get_status, update_filament_usage,
}

still_failed :
    (state : PrintState) (message : String)
    → (message ≡ "") ⊎ (state ≡ failed)
    → (message ≡ "") ⊎ (paused_from state ≡ failed)
unfolding paused_from
still_failed state message (inl none_said) = inl none_said
still_failed state message (inr e) = inr (ap paused_from e)

module _ (R : Float) where
  open R use {F, zero_f, eq_f}

  -- `complete_note`, `error_note` and `cancel_note` are NoteComplete, NoteError and NoteCancel.
  pub data Note : Type 0 where
    current_file : String → Note
    start_note : F → ExtrusionStatus F → Note
    pause_note : F → ExtrusionStatus F → Note
    complete_note : F → Note
    error_note : F → String → Note
    cancel_note : F → Note
    info_note : ℕ → ℕ → Note
    reset_note : Note
    status_note : F → ExtrusionStatus F → Note

  unfoldable pub note : Note → Stats F → Stats F
  note (current_file name) self = set_current_file R name self
  note (start_note eventtime status) self = note_start R eventtime status self
  note (pause_note eventtime status) self = note_pause R eventtime status self
  note (complete_note eventtime) self = note_finish R complete "" eventtime self
  note (error_note eventtime message) self = note_finish R failed message eventtime self
  note (cancel_note eventtime) self = note_finish R cancelled "" eventtime self
  note (info_note total current) self = set_info R total current self
  note reset_note self = new_stats R
  note (status_note eventtime status) self = (get_status R eventtime status self).0

  unfoldable pub notes : List Note → Stats F → Stats F
  notes [] self = self
  notes (n ∷ ns) self = notes ns (note n self)

  abbrev Sane : Stats F → Type 0
  Sane s =
      (s.info_current_layer ≤ s.info_total_layer) × ((s.error_message ≡ "") ⊎ (s.state ≡ failed))

  pause-Sane :
      (fresh : Bool) (eventtime : F) (status : ExtrusionStatus F) (s : Stats F)
      → Sane s
      → Sane (record (begin_pause R fresh eventtime status s) { state = paused_from s.state })
  unfolding begin_pause update_filament_usage paused_from
  pause-Sane true eventtime status s h = (h.0, still_failed s.state s.error_message h.1)
  pause-Sane false eventtime status s h = (h.0, still_failed s.state s.error_message h.1)

  finish-Sane :
      (over : Bool) (state : PrintState) (message : String) (eventtime : F) (s : Stats F)
      → (message ≡ "") ⊎ (state ≡ failed)
      → Sane s
      → Sane (end_print R over state message eventtime s)
  unfolding end_print
  finish-Sane true state message eventtime s m h = h
  finish-Sane false state message eventtime s m h = (h.0, m)

  refresh-Sane :
      (over : Bool) (eventtime : F) (status : ExtrusionStatus F) (s : Stats F)
      → Sane s
      → Sane (refresh R over eventtime status s)
  unfolding refresh
  refresh-Sane true eventtime status s h = h
  refresh-Sane false eventtime status s h = h

  note-Sane : (n : Note) (s : Stats F) → Sane s → Sane (note n s)
  unfolding note new_stats set_current_file note_start note_pause note_finish set_info get_status
  note-Sane (current_file name) s h = (ground arith, inl refl)
  note-Sane (start_note eventtime status) s h = (h.0, inl refl)
  note-Sane (pause_note eventtime status) s h =
      pause-Sane (eq_f s.last_pause_time zero_f) eventtime status s h
  note-Sane (complete_note eventtime) s h =
      finish-Sane (eq_f s.print_start_time zero_f) complete "" eventtime s (inl refl) h
  note-Sane (error_note eventtime message) s h =
      finish-Sane (eq_f s.print_start_time zero_f) failed message eventtime s (inr refl) h
  note-Sane (cancel_note eventtime) s h =
      finish-Sane (eq_f s.print_start_time zero_f) cancelled "" eventtime s (inl refl) h
  note-Sane (info_note total current) s h = (ground arith, h.1)
  note-Sane reset_note s h = (ground arith, inl refl)
  note-Sane (status_note eventtime status) s h =
      refresh-Sane (eq_f s.print_start_time zero_f) eventtime status s h

  notes-Sane : (ns : List Note) (s : Stats F) → Sane s → Sane (notes ns s)
  unfolding notes
  notes-Sane [] s h = h
  notes-Sane (n ∷ ns) s h = notes-Sane ns (note n s) (note-Sane n s h)

  -- Whatever is noted of a print, in any order, from new statistics on, the current layer is not beyond
  -- the number of layers, and an error message stands only beside the state of an error.
  pub notes_consistent :
      (ns : List Note)
      → ((notes ns (new_stats R)).info_current_layer ≤ (notes ns (new_stats R)).info_total_layer)
        × (((notes ns (new_stats R)).error_message ≡ "")
            ⊎ ((notes ns (new_stats R)).state ≡ failed))
  unfolding new_stats
  notes_consistent ns = notes-Sane ns (new_stats R) (ground arith, inl refl)
