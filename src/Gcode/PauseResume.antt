-- ===== src/Gcode/PauseResume.antt =====
-- `PauseResume` of pause_resume.go. The virtual SD card, its activity and the speed of a move are
-- outside: a call carries whether a card is set and active, and a script is an effect.
pub mod Balance
use klipper_go.Common.{
  ℕ, Bool, true, false, not, ◌&&◌, ◌||◌, Option, none, some, List, [], ◌∷◌, ◌++◌, if◌then◌else◌,
}

pub data Effect : Type 0 where
  sd_do_pause sd_do_resume sd_do_cancel : Effect
  respond_paused respond_resumed : Effect
  save_gcode_state : Effect
  restore_gcode_state : ℕ → Effect

pub record PauseResume : Type 0 where
  pub has_virtual_sd : Bool
  pub is_paused : Bool
  pub sd_paused : Bool
  pub pause_command_sent : Bool

pub data PauseError : Type 0 where
  already_paused not_paused : PauseError

unfoldable pub new_pause_resume : PauseResume
new_pause_resume = record {
  has_virtual_sd = false;
  is_paused = false;
  sd_paused = false;
  pause_command_sent = false;
}

-- `SetVirtualSD` with a card.
unfoldable pub set_virtual_sd : PauseResume → PauseResume
set_virtual_sd self = record self { has_virtual_sd = true }

-- `Is_sd_active`; `active` is what the card says.
unfoldable pub is_sd_active : Bool → PauseResume → Bool
is_sd_active active self = self.has_virtual_sd && active

unfoldable pub send_pause_command : Bool → PauseResume → PauseResume × List Effect
unfolding is_sd_active
send_pause_command active self =
    if not self.pause_command_sent
    then (if is_sd_active active self
        then (record self { sd_paused = true; pause_command_sent = true }, sd_do_pause ∷ [])
        else (record self { sd_paused = false; pause_command_sent = true }, respond_paused ∷ []))
    else (self, [])

unfoldable pub pause : Bool → PauseResume → PauseResume × List Effect × Option PauseError
unfolding send_pause_command
pause active self =
    let (sent, out) = send_pause_command active self in
    if self.is_paused
    then (self, [], some already_paused)
    else (record sent { is_paused = true }, out ++ (save_gcode_state ∷ []), none)

unfoldable pub send_resume_command : PauseResume → PauseResume × List Effect
send_resume_command self =
    if self.sd_paused
    then (record self { sd_paused = false; pause_command_sent = false }, sd_do_resume ∷ [])
    else (record self { pause_command_sent = false }, respond_resumed ∷ [])

unfoldable pub resume : ℕ → PauseResume → PauseResume × List Effect × Option PauseError
unfolding send_resume_command
resume velocity self =
    let (sent, out) = send_resume_command self in
    if not self.is_paused
    then (self, [], some not_paused)
    else (record sent { is_paused = false }, restore_gcode_state velocity ∷ out, none)

unfoldable pub clear_pause : PauseResume → PauseResume
clear_pause self = record self { is_paused = false; pause_command_sent = false; sd_paused = false }

-- `CancelPrint`, with its answer.
unfoldable pub cancel_print : Bool → PauseResume → PauseResume × List Effect × Bool
unfolding is_sd_active clear_pause
cancel_print active self =
    if is_sd_active active self || self.sd_paused
    then (clear_pause self, (if self.has_virtual_sd then sd_do_cancel ∷ [] else []), false)
    else (clear_pause self, [], true)

pub data Call : Type 0 where
  set_card : Call
  send_pause on_pause on_cancel : Bool → Call
  send_resume : Call
  on_resume : ℕ → Call
  on_clear : Call

unfoldable pub call : Call → PauseResume → PauseResume × List Effect
unfolding set_virtual_sd send_pause_command pause cancel_print send_resume_command resume
    clear_pause
call set_card self = (set_virtual_sd self, [])
call (send_pause active) self = send_pause_command active self
call (on_pause active) self = let (self', out, _) = pause active self in (self', out)
call (on_cancel active) self = let (self', out, _) = cancel_print active self in (self', out)
call send_resume self = send_resume_command self
call (on_resume velocity) self = let (self', out, _) = resume velocity self in (self', out)
call on_clear self = (clear_pause self, [])

unfoldable pub calls : List Call → PauseResume → PauseResume × List Effect
unfolding call
calls [] self = (self, [])
calls (c ∷ cs) self =
    let (self', first) = call c self in let (last, rest) = calls cs self' in (last, first ++ rest)
