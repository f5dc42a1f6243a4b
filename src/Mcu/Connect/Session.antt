-- ===== src/Mcu/Connect/Session.antt =====
-- What a connection that reports no problem has made sure of.
use klipper_go.Common.{ℕ, ap, sym, ◌∙◌, ◌≡◌, refl, Bool, true, false, Option, none, some, arith}
use klipper_go.Common.Int.{ℤ, ltb_ℤ}
use klipper_go.Mcu.Connect.{
  Message, Snapshot, ConnectDecision, ConnectHooks, ConnectResult, RestartReason,
  full_reset_before_config, build_connect_decision, validate_configured, call_query, call_requested,
  finish_connect, after_send, send_with, send_step, after_reset, reset_with, act_with, run_connect,
  move_count_of,
}

-- Neither an error nor a panic, and no restart on its way.
pub record Succeeds (r : ConnectResult) : Type 0 where
  pub no_error : r.return_error ≡ none
  pub no_panic : r.panic_message ≡ none
  pub no_restart : r.restart_pending ≡ false

-- A snapshot that can be used with so many reserved moves.
pub record IsUsable (reserved : ℤ) (r : ConnectResult) : Type 0 where
  pub snap : Snapshot
  pub is_result : r.snapshot ≡ some snap
  pub configured : snap.is_config ≡ true
  pub enough_moves : ltb_ℤ r.move_count reserved ≡ false
  pub counted : r.move_count ≡ snap.move_count

validate-usable :
    (s : Option Snapshot) (reserved : ℤ)
    → validate_configured s false reserved ≡ none
    → (snap : Snapshot) × (s ≡ some snap)
      × (snap.is_config ≡ true)
      × (ltb_ℤ snap.move_count reserved ≡ false)
unfolding validate_configured
validate-usable none reserved h = ground arith
validate-usable (some s) reserved h = (s, refl, ground arith, ground arith)

-- What the last query answered.
abbrev answered :
    {W : Type 0} → ConnectHooks W → ConnectDecision → Option Snapshot → W → Option Snapshot
answered hooks d s w = (finish_connect hooks d s w).1.snapshot

checked :
    {W : Type 0} (hooks : ConnectHooks W) (d : ConnectDecision) (s : Option Snapshot) (w : W)
    → (finish_connect hooks d s w).1.panic_message
      ≡ validate_configured (answered hooks d s w) hooks.is_fileoutput hooks.reserved_move_slots
unfolding finish_connect
checked hooks d s w = refl

finish-IsUsable :
    {W : Type 0} (hooks : ConnectHooks W) (d : ConnectDecision) (s : Option Snapshot) (w : W)
    → hooks.is_fileoutput ≡ false
    → Succeeds (finish_connect hooks d s w).1
    → IsUsable hooks.reserved_move_slots (finish_connect hooks d s w).1
unfolding finish_connect
finish-IsUsable hooks d s w real h =
    let (snap, same, configured, enough) =
      validate-usable (answered hooks d s w) hooks.reserved_move_slots (
        ap (λ f. validate_configured (answered hooks d s w) f hooks.reserved_move_slots) (sym real)
        ∙ sym (checked hooks d s w)
        ∙ h.no_panic) in
    record {
      snap = snap;
      is_result = same;
      configured = configured;
      enough_moves = ap (λ now. ltb_ℤ (move_count_of now) hooks.reserved_move_slots) same ∙ enough;
      counted = ap move_count_of same;
    }

after-IsUsable :
    {W : Type 0} (hooks : ConnectHooks W) (d : ConnectDecision) (s : Option Snapshot)
    (sent : W × Option Message)
    → hooks.is_fileoutput ≡ false
    → Succeeds (after_send hooks d s sent).1
    → IsUsable hooks.reserved_move_slots (after_send hooks d s sent).1
unfolding after_send
after-IsUsable hooks d s (w, none) real h = finish-IsUsable hooks d s w real h
after-IsUsable hooks d s (w, some m) real h = let e = h.no_panic in absurd (ground arith)

send-IsUsable :
    {W : Type 0} (hooks : ConnectHooks W) (d : ConnectDecision) (s : Option Snapshot) (send : Bool)
    (sender : Option (Option ℕ → W → W × Option Message)) (w : W)
    → hooks.is_fileoutput ≡ false
    → Succeeds (send_with hooks d s send sender w).1
    → IsUsable hooks.reserved_move_slots (send_with hooks d s send sender w).1
unfolding send_with
send-IsUsable hooks d s true (some sender) w real h =
    after-IsUsable hooks d s (sender d.prev_crc w) real h
send-IsUsable hooks d s true none w real h = finish-IsUsable hooks d s w real h
send-IsUsable hooks d s false sender w real h = finish-IsUsable hooks d s w real h

after_reset-IsUsable :
    {W : Type 0} (hooks : ConnectHooks W) (d : ConnectDecision) (s : Option Snapshot)
    (answer : W × Bool)
    → hooks.is_fileoutput ≡ false
    → Succeeds (after_reset hooks d s answer).1
    → IsUsable hooks.reserved_move_slots (after_reset hooks d s answer).1
unfolding after_reset send_step
after_reset-IsUsable hooks d s (w, true) real h = let e = h.no_restart in absurd (ground arith)
after_reset-IsUsable hooks d s (w, false) real h =
    send-IsUsable hooks d s d.send_config hooks.config_sender w real h

reset-IsUsable :
    {W : Type 0} (hooks : ConnectHooks W) (d : ConnectDecision) (s : Option Snapshot) (reset : Bool)
    (restart : Option (RestartReason → W → W)) (w : W)
    → hooks.is_fileoutput ≡ false
    → Succeeds (reset_with hooks d s reset restart w).1
    → IsUsable hooks.reserved_move_slots (reset_with hooks d s reset restart w).1
unfolding reset_with send_step
reset-IsUsable hooks d s true (some restart) w real h =
    after_reset-IsUsable hooks d s
      (call_requested hooks.restart_requested (restart full_reset_before_config w)) real h
reset-IsUsable hooks d s true none w real h =
    send-IsUsable hooks d s d.send_config hooks.config_sender w real h
reset-IsUsable hooks d s false restart w real h =
    send-IsUsable hooks d s d.send_config hooks.config_sender w real h

act-IsUsable :
    {W : Type 0} (hooks : ConnectHooks W) (d : ConnectDecision) (s : Option Snapshot)
    (error panic : Option Message) (w : W)
    → hooks.is_fileoutput ≡ false
    → Succeeds (act_with hooks d s error panic w).1
    → IsUsable hooks.reserved_move_slots (act_with hooks d s error panic w).1
unfolding act_with
act-IsUsable hooks d s (some m) panic w real h = let e = h.no_error in absurd (ground arith)
act-IsUsable hooks d s none (some m) w real h = let e = h.no_panic in absurd (ground arith)
act-IsUsable hooks d s none none w real h =
    reset-IsUsable hooks d s d.needs_pre_config_reset hooks.trigger_restart w real h

-- Whatever the hooks do, a connection to a real micro-controller that ends without an error, a
-- panic or a restart on its way returns the snapshot of a configured controller, with its number of
-- moves, which is at least the number that is reserved.
pub run_connect_sound :
    {W : Type 0} (hooks : ConnectHooks W) (w : W)
    → hooks.is_fileoutput ≡ false
    → Succeeds (run_connect hooks w).1
    → IsUsable hooks.reserved_move_slots (run_connect hooks w).1
unfolding run_connect
run_connect_sound hooks w real h =
    let (w', s) = call_query hooks.query_snapshot none w in
    let d = build_connect_decision s hooks.restart_method hooks.start_reason in
    act-IsUsable hooks d s d.return_error d.panic_message w' real h
