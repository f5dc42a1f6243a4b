-- ===== src/Mcu/Connect/Query.antt =====
-- `QueryConfigSnapshot`: the query of the configuration, with the attempt to clear a shutdown.
use klipper_go.Common.{
  ◌≡◌, refl, inl, inr, Bool, true, false, not, Option, none, some, arith, if◌then◌else◌, Bool-cases,
}
use klipper_go.Mcu.Connect.{
  Message, error_during_config, config_while_shut_down, stuck_in_shutdown, Snapshot, ConfigParams,
  parse_config_snapshot, default_fileoutput_snapshot,
}

pub record QueryDecision : Type 0 where
  pub needs_clear_shutdown : Bool
  pub error_message : Option Message

unfoldable pub evaluate_config_query : Option Snapshot → Bool → Bool → QueryDecision
evaluate_config_query none is_shutdown has_clear = record {
  needs_clear_shutdown = false;
  error_message = none;
}
evaluate_config_query (some s) is_shutdown has_clear =
    if is_shutdown
    then record { needs_clear_shutdown = false; error_message = some error_during_config }
    else if not s.is_shutdown
    then record { needs_clear_shutdown = false; error_message = none }
    else if not has_clear
    then record { needs_clear_shutdown = false; error_message = some config_while_shut_down }
    else record { needs_clear_shutdown = true; error_message = none }

unfoldable pub evaluate_cleared_shutdown_snapshot : Option Snapshot → Option Message
evaluate_cleared_shutdown_snapshot none = none
evaluate_cleared_shutdown_snapshot (some s) = if s.is_shutdown then some stuck_in_shutdown else none

pub record QueryHooks (W : Type 0) : Type 0 where
  pub is_fileoutput : Bool
  pub query_config : Option (W → W × Option ConfigParams)
  pub is_shutdown : Bool
  pub has_clear_shutdown : Bool
  pub send_clear_shutdown : W → W
  pub clear_local_shutdown : W → W
  pub sleep_100ms : W → W

pub record QueryResult : Type 0 where
  pub snapshot : Option Snapshot
  pub error_message : Option Message

unfoldable pub after_clear :
    {W : Type 0} → QueryHooks W → Option Message → Option Snapshot → W → W × QueryResult
after_clear hooks (some m) snapshot w = (w, record { snapshot = snapshot; error_message = some m })
after_clear hooks none snapshot w =
    (hooks.clear_local_shutdown w, record { snapshot = snapshot; error_message = none })

-- The command that clears the shutdown, the pause, and the second query.
unfoldable pub clear_and_requery :
    {W : Type 0} → QueryHooks W → (W → W × Option ConfigParams) → W → W × QueryResult
unfolding after_clear parse_config_snapshot evaluate_cleared_shutdown_snapshot
clear_and_requery hooks query w =
    let (w', params) = query (hooks.sleep_100ms (hooks.send_clear_shutdown w)) in
    after_clear hooks (evaluate_cleared_shutdown_snapshot (parse_config_snapshot params))
      (parse_config_snapshot params) w'

unfoldable pub act_on_query :
    {W : Type 0}
    → QueryHooks W
    → (W → W × Option ConfigParams)
    → Option Message
    → Bool
    → Option Snapshot
    → W
    → W × QueryResult
unfolding clear_and_requery
act_on_query hooks query (some m) clear snapshot w =
    (w, record { snapshot = snapshot; error_message = some m })
act_on_query hooks query none false snapshot w =
    (w, record { snapshot = snapshot; error_message = none })
act_on_query hooks query none true snapshot w = clear_and_requery hooks query w

unfoldable pub query_once :
    {W : Type 0} → QueryHooks W → (W → W × Option ConfigParams) → W → W × QueryResult
unfolding act_on_query evaluate_config_query parse_config_snapshot
query_once hooks query w =
    let (w', params) = query w in
    let snapshot = parse_config_snapshot params in
    let decision = evaluate_config_query snapshot hooks.is_shutdown hooks.has_clear_shutdown in
    act_on_query hooks query decision.error_message decision.needs_clear_shutdown snapshot w'

unfoldable pub query_with :
    {W : Type 0} → QueryHooks W → Bool → Option (W → W × Option ConfigParams) → W → W × QueryResult
unfolding query_once default_fileoutput_snapshot
query_with hooks true query w =
    (w, record { snapshot = some default_fileoutput_snapshot; error_message = none })
query_with hooks false none w = (w, record { snapshot = none; error_message = none })
query_with hooks false (some query) w = query_once hooks query w

unfoldable pub query_config_snapshot : {W : Type 0} → QueryHooks W → W → W × QueryResult
unfolding query_with
query_config_snapshot hooks w = query_with hooks hooks.is_fileoutput hooks.query_config w

abbrev IsLive : QueryResult → Type 0
IsLive r = (r.error_message ≡ none) → (s : Snapshot) → (r.snapshot ≡ some s) → s.is_shutdown ≡ false

after_clear-IsLive :
    {W : Type 0} (hooks : QueryHooks W) (s : Option Snapshot) (w : W)
    → IsLive (after_clear hooks (evaluate_cleared_shutdown_snapshot s) s w).1
unfolding after_clear evaluate_cleared_shutdown_snapshot
after_clear-IsLive hooks none w ok s same = ground arith
after_clear-IsLive hooks (some s) w ok t same = elim (Bool-cases s.is_shutdown) [
  | inl live ↦ ground arith
  | inr stuck ↦ ground arith
]

act-IsLive :
    {W : Type 0} (hooks : QueryHooks W) (query : W → W × Option ConfigParams)
    (error : Option Message) (clear : Bool) (s : Option Snapshot) (w : W)
    → (error ≡ none → clear ≡ false → (t : Snapshot) → s ≡ some t → t.is_shutdown ≡ false)
    → IsLive (act_on_query hooks query error clear s w).1
unfolding act_on_query clear_and_requery
act-IsLive hooks query (some m) clear s w sane ok = let e = ok in absurd (ground arith)
act-IsLive hooks query none false s w sane ok = sane ok refl
act-IsLive hooks query none true s w sane ok =
    let (w', params) = query (hooks.sleep_100ms (hooks.send_clear_shutdown w)) in
    after_clear-IsLive hooks (parse_config_snapshot params) w' ok

decided :
    (s : Option Snapshot) (local clearable : Bool) (t : Snapshot)
    → (evaluate_config_query s local clearable).error_message ≡ none
    → (evaluate_config_query s local clearable).needs_clear_shutdown ≡ false
    → s ≡ some t
    → t.is_shutdown ≡ false
unfolding evaluate_config_query
decided none local clearable t ok clear same = ground arith
decided (some s) local clearable t ok clear same = ground arith

query_once-IsLive :
    {W : Type 0} (hooks : QueryHooks W) (query : W → W × Option ConfigParams) (w : W)
    → IsLive (query_once hooks query w).1
unfolding query_once
query_once-IsLive hooks query w =
    let (w', params) = query w in
    let s = parse_config_snapshot params in
    let d = evaluate_config_query s hooks.is_shutdown hooks.has_clear_shutdown in
    act-IsLive hooks query d.error_message d.needs_clear_shutdown s w'
      (λ ok clear t. decided s hooks.is_shutdown hooks.has_clear_shutdown t ok clear)

query_with-IsLive :
    {W : Type 0} (hooks : QueryHooks W) (file : Bool) (query : Option (W → W × Option ConfigParams))
    (w : W)
    → IsLive (query_with hooks file query w).1
unfolding query_with default_fileoutput_snapshot
query_with-IsLive hooks true query w ok s same = ground arith
query_with-IsLive hooks false none w ok s same = ground arith
query_with-IsLive hooks false (some query) w ok s same = query_once-IsLive hooks query w ok s same

-- Whatever the micro-controller answers, a query that ends without an error message never returns
-- the snapshot of a controller in shutdown: not directly, and not after the attempt to clear it.
pub query_never_shutdown :
    {W : Type 0} (hooks : QueryHooks W) (w : W) (s : Snapshot)
    → (query_config_snapshot hooks w).1.error_message ≡ none
    → (query_config_snapshot hooks w).1.snapshot ≡ some s
    → s.is_shutdown ≡ false
unfolding query_config_snapshot
query_never_shutdown hooks w s ok same =
    query_with-IsLive hooks hooks.is_fileoutput hooks.query_config w ok s same
