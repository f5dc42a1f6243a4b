-- ===== src/Webhooks/Remote.antt =====
-- The remote methods of `EndpointRegistry`, registry.go. A connection is a number, a template and the
-- parameters of a call are of any type, and whether a connection is closed comes with the call. Go
-- walks a map in any order; here the order is that of the list.
pub mod Entries
pub mod Table
use Prim.Native.String.{String}
use text.Mathlib.Text.{◌==◌ as str_eq}
use klipper_go.Common.{
  ℕ, Bool, true, false, not, Option, none, some, List, [], ◌∷◌, ◌==◌, if◌then◌else◌,
}
use klipper_go.Common.Assoc.{lookup, insert}

pub data CallError : Type 0 where
  not_registered no_active_connections : CallError

module _ {T : Type 0} where
  -- `r.remoteMethods[method][conn] = template`
  unfoldable pub put_conn : ℕ → T → List (ℕ × T) → List (ℕ × T)
  put_conn conn template [] = (conn, template) ∷ []
  put_conn conn template ((held, old) ∷ rest) =
      if held == conn then (conn, template) ∷ rest else (held, old) ∷ put_conn conn template rest

  unfoldable pub conns_or_empty : Option (List (ℕ × T)) → List (ℕ × T)
  conns_or_empty none = []
  conns_or_empty (some conns) = conns

  -- `HandleRemoteMethodRegistration`
  unfoldable pub register_remote_method :
      String → ℕ → T → List (String × List (ℕ × T)) → List (String × List (ℕ × T))
  unfolding put_conn conns_or_empty
  register_remote_method method conn template methods =
      insert method (put_conn conn template (conns_or_empty (lookup method methods))) methods

  -- The connections that are open.
  unfoldable pub valid_conns : (ℕ → Bool) → List (ℕ × T) → List (ℕ × T)
  valid_conns is_closed [] = []
  valid_conns is_closed ((conn, template) ∷ rest) =
      let rest' = valid_conns is_closed rest in
      if is_closed conn then rest' else (conn, template) ∷ rest'

  -- `delete(r.remoteMethods, method)`
  unfoldable pub delete_method :
      String → List (String × List (ℕ × T)) → List (String × List (ℕ × T))
  delete_method method [] = []
  delete_method method ((held, conns) ∷ rest) =
      let rest' = delete_method method rest in
      if str_eq held method then rest' else (held, conns) ∷ rest'

  -- What a call sends, by connection, with the error.
  unfoldable pub answer_call :
      String
      → List (ℕ × T)
      → List (String × List (ℕ × T))
      → List (String × List (ℕ × T)) × List (ℕ × T) × Option CallError
  unfolding delete_method
  answer_call method [] methods = (delete_method method methods, [], some no_active_connections)
  answer_call method (conn ∷ conns) methods =
      (insert method (conn ∷ conns) methods, conn ∷ conns, none)

  unfoldable pub call_held :
      Option (List (ℕ × T))
      → String
      → (ℕ → Bool)
      → List (String × List (ℕ × T))
      → List (String × List (ℕ × T)) × List (ℕ × T) × Option CallError
  unfolding answer_call valid_conns
  call_held none method is_closed methods = (methods, [], some not_registered)
  call_held (some conns) method is_closed methods =
      answer_call method (valid_conns is_closed conns) methods

  -- `CallRemoteMethod`
  unfoldable pub call_remote_method :
      String
      → (ℕ → Bool)
      → List (String × List (ℕ × T))
      → List (String × List (ℕ × T)) × List (ℕ × T) × Option CallError
  unfolding call_held
  call_remote_method method is_closed methods =
      call_held (lookup method methods) method is_closed methods
