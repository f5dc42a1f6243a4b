-- ===== src/Webhooks/Remote/Table.antt =====
-- The remote methods as a table from methods and connections to templates, and what a call does to it.
use Prim.Native.String.{String}
use text.Mathlib.Text.{◌==◌ as str_eq}
use klipper_go.Common.{
  ℕ, Bool, ◌&&◌, Option, none, some, List, [], ◌∷◌, ◌==◌, if◌then◌else◌, ◌≡◌, ◌≢◌, refl, ap, ◌∙◌,
  ◌⊎◌, inl, inr,
}
use klipper_go.Common.Assoc.{lookup}
use klipper_go.Webhooks.Remote.{
  CallError, conns_or_empty, register_remote_method, valid_conns, answer_call, call_held,
  call_remote_method,
}
use klipper_go.Webhooks.Remote.Entries.{
  template_of, entry, template_of-valid, entry-register, entry-call, both_none,
}

pub data Use (T : Type 0) : Type 0 where
  registers : String → ℕ → T → Use T
  calls : String → (ℕ → Bool) → Use T

module _ {T : Type 0} where
  unfoldable pub use_registry :
      List (Use T) → List (String × List (ℕ × T)) → List (String × List (ℕ × T))
  use_registry [] methods = methods
  use_registry (registers method conn template ∷ uses) methods =
      use_registry uses (register_remote_method method conn template methods)
  use_registry (calls method is_closed ∷ uses) methods =
      use_registry uses (call_remote_method method is_closed methods).0

  -- The same on a table: registering sets an entry, a call takes out those of closed connections.
  unfoldable pub use_table : List (Use T) → (String → ℕ → Option T) → String → ℕ → Option T
  use_table [] table = table
  use_table (registers method conn template ∷ uses) table =
      use_table uses (λ m c. if str_eq method m && (conn == c) then some template else table m c)
  use_table (calls method is_closed ∷ uses) table =
      use_table uses (λ m c. if str_eq method m && is_closed c then none else table m c)

  empty_entry : (m : String) (c : ℕ) → entry {T = T} [] m c ≡ none
  unfolding entry conns_or_empty template_of lookup
  empty_entry m c = refl

  used-entry :
      (uses : List (Use T)) (methods : List (String × List (ℕ × T))) (table : String → ℕ → Option T)
      → ((m : String) (c : ℕ) → entry methods m c ≡ table m c)
      → (m : String) (c : ℕ) → entry (use_registry uses methods) m c ≡ use_table uses table m c
  unfolding use_registry use_table
  used-entry [] methods table h m c = h m c
  used-entry (registers method conn template ∷ uses) methods table h m c =
      used-entry uses (register_remote_method method conn template methods)
        (λ m' c'. if str_eq method m' && (conn == c') then some template else table m' c')
        (λ m' c'.
          entry-register method conn template methods m' c'
          ∙ ap (λ t. if str_eq method m' && (conn == c') then some template else t) (h m' c'))
        m c
  used-entry (calls method is_closed ∷ uses) methods table h m c =
      used-entry uses (call_remote_method method is_closed methods).0
        (λ m' c'. if str_eq method m' && is_closed c' then none else table m' c')
        (λ m' c'.
          entry-call method is_closed methods m' c'
          ∙ ap (λ t. if str_eq method m' && is_closed c' then none else t) (h m' c'))
        m c

  abbrev pub IsAnswered : List (ℕ × T) → Option CallError → Type 0
  IsAnswered sent error = ((sent ≡ []) × (error ≢ none)) ⊎ ((sent ≢ []) × (error ≡ none))

  answer-IsAnswered :
      (method : String) (conns : List (ℕ × T)) (methods : List (String × List (ℕ × T)))
      → let (after, sent, error) = answer_call method conns methods in
        (sent ≡ conns) × IsAnswered sent error
  unfolding answer_call
  answer-IsAnswered method [] methods = (refl, inl (refl, λ e. cc))
  answer-IsAnswered method (conn ∷ conns) methods = (refl, inr ((λ e. cc), refl))

  held-IsAnswered :
      (held : Option (List (ℕ × T))) (method : String) (is_closed : ℕ → Bool)
      (methods : List (String × List (ℕ × T))) (c : ℕ)
      → let (after, sent, error) = call_held held method is_closed methods in
        (template_of c sent ≡ (if is_closed c then none else template_of c (conns_or_empty held)))
        × IsAnswered sent error
  unfolding call_held conns_or_empty template_of
  held-IsAnswered none method is_closed methods c = (both_none (is_closed c), inl (refl, λ e. cc))
  held-IsAnswered (some conns) method is_closed methods c =
      let (same, answered) = answer-IsAnswered method (valid_conns is_closed conns) methods in
      (ap (template_of c) same ∙ template_of-valid is_closed c conns, answered)

  -- Whatever was registered and called before, a call of a remote method sends to each open connection
  -- the template that it registered last for this method, if it was not found closed since, and to no
  -- other; and it is an error exactly when nothing is sent.
  pub sent_as_registered :
      (uses : List (Use T)) (method : String) (is_closed : ℕ → Bool) (conn : ℕ)
      → let (after, sent, error) = call_remote_method method is_closed (use_registry uses []) in
        (template_of conn sent
          ≡ (if is_closed conn then none else use_table uses (λ m c. none) method conn))
        × IsAnswered sent error
  unfolding call_remote_method entry
  sent_as_registered uses method is_closed conn =
      let methods = use_registry uses [] in
      let (sent, answered) =
        held-IsAnswered (lookup method methods) method is_closed methods conn in
      (
        sent
            ∙ ap (λ t. if is_closed conn then none else t)
                (used-entry uses [] (λ m c. none) (λ m c. empty_entry m c) method conn),
        answered,
      )
