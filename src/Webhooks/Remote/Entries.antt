-- ===== src/Webhooks/Remote/Entries.antt =====
-- The template that a connection has for a method, after registering and after a call.
use Prim.Native.String.{String}
use text.Mathlib.Text.{◌==◌ as str_eq}
use text.Mathlib.TextEquality.{eq_iff}
use klipper_go.Common.{
  ℕ, Bool, true, false, ◌&&◌, Option, none, some, List, [], ◌∷◌, ◌==◌, if◌then◌else◌, ◌≡◌, refl,
  sym, ap, ◌∙◌, inl, inr, Bool-cases, arith,
}
use klipper_go.Common.Assoc.{lookup, lookup-insert_own, lookup-insert_other, str_eq_refl}
use klipper_go.Webhooks.Remote.{
  put_conn, conns_or_empty, register_remote_method, valid_conns, delete_method, answer_call,
  call_held, call_remote_method,
}

same_conn : (a b : ℕ) → (a == b) ≡ true → a ≡ b
same_conn a b h = ground (arith, h)

other_conn : (held conn c : ℕ) → (held == conn) ≡ false → (held == c) ≡ true → (conn == c) ≡ false
other_conn held conn c h k = ground (arith, h, k)

same_string : (a b : String) → str_eq a b ≡ true → a ≡ b
same_string a b h = (eq_iff a b).0 h

module _ {T : Type 0} where
  unfoldable pub template_of : ℕ → List (ℕ × T) → Option T
  template_of conn [] = none
  template_of conn ((held, template) ∷ rest) =
      if held == conn then some template else template_of conn rest

  -- The template that a connection has for a method.
  unfoldable pub entry : List (String × List (ℕ × T)) → String → ℕ → Option T
  unfolding template_of
  entry methods method conn = template_of conn (conns_or_empty (lookup method methods))

  pub template_of-put :
      (conn c : ℕ) (template : T) (conns : List (ℕ × T))
      → template_of c (put_conn conn template conns)
        ≡ (if conn == c then some template else template_of c conns)
  unfolding template_of put_conn
  template_of-put conn c template [] = refl
  template_of-put conn c template ((held, old) ∷ rest) = elim (Bool-cases (held == conn)) [
    | inl same ↦ elim (Bool-cases (conn == c)) [
      | inl hit ↦ rw (same, template_of, hit) refl
      | inr miss ↦
          (let missed : (held == c) ≡ false = ap (λ h. h == c) (same_conn held conn same) ∙ miss in
            rw (same, template_of, miss, missed) refl)
    ]
    | inr apart ↦ elim (Bool-cases (held == c)) [
      | inl hit ↦ rw (apart, template_of, hit, other_conn held conn c apart hit) refl
      | inr miss ↦ rw (apart, template_of, miss) (template_of-put conn c template rest)
    ]
  ]

  pub template_of-valid :
      (is_closed : ℕ → Bool) (c : ℕ) (conns : List (ℕ × T))
      → template_of c (valid_conns is_closed conns)
        ≡ (if is_closed c then none else template_of c conns)
  unfolding template_of valid_conns
  template_of-valid is_closed c [] = elim (Bool-cases (is_closed c)) [
    | inl shut ↦ rw shut refl
    | inr free ↦ rw free refl
  ]
  template_of-valid is_closed c ((held, old) ∷ rest) = elim (Bool-cases (held == c)) [
    | inl hit ↦ elim (Bool-cases (is_closed c)) [
      | inl shut ↦
          (let gone : is_closed held ≡ true = ap is_closed (same_conn held c hit) ∙ shut in
            rw (gone, shut) (template_of-valid is_closed c rest ∙ rw shut refl))
      | inr free ↦
          (let stays : is_closed held ≡ false = ap is_closed (same_conn held c hit) ∙ free in
            rw (stays, free, template_of, hit) refl)
    ]
    | inr miss ↦ elim (Bool-cases (is_closed held)) [
      | inl shut ↦ rw (shut, miss) (template_of-valid is_closed c rest)
      | inr free ↦ rw (free, template_of, miss) (template_of-valid is_closed c rest)
    ]
  ]

  lookup-delete_own :
      (method : String) (methods : List (String × List (ℕ × T)))
      → lookup method (delete_method method methods) ≡ none
  unfolding lookup delete_method
  lookup-delete_own method [] = refl
  lookup-delete_own method ((held, conns) ∷ rest) = elim (Bool-cases (str_eq held method)) [
    | inl same ↦ rw same (lookup-delete_own method rest)
    | inr other ↦ rw (other, lookup, other) (lookup-delete_own method rest)
  ]

  lookup-delete_other :
      (method other : String) (methods : List (String × List (ℕ × T)))
      → str_eq method other ≡ false
      → lookup other (delete_method method methods) ≡ lookup other methods
  unfolding lookup delete_method
  lookup-delete_other method other [] h = refl
  lookup-delete_other method other ((held, conns) ∷ rest) h =
      elim (Bool-cases (str_eq held method)) [
        | inl same ↦
            (let miss : str_eq held other ≡ false =
                ap (λ k. str_eq k other) (same_string held method same) ∙ h in
              rw (same, miss) (lookup-delete_other method other rest h))
        | inr apart ↦ elim (Bool-cases (str_eq held other)) [
          | inl hit ↦ rw (apart, lookup, hit) refl
          | inr miss ↦ rw (apart, lookup, miss) (lookup-delete_other method other rest h)
        ]
      ]

  pub entry-register :
      (method : String) (conn : ℕ) (template : T) (methods : List (String × List (ℕ × T)))
      (m : String) (c : ℕ)
      → entry (register_remote_method method conn template methods) m c
        ≡ (if str_eq method m && (conn == c) then some template else entry methods m c)
  unfolding entry register_remote_method conns_or_empty
  entry-register method conn template methods m c = elim (Bool-cases (str_eq method m)) [
    | inl same ↦
        (let e : m ≡ method = sym (same_string method m same) in
          let conns = conns_or_empty (lookup method methods) in
          rw
            (e, str_eq_refl method, lookup-insert_own method (put_conn conn template conns) methods)
            (template_of-put conn c template conns))
    | inr apart ↦
        (let new = put_conn conn template (conns_or_empty (lookup method methods)) in
          rw (apart, lookup-insert_other method m new methods apart) refl)
  ]

  pub both_none : (closed : Bool) → ◌≡◌ {A = Option T} none (if closed then none else none)
  both_none true = refl
  both_none false = refl

  entry-answer :
      (method : String) (conns : List (ℕ × T)) (methods : List (String × List (ℕ × T))) (m : String)
      (c : ℕ)
      → entry (answer_call method conns methods).0 m c
        ≡ (if str_eq method m then template_of c conns else entry methods m c)
  unfolding entry answer_call conns_or_empty template_of
  entry-answer method [] methods m c = elim (Bool-cases (str_eq method m)) [
    | inl same ↦
        (let e : m ≡ method = sym (same_string method m same) in
          rw (e, str_eq_refl method, lookup-delete_own method methods) refl)
    | inr apart ↦ rw (apart, lookup-delete_other method m methods apart) refl
  ]
  entry-answer method (conn ∷ conns) methods m c = elim (Bool-cases (str_eq method m)) [
    | inl same ↦
        (let e : m ≡ method = sym (same_string method m same) in
          rw (e, str_eq_refl method, lookup-insert_own method (conn ∷ conns) methods) refl)
    | inr apart ↦ rw (apart, lookup-insert_other method m (conn ∷ conns) methods apart) refl
  ]

  entry-held :
      (held : Option (List (ℕ × T))) (method : String) (is_closed : ℕ → Bool)
      (methods : List (String × List (ℕ × T))) (m : String) (c : ℕ)
      → lookup method methods ≡ held
      → entry (call_held held method is_closed methods).0 m c
        ≡ (if str_eq method m && is_closed c then none else entry methods m c)
  unfolding entry call_held conns_or_empty template_of
  entry-held none method is_closed methods m c e = elim (Bool-cases (str_eq method m)) [
    | inl same ↦
        (let own : m ≡ method = sym (same_string method m same) in
          rw (own, str_eq_refl method, e) (both_none (is_closed c)))
    | inr apart ↦ rw apart refl
  ]
  entry-held (some conns) method is_closed methods m c e = elim (Bool-cases (str_eq method m)) [
    | inl same ↦
        (let own : m ≡ method = sym (same_string method m same) in
          entry-answer method (valid_conns is_closed conns) methods m c
          ∙ rw (own, str_eq_refl method, e) (template_of-valid is_closed c conns))
    | inr apart ↦ entry-answer method (valid_conns is_closed conns) methods m c ∙ rw apart refl
  ]

  pub entry-call :
      (method : String) (is_closed : ℕ → Bool) (methods : List (String × List (ℕ × T))) (m : String)
      (c : ℕ)
      → entry (call_remote_method method is_closed methods).0 m c
        ≡ (if str_eq method m && is_closed c then none else entry methods m c)
  unfolding call_remote_method
  entry-call method is_closed methods m c =
      entry-held (lookup method methods) method is_closed methods m c refl
