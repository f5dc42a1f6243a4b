-- ===== src/Gcode/Dispatch/Known.antt =====
-- What holds of the handlers of commands over any registering.
use klipper_go.Common.{
  ℕ, Bool, true, false, not, Option, none, some, List, [], ◌∷◌, if◌then◌else◌, ◌≡◌, refl, sym, ap,
  ◌∙◌, inl, inr, Bool-cases, ◌==◌, ◌&&◌, arith,
}
use mathlib.Core.Path.{subst}
use klipper_go.Gcode.Parse.{bytes_eq, is_command_valid, is_traditional_gcode}
use klipper_go.Gcode.Dispatch.{
  Handler, Handlers, DispatchRuntime, new_dispatch_runtime, handler_of, put_handler, delete_handler,
  set_ready, add_if, add_command, add_unless, register_command,
}

both_true : (a b : Bool) → (a && b) ≡ true → (a ≡ true) × (b ≡ true)
both_true true b h = (refl, h)
both_true false b h = cc

same_number : (x y : ℕ) → (x == y) ≡ true → x ≡ y
same_number x y h = ground (arith, h)

number_same : (x : ℕ) → (x == x) ≡ true
number_same x = ground arith

same_bytes : (xs ys : List ℕ) → bytes_eq xs ys ≡ true → xs ≡ ys
same_bytes [] [] h = refl
same_bytes [] (y ∷ ys) h = cc
same_bytes (x ∷ xs) [] h = cc
same_bytes (x ∷ xs) (y ∷ ys) h =
    let (first, rest) = both_true (x == y) (bytes_eq xs ys) h in
    ap (λ n. n ∷ xs) (same_number x y first) ∙ ap (λ t. y ∷ t) (same_bytes xs ys rest)

bytes_eq_refl : (xs : List ℕ) → bytes_eq xs xs ≡ true
bytes_eq_refl [] = refl
bytes_eq_refl (x ∷ xs) = rw (number_same x, bytes_eq_refl xs) refl

handler_of-put_own :
    (cmd : List ℕ) (handler : Handler) (handlers : Handlers)
    → handler_of cmd (put_handler cmd handler handlers) ≡ some handler
unfolding handler_of put_handler
handler_of-put_own cmd handler [] = rw (bytes_eq_refl cmd) refl
handler_of-put_own cmd handler ((held, old) ∷ rest) = elim (Bool-cases (bytes_eq held cmd)) [
  | inl same ↦ rw (same, handler_of, bytes_eq_refl cmd) refl
  | inr other ↦ rw (other, handler_of, other) (handler_of-put_own cmd handler rest)
]

handler_of-put_other :
    (cmd other : List ℕ) (handler : Handler) (handlers : Handlers)
    → bytes_eq cmd other ≡ false
    → handler_of other (put_handler cmd handler handlers) ≡ handler_of other handlers
unfolding handler_of put_handler
handler_of-put_other cmd other handler [] h = rw h refl
handler_of-put_other cmd other handler ((held, old) ∷ rest) h =
    elim (Bool-cases (bytes_eq held cmd)) [
      | inl same ↦
          (let miss : bytes_eq held other ≡ false =
              ap (λ k. bytes_eq k other) (same_bytes held cmd same) ∙ h in
            rw (same, handler_of, h, miss) refl)
      | inr apart ↦ elim (Bool-cases (bytes_eq held other)) [
        | inl hit ↦ rw (apart, handler_of, hit) refl
        | inr miss ↦ rw (apart, handler_of, miss) (handler_of-put_other cmd other handler rest h)
      ]
    ]

handler_of-delete_own :
    (cmd : List ℕ) (handlers : Handlers) → handler_of cmd (delete_handler cmd handlers) ≡ none
unfolding handler_of delete_handler
handler_of-delete_own cmd [] = refl
handler_of-delete_own cmd ((held, old) ∷ rest) = elim (Bool-cases (bytes_eq held cmd)) [
  | inl same ↦ rw same (handler_of-delete_own cmd rest)
  | inr other ↦ rw (other, handler_of, other) (handler_of-delete_own cmd rest)
]

handler_of-delete_other :
    (cmd other : List ℕ) (handlers : Handlers)
    → bytes_eq cmd other ≡ false
    → handler_of other (delete_handler cmd handlers) ≡ handler_of other handlers
unfolding handler_of delete_handler
handler_of-delete_other cmd other [] h = refl
handler_of-delete_other cmd other ((held, old) ∷ rest) h = elim (Bool-cases (bytes_eq held cmd)) [
  | inl same ↦
      (let miss : bytes_eq held other ≡ false =
          ap (λ k. bytes_eq k other) (same_bytes held cmd same) ∙ h in
        rw (same, miss) (handler_of-delete_other cmd other rest h))
  | inr apart ↦ elim (Bool-cases (bytes_eq held other)) [
    | inl hit ↦ rw (apart, handler_of, hit) refl
    | inr miss ↦ rw (apart, handler_of, miss) (handler_of-delete_other cmd other rest h)
  ]
]

pub data Registering : Type 0 where
  register : List ℕ → Option ℕ → Bool → Registering
  become_ready : Bool → Registering

unfoldable pub registering : List Registering → DispatchRuntime → DispatchRuntime
registering [] self = self
registering (register cmd target when_not_ready ∷ calls) self =
    registering calls (register_command cmd target when_not_ready self).0
registering (become_ready ready ∷ calls) self = registering calls (set_ready ready self)

-- A command is traditional, or extended under a valid name.
abbrev pub IsNamed : List ℕ → Handler → Type 0
IsNamed cmd handler =
    (handler.is_extended ≡ not (is_traditional_gcode cmd))
    × ((if is_traditional_gcode cmd then true else is_command_valid cmd) ≡ true)

abbrev pub IsKnown : DispatchRuntime → Type 0
IsKnown self =
    (cmd : List ℕ) (handler : Handler)
    → (handler_of cmd self.base_handlers ≡ some handler
        → handler_of cmd self.ready_handlers ≡ some handler)
      × (handler_of cmd self.ready_handlers ≡ some handler → IsNamed cmd handler)

none_is_some : {A : Type 0} (o : Option A) (a : A) → o ≡ none → o ≡ some a → ⊥
none_is_some none a e h = cc
none_is_some (some b) a e h = cc

some_inj : {A : Type 0} (a b : A) → some a ≡ some b → a ≡ b
some_inj a b h = cc

delete-IsKnown :
    (cmd : List ℕ) (self : DispatchRuntime)
    → IsKnown self
    → IsKnown (record self {
      ready_handlers = delete_handler cmd self.ready_handlers;
      base_handlers = delete_handler cmd self.base_handlers;
    })
delete-IsKnown cmd self known other handler = elim (Bool-cases (bytes_eq cmd other)) [
  | inl same ↦
      (let e : other ≡ cmd = sym (same_bytes cmd other same) in
        rw e (
          λ h. absurd (
              none_is_some (handler_of cmd (delete_handler cmd self.base_handlers)) handler
                (handler_of-delete_own cmd self.base_handlers) h),
          λ h. absurd (
              none_is_some (handler_of cmd (delete_handler cmd self.ready_handlers)) handler
                (handler_of-delete_own cmd self.ready_handlers) h),
        ))
  | inr apart ↦
      rw
        (
          handler_of-delete_other cmd other self.base_handlers apart,
          handler_of-delete_other cmd other self.ready_handlers apart,
        )
        (known other handler)
]

added-IsKnown :
    (valid when_not_ready : Bool) (cmd : List ℕ) (new : Handler) (self : DispatchRuntime)
    → (valid ≡ true → IsNamed cmd new)
    → handler_of cmd self.ready_handlers ≡ none
    → IsKnown self
    → IsKnown (add_command valid cmd new when_not_ready self).0
unfolding add_command add_if
added-IsKnown false when_not_ready cmd new self named free known other handler = known other handler
added-IsKnown true true cmd new self named free known other handler =
    elim (Bool-cases (bytes_eq cmd other)) [
      | inl same ↦
          (let e : other ≡ cmd = sym (same_bytes cmd other same) in
            rw
              (
                e,
                handler_of-put_own cmd new self.base_handlers,
                handler_of-put_own cmd new self.ready_handlers,
              )
              (λ h. h, λ h. subst (IsNamed cmd) (some_inj new handler h) (named refl)))
      | inr apart ↦
          rw
            (
              handler_of-put_other cmd other new self.base_handlers apart,
              handler_of-put_other cmd other new self.ready_handlers apart,
            )
            (known other handler)
    ]
added-IsKnown true false cmd new self named free known other handler =
    elim (Bool-cases (bytes_eq cmd other)) [
      | inl same ↦
          (let e : other ≡ cmd = sym (same_bytes cmd other same) in
            rw (e, handler_of-put_own cmd new self.ready_handlers)
              (
                λ h. absurd (
                    none_is_some (handler_of cmd self.ready_handlers) handler free
                      ((known cmd handler).0 h)),
                λ h. subst (IsNamed cmd) (some_inj new handler h) (named refl),
              ))
      | inr apart ↦
          rw (handler_of-put_other cmd other new self.ready_handlers apart) (known other handler)
    ]

unless-IsKnown :
    (held : Option Handler) (cmd : List ℕ) (target : ℕ) (when_not_ready : Bool)
    (self : DispatchRuntime)
    → handler_of cmd self.ready_handlers ≡ held
    → IsKnown self
    → IsKnown (add_unless held cmd target when_not_ready self).0
unfolding add_unless
unless-IsKnown (some old) cmd target when_not_ready self e known = known
unless-IsKnown none cmd target when_not_ready self e known =
    let traditional = is_traditional_gcode cmd in
    added-IsKnown (if traditional then true else is_command_valid cmd) when_not_ready cmd
      (record { target = target; is_extended = not traditional }) self (λ valid. (refl, valid)) e
      known

register-IsKnown :
    (cmd : List ℕ) (target : Option ℕ) (when_not_ready : Bool) (self : DispatchRuntime)
    → IsKnown self
    → IsKnown (register_command cmd target when_not_ready self).0
unfolding register_command
register-IsKnown cmd none when_not_ready self known = delete-IsKnown cmd self known
register-IsKnown cmd (some target) when_not_ready self known =
    unless-IsKnown (handler_of cmd self.ready_handlers) cmd target when_not_ready self refl known

all-IsKnown :
    (calls : List Registering) (self : DispatchRuntime)
    → IsKnown self
    → IsKnown (registering calls self)
unfolding registering set_ready
all-IsKnown [] self known = known
all-IsKnown (register cmd target when_not_ready ∷ calls) self known =
    all-IsKnown calls (register_command cmd target when_not_ready self).0
      (register-IsKnown cmd target when_not_ready self known)
all-IsKnown (become_ready ready ∷ calls) self known = all-IsKnown calls (set_ready ready self) known

-- Over any registering and removing of commands and any changes of readiness, what a command does
-- before the printer is ready it does afterwards too, and a command that is known is traditional or was
-- wrapped under a valid name.
pub alike_when_ready : (calls : List Registering) → IsKnown (registering calls new_dispatch_runtime)
unfolding new_dispatch_runtime handler_of
alike_when_ready calls = all-IsKnown calls new_dispatch_runtime (λ cmd handler. (
  λ h. absurd (none_is_some none handler refl h),
  λ h. absurd (none_is_some none handler refl h),
))
