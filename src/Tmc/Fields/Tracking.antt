-- ===== src/Tmc/Fields/Tracking.antt =====
-- The order in which registers are written out at the start.
use Prim.Native.String.{String}
use text.Mathlib.Text.{◌==◌ as str_eq}
use text.Mathlib.TextEquality.{eq_iff}
use klipper_go.Common.{
  ℕ, suc, ◌≡◌, refl, sym, ap, ◌∙◌, inl, inr, Bool-cases, Bool, true, false, ◌||◌, ◌&&◌, not, Option,
  none, some, List, [], ◌∷◌, ◌++◌, if◌then◌else◌, length, length-append, arith,
}
use klipper_go.Common.Int.{ℤ}
use klipper_go.Common.Assoc.{insert}
use klipper_go.Tmc.Fields.{
  FieldHelper, has, keys, new_field_helper, set_field, resolve, track_register,
  ordered_register_names,
}

has-append : (n : String) (xs ys : List String) → has n (xs ++ ys) ≡ (has n xs || has n ys)
has-append n [] ys = refl
has-append n (x ∷ xs) ys = ground (arith, has-append n xs ys)

str_eq_sym : (a b : String) → str_eq a b ≡ str_eq b a
str_eq_sym a b = elim (Bool-cases (str_eq a b)) [
  | inl same ↦ rw ((eq_iff a b).0 same) refl
  | inr other ↦ elim (Bool-cases (str_eq b a)) [
    | inl same ↦ rw ((eq_iff b a).0 same) refl
    | inr apart ↦ other ∙ sym apart
  ]
]

module _ {V : Type 0} where
  has-keys-insert :
      (n key : String) (v : V) (m : List (String × V))
      → has n (keys (insert key v m)) ≡ (str_eq key n || has n (keys m))
  unfolding insert
  has-keys-insert n key v [] = refl
  has-keys-insert n key v ((held, old) ∷ rest) = elim (Bool-cases (str_eq held key)) [
    | inl same ↦
        (let named : str_eq held n ≡ str_eq key n =
            ap (λ k. str_eq k n) ((eq_iff held key).0 same) in
          rw (same, named) (ground arith))
    | inr other ↦ rw other (ground (arith, has-keys-insert n key v rest))
  ]

  length-insert :
      (key : String) (v : V) (m : List (String × V))
      → length (insert key v m) ≡ (if has key (keys m) then length m else suc (length m))
  unfolding insert
  length-insert key v [] = refl
  length-insert key v ((held, old) ∷ rest) = ground (arith, length-insert key v rest)

abbrev pub distinct : List String → Bool
distinct [] = true
distinct (x ∷ xs) = not (has x xs) && distinct xs

distinct-append :
    (xs : List String) (n : String)
    → distinct xs ≡ true
    → has n xs ≡ false
    → distinct (xs ++ (n ∷ [])) ≡ true
distinct-append [] n h new = refl
distinct-append (x ∷ xs) n h new =
    ground (arith, distinct-append xs n, has-append x xs (n ∷ []), str_eq_sym x n)

same_name : (a b : String) (xs : List String) → str_eq a b ≡ true → has a xs ≡ has b xs
same_name a b xs h = rw ((eq_iff a b).0 h) refl

-- Every register held is tracked, once.
record Tracks (self : FieldHelper) : Type 0 where
  same_length : length self.register_order ≡ length self.registers
  held : (n : String) → has n self.register_order ≡ has n (keys self.registers)
  seen : (n : String) → has n self.register_seen ≡ has n self.register_order
  once : distinct self.register_order ≡ true

tracked : String → ℤ → FieldHelper → FieldHelper
unfolding track_register
tracked reg v self = record (track_register reg self) { registers = insert reg v self.registers }

tracked-Tracks :
    (reg : String) (v : ℤ) (self : FieldHelper) → Tracks self → Tracks (tracked reg v self)
unfolding tracked track_register
tracked-Tracks reg v self t = record {
  same_length = ground (
    arith,
    t.same_length,
    length-insert reg v self.registers,
    length-append self.register_order (reg ∷ []),
    t.held reg,
    t.seen reg,
  );
  held = λ n. ground (
    arith,
    t.held n,
    t.held reg,
    t.seen reg,
    has-keys-insert n reg v self.registers,
    has-append n self.register_order (reg ∷ []),
    same_name reg n (keys self.registers),
  );
  seen = λ n. ground (arith, t.seen n, has-append n self.register_order (reg ∷ []));
  once = ground (arith, t.once, t.seen reg, distinct-append self.register_order reg t.once);
}

-- `Set_field` with its arguments.
pub record Setting : Type 0 where
  pub field : String
  pub field_value : ℤ
  pub reg_value : Option ℤ
  pub reg_name : Option String

unfoldable pub set_fields : List Setting → FieldHelper → FieldHelper
set_fields [] self = self
set_fields (c ∷ cs) self =
    set_fields cs (set_field c.field c.field_value c.reg_value c.reg_name self).0

set_fields-Tracks :
    (cs : List Setting) (self : FieldHelper) → Tracks self → Tracks (set_fields cs self)
unfolding set_fields set_field tracked
set_fields-Tracks [] self t = t
set_fields-Tracks (c ∷ cs) self t =
    let done = set_field c.field c.field_value c.reg_value c.reg_name self in
    set_fields-Tracks cs done.0 (tracked-Tracks (resolve c.field c.reg_name self) done.1 self t)

-- However fields of a new helper, which was given no registers, are set, the registers are written
-- out without a panic in the order that the helper keeps, and this order names each register that holds a
-- value once, and no other.
pub ordered_once :
    (all_fields : List (String × List (String × ℕ))) (signed_fields : List String)
    (cs : List Setting) (name : String)
    → (ordered_register_names (set_fields cs (new_field_helper all_fields signed_fields none))
        ≡ some (set_fields cs (new_field_helper all_fields signed_fields none)).register_order)
      × (distinct (set_fields cs (new_field_helper all_fields signed_fields none)).register_order
          ≡ true)
      × (has name (set_fields cs (new_field_helper all_fields signed_fields none)).register_order
          ≡ has name
              (keys (set_fields cs (new_field_helper all_fields signed_fields none)).registers))
unfolding ordered_register_names new_field_helper
ordered_once all_fields signed_fields cs name =
    let start = new_field_helper all_fields signed_fields none in
    let t =
      set_fields-Tracks cs start
        (record { same_length = refl; held = λ n. refl; seen = λ n. refl; once = refl }) in
    (ground (arith, t.same_length), t.once, t.held name)
