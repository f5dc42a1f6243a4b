-- ===== src/Common/Assoc.antt =====
-- Go's map as an association list: reading a key, and writing one.
use klipper_go.Common.{
  Option, none, some, true, false, List, [], ◌∷◌, if◌then◌else◌, ◌≡◌, refl, inl, inr, Bool-cases,
  ap, ◌∙◌,
}
use Prim.Native.String.{String}
use text.Mathlib.Text.{◌==◌ as str_eq}
use text.Mathlib.TextEquality.{eq_iff}

pub str_eq_refl : (s : String) → str_eq s s ≡ true
str_eq_refl s = (eq_iff s s).1 refl

module _ {ℓ} {V : Type ℓ} where
  unfoldable pub lookup : String → List (String × V) → Option V
  lookup key [] = none
  lookup key ((held, value) ∷ rest) = if str_eq held key then some value else lookup key rest

  unfoldable pub insert : String → V → List (String × V) → List (String × V)
  insert key value [] = (key, value) ∷ []
  insert key value ((held, old) ∷ rest) =
      if str_eq held key then (key, value) ∷ rest else (held, old) ∷ insert key value rest

  pub lookup-insert_own :
      (key : String) (v : V) (m : List (String × V)) → lookup key (insert key v m) ≡ some v
  unfolding lookup insert
  lookup-insert_own key v [] = rw (str_eq_refl key) refl
  lookup-insert_own key v ((held, old) ∷ rest) = elim (Bool-cases (str_eq held key)) [
    | inl same ↦ rw (same, lookup, str_eq_refl key) refl
    | inr other ↦ rw (other, lookup, other) (lookup-insert_own key v rest)
  ]

  pub lookup-insert_other :
      (key other : String) (v : V) (m : List (String × V))
      → str_eq key other ≡ false
      → lookup other (insert key v m) ≡ lookup other m
  unfolding lookup insert
  lookup-insert_other key other v [] h = rw h refl
  lookup-insert_other key other v ((held, old) ∷ rest) h = elim (Bool-cases (str_eq held key)) [
    | inl same ↦
        (let miss : str_eq held other ≡ false =
            ap (λ k. str_eq k other) ((eq_iff held key).0 same) ∙ h in
          rw (same, lookup, h, miss) refl)
    | inr apart ↦ elim (Bool-cases (str_eq held other)) [
      | inl hit ↦ rw (apart, lookup, hit) refl
      | inr miss ↦ rw (apart, lookup, miss) (lookup-insert_other key other v rest h)
    ]
  ]
