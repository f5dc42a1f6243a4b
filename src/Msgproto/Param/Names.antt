-- ===== src/Msgproto/Param/Names.antt =====
-- The reverse lookup of `NewEnumeration` in the rows of an enumeration.
use Prim.Native.String.{String}
use package.text.Mathlib.Text.{◌==◌ as str_eq}
use package.text.Mathlib.TextEquality.{eq_iff}
use klipper_go.Common.{
  ◌≡◌, ap, ◌⊎◌, inl, inr, Bool, true, false, Bool-cases, Option, some, List, [], ◌∷◌, arith,
  if◌then◌else◌,
}
use klipper_go.Common.Int.{ℤ, pos, negsuc, int_eq}
use klipper_go.Common.Assoc.{lookup}
use klipper_go.Msgproto.Param.{Num, int, int64, float64, text, reverse_lookup}

-- No other name of an enumeration reads as the value `v`.
abbrev pub OnlyName : String → ℤ → List (String × Num) → Type 0
OnlyName name v [] = Unit {0}
OnlyName name v ((row, int w) ∷ rest) = ((int_eq w v ≡ false) ⊎ (row ≡ name)) × OnlyName name v rest
OnlyName name v ((row, int64 w) ∷ rest) = OnlyName name v rest
OnlyName name v ((row, float64 w) ∷ rest) =
    ((int_eq w v ≡ false) ⊎ (row ≡ name)) × OnlyName name v rest

int_eq_refl : (v : ℤ) → int_eq v v ≡ true
int_eq_refl (pos n) = ground arith
int_eq_refl (negsuc n) = ground arith

picked :
    (hit : Bool) (row name : String) (found : Option String)
    → (hit ≡ false) ⊎ (row ≡ name)
    → found ≡ some name
    → (if hit then some row else found) ≡ some name
picked true row name found (inl miss) h = absurd (ground (arith, miss))
picked true row name found (inr same) h = ap some same
picked false row name found only h = h

reverse-kept :
    (rows : List (String × Num)) (name : String) (v : ℤ) (found : Option String)
    → OnlyName name v rows
    → found ≡ some name
    → reverse_lookup rows v found ≡ some name
unfolding reverse_lookup
reverse-kept [] name v found only h = h
reverse-kept ((row, int w) ∷ rest) name v found (here, only) h =
    reverse-kept rest name v (if int_eq w v then some row else found) only
      (picked (int_eq w v) row name found here h)
reverse-kept ((row, int64 w) ∷ rest) name v found only h = reverse-kept rest name v found only h
reverse-kept ((row, float64 w) ∷ rest) name v found (here, only) h =
    reverse-kept rest name v (if int_eq w v then some row else found) only
      (picked (int_eq w v) row name found here h)

other_row :
    (name row : String) (num : Num) (rest : List (String × Num)) (v : ℤ)
    → str_eq row name ≡ false
    → lookup name ((row, num) ∷ rest) ≡ some (int v)
    → lookup name rest ≡ some (int v)
unfolding lookup
other_row name row num rest v apart h = ground (arith, apart, h)

own_row :
    (name row : String) (num : Num) (rest : List (String × Num)) (v : ℤ)
    → str_eq row name ≡ true
    → lookup name ((row, num) ∷ rest) ≡ some (int v)
    → num ≡ int v
unfolding lookup
own_row name row num rest v same h = ground (arith, same, h)

int_same : {v w : ℤ} → int w ≡ int v → w ≡ v
int_same h = cc

no_int64 : {v w : ℤ} → int64 w ≡ int v → ⊥
no_int64 h = cc

no_float64 : {v w : ℤ} → float64 w ≡ int v → ⊥
no_float64 h = cc

-- The name whose row holds a value is found by it.
pub reverse-lookup :
    (rows : List (String × Num)) (name : String) (v : ℤ) (found : Option String)
    → OnlyName name v rows
    → lookup name rows ≡ some (int v)
    → reverse_lookup rows v found ≡ some name
unfolding reverse_lookup lookup
reverse-lookup [] name v found only h = cc
reverse-lookup ((row, int w) ∷ rest) name v found (here, only) h =
    elim (Bool-cases (str_eq row name)) [
      | inl same ↦
          (let value : w ≡ v = int_same (own_row name row (int w) rest v same h) in
            reverse-kept rest name v (if int_eq w v then some row else found) only
              (rw (value, int_eq_refl v) (ap some ((eq_iff row name).0 same))))
      | inr apart ↦
          reverse-lookup rest name v (if int_eq w v then some row else found) only
            (other_row name row (int w) rest v apart h)
    ]
reverse-lookup ((row, int64 w) ∷ rest) name v found only h = elim (Bool-cases (str_eq row name)) [
  | inl same ↦ absurd (no_int64 (own_row name row (int64 w) rest v same h))
  | inr apart ↦ reverse-lookup rest name v found only (other_row name row (int64 w) rest v apart h)
]
reverse-lookup ((row, float64 w) ∷ rest) name v found (here, only) h =
    elim (Bool-cases (str_eq row name)) [
      | inl same ↦ absurd (no_float64 (own_row name row (float64 w) rest v same h))
      | inr apart ↦
          reverse-lookup rest name v (if int_eq w v then some row else found) only
            (other_row name row (float64 w) rest v apart h)
    ]
