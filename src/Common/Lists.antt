-- ===== src/Common/Lists.antt =====
-- Lists measured and indexed by native numbers, under the library's names.
use Prim.Native.Nat.{ℕ, zero, suc, ◌+◌, ◌-◌, ◌<◌, ◌≤◌, min}
use mathlib.Core.Path.{◌≡◌, refl, sym, ap, ◌∙◌}
use mathlib.Core.List.{List, [], ◌∷◌, ◌++◌, map}
use mathlib.Core.Option.{Option, none, some}
use native.Mathlib.Omega.{arith}

module _ {ℓ} {A : Type ℓ} where
  abbrev pub length : List A → ℕ
  length [] = 0
  length (x ∷ xs) = suc (length xs)

  abbrev pub get_elem? : List A → ℕ → Option A
  get_elem? [] i = none
  get_elem? (x ∷ xs) zero = some x
  get_elem? (x ∷ xs) (suc i) = get_elem? xs i

  abbrev pub take : ℕ → List A → List A
  take zero xs = []
  take (suc n) [] = []
  take (suc n) (x ∷ xs) = x ∷ take n xs

  abbrev pub drop : ℕ → List A → List A
  drop zero xs = xs
  drop (suc n) [] = []
  drop (suc n) (x ∷ xs) = drop n xs

  abbrev pub replicate : ℕ → A → List A
  replicate zero a = []
  replicate (suc n) a = a ∷ replicate n a

  abbrev pub All {κ} : (A → Type κ) → List A → Type κ
  All P [] = Unit {κ}
  All P (x ∷ xs) = P x × All P xs

module _ {ℓ} {A : Type ℓ} where
  pub length-append : (xs ys : List A) → length (xs ++ ys) ≡ length xs + length ys
  length-append [] ys = omega arith
  length-append (x ∷ xs) ys = omega (arith, length-append xs ys)

  pub length-take : (n : ℕ) (xs : List A) → length (take n xs) ≡ min n (length xs)
  length-take zero xs = omega arith
  length-take (suc n) [] = omega arith
  length-take (suc n) (x ∷ xs) = omega (arith, length-take n xs)

  pub length-drop : (n : ℕ) (xs : List A) → length (drop n xs) ≡ length xs - n
  length-drop zero xs = omega arith
  length-drop (suc n) [] = omega arith
  length-drop (suc n) (x ∷ xs) = omega (arith, length-drop n xs)

  pub length-replicate : (n : ℕ) (a : A) → length (replicate n a) ≡ n
  length-replicate zero a = refl
  length-replicate (suc n) a = ap suc (length-replicate n a)

  -- The first part of a joined list is taken by its length, and so is the second.
  pub take-append_left : (n : ℕ) (xs ys : List A) → length xs ≡ n → take n (xs ++ ys) ≡ xs
  take-append_left zero [] ys h = refl
  take-append_left zero (x ∷ xs) ys h = absurd (omega arith)
  take-append_left (suc n) [] ys h = absurd (omega arith)
  take-append_left (suc n) (x ∷ xs) ys h = ap (λ t. x ∷ t) (take-append_left n xs ys (omega arith))

  pub drop-append_left : (n : ℕ) (xs ys : List A) → length xs ≡ n → drop n (xs ++ ys) ≡ ys
  drop-append_left zero [] ys h = refl
  drop-append_left zero (x ∷ xs) ys h = absurd (omega arith)
  drop-append_left (suc n) [] ys h = absurd (omega arith)
  drop-append_left (suc n) (x ∷ xs) ys h = drop-append_left n xs ys (omega arith)

  pub drop-append_right :
      (n : ℕ) (xs ys : List A) (k : ℕ) → n ≡ length xs + k → drop n (xs ++ ys) ≡ drop k ys
  drop-append_right n [] ys k h = let same : n ≡ k = omega arith in ap (λ m. drop m ys) same
  drop-append_right zero (x ∷ xs) ys k h = absurd (omega arith)
  drop-append_right (suc n) (x ∷ xs) ys k h = drop-append_right n xs ys k (omega arith)

  pub get_elem?-append_right :
      (n : ℕ) (xs ys : List A) (i : ℕ) → n ≡ length xs + i → get_elem? (xs ++ ys) n ≡ get_elem? ys i
  get_elem?-append_right n [] ys i h = ap (get_elem? ys) (omega arith)
  get_elem?-append_right zero (x ∷ xs) ys i h = absurd (omega arith)
  get_elem?-append_right (suc n) (x ∷ xs) ys i h = get_elem?-append_right n xs ys i (omega arith)

  -- An index below the length is in range.
  pub get_elem?-lt : (xs : List A) (i : ℕ) → i < length xs → (a : A) × (get_elem? xs i ≡ some a)
  get_elem?-lt [] i h = elim h [ ]
  get_elem?-lt (x ∷ xs) zero h = (x, refl)
  get_elem?-lt (x ∷ xs) (suc i) h = get_elem?-lt xs i (omega arith)

  pub All-append {κ} : (P : A → Type κ) (xs ys : List A) → All P xs → All P ys → All P (xs ++ ys)
  All-append P [] ys h k = k
  All-append P (x ∷ xs) ys h k = (h.0, All-append P xs ys h.1 k)

  pub length-map {κ} : {B : Type κ} (xs : List A) (f : A → B) → length (map f xs) ≡ length xs
  length-map [] f = refl
  length-map (x ∷ xs) f = ap suc (length-map xs f)

  take-nil : (n : ℕ) → take {A = A} n [] ≡ []
  take-nil zero = refl
  take-nil (suc n) = refl

  pub take_add : (i j : ℕ) (xs : List A) → take (i + j) xs ≡ take i xs ++ take j (drop i xs)
  take_add zero j xs = let same : 0 + j ≡ j = omega arith in ap (λ k. take k xs) same
  take_add (suc i) j [] = take-nil (suc i + j) ∙ sym (take-nil j)
  take_add (suc i) j (x ∷ xs) =
      let carry : suc i + j ≡ suc (i + j) = omega arith in
      ap (λ k. take k (x ∷ xs)) carry ∙ ap (λ t. x ∷ t) (take_add i j xs)

  pub take-suc :
      (i : ℕ) (xs : List A) (a : A)
      → get_elem? xs i ≡ some a
      → take (suc i) xs ≡ take i xs ++ (a ∷ [])
  take-suc i [] a h = cc
  take-suc zero (x ∷ xs) a h = cc
  take-suc (suc i) (x ∷ xs) a h = ap (λ t. x ∷ t) (take-suc i xs a h)

  pub take_all : (i : ℕ) (xs : List A) → length xs ≤ i → take i xs ≡ xs
  take_all zero [] h = refl
  take_all zero (x ∷ xs) h = absurd (omega arith)
  take_all (suc i) [] h = refl
  take_all (suc i) (x ∷ xs) h = ap (λ t. x ∷ t) (take_all i xs (omega arith))

  take_nil : (n : ℕ) → take {A = A} n [] ≡ []
  take_nil zero = refl
  take_nil (suc n) = refl

  drop_nil : (n : ℕ) → drop {A = A} n [] ≡ []
  drop_nil zero = refl
  drop_nil (suc n) = refl

  pub drop_add : (i j : ℕ) (xs : List A) → drop (i + j) xs ≡ drop j (drop i xs)
  drop_add zero j xs = let same : 0 + j ≡ j = omega arith in rw same
  drop_add (suc i) j [] =
      let carry : suc i + j ≡ suc (i + j) = omega arith in
      ap (λ k. drop k []) carry ∙ sym (drop_nil j)
  drop_add (suc i) j (x ∷ xs) =
      let carry : suc i + j ≡ suc (i + j) = omega arith in
      ap (λ k. drop k (x ∷ xs)) carry ∙ drop_add i j xs

  pub drop-take : (i n : ℕ) (xs : List A) → drop i (take n xs) ≡ take (n - i) (drop i xs)
  drop-take zero n xs = let same : n - 0 ≡ n = omega arith in rw same
  drop-take (suc i) zero [] = let same : 0 - suc i ≡ 0 = omega arith in rw same
  drop-take (suc i) (suc n) [] = sym (take_nil (suc n - suc i))
  drop-take (suc i) zero (x ∷ xs) = let same : 0 - suc i ≡ 0 = omega arith in rw same
  drop-take (suc i) (suc n) (x ∷ xs) =
      let carry : suc n - suc i ≡ n - i = omega arith in
      drop-take i n xs ∙ ap (λ k. take k (drop i xs)) (sym carry)
