-- ===== src/Gcode/Parse/Tokens.antt =====
-- Cutting a line of G-code into keys and values.
use klipper_go.Common.{
  ℕ, zero, suc, ◌≤◌, ◌≡◌, refl, sym, ap, ◌∙◌, inl, inr, Bool-cases, Bool, true, not, Option, some,
  List, [], ◌∷◌, ◌++◌, append_assoc, length, if◌then◌else◌, arith,
}
use klipper_go.Gcode.Parse.{
  all, is_space, is_value_part, is_key_part, run_of, get_key, get_val, with_word, words, fields,
  tokens_of, tokens_of_all, parse_gcode_tokens,
}

abbrev pub joined : List (List ℕ) → List ℕ
joined [] = []
joined (t ∷ ts) = t ++ joined ts

abbrev pub without_blanks : List ℕ → List ℕ
without_blanks [] = []
without_blanks (c ∷ cs) = if is_space c then without_blanks cs else c ∷ without_blanks cs

-- A key has no digit, dot or minus, and a value nothing else; they take turns.
abbrev pub Alternates : List (List ℕ) → Type 0
Alternates [] = Unit
Alternates (key ∷ []) = 1 ≤ 0
Alternates (key ∷ val ∷ ts) =
    (all (λ c. not (is_value_part c)) key ≡ true) × (all is_value_part val ≡ true) × Alternates ts

module _ (test : ℕ → Bool) where
  run_of-join : (s : List ℕ) → (run_of test s).0 ++ (run_of test s).1 ≡ s
  run_of-join [] = refl
  run_of-join (c ∷ cs) = elim (Bool-cases (test c)) [
    | inl pass ↦ rw pass (ap (λ t. c ∷ t) (run_of-join cs))
    | inr fail ↦ rw fail refl
  ]

  run_of-passes : (s : List ℕ) → all test (run_of test s).0 ≡ true
  run_of-passes [] = refl
  run_of-passes (c ∷ cs) = elim (Bool-cases (test c)) [
    | inl pass ↦ rw (pass, pass) (run_of-passes cs)
    | inr fail ↦ rw fail refl
  ]

  run_of-shorter : (s : List ℕ) → length (run_of test s).1 ≤ length s
  run_of-shorter [] = omega arith
  run_of-shorter (c ∷ cs) = elim (Bool-cases (test c)) [
    | inl pass ↦ rw pass (omega (arith, run_of-shorter cs))
    | inr fail ↦ rw fail (omega arith)
  ]

-- A round of the loop takes at least one byte.
round-shorter : (c : ℕ) (cs : List ℕ) → length (get_val (get_key (c ∷ cs)).1).1 ≤ length cs
unfolding get_key get_val
round-shorter c cs = elim (Bool-cases (is_value_part c)) [
  | inl pass ↦ rw (pass, pass) (run_of-shorter is_value_part cs)
  | inr fail ↦ rw fail (
      omega (
        arith,
        run_of-shorter is_value_part (run_of is_key_part cs).1,
        run_of-shorter is_key_part cs,
      ))
]

-- What is shown of the tokens of a part.
abbrev Cut : List ℕ → Option (List (List ℕ)) → Type 0
Cut s found = (ts : List (List ℕ)) × (found ≡ some ts) × (joined ts ≡ s) × Alternates ts

tokens_of-Cut : (fuel : ℕ) (s : List ℕ) → length s ≤ fuel → Cut s (tokens_of fuel s)
unfolding tokens_of
tokens_of-Cut fuel [] h = ([], refl, refl, tt)
tokens_of-Cut zero (c ∷ cs) h = absurd (omega arith)
tokens_of-Cut (suc fuel) (c ∷ cs) h =
    let (key, after_key) = get_key (c ∷ cs) in
    let (val, after_val) = get_val after_key in
    let (ts, found, same, turns) =
      tokens_of-Cut fuel after_val (omega (arith, round-shorter c cs)) in
    let split =
      ap (λ t. (get_key (c ∷ cs)).0 ++ t) (run_of-join is_value_part after_key)
      ∙ run_of-join is_key_part (c ∷ cs) in
    (
      key ∷ val ∷ ts,
      rw found refl,
      ap (λ t. key ++ (val ++ t)) same ∙ split,
      (run_of-passes is_key_part (c ∷ cs), run_of-passes is_value_part after_key, turns),
    )

Alternates-append : (ts us : List (List ℕ)) → Alternates ts → Alternates us → Alternates (ts ++ us)
Alternates-append [] us h k = k
Alternates-append (t ∷ []) us h k = absurd (omega arith)
Alternates-append (t ∷ v ∷ ts) us h k = (h.0, h.1, Alternates-append ts us h.2 k)

joined-append : (ts us : List (List ℕ)) → joined (ts ++ us) ≡ joined ts ++ joined us
joined-append [] us = refl
joined-append (t ∷ ts) us =
    ap (λ x. t ++ x) (joined-append ts us) ∙ sym (append_assoc t (joined ts) (joined us))

tokens_of_all-Cut : (parts : List (List ℕ)) → Cut (joined parts) (tokens_of_all parts)
unfolding tokens_of_all
tokens_of_all-Cut [] = ([], refl, refl, tt)
tokens_of_all-Cut (part ∷ parts) =
    let (ts, found, same, turns) = tokens_of-Cut (length part) part (omega arith) in
    let (us, founds, sames, more) = tokens_of_all-Cut parts in
    (
      ts ++ us,
      rw (found, founds) refl,
      joined-append ts us ∙ ap (λ x. x ++ joined us) same ∙ ap (λ x. part ++ x) sames,
      Alternates-append ts us turns more,
    )

joined-with_word : (w : List ℕ) (ws : List (List ℕ)) → joined (with_word w ws) ≡ w ++ joined ws
joined-with_word [] ws = refl
joined-with_word (c ∷ cs) ws = refl

joined-words : (s : List ℕ) → (words s).0 ++ joined (words s).1 ≡ without_blanks s
joined-words [] = refl
joined-words (c ∷ cs) = elim (Bool-cases (is_space c)) [
  | inl blank ↦ rw blank (joined-with_word (words cs).0 (words cs).1 ∙ joined-words cs)
  | inr letter ↦ rw letter (ap (λ t. c ∷ t) (joined-words cs))
]

-- Reading a line ends: every line has tokens. Behind an empty one, they are in turns a key without a
-- digit, dot or minus and a value of nothing else, and joined they are the line without its blanks.
pub parse_gcode_tokens_total :
    (input : List ℕ)
    → (ts : List (List ℕ)) × (parse_gcode_tokens input ≡ some ([] ∷ ts))
      × (joined ts ≡ without_blanks input)
      × Alternates ts
unfolding parse_gcode_tokens
parse_gcode_tokens_total input =
    let (ts, found, same, turns) = tokens_of_all-Cut (fields input) in
    (
      ts,
      rw found refl,
      same ∙ joined-with_word (words input).0 (words input).1 ∙ joined-words input,
      turns,
    )
