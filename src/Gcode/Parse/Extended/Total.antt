-- ===== src/Gcode/Parse/Extended/Total.antt =====
-- Reading parameters ends, and its only error is a quote that is not closed.
use klipper_go.Common.{
  ℕ, zero, suc, ◌≤◌, ◌<◌, ◌≡◌, refl, sym, ap, ◌∙◌, ◌⊎◌, inl, inr, Bool-cases, Bool, true, false,
  ◌||◌, Option, none, some, List, [], ◌∷◌, ◌++◌, append_assoc, length-append, ◌==◌, ==_iff, length,
  arith,
}
use klipper_go.Gcode.Parse.{is_quote, trim_left, trim_space}
use klipper_go.Gcode.Parse.Extended.{
  Params, State, read_key, read_val, Parsed, parsed, missing_closing_quote, out_of_fuel, cut, Next,
  ends, goes, after_quoted, after_plain, after_equals, params_step, follow, params_loop,
  parse_extended_params,
}

trim_left-shorter : (s : List ℕ) → length (trim_left s) ≤ length s
trim_left-shorter [] = omega arith
trim_left-shorter (c ∷ cs) = elim (Bool-cases (c == 32 || c == 9)) [
  | inl blank ↦ rw blank (omega (arith, trim_left-shorter cs))
  | inr letter ↦ rw letter (omega arith)
]

abbrev occurs : ℕ → List ℕ → Bool
occurs q [] = false
occurs q (c ∷ cs) = c == q || occurs q cs

-- The text from the end of a text.
abbrev pub Ends : List ℕ → List ℕ → Type 0
Ends tail s = (before : List ℕ) × (before ++ tail ≡ s)

-- Somewhere in the text a quote opens right behind an equals sign and is not closed.
abbrev pub Unclosed : List ℕ → Type 0
Unclosed s =
    (q : ℕ) × (rest : List ℕ) × (is_quote q ≡ true)
    × (occurs q rest ≡ false)
    × Ends (61 ∷ q ∷ rest) s

Ends-trans : (xs ys zs : List ℕ) → Ends xs ys → Ends ys zs → Ends xs zs
Ends-trans xs ys zs (u, p) (v, q) = (v ++ u, append_assoc v u xs ∙ ap (λ t. v ++ t) p ∙ q)

Ends-cons : (c : ℕ) (cs : List ℕ) → Ends cs (c ∷ cs)
Ends-cons c cs = (c ∷ [], refl)

Ends-length : (xs ys : List ℕ) → Ends xs ys → length xs ≤ length ys
Ends-length xs ys (u, p) = omega (arith, length-append u xs, ap length p)

trim_left-Ends : (s : List ℕ) → Ends (trim_left s) s
trim_left-Ends [] = ([], refl)
trim_left-Ends (c ∷ cs) = elim (Bool-cases (c == 32 || c == 9)) [
  | inl blank ↦
      rw blank (Ends-trans (trim_left cs) cs (c ∷ cs) (trim_left-Ends cs) (Ends-cons c cs))
  | inr letter ↦ rw letter ([], refl)
]

abbrev CutAt : ℕ → List ℕ → Option (List ℕ × List ℕ) → Type 0
CutAt byte s none = occurs byte s ≡ false
CutAt byte s (some (before, after)) = before ++ (byte ∷ after) ≡ s

add_front : ℕ → Option (List ℕ × List ℕ) → Option (List ℕ × List ℕ)
add_front c found = elim found [ none ↦ none | some (before, after) ↦ some (c ∷ before, after) ]

add_front-CutAt :
    (byte c : ℕ) (cs : List ℕ) (found : Option (List ℕ × List ℕ))
    → c == byte ≡ false
    → CutAt byte cs found
    → CutAt byte (c ∷ cs) (add_front c found)
unfolding add_front
add_front-CutAt byte c cs none other h = rw other h
add_front-CutAt byte c cs (some (before, after)) other h = ap (λ t. c ∷ t) h

cut-CutAt : (byte : ℕ) (s : List ℕ) → CutAt byte s (cut byte s)
unfolding add_front
cut-CutAt byte [] = refl
cut-CutAt byte (c ∷ cs) = elim (Bool-cases (c == byte)) [
  | inl here ↦ rw here (ap (λ b. b ∷ cs) (sym ((==_iff c byte).0 here)))
  | inr other ↦ rw other (add_front-CutAt byte c cs (cut byte cs) other (cut-CutAt byte cs))
]

-- What remains to be read is an end of the whole text, and a value stands behind an equals sign.
abbrev Place : List ℕ → State → List ℕ → Type 0
Place s read_key params = Ends params s
Place s (read_val key) params = Ends (61 ∷ params) s

-- A round that does not end leaves less to read.
abbrev Sound : List ℕ → ℕ → Next → Type 0
Sound s n (ends (parsed results)) = Unit
Sound s n (ends missing_closing_quote) = Unclosed s
Sound s n (ends out_of_fuel) = 1 ≤ 0
Sound s n (goes state params results) = Place s state params × (length params < n)

after_equals-Sound :
    (s params : List ℕ) (found : Option (List ℕ × List ℕ)) (results : Params)
    → CutAt 61 params found
    → Ends params s
    → Sound s (length params) (after_equals found results)
unfolding after_equals
after_equals-Sound s params none results h e = tt
after_equals-Sound s params (some (key, after)) results h e =
    (Ends-trans (61 ∷ after) params s (key, h) e, Ends-length (61 ∷ after) params (key, h))

after_text :
    (s params before after : List ℕ) (byte : ℕ)
    → before ++ (byte ∷ after) ≡ params
    → Ends (61 ∷ params) s
    → Ends (trim_left after) s × (length (trim_left after) < length params)
after_text s params before after byte h e =
    let behind = Ends-trans after (byte ∷ after) params (Ends-cons byte after) (before, h) in
    let trimmed = Ends-trans (trim_left after) after params (trim_left-Ends after) behind in
    (
      Ends-trans (trim_left after) params s trimmed
          (Ends-trans params (61 ∷ params) s (Ends-cons 61 params) e),
      omega (arith, trim_left-shorter after, Ends-length (byte ∷ after) params (before, h)),
    )

after_quoted-Sound :
    (s key cs : List ℕ) (q : ℕ) (found : Option (List ℕ × List ℕ)) (results : Params)
    → is_quote q ≡ true
    → CutAt q cs found
    → Ends (61 ∷ q ∷ cs) s
    → Sound s (length (q ∷ cs)) (after_quoted key found results)
unfolding after_quoted
after_quoted-Sound s key cs q none results quote h e = (q, cs, quote, h, e)
after_quoted-Sound s key cs q (some (value, [])) results quote h e = tt
after_quoted-Sound s key cs q (some (value, c ∷ after)) results quote h e =
    after_text s (q ∷ cs) (q ∷ value) (c ∷ after) q (ap (λ t. q ∷ t) h) e

after_plain-Sound :
    (s key params : List ℕ) (found : Option (List ℕ × List ℕ)) (results : Params)
    → CutAt 32 params found
    → Ends (61 ∷ params) s
    → Sound s (length params) (after_plain key params found results)
unfolding after_plain
after_plain-Sound s key params none results h e = tt
after_plain-Sound s key params (some (value, after)) results h e =
    after_text s params value after 32 h e

params_step-Sound :
    (s : List ℕ) (state : State) (params : List ℕ) (results : Params)
    → Place s state params
    → Sound s (length params) (params_step state params results)
unfolding params_step
params_step-Sound s read_key params results e =
    after_equals-Sound s params (cut 61 params) results (cut-CutAt 61 params) e
params_step-Sound s (read_val key) [] results e = tt
params_step-Sound s (read_val key) (c ∷ cs) results e = elim (Bool-cases (is_quote c)) [
  | inl quote ↦ rw quote (after_quoted-Sound s key cs c (cut c cs) results quote (cut-CutAt c cs) e)
  | inr plain ↦
      rw plain
        (after_plain-Sound s key (c ∷ cs) (cut 32 (c ∷ cs)) results (cut-CutAt 32 (c ∷ cs)) e)
]

abbrev Finished : List ℕ → Parsed → Type 0
Finished s done =
    ((results : Params) × (done ≡ parsed results)) ⊎ ((done ≡ missing_closing_quote) × Unclosed s)

follow-Finished :
    (s : List ℕ) (n : ℕ) (next : Next) (rest : State → List ℕ → Params → Parsed)
    → Sound s n next
    → ((state : State) (params : List ℕ) (results : Params)
        → Place s state params
        → length params < n
        → Finished s (rest state params results))
    → Finished s (follow next rest)
unfolding follow
follow-Finished s n (ends (parsed results)) rest h more = inl (results, refl)
follow-Finished s n (ends missing_closing_quote) rest h more = inr (refl, h)
follow-Finished s n (ends out_of_fuel) rest h more = absurd (omega arith)
follow-Finished s n (goes state params results) rest h more = more state params results h.0 h.1

params_loop-Finished :
    (fuel : ℕ) (s : List ℕ) (state : State) (params : List ℕ) (results : Params)
    → Place s state params
    → length params < fuel
    → Finished s (params_loop fuel state params results)
unfolding params_loop
params_loop-Finished zero s state params results e h = absurd (omega arith)
params_loop-Finished (suc fuel) s state params results e h =
    follow-Finished s (length params) (params_step state params results) (params_loop fuel)
      (params_step-Sound s state params results e)
      (λ state' params' results' e' less.
        params_loop-Finished fuel s state' params' results' e' (omega arith))

-- Reading parameters ends for every text: either with results, or with the error of a missing quote,
-- and then the text has a quote right behind an equals sign that is not closed.
pub parse_extended_params_total :
    (input : List ℕ)
    → ((results : Params) × (parse_extended_params input ≡ parsed results))
      ⊎ ((parse_extended_params input ≡ missing_closing_quote) × Unclosed (trim_space input))
unfolding parse_extended_params
parse_extended_params_total input =
    params_loop-Finished (suc (length (trim_space input))) (trim_space input) read_key
      (trim_space input) [] ([], refl) (omega arith)
