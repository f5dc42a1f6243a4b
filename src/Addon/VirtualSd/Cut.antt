-- ===== src/Addon/VirtualSd/Cut.antt =====
-- Splitting what is read into lines, and putting lines together again.
use klipper_go.Common.{
  ℕ, true, false, List, [], ◌∷◌, ◌++◌, ◌==◌, ◌≡◌, refl, sym, ap, ◌∙◌, inl, inr, Bool-cases,
  append_assoc, All, arith,
}
use klipper_go.Addon.VirtualSd.{cons_first, split_lines, join_partial, split_last}

-- Lines, each with its newline.
unfoldable pub unlines : List (List ℕ) → List ℕ
unlines [] = []
unlines (line ∷ lines) = line ++ (10 ∷ unlines lines)

abbrev pub NoNewline : List ℕ → Type 0
NoNewline [] = Unit
NoNewline (c ∷ cs) = ((c == 10) ≡ false) × NoNewline cs

pub NoNewline-append : (xs ys : List ℕ) → NoNewline xs → NoNewline ys → NoNewline (xs ++ ys)
NoNewline-append [] ys h k = k
NoNewline-append (x ∷ xs) ys (first, rest) k = (first, NoNewline-append xs ys rest k)

pub unlines-append :
    (xs : List (List ℕ)) (line : List ℕ)
    → unlines (xs ++ (line ∷ [])) ≡ unlines xs ++ (line ++ (10 ∷ []))
unfolding unlines
unlines-append [] line = refl
unlines-append (x ∷ xs) line =
    ap (λ t. x ++ (10 ∷ t)) (unlines-append xs line)
    ∙ sym (append_assoc x (10 ∷ unlines xs) (line ++ (10 ∷ [])))

-- Lines with a newline between two.
unfoldable unsplit : List ℕ → List (List ℕ) → List ℕ
unsplit line [] = line
unsplit line (next ∷ lines) = line ++ (10 ∷ unsplit next lines)

unsplit-cons :
    (c : ℕ) (line : List ℕ) (lines : List (List ℕ))
    → unsplit (c ∷ line) lines ≡ c ∷ unsplit line lines
unfolding unsplit
unsplit-cons c line [] = refl
unsplit-cons c line (next ∷ lines) = refl

unsplit-append :
    (partial line : List ℕ) (lines : List (List ℕ))
    → unsplit (partial ++ line) lines ≡ partial ++ unsplit line lines
unfolding unsplit
unsplit-append partial line [] = refl
unsplit-append partial line (next ∷ lines) = append_assoc partial line (10 ∷ unsplit next lines)

abbrev IsSplit : List ℕ → Type 0
IsSplit bs =
    (line : List ℕ) × (lines : List (List ℕ)) × (split_lines bs ≡ line ∷ lines)
    × (unsplit line lines ≡ bs)
    × NoNewline line
    × All NoNewline lines

equal_ten : (c : ℕ) → (c == 10) ≡ true → 10 ≡ c
equal_ten c h = ground arith

lines-IsSplit : (bs : List ℕ) → IsSplit bs
unfolding split_lines unsplit cons_first
lines-IsSplit [] = ([], [], refl, refl, tt, tt)
lines-IsSplit (c ∷ cs) =
    let (line, lines, cut, whole, first, others) = lines-IsSplit cs in
    elim (Bool-cases (c == 10)) [
      | inl newline ↦ (
        [],
        line ∷ lines,
        rw (newline, cut) refl,
        ap (λ t. 10 ∷ t) whole ∙ ap (λ n. n ∷ cs) (equal_ten c newline),
        tt,
        (first, others),
      )
      | inr other ↦ (
        c ∷ line,
        lines,
        rw (other, cut) refl,
        unsplit-cons c line lines ∙ ap (λ t. c ∷ t) whole,
        (other, first),
        others,
      )
    ]

abbrev pub IsCut : List ℕ → List (List ℕ) × List ℕ → Type 0
IsCut whole (front, last) = (whole ≡ unlines front ++ last) × All NoNewline front × NoNewline last

last-IsCut :
    (line : List ℕ) (lines : List (List ℕ))
    → NoNewline line
    → All NoNewline lines
    → IsCut (unsplit line lines) (split_last (line ∷ lines))
unfolding split_last unsplit unlines
last-IsCut line [] h k = (refl, tt, h)
last-IsCut line (next ∷ lines) h (first, others) =
    let (whole, front, last) = last-IsCut next lines first others in
    (
      ap (λ t. line ++ (10 ∷ t)) whole
          ∙ sym (
              append_assoc line (10 ∷ unlines (split_last (next ∷ lines)).0)
                (split_last (next ∷ lines)).1),
      (h, front),
      last,
    )

-- What `ReadLines` makes of the partial line and new bytes is these bytes, cut at the newlines.
pub split-IsCut :
    (partial bs : List ℕ)
    → NoNewline partial
    → IsCut (partial ++ bs) (split_last (join_partial partial (split_lines bs)))
unfolding join_partial
split-IsCut partial bs h =
    let (line, lines, cut, whole, first, others) = lines-IsSplit bs in
    let (uncut, front, last) =
      last-IsCut (partial ++ line) lines (NoNewline-append partial line h first) others in
    rw cut (
      ap (λ t. partial ++ t) (sym whole) ∙ sym (unsplit-append partial line lines) ∙ uncut,
      front,
      last,
    )
