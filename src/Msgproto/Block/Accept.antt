-- ===== src/Msgproto/Block/Accept.antt =====
-- `Check_packet` against `Encode_msgblock`: what is accepted, and what an accepted block is.
use klipper_go.Common.{
  ℕ, suc, ◌+◌, ◌-◌, ◌*◌, ◌/◌, ◌≤◌, ◌<◌, ◌≡◌, refl, sym, ap, ◌∙◌, inl, inr, true, some, List, [],
  ◌∷◌, ◌++◌, append_assoc, arith, length, length-append, get_elem?, get_elem?-append_right, take,
  drop, take-append_left, drop-append_left, Option-cases, take_add, take-suc, length-take,
}
use klipper_go.Common.Int.{pos}
use klipper_go.Msgproto.Crc.{crc16_ccitt}
use klipper_go.Msgproto.Block.{
  ints_equal, slice, block_body, encode_msgblock, check_crc, check_trailer, check_header,
  check_packet,
}

pub ints_equal_refl : (xs : List ℕ) → ints_equal xs xs ≡ true
ints_equal_refl [] = refl
ints_equal_refl (x ∷ xs) = ground (arith, ints_equal_refl xs)

pub ints_equal→eq : (xs ys : List ℕ) → ints_equal xs ys ≡ true → xs ≡ ys
ints_equal→eq [] [] h = refl
ints_equal→eq [] (y ∷ ys) h = cc
ints_equal→eq (x ∷ xs) [] h = cc
ints_equal→eq (x ∷ xs) (y ∷ ys) h = ground (arith, ints_equal→eq xs ys)

pub length-crc16_ccitt : (bs : List ℕ) → length (crc16_ccitt bs) ≡ 2
unfolding crc16_ccitt
length-crc16_ccitt bs = refl

pub length-block_body : (seq : ℕ) (cmd : List ℕ) → length (block_body seq cmd) ≡ length cmd + 2
unfolding block_body
length-block_body seq cmd = omega arith

-- A block at the head of a buffer, its parts bracketed to the right.
pub block_split :
    (seq : ℕ) (cmd rest : List ℕ)
    → encode_msgblock seq cmd ++ rest
      ≡ block_body seq cmd ++ (crc16_ccitt (block_body seq cmd) ++ (0x7e ∷ rest))
unfolding encode_msgblock
block_split seq cmd rest =
    append_assoc (block_body seq cmd) _ rest
    ∙ ap (λ t. block_body seq cmd ++ t)
        (append_assoc (crc16_ccitt (block_body seq cmd)) (0x7e ∷ []) rest)

slice_middle :
    (a b c : List ℕ) (i j : ℕ)
    → length a ≡ i
    → i + length b ≡ j
    → slice (a ++ (b ++ c)) i j ≡ some b
slice_middle a b c i j h k = ground (
  arith,
  length-append a (b ++ c),
  length-append b c,
  drop-append_left i a (b ++ c),
  take-append_left (j - i) b c,
)

-- The trailer of a body and its checksum passes.
trailer_accepts :
    (body rest : List ℕ) (n : ℕ)
    → length body + 3 ≡ n
    → check_trailer (body ++ (crc16_ccitt body ++ (0x7e ∷ rest))) n ≡ some (pos n)
unfolding check_trailer check_crc
trailer_accepts body rest n h = ground (
  arith,
  get_elem?-append_right (n - 1) body (crc16_ccitt body ++ (0x7e ∷ rest)) 2 (omega arith),
  get_elem?-append_right 2 (crc16_ccitt body) (0x7e ∷ rest) 0
      (omega (arith, length-crc16_ccitt body)),
  slice_middle body (crc16_ccitt body) (0x7e ∷ rest) (n - 3) (n - 3 + 2) (omega arith)
      (omega (arith, length-crc16_ccitt body)),
  take-append_left (n - 3) body (crc16_ccitt body ++ (0x7e ∷ rest)) (omega arith),
  ints_equal_refl (crc16_ccitt body),
)

-- A header and three more elements leave the verdict to the trailer.
header_accepts :
    (seq : ℕ) (cmd rest : List ℕ)
    → length cmd ≤ 59
    → 3 ≤ length rest
    → check_packet (block_body seq cmd ++ rest)
      ≡ check_trailer (block_body seq cmd ++ rest) (5 + length cmd)
unfolding check_packet check_header block_body
header_accepts seq cmd rest h k = ground (arith, length-append cmd rest)

-- A block at the head of a buffer is accepted whole, whatever follows it, if its payload has at most
-- 59 elements: the result is its length.
pub check_packet-encode_msgblock :
    (seq : ℕ) (cmd rest : List ℕ)
    → length cmd ≤ 59
    → check_packet (encode_msgblock seq cmd ++ rest) ≡ some (pos (5 + length cmd))
check_packet-encode_msgblock seq cmd rest h =
    let body = block_body seq cmd in
    let tail : List ℕ = crc16_ccitt body ++ (0x7e ∷ rest) in
    let sized : 3 ≤ length tail =
      omega (arith, length-crc16_ccitt body, length-append (crc16_ccitt body) (0x7e ∷ rest)) in
    ap check_packet (block_split seq cmd rest)
    ∙ header_accepts seq cmd tail h sized
    ∙ trailer_accepts body rest (5 + length cmd) (omega (arith, length-block_body seq cmd))

-- What a passed trailer says.
trailer_inverts :
    (s : List ℕ) (m n : ℕ)
    → 0 < n
    → check_trailer s m ≡ some (pos n)
    → (m ≡ n)
      × (get_elem? s (n - 1) ≡ some 0x7e)
      × (slice s (n - 3) (n - 3 + 2) ≡ some (crc16_ccitt (take (n - 3) s)))
unfolding check_trailer check_crc
trailer_inverts s m n p h = elim (Option-cases (slice s (m - 3) (m - 3 + 2))) [
  | inl e ↦ ground arith
  | inr (crc, e) ↦ ground (arith, ints_equal→eq (crc16_ccitt (take (m - 3) s)) crc)
]

-- What a passed header says.
header_inverts :
    (a b : ℕ) (t : List ℕ) (n : ℕ)
    → 0 < n
    → check_packet (a ∷ b ∷ t) ≡ some (pos n)
    → (5 ≤ a)
      × (a ≤ 64)
      × (b / 16 * 16 ≡ 16)
      × (a ≤ length t + 2)
      × (check_trailer (a ∷ b ∷ t) a ≡ some (pos n))
unfolding check_packet check_header
header_inverts a b t n p h = ground arith

slice_parts :
    (s : List ℕ) (i j : ℕ) {p : List ℕ}
    → slice s i j ≡ some p
    → (i ≤ j) × (j ≤ length s) × (p ≡ take (j - i) (drop i s))
slice_parts s i j h = ground arith

-- The trailer of an accepted buffer is its checksum and the sync byte.
trailer_shape :
    (s : List ℕ) (k : ℕ)
    → get_elem? s (k + 2) ≡ some 0x7e
    → slice s k (k + 2) ≡ some (crc16_ccitt (take k s))
    → take (k + 3) s ≡ take k s ++ (crc16_ccitt (take k s) ++ (0x7e ∷ []))
trailer_shape s k sync crc =
    let (_, _, sum) = slice_parts s k (k + 2) crc in
    let whole : suc (k + 2) ≡ k + 3 = omega arith in
    let two : k + 2 - k ≡ 2 = omega arith in
    sym (ap (λ i. take i s) whole)
    ∙ take-suc (k + 2) s 0x7e sync
    ∙ ap (λ t. t ++ (0x7e ∷ [])) (take_add k 2 s)
    ∙ append_assoc (take k s) (take 2 (drop k s)) (0x7e ∷ [])
    ∙ ap (λ t. take k s ++ (t ++ (0x7e ∷ []))) (sym (sum ∙ ap (λ i. take i (drop k s)) two))

-- The first `k + 2` elements of a buffer whose header is right are a block's body.
body_shape :
    (a b k : ℕ) (t : List ℕ)
    → b / 16 * 16 ≡ 16
    → a ≡ k + 5
    → k ≤ length t
    → take (k + 2) (a ∷ b ∷ t) ≡ block_body b (take k t)
unfolding block_body
body_shape a b k t hb ha ht =
    let shift : k + 2 ≡ suc (suc k) = omega arith in
    rw (shift, ha) (ground (arith, length-take k t))

accepted_shape :
    (a b k : ℕ) (t : List ℕ)
    → b / 16 * 16 ≡ 16
    → a ≡ k + 5
    → k ≤ length t
    → check_trailer (a ∷ b ∷ t) (k + 5) ≡ some (pos (k + 5))
    → take (k + 5) (a ∷ b ∷ t) ≡ encode_msgblock b (take k t)
unfolding encode_msgblock
accepted_shape a b k t hb ha ht passed =
    let (_, sync, crc) = trailer_inverts (a ∷ b ∷ t) (k + 5) (k + 5) (omega arith) passed in
    let last : k + 5 - 1 ≡ k + 2 + 2 = omega arith in
    let front : k + 5 - 3 ≡ k + 2 = omega arith in
    let whole : k + 5 ≡ k + 2 + 3 = omega arith in
    let body = body_shape a b k t hb ha ht in
    ap (λ i. take i (a ∷ b ∷ t)) whole
    ∙ trailer_shape (a ∷ b ∷ t) (k + 2) (rw last at sync) (rw front at crc)
    ∙ ap (λ c. c ++ (crc16_ccitt c ++ (0x7e ∷ []))) body

-- Whatever is accepted, with a positive result `n`, is a block that `Encode_msgblock` writes for a
-- payload of at most 59 elements, `n` is its length, and the buffer holds all of it.
pub check_packet_sound :
    (s : List ℕ) (n : ℕ)
    → 0 < n
    → check_packet s ≡ some (pos n)
    → (seq : ℕ) × (cmd : List ℕ) × (take n s ≡ encode_msgblock seq cmd)
      × (n ≡ 5 + length cmd)
      × (length cmd ≤ 59)
      × (n ≤ length s)
check_packet_sound [] n p h = unfold check_packet in absurd (ground arith)
check_packet_sound (a ∷ []) n p h = unfold check_packet in absurd (ground arith)
check_packet_sound (a ∷ b ∷ t) n p h =
    let (lo, hi, head, fits, passed) = header_inverts a b t n p h in
    let (same, _, _) = trailer_inverts (a ∷ b ∷ t) a n p passed in
    let k = n - 5 in
    let split : n ≡ k + 5 = omega arith in
    let sized : length (take k t) ≡ k = omega (arith, length-take k t) in
    let passed' : check_trailer (a ∷ b ∷ t) (k + 5) ≡ some (pos (k + 5)) = cc in
    (
      b,
      take k t,
      ap (λ i. take i (a ∷ b ∷ t)) split
          ∙ accepted_shape a b k t head (same ∙ split) (omega arith) passed',
      omega arith,
      omega arith,
      omega arith,
    )
