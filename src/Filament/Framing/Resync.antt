-- ===== src/Filament/Framing/Resync.antt =====
-- A frame that the host's own writer makes is read back, whatever stands around it.
use klipper_go.Common.{
  ℕ, ◌+◌, ◌-◌, ◌*◌, ◌/◌, ◌%◌, ◌≤◌, ◌≡◌, ◌≢◌, refl, ◌∙◌, true, false, List, [], ◌∷◌, ◌++◌, All,
  arith, length, take, drop, ltb, leb, ◌==◌, ==_refl, length-append, take-append_left,
  drop-append_left, get_elem?-append_right,
}
use mathlib.Core.Path.{ap₂}
use klipper_go.Common.Bits.{bit_or_fields}
use klipper_go.Msgproto.Crc.{IsByte}
use klipper_go.Filament.Framing.{
  frame, at, payload_len, take_frame, check_frame, read_frame, payload, calc_crc,
}
use klipper_go.Filament.Framing.Checksum.{calc_crc-lt}

length-frame : (p : List ℕ) → length (frame p) ≡ length p + 7
unfolding frame
length-frame p =
    omega (arith, length-append p ((calc_crc p % 256) ∷ (calc_crc p / 256 % 256) ∷ 0xfe ∷ []))

payload_len-frame : (p rest : List ℕ) → length p ≤ 4089 → payload_len (frame p ++ rest) ≡ length p
unfolding frame
payload_len-frame p rest h =
    bit_or_fields 8 (length p % 256) (length p / 256 % 256) (omega arith) ∙ omega arith

-- The test of one place of the buffer, with its answer.
take_here :
    (b n : ℕ) (bs : List ℕ)
    → b ≡ 0xff
    → at bs 0 ≡ 0xaa
    → payload_len (b ∷ bs) ≡ n
    → n ≤ 4089
    → n + 7 ≤ length (b ∷ bs)
    → take_frame (b ∷ bs) ≡ (take (n + 7) (b ∷ bs), drop (n + 7) (b ∷ bs))
unfolding take_frame
take_here b n bs start second len fits whole =
    let enough : ltb (length (b ∷ bs)) 7 ≡ false = ground arith in
    let first : (b == 0xff) ≡ true = ground arith in
    let next : (at bs 0 == 0xaa) ≡ true = ground arith in
    let small : ltb 4096 (n + 7) ≡ false = ground arith in
    let all' : leb (n + 7) (length (b ∷ bs)) ≡ true = ground arith in
    rw (enough, first, next, len, small, all') refl

skip_here :
    (b : ℕ) (bs : List ℕ) → b ≢ 0xff → 7 ≤ length (b ∷ bs) → take_frame (b ∷ bs) ≡ take_frame bs
unfolding take_frame
skip_here b bs other whole =
    let enough : ltb (length (b ∷ bs)) 7 ≡ false = ground arith in
    let first : (b == 0xff) ≡ false = ground arith in rw (enough, first) refl

take-frame : (p rest : List ℕ) → length p ≤ 4089 → take_frame (frame p ++ rest) ≡ (frame p, rest)
take-frame p rest h =
    let found : take_frame (frame p ++ rest)
        ≡ (take (length p + 7) (frame p ++ rest), drop (length p + 7) (frame p ++ rest)) =
      unfold frame in
      take_here 0xff (length p) (drop 1 (frame p) ++ rest) refl refl (payload_len-frame p rest h) h
        (omega (arith, length-frame p, length-append (frame p) rest)) in
    found
    ∙ ap₂ (λ whole left. (whole, left))
        (take-append_left (length p + 7) (frame p) rest (length-frame p))
        (drop-append_left (length p + 7) (frame p) rest (length-frame p))

at_trailer :
    (a b c d : ℕ) (p t : List ℕ) (i k : ℕ)
    → k ≡ 4 + (length p + i)
    → at (a ∷ b ∷ c ∷ d ∷ (p ++ t)) k ≡ at t i
at_trailer a b c d p t i k h =
    rw (get_elem?-append_right k (a ∷ b ∷ c ∷ d ∷ p) t i (omega arith), at) refl

-- Noise without a start byte is dropped.
skip_noise :
    (noise buffer : List ℕ)
    → All (λ b. b ≢ 0xff) noise
    → 7 ≤ length buffer
    → take_frame (noise ++ buffer) ≡ take_frame buffer
skip_noise [] buffer quiet enough = refl
skip_noise (b ∷ bs) buffer quiet enough =
    skip_here b (bs ++ buffer) quiet.0 (omega (arith, length-append bs buffer))
    ∙ skip_noise bs buffer quiet.1 enough

check_here :
    (b n : ℕ) (bs p : List ℕ)
    → payload_len (b ∷ bs) ≡ n
    → at (b ∷ bs) (length (b ∷ bs) - 1) ≡ 0xfe
    → take n (drop 4 (b ∷ bs)) ≡ p
    → at (b ∷ bs) (4 + n) + at (b ∷ bs) (5 + n) * 256 ≡ calc_crc p
    → check_frame (b ∷ bs) ≡ payload p
unfolding check_frame
check_here b n bs p len end' body crc =
    let ends : (at (b ∷ bs) (length (b ∷ bs) - 1) == 0xfe) ≡ true = rw end' refl in
    let sums : (at (b ∷ bs) (4 + n) + at (b ∷ bs) (5 + n) * 256 == calc_crc p) ≡ true =
      rw crc (==_refl (calc_crc p)) in
    rw (ends, len, body, sums) refl

check-frame : (p : List ℕ) → length p ≤ 4089 → All IsByte p → check_frame (frame p) ≡ payload p
unfolding frame
check-frame p h bytes =
    let t = (calc_crc p % 256) ∷ (calc_crc p / 256 % 256) ∷ 0xfe ∷ [] in
    let a = length p % 256 in
    let b = length p / 256 % 256 in
    let low = at_trailer 0xff 0xaa a b p t 0 (4 + length p) (omega arith) in
    let high = at_trailer 0xff 0xaa a b p t 1 (5 + length p) (omega arith) in
    let end' =
      at_trailer 0xff 0xaa a b p t 2 (length (frame p) - 1) (omega (arith, length-frame p)) in
    let len : payload_len (frame p) ≡ length p =
      bit_or_fields 8 (length p % 256) (length p / 256 % 256) (omega arith) ∙ omega arith in
    check_here 0xff (length p) (drop 1 (frame p)) p len end' (take-append_left (length p) p t refl)
      (rw (low, high) (omega (arith, calc_crc-lt p bytes)))

-- A frame that was written for a payload of bytes, of at most 4089 of them, is read back although
-- bytes other than 0xff stand in front and anything behind: the payload comes out, and exactly what
-- stands behind the frame stays in the buffer.
pub read_frame-frame :
    (noise p rest : List ℕ)
    → All (λ b. b ≢ 0xff) noise
    → length p ≤ 4089
    → All IsByte p
    → read_frame (noise ++ (frame p ++ rest)) ≡ (rest, payload p)
unfolding read_frame
read_frame-frame noise p rest quiet h bytes =
    let found =
      skip_noise noise (frame p ++ rest) quiet
        (omega (arith, length-frame p, length-append (frame p) rest))
      ∙ take-frame p rest h in
    rw (found, check-frame p h bytes) refl
