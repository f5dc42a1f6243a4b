-- ===== src/Io/Buttons/InOrder.antt =====
-- Every button report is handled once and in order, although messages repeat reports that have not
-- been acknowledged and give their place by one byte.
use klipper_go.Common.{
  ℕ, all_below_lem, ◌+◌, ◌-◌, ◌%◌, ◌≤◌, ◌<◌, ◌≡◌, refl, sym, ap, ◌∙◌, Bool, false, Option, none,
  some, List, [], ◌∷◌, ◌++◌, ltb, leb, ◌==◌, if◌then◌else◌, length, length-take, length-drop,
  drop_add, take_add, drop-take, drop, take, not, arith, max, Bool-cases, inl, inr,
}
use klipper_go.Common.Int.{pos, ◌-ℤ◌, mask_ℤ}
use Prim.Native.Nat.{bit_and}
use klipper_go.Io.Buttons.{DigitalButtonState, ack_diff, new_count, take_new, handle_buttons_state}

same_bit : ℕ → Bool
same_bit low = if not (bit_and low 0x80 == 0) then leb 128 low else not (leb 128 low)

-- Whether bit 7 of a byte is set.
top_bit : (low : ℕ) → low < 256 → not (bit_and low 0x80 == 0) ≡ leb 128 low
unfolding same_bit
top_bit low h = let checked = all_below_lem 256 low same_bit refl h in ground arith

ack_diff-near :
    (ack acked : ℕ)
    → acked ≤ ack
    → ack ≤ acked + 127
    → ack_diff ack (pos (acked % 256)) ≡ pos (ack - acked)
unfolding ack_diff
ack_diff-near ack acked p q =
    let low : mask_ℤ 8 (pos ack -ℤ pos (acked % 256)) ≡ ack - acked = ground arith in
    let top = top_bit (ack - acked) (omega arith) in rw (low, top) (ground arith)

-- The new reports are those behind the ones that are counted.
new_count-near :
    (ack acked n : ℕ)
    → acked ≤ ack
    → ack ≤ acked + 127
    → new_count ack (pos (acked % 256)) n ≡ pos (acked + n) -ℤ pos ack
unfolding new_count
new_count-near ack acked n p q = rw (ack_diff-near ack acked p q) (ground arith)

module _ (stream : List ℕ) where
  -- The reports that a message carries: `n` of them from number `acked` on.
  abbrev pub carried : ℕ → ℕ → List ℕ
  carried acked n = take n (drop acked stream)

  -- What a message brings to a host that has counted `ack` reports.
  abbrev pub fresh : ℕ → ℕ → ℕ → List ℕ
  fresh ack acked n = take (acked + n - ack) (drop ack stream)

  handle_near :
      (self : DigitalButtonState) (acked n : ℕ)
      → acked ≤ self.ack_count
      → self.ack_count ≤ acked + 127
      → acked + n ≤ length stream
      → handle_buttons_state (pos (acked % 256)) (carried acked n) self ≡ (
          if leb (acked + n) self.ack_count
          then some (self, none, [])
          else some (
            record self { ack_count = acked + n },
            some (acked + n - self.ack_count),
            fresh self.ack_count acked n,
          ))
  unfolding handle_buttons_state take_new
  handle_near self acked n p q r =
      let len : length (carried acked n) ≡ n =
        omega (arith, length-take n (drop acked stream), length-drop acked stream) in
      let count = new_count-near self.ack_count acked n p q in
      rw (len, count)
        (elim (Bool-cases (leb (acked + n) self.ack_count)) [
          | inl old ↦ ground arith
          | inr new ↦
              let k = acked + n - self.ack_count in
              let count' : pos (acked + n) -ℤ pos self.ack_count
                  ≡ pos (acked + n - self.ack_count) =
                ground arith in
              let reports : drop (n - (acked + n - self.ack_count)) (carried acked n)
                  ≡ fresh self.ack_count acked n =
                let skipped : n - (acked + n - self.ack_count) ≡ self.ack_count - acked =
                  ground arith in
                let left : n - (self.ack_count - acked) ≡ acked + n - self.ack_count =
                  ground arith in
                let whole : acked + (self.ack_count - acked) ≡ self.ack_count = ground arith in
                let twice = drop_add acked (self.ack_count - acked) stream in
                let cut = drop-take (self.ack_count - acked) n (drop acked stream) in
                rw skipped (
                  cut
                  ∙ ap (λ i. take i (drop (self.ack_count - acked) (drop acked stream))) left
                  ∙ ap (take (acked + n - self.ack_count))
                      (sym twice ∙ ap (λ i. drop i stream) whole)) in
              let some_new : (k == 0) ≡ false = ground arith in
              let enough : ltb n k ≡ false = ground arith in
              let total : self.ack_count + k ≡ acked + n = ground arith in
              rw (count', some_new, len, enough, new, total, reports) refl
        ])

  -- Messages as the micro-controller sends them: from the last report that it knows to be counted,
  -- at most 127 back, and no further than the stream goes.
  abbrev pub Deliveries : ℕ → List (ℕ × ℕ) → Type 0
  Deliveries ack [] = Unit {0}
  Deliveries ack ((acked, n) ∷ ds) =
      (acked ≤ ack)
      × (ack ≤ acked + 127)
      × (acked + n ≤ length stream)
      × Deliveries (max ack (acked + n)) ds

  -- The handler on each message: the last state and all reports that were scheduled.
  unfoldable pub handle_all :
      List (ℕ × ℕ) → DigitalButtonState → Option (DigitalButtonState × List ℕ)
  handle_all [] self = some (self, [])
  handle_all ((acked, n) ∷ ds) self =
      elim (handle_buttons_state (pos (acked % 256)) (carried acked n) self) [
        | none ↦ none
        | some (self', sent, first) ↦ elim (handle_all ds self') [
          | none ↦ none
          | some (last, rest) ↦ some (last, first ++ rest)
        ]
      ]

  extend :
      (acked n : ℕ) (ds : List (ℕ × ℕ)) (self self' last : DigitalButtonState) (sent : Option ℕ)
      (first rest : List ℕ)
      → handle_buttons_state (pos (acked % 256)) (carried acked n) self ≡ some (self', sent, first)
      → handle_all ds self' ≡ some (last, rest)
      → handle_all ((acked, n) ∷ ds) self ≡ some (last, first ++ rest)
  unfolding handle_all
  extend acked n ds self self' last sent first rest h k = ground (arith, h, k)

  joined :
      (a b c : ℕ)
      → a ≤ b
      → b ≤ c
      → take (b - a) (drop a stream) ++ take (c - b) (drop b stream) ≡ take (c - a) (drop a stream)
  joined a b c p q =
      let whole : c - a ≡ (b - a) + (c - b) = omega arith in
      let back : a + (b - a) ≡ b = omega arith in
      let split = take_add (b - a) (c - b) (drop a stream) in
      let moved = drop_add a (b - a) stream in
      rw whole (
        sym (
          split
          ∙ ap (λ xs. take (b - a) (drop a stream) ++ take (c - b) xs)
              (sym moved ∙ ap (λ i. drop i stream) back)))

  -- However often the messages of a micro-controller repeat reports, the host never panics, and it
  -- schedules every report once and in order: what it schedules is what the stream has from its
  -- count before the messages up to its count after them.
  pub handle_all_in_order :
      (ds : List (ℕ × ℕ)) (self : DigitalButtonState)
      → Deliveries self.ack_count ds
      → (last : DigitalButtonState) × (scheduled : List ℕ) × (handle_all ds self
          ≡ some (last, scheduled))
        × (self.ack_count ≤ last.ack_count)
        × (scheduled ≡ take (last.ack_count - self.ack_count) (drop self.ack_count stream))
  unfolding handle_all
  handle_all_in_order [] self h =
      let nothing : self.ack_count - self.ack_count ≡ 0 = omega arith in
      (self, [], refl, omega arith, rw nothing refl)
  handle_all_in_order ((acked, n) ∷ ds) self (p, q, r, more) =
      elim (Bool-cases (leb (acked + n) self.ack_count)) [
        | inl old ↦
            let same : max self.ack_count (acked + n) ≡ self.ack_count = ground arith in
            let first : handle_buttons_state (pos (acked % 256)) (carried acked n) self
                ≡ some (self, none, []) =
              handle_near self acked n p q r ∙ rw old refl in
            let (last, rest, ran, further, kept) = handle_all_in_order ds self (rw same at more) in
            (last, rest, extend acked n ds self self last none [] rest first ran, further, kept)
        | inr new ↦
            let same : max self.ack_count (acked + n) ≡ acked + n = ground arith in
            let self' : DigitalButtonState = record self { ack_count = acked + n } in
            let first : handle_buttons_state (pos (acked % 256)) (carried acked n) self
                ≡ some (self', some (acked + n - self.ack_count), fresh self.ack_count acked n) =
              handle_near self acked n p q r ∙ rw new refl in
            let (last, rest, ran, further, kept) = handle_all_in_order ds self' (rw same at more) in
            let go = further in
            (
              last,
              fresh self.ack_count acked n ++ rest,
              extend acked n ds self self' last (some (acked + n - self.ack_count))
                  (fresh self.ack_count acked n) rest first ran,
              ground arith,
              rw kept (joined self.ack_count (acked + n) last.ack_count (ground arith) go),
            )
      ]
