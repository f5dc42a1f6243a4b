-- ===== src/Tmc/Spi/Slots.antt =====
-- Which chip of a chain gets which bytes.
use klipper_go.Common.{
  ℕ, zero, suc, ◌+◌, ◌-◌, ◌*◌, ◌≤◌, ◌<◌, ◌≡◌, ◌≢◌, refl, sym, ap, ◌∙◌, some, List, [], ◌++◌, arith,
  length, take, append-nil, length-append, length-replicate, drop, replicate, drop-append_left,
  drop-append_right, take-append_left,
}
use native.Mathlib.Decide.{dec_lt}
use klipper_go.Tmc.Spi.{build_spi_chain_command, chip_slot}

-- A command is five bytes for each chip, and the chip at its own place is sent the given bytes.
chip_slot-build_own :
    (words : List ℕ) (chain_len chain_pos : ℕ)
    → length words ≡ 5
    → 1 ≤ chain_pos
    → chain_pos ≤ chain_len
    → (length (build_spi_chain_command words chain_len chain_pos) ≡ chain_len * 5)
      × (chip_slot (build_spi_chain_command words chain_len chain_pos) chain_len chain_pos
          ≡ some words)
unfolding chip_slot build_spi_chain_command
chip_slot-build_own words chain_len chain_pos h lo hi =
    let before = (chain_len - chain_pos) * 5 in
    let after = (chain_pos - 1) * 5 in
    let pre = replicate before 0 in
    let post = replicate after 0 in
    let total : length (pre ++ (words ++ post)) ≡ chain_len * 5 = omega (
      arith,
      length-append pre (words ++ post),
      length-append words post,
      length-replicate {A = ℕ} before 0,
      length-replicate {A = ℕ} after 0,
    ) in
    (
      total,
      ground (
        arith,
        total,
        drop-append_left before pre (words ++ post) (length-replicate before 0),
        take-append_left 5 words post h,
      ),
    )

-- Five zeros in front of more.
slot_of_zeros :
    (i n : ℕ) (tail : List ℕ) → i + 5 ≤ n → take 5 (drop i (replicate n 0 ++ tail)) ≡ replicate 5 0
slot_of_zeros zero n tail h =
    let five : n ≡ suc (suc (suc (suc (suc (n - 5))))) = omega arith in rw five refl
slot_of_zeros (suc i) zero tail h = absurd (omega arith)
slot_of_zeros (suc i) (suc n) tail h = slot_of_zeros i n tail (omega arith)

-- The two sides of the words: places below and above.
module _ (words : List ℕ) (h : length words ≡ 5) (before after i : ℕ) where
  slot_below :
      i + 5 ≤ before
      → take 5 (drop i (replicate before 0 ++ (words ++ replicate after 0))) ≡ replicate 5 0
  slot_below below = slot_of_zeros i before (words ++ replicate after 0) below

  slot_above :
      before + 5 ≤ i
      → i ≤ before + after
      → take 5 (drop i (replicate before 0 ++ (words ++ replicate after 0))) ≡ replicate 5 0
  slot_above above fits =
      let k = i - before in
      let past : drop i (replicate before 0 ++ (words ++ replicate after 0))
          ≡ drop k (words ++ replicate after 0) =
        drop-append_right i (replicate before 0) (words ++ replicate after 0) k
          (omega (arith, length-replicate {A = ℕ} before 0)) in
      let words_past : drop k (words ++ replicate after 0) ≡ drop (k - 5) (replicate after 0) =
        drop-append_right k words (replicate after 0) (k - 5) (omega arith) in
      ap (take 5) (past ∙ words_past)
      ∙ ap (λ t. take 5 (drop (k - 5) t)) (sym (append-nil (replicate after 0)))
      ∙ slot_of_zeros (k - 5) after [] (omega arith)

place_gap : (a b n : ℕ) → a < b → b ≤ n → (n - b) * 5 + 5 ≤ (n - a) * 5
place_gap a b n h k = omega arith

-- Every other chip of the chain is sent zeros.
chip_slot-build_other :
    (words : List ℕ) (chain_len chain_pos other : ℕ)
    → length words ≡ 5
    → 1 ≤ chain_pos
    → chain_pos ≤ chain_len
    → 1 ≤ other
    → other ≤ chain_len
    → other ≢ chain_pos
    → chip_slot (build_spi_chain_command words chain_len chain_pos) chain_len other
      ≡ some (replicate 5 0)
unfolding chip_slot build_spi_chain_command
chip_slot-build_other words chain_len chain_pos other h lo hi lo' hi' apart =
    let before = (chain_len - chain_pos) * 5 in
    let after = (chain_pos - 1) * 5 in
    let from = (chain_len - other) * 5 in
    let total : length (replicate {A = ℕ} before 0 ++ (words ++ replicate after 0))
        ≡ chain_len * 5 =
      omega (
        arith,
        length-append (replicate before 0) (words ++ replicate after 0),
        length-append words (replicate after 0),
        length-replicate {A = ℕ} before 0,
        length-replicate {A = ℕ} after 0,
      ) in
    elim (dec_lt other chain_pos) [
      | yes low ↦
          ground (arith, total, slot_above words h before after from (omega arith) (omega arith))
      | no high ↦ ground (arith, total, slot_below words h before after from (omega arith))
    ]

-- A command is five bytes for each chip of the chain, and in it the chip at its own place is sent the
-- given bytes, every other one zeros.
pub chip_slot-build :
    (words : List ℕ) (chain_len chain_pos : ℕ)
    → length words ≡ 5
    → 1 ≤ chain_pos
    → chain_pos ≤ chain_len
    → (length (build_spi_chain_command words chain_len chain_pos) ≡ chain_len * 5)
      × (chip_slot (build_spi_chain_command words chain_len chain_pos) chain_len chain_pos
          ≡ some words)
      × ((other : ℕ)
          → 1 ≤ other
          → other ≤ chain_len
          → other ≢ chain_pos
          → chip_slot (build_spi_chain_command words chain_len chain_pos) chain_len other
            ≡ some (replicate 5 0))
chip_slot-build words chain_len chain_pos h lo hi =
    let (size, own) = chip_slot-build_own words chain_len chain_pos h lo hi in
    (
      size,
      own,
      λ other from upto apart.
          chip_slot-build_other words chain_len chain_pos other h lo hi from upto apart,
    )
