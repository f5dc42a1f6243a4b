-- ===== src/Io/Encoder.antt =====
-- `RotaryEncoder` of buttons.go with its two tables.
pub mod Counting
use klipper_go.Common.{
  ℕ, zero, suc, ◌+◌, ◌%◌, ◌<◌, ◌≡◌, refl, ap, sym, ◌∙◌, Bool, true, false, ◌&&◌, Option, none, some,
  List, [], ◌∷◌, ◌==◌, ltb, if◌then◌else◌, get_elem?, arith, Bool-cases, inl, inr, Option-cases,
  all_below_lem,
}
use Prim.Native.Nat.{bit_and}

pub data Turn : Type 0 where
  cw ccw : Turn

-- The two directions' bits and their mask are the same for both tables.
abbrev r_dir_cw : ℕ
r_dir_cw = 0x10

abbrev r_dir_ccw : ℕ
r_dir_ccw = 0x20

abbrev r_dir_mask : ℕ
r_dir_mask = 0x30

abbrev pub full_step : List (List ℕ)
full_step =
    (0 ∷ 2 ∷ 4 ∷ 0 ∷ [])
    ∷ (3 ∷ 0 ∷ 1 ∷ 0x10 ∷ [])
    ∷ (3 ∷ 2 ∷ 0 ∷ 0 ∷ [])
    ∷ (3 ∷ 2 ∷ 1 ∷ 0 ∷ [])
    ∷ (6 ∷ 0 ∷ 4 ∷ 0 ∷ [])
    ∷ (6 ∷ 5 ∷ 0 ∷ 0x20 ∷ [])
    ∷ (6 ∷ 5 ∷ 4 ∷ 0 ∷ [])
    ∷ []

abbrev pub half_step : List (List ℕ)
half_step =
    (3 ∷ 2 ∷ 1 ∷ 0 ∷ [])
    ∷ (0x23 ∷ 0 ∷ 1 ∷ 0 ∷ [])
    ∷ (0x13 ∷ 2 ∷ 0 ∷ 0 ∷ [])
    ∷ (3 ∷ 5 ∷ 4 ∷ 0 ∷ [])
    ∷ (3 ∷ 3 ∷ 4 ∷ 0x10 ∷ [])
    ∷ (3 ∷ 5 ∷ 3 ∷ 0x20 ∷ [])
    ∷ []

abbrev turn_of : ℕ → Option Turn
turn_of es =
    if bit_and es r_dir_mask == r_dir_cw
    then some cw
    else if bit_and es r_dir_mask == r_dir_ccw
    then some ccw
    else none

-- `Encoder_callback`: the next state, and the callback that is called; an index out of the table is
-- a panic.
unfoldable pub encoder_callback : List (List ℕ) → ℕ → ℕ → Option (ℕ × Option Turn)
encoder_callback states encoder_state state = elim (get_elem? states (bit_and encoder_state 0xf)) [
  | none ↦ none
  | some row ↦ elim (get_elem? row (bit_and state 3)) [
    | none ↦ none
    | some es ↦ some (es, turn_of es)
  ]
]

abbrev pub add_turn : Option Turn → List Turn → List Turn
add_turn none ts = ts
add_turn (some t) ts = t ∷ ts

-- The callback for one input after the other.
unfoldable pub turns : List (List ℕ) → ℕ → List ℕ → Option (ℕ × List Turn)
turns states es [] = some (es, [])
turns states es (s ∷ ss) = elim (encoder_callback states es s) [
  | none ↦ none
  | some (es', turn) ↦ elim (turns states es' ss) [
    | none ↦ none
    | some (last, rest) ↦ some (last, add_turn turn rest)
  ]
]
