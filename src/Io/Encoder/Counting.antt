-- ===== src/Io/Encoder/Counting.antt =====
-- The full-step encoder follows a wheel that moves by quarters of a detent.
use klipper_go.Common.{
  ℕ, zero, suc, ◌+◌, ◌*◌, ◌%◌, ◌<◌, ◌≡◌, refl, Bool, true, false, Option, none, some, List, [], ◌∷◌,
  arith,
}
use klipper_go.Io.Encoder.{Turn, cw, ccw, full_step, encoder_callback, turns, add_turn}

-- The two pins at a quarter of the wheel, counted clockwise from a detent: 3, 1, 0, 2.
abbrev pub gray : ℕ → ℕ
gray zero = 3
gray (suc zero) = 1
gray (suc (suc zero)) = 0
gray _ = 2

abbrev pub turned : Bool → ℕ → ℕ
turned true q = (q + 1) % 4
turned false q = (q + 3) % 4

-- What the pins show over a list of moves, `true` for clockwise.
abbrev pub inputs : ℕ → List Bool → List ℕ
inputs q [] = []
inputs q (d ∷ ds) = gray (turned d q) ∷ inputs (turned d q) ds

abbrev pub moves : Bool → List Bool → ℕ
moves true [] = 0
moves true (true ∷ ds) = 1 + moves true ds
moves true (false ∷ ds) = moves true ds
moves false [] = 0
moves false (true ∷ ds) = moves false ds
moves false (false ∷ ds) = 1 + moves false ds

abbrev pub reported_cw : List Turn → ℕ
reported_cw [] = 0
reported_cw (cw ∷ ts) = 1 + reported_cw ts
reported_cw (ccw ∷ ts) = reported_cw ts

abbrev pub reported_ccw : List Turn → ℕ
reported_ccw [] = 0
reported_ccw (cw ∷ ts) = reported_ccw ts
reported_ccw (ccw ∷ ts) = 1 + reported_ccw ts

-- Where the wheel is between two detents: at one, however it was reached, or some quarters past it.
data Phase : Type 0 where
  rest after_cw after_ccw : Phase
  cw1 cw2 cw3 ccw1 ccw2 ccw3 : Phase

abbrev code : Phase → ℕ
code rest = 0
code after_cw = 0x10
code after_ccw = 0x20
code cw1 = 2
code cw2 = 3
code cw3 = 1
code ccw1 = 4
code ccw2 = 6
code ccw3 = 5

abbrev quarter : Phase → ℕ
quarter cw1 = 1
quarter cw2 = 2
quarter cw3 = 3
quarter ccw1 = 3
quarter ccw2 = 2
quarter ccw3 = 1
quarter _ = 0

abbrev up : Phase → ℕ
up cw1 = 1
up cw2 = 2
up cw3 = 3
up _ = 0

abbrev down : Phase → ℕ
down ccw1 = 1
down ccw2 = 2
down ccw3 = 3
down _ = 0

-- One quarter further.
abbrev follow : Phase → Bool → Phase
follow rest true = cw1
follow after_cw true = cw1
follow after_ccw true = cw1
follow cw1 true = cw2
follow cw2 true = cw3
follow cw3 true = after_cw
follow ccw1 true = rest
follow ccw2 true = ccw1
follow ccw3 true = ccw2
follow rest false = ccw1
follow after_cw false = ccw1
follow after_ccw false = ccw1
follow cw1 false = rest
follow cw2 false = cw1
follow cw3 false = cw2
follow ccw1 false = ccw2
follow ccw2 false = ccw3
follow ccw3 false = after_ccw

abbrev report : Phase → Bool → Option Turn
report cw3 true = some cw
report ccw3 false = some ccw
report _ _ = none

-- One callback against its description; the wheel is where the phase says.
follows :
    (p : Phase) (d : Bool)
    → encoder_callback full_step (code p) (gray (turned d (quarter p)))
      ≡ some (code (follow p d), report p d)
unfolding encoder_callback
follows rest true = refl
follows rest false = refl
follows after_cw true = refl
follows after_cw false = refl
follows after_ccw true = refl
follows after_ccw false = refl
follows cw1 true = refl
follows cw1 false = refl
follows cw2 true = refl
follows cw2 false = refl
follows cw3 true = refl
follows cw3 false = refl
follows ccw1 true = refl
follows ccw1 false = refl
follows ccw2 true = refl
follows ccw2 false = refl
follows ccw3 true = refl
follows ccw3 false = refl

moves_on : (p : Phase) (d : Bool) → turned d (quarter p) ≡ quarter (follow p d)
moves_on rest true = refl
moves_on rest false = refl
moves_on after_cw true = refl
moves_on after_cw false = refl
moves_on after_ccw true = refl
moves_on after_ccw false = refl
moves_on cw1 true = refl
moves_on cw1 false = refl
moves_on cw2 true = refl
moves_on cw2 false = refl
moves_on cw3 true = refl
moves_on cw3 false = refl
moves_on ccw1 true = refl
moves_on ccw1 false = refl
moves_on ccw2 true = refl
moves_on ccw2 false = refl
moves_on ccw3 true = refl
moves_on ccw3 false = refl

-- A move changes the quarters past the detent by one, or completes a turn.
accounts :
    (p : Phase) (d : Bool) (ds : List Bool) (q : Phase) (ts : List Turn)
    → moves true ds + up (follow p d) + 4 * reported_ccw ts + down q
      ≡ moves false ds + down (follow p d) + 4 * reported_cw ts + up q
    → moves true (d ∷ ds) + up p + 4 * reported_ccw (add_turn (report p d) ts) + down q
      ≡ moves false (d ∷ ds) + down p + 4 * reported_cw (add_turn (report p d) ts) + up q
accounts rest true ds q ts h = omega (arith, h)
accounts rest false ds q ts h = omega (arith, h)
accounts after_cw true ds q ts h = omega (arith, h)
accounts after_cw false ds q ts h = omega (arith, h)
accounts after_ccw true ds q ts h = omega (arith, h)
accounts after_ccw false ds q ts h = omega (arith, h)
accounts cw1 true ds q ts h = omega (arith, h)
accounts cw1 false ds q ts h = omega (arith, h)
accounts cw2 true ds q ts h = omega (arith, h)
accounts cw2 false ds q ts h = omega (arith, h)
accounts cw3 true ds q ts h = omega (arith, h)
accounts cw3 false ds q ts h = omega (arith, h)
accounts ccw1 true ds q ts h = omega (arith, h)
accounts ccw1 false ds q ts h = omega (arith, h)
accounts ccw2 true ds q ts h = omega (arith, h)
accounts ccw2 false ds q ts h = omega (arith, h)
accounts ccw3 true ds q ts h = omega (arith, h)
accounts ccw3 false ds q ts h = omega (arith, h)

extend :
    (es es' last s : ℕ) (ss : List ℕ) (turn : Option Turn) (ts : List Turn)
    → encoder_callback full_step es s ≡ some (es', turn)
    → turns full_step es' ss ≡ some (last, ts)
    → turns full_step es (s ∷ ss) ≡ some (last, add_turn turn ts)
unfolding turns
extend es es' last s ss turn ts h k = ground (arith, h, k)

run_from :
    (ds : List Bool) (p : Phase)
    → (q : Phase) × (ts : List Turn) × (turns full_step (code p) (inputs (quarter p) ds)
        ≡ some (code q, ts))
      × (moves true ds + up p + 4 * reported_ccw ts + down q
          ≡ moves false ds + down p + 4 * reported_cw ts + up q)
unfolding turns
run_from [] p = (p, [], refl, omega arith)
run_from (d ∷ ds) p =
    let (q, ts, ran, counted) = run_from ds (follow p d) in
    (
      q,
      add_turn (report p d) ts,
      extend (code p) (code (follow p d)) (code q) (gray (turned d (quarter p)))
          (inputs (turned d (quarter p)) ds) (report p d) ts (follows p d) (rw (moves_on p d) ran),
      accounts p d ds q ts counted,
    )

between : (q : Phase) → (up q < 4) × (down q < 4)
between rest = (omega arith, omega arith)
between after_cw = (omega arith, omega arith)
between after_ccw = (omega arith, omega arith)
between cw1 = (omega arith, omega arith)
between cw2 = (omega arith, omega arith)
between cw3 = (omega arith, omega arith)
between ccw1 = (omega arith, omega arith)
between ccw2 = (omega arith, omega arith)
between ccw3 = (omega arith, omega arith)

-- From a detent, over any moves of the wheel by quarters, back and forth, the encoder never panics,
-- and the reported turns follow the wheel: four times the reports and the quarters moved, each
-- counted clockwise less anticlockwise, differ by less than one detent.
pub full_step_counts :
    (ds : List Bool)
    → (es : ℕ) × (ts : List Turn) × (turns full_step 0 (inputs 0 ds) ≡ some (es, ts))
      × (moves true ds + 4 * reported_ccw ts < moves false ds + 4 * reported_cw ts + 4)
      × (moves false ds + 4 * reported_cw ts < moves true ds + 4 * reported_ccw ts + 4)
full_step_counts ds =
    let (q, ts, ran, counted) = run_from ds rest in
    let (above, below) = between q in (code q, ts, ran, omega arith, omega arith)
