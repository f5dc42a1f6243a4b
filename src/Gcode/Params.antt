-- ===== src/Gcode/Params.antt =====
-- The parameters of a command, command_params.go. A parameter is what `strconv.ParseFloat` makes of its
-- text: `absent` is no parameter, `blank` the empty text, `bad v` an error with the value beside it.
use klipper_go.Common.{Bool, ◌||◌, Option, none, some, if◌then◌else◌}
use klipper_go.Common.Real.{Float}

pub data Word (F : Type 0) : Type 0 where
  absent blank : Word F
  bad : F → Word F
  value : F → Word F

module _ (R : Float) where
  open R use {F, eq_f, lt_f}

  -- The four bounds of `Get_float`; a value out of a bound becomes the bound.
  pub record Bounds : Type 0 where
    pub minval : Option F
    pub maxval : Option F
    pub above : Option F
    pub below : Option F

  abbrev pub le_f : F → F → Bool
  le_f a b = lt_f a b || eq_f a b

  unfoldable pub or_bound : (F → F → Bool) → Option F → F → F → F
  or_bound outside none val other = other
  or_bound outside (some bound) val other = if outside val bound then bound else other

  unfoldable pub bounded : Bounds → F → F
  unfolding or_bound
  bounded bounds val =
      or_bound (λ v b. lt_f v b) bounds.minval val
        (or_bound (λ v b. lt_f b v) bounds.maxval val
          (or_bound (λ v b. le_f v b) bounds.above val
            (or_bound (λ v b. le_f b v) bounds.below val val)))

  -- `Get_float` with a default.
  unfoldable pub get_float : Word F → F → Bounds → F
  get_float absent default bounds = default
  get_float blank default bounds = default
  get_float (bad val) default bounds = bounded bounds val
  get_float (value val) default bounds = bounded bounds val

  -- `Get_float` with NaN as the default and no bounds, and the test `math.IsNaN` of its callers.
  unfoldable pub unless_nan : F → Option F
  unless_nan val = if eq_f val val then some val else none

  unfoldable pub float_given : Word F → Option F
  unfolding unless_nan
  float_given absent = none
  float_given blank = none
  float_given (bad val) = unless_nan val
  float_given (value val) = unless_nan val

  abbrev pub unbounded : Bounds
  unbounded = record { minval = none; maxval = none; above = none; below = none }

  abbrev pub above_only : F → Bounds
  above_only bound = record { minval = none; maxval = none; above = some bound; below = none }
