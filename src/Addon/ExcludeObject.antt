-- ===== src/Addon/ExcludeObject.antt =====
-- `ExcludeObject` of exclude_object.go. A position has four axes, floats are a parameter, and so are
-- `sort` on names and what the transform answers; a move of the transform is an output. Of an
-- object's definition only the name is kept. `lastPosition` is read only with a transform.
pub mod Calls
use klipper_go.Common.{
  ℕ, ◌-◌, Bool, true, false, not, ◌&&◌, ◌||◌, Option, none, some, List, [], ◌∷◌, ◌++◌, ◌==◌,
  if◌then◌else◌,
}
use klipper_go.Common.Real.{Float}
use klipper_go.Common.Assoc.{lookup, insert}
use Prim.Native.String.{String}
use text.Mathlib.Text.{◌==◌ as str_eq}

pub record Position (F : Type 0) : Type 0 where
  pub x : F
  pub y : F
  pub z : F
  pub e : F

pub record ExcludeObject (F : Type 0) : Type 0 where
  pub has_transform : Bool
  pub last_position_extruded : Position F
  pub last_position_excluded : Position F
  pub objects : List String
  pub excluded_objects : List String
  pub current_object : Option String
  pub in_excluded_region : Bool
  pub last_position : Position F
  pub extrusion_offsets : List (String × Position F)
  pub max_position_extruded : F
  pub max_position_excluded : F
  pub extruder_adj : F
  pub initial_extrusion_moves : ℕ

unfoldable pub contains_name : String → List String → Bool
contains_name name [] = false
contains_name name (held ∷ rest) = str_eq held name || contains_name name rest

unfoldable pub remove_first : String → List String → List String
remove_first name [] = []
remove_first name (held ∷ rest) = if str_eq held name then rest else held ∷ remove_first name rest

-- `testInExcludedRegion`; an empty name is `none`.
unfoldable pub test_in_excluded_region : {F : Type 0} → ExcludeObject F → Bool
test_in_excluded_region self = elim self.current_object [
  | none ↦ false
  | some name ↦ self.initial_extrusion_moves == 0
]

unfoldable pub object_is_excluded : {F : Type 0} → String → ExcludeObject F → Bool
unfolding contains_name
object_is_excluded name self = contains_name name self.excluded_objects

-- An empty name means that no object is current.
unfoldable pub object_named : String → Option String
object_named name = if str_eq name "" then none else some name

module _ {F : Type 0} (sort : List String → List String) where
  -- `StartObject`, with `AddObjectDefinition` for a name that is new.
  unfoldable pub start_object : String → ExcludeObject F → ExcludeObject F
  unfolding contains_name object_named
  start_object name self = record self {
    current_object = object_named name;
    objects =
        if contains_name name self.objects
        then self.objects
        else sort (self.objects ++ (name ∷ []));
  }

  -- `Exclude`
  unfoldable pub exclude : String → ExcludeObject F → ExcludeObject F
  unfolding object_is_excluded
  exclude name self =
      if object_is_excluded name self
      then self
      else record self { excluded_objects = sort (self.excluded_objects ++ (name ∷ [])) }

  -- `Unexclude`
  unfoldable pub unexclude : String → ExcludeObject F → ExcludeObject F
  unfolding object_is_excluded remove_first
  unexclude name self =
      if object_is_excluded name self
      then record self { excluded_objects = sort (remove_first name self.excluded_objects) }
      else self

abbrev is_current : Option String → String → Bool
is_current none given = false
is_current (some held) given = str_eq given held

abbrev mismatches : Option String → Option String → Bool
mismatches current none = false
mismatches current (some given) = not (is_current current given)

-- `ClearExcluded`
unfoldable pub clear_excluded : {F : Type 0} → ExcludeObject F → ExcludeObject F
clear_excluded self = record self { excluded_objects = [] }

-- `EndObject`, with whether the name that is given does not match.
unfoldable pub end_object : {F : Type 0} → Option String → ExcludeObject F → ExcludeObject F × Bool
end_object name self = (record self { current_object = none }, mismatches self.current_object name)

module _ (R : Float) where
  unfoldable pub add_position : Position R.F → Position R.F → Position R.F
  add_position p q = record {
    x = R.add_f p.x q.x;
    y = R.add_f p.y q.y;
    z = R.add_f p.z q.z;
    e = R.add_f p.e q.e;
  }

  unfoldable pub sub_position : Position R.F → Position R.F → Position R.F
  sub_position p q = record {
    x = R.sub_f p.x q.x;
    y = R.sub_f p.y q.y;
    z = R.sub_f p.z q.z;
    e = R.sub_f p.e q.e;
  }

  abbrev pub origin : Position R.F
  origin = record { x = R.zero_f; y = R.zero_f; z = R.zero_f; e = R.zero_f }

  abbrev pub differs : R.F → R.F → Bool
  differs a b = not (R.eq_f a b)

  -- `getExtrusionOffsets`
  unfoldable pub get_extrusion_offsets : String → ExcludeObject R.F → Position R.F
  unfolding lookup
  get_extrusion_offsets extruder self = elim (lookup extruder self.extrusion_offsets) [
    | none ↦ origin
    | some offset ↦ offset
  ]

  unfoldable pub set_offsets : String → Position R.F → ExcludeObject R.F → ExcludeObject R.F
  unfolding insert
  set_offsets extruder offset self = record self {
    extrusion_offsets = insert extruder offset self.extrusion_offsets;
  }

  -- `AttachTransform`, with the position that the transform answers.
  unfoldable pub attach_transform : Position R.F → String → ExcludeObject R.F → ExcludeObject R.F
  unfolding add_position get_extrusion_offsets
  attach_transform position extruder self =
      let here = add_position position (get_extrusion_offsets extruder self) in
      record self {
        has_transform = true;
        max_position_extruded = R.zero_f;
        max_position_excluded = R.zero_f;
        extruder_adj = R.zero_f;
        initial_extrusion_moves = 5;
        last_position = here;
        last_position_extruded = here;
        last_position_excluded = here;
        in_excluded_region = false;
      }

  -- `GetPosition`, with the position that the transform answers. It notes what it answers.
  unfoldable pub get_position :
      Position R.F → String → ExcludeObject R.F → ExcludeObject R.F × Option (Position R.F)
  unfolding add_position get_extrusion_offsets
  get_position position extruder self =
      let here = add_position position (get_extrusion_offsets extruder self) in
      if self.has_transform then (record self { last_position = here }, some here) else (self, none)

  -- The three changes of `normalMove` to the offset, each with the pending extruder adjustment.
  unfoldable pub leave_xy : Position R.F → Position R.F → Position R.F × R.F → Position R.F × R.F
  leave_xy newpos excluded (offset, adj) =
      if (differs offset.x R.zero_f || differs offset.y R.zero_f)
        && (differs newpos.x excluded.x || differs newpos.y excluded.y)
      then (record { x = R.zero_f; y = R.zero_f; z = R.zero_f; e = R.add_f offset.e adj }, R.zero_f)
      else (offset, adj)

  unfoldable pub leave_z : Position R.F → Position R.F → Position R.F × R.F → Position R.F × R.F
  leave_z newpos excluded (offset, adj) =
      if differs offset.z R.zero_f && differs newpos.z excluded.z
      then (record offset { z = R.zero_f }, adj)
      else (offset, adj)

  unfoldable pub leave_e : Position R.F → Position R.F → Position R.F × R.F → Position R.F × R.F
  leave_e newpos excluded (offset, adj) =
      if differs adj R.zero_f && differs newpos.e excluded.e
      then (record offset { e = R.add_f offset.e adj }, R.zero_f)
      else (offset, adj)

  -- The rest of `normalMove`, with the offset and the adjustment that are left.
  unfoldable pub finish_normal :
      Position R.F
      → String
      → ExcludeObject R.F
      → Position R.F × R.F
      → ExcludeObject R.F × List (Position R.F)
  unfolding set_offsets sub_position
  finish_normal newpos extruder self (offset, adj) =
      let fewer =
        self.initial_extrusion_moves - (if differs self.last_position.e newpos.e then 1 else 0) in
      let moved = record self {
        initial_extrusion_moves = fewer;
        last_position = newpos;
        last_position_extruded = newpos;
        max_position_extruded = R.max_f self.max_position_extruded newpos.e;
        extruder_adj = adj;
      } in
      (set_offsets extruder offset moved, sub_position newpos offset ∷ [])

  -- `normalMove`: the state, and the position that the transform is moved to.
  unfoldable pub normal_move :
      Position R.F → String → ExcludeObject R.F → ExcludeObject R.F × List (Position R.F)
  unfolding get_extrusion_offsets leave_xy leave_z leave_e finish_normal
  normal_move newpos extruder self =
      let excluded = self.last_position_excluded in
      finish_normal newpos extruder self (
        leave_e newpos excluded (
          leave_z newpos excluded
            (leave_xy newpos excluded (get_extrusion_offsets extruder self, self.extruder_adj))))

  -- `ignoreMove`
  unfoldable pub ignore_move : Position R.F → String → ExcludeObject R.F → ExcludeObject R.F
  unfolding get_extrusion_offsets set_offsets
  ignore_move newpos extruder self =
      let old = get_extrusion_offsets extruder self in
      let offset : Position R.F = record {
        x = R.sub_f newpos.x self.last_position_extruded.x;
        y = R.sub_f newpos.y self.last_position_extruded.y;
        z = R.sub_f newpos.z self.last_position_extruded.z;
        e = R.sub_f (R.add_f old.e newpos.e) self.last_position.e;
      } in
      let moved = record self {
        last_position = newpos;
        last_position_excluded = newpos;
        max_position_excluded = R.max_f self.max_position_excluded newpos.e;
      } in
      set_offsets extruder offset moved

  -- `moveFromExcludedRegion` before the move.
  unfoldable pub leaving : ExcludeObject R.F → ExcludeObject R.F
  leaving self = record self {
    in_excluded_region = false;
    extruder_adj =
        R.sub_f (R.sub_f self.max_position_excluded self.last_position_excluded.e)
          (R.sub_f self.max_position_extruded self.last_position_extruded.e);
  }

  unfoldable pub move_from_excluded_region :
      Position R.F → String → ExcludeObject R.F → ExcludeObject R.F × List (Position R.F)
  unfolding normal_move leaving
  move_from_excluded_region newpos extruder self = normal_move newpos extruder (leaving self)

  -- The branches of `Move`: with a transform or not, in an excluded region now, and before.
  unfoldable pub move_with :
      Bool
      → Bool
      → Bool
      → Position R.F
      → String
      → ExcludeObject R.F
      → ExcludeObject R.F × List (Position R.F)
  unfolding ignore_move move_from_excluded_region normal_move
  move_with false inside before newpos extruder self = (self, [])
  move_with true true before newpos extruder self =
      (ignore_move newpos extruder (record self { in_excluded_region = true }), [])
  move_with true false true newpos extruder self = move_from_excluded_region newpos extruder self
  move_with true false false newpos extruder self = normal_move newpos extruder self

  -- `Move`
  unfoldable pub move :
      Position R.F → String → ExcludeObject R.F → ExcludeObject R.F × List (Position R.F)
  unfolding test_in_excluded_region move_with
  move newpos extruder self =
      move_with self.has_transform (test_in_excluded_region self) self.in_excluded_region newpos
        extruder self
