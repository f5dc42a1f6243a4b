-- ===== src/Motion/Move.antt =====
-- `Move` of move_queue.go, over a parameter for floats. Positions have four axes; the timing
-- callbacks of a move are not here.
use klipper_go.Common.{
  Bool, true, false, not, ◌&&◌, ◌||◌, Option, none, some, List, [], ◌∷◌, if◌then◌else◌,
}
use klipper_go.Common.Real.{Float}

pub record Axes (F : Type 0) : Type 0 where
  pub x : F
  pub y : F
  pub z : F
  pub e : F

pub record MoveConfig (F : Type 0) : Type 0 where
  pub max_accel : F
  pub junction_deviation : F
  pub max_velocity : F
  pub max_accel_to_decel : F

pub record Move (F : Type 0) : Type 0 where
  pub start_pos : Axes F
  pub end_pos : Axes F
  pub accel : F
  pub junction_deviation : F
  pub is_kinematic_move : Bool
  pub axes_d : Axes F
  pub move_d : F
  pub axes_r : Axes F
  pub min_move_t : F
  pub max_start_v2 : F
  pub max_cruise_v2 : F
  pub delta_v2 : F
  pub next_junction_v2 : F
  pub max_mcr_start_v2 : F
  pub mcr_delta_v2 : F
  pub max_smoothed_v2 : F
  pub smooth_delta_v2 : F
  pub start_v : F
  pub cruise_v : F
  pub end_v : F
  pub accel_t : F
  pub cruise_t : F
  pub decel_t : F

module _ (R : Float) where
  open R use {
    F, zero_f, lit, eq_f, lt_f, add_f, sub_f, mul_f, div_f, neg_f, abs_f, sqrt_f, min_f, max_f,
  }

  -- What `NewMove` decides by the length of the move.
  pub record Shape : Type 0 where
    pub end_at : Axes F
    pub distance : Axes F
    pub length_d : F
    pub inverse : F
    pub rate : F
    pub velocity : F
    pub kinematic : Bool

  unfoldable pub kinematic_shape : MoveConfig F → Axes F → Axes F → F → F → Shape
  kinematic_shape config end_pos axes_d move_d velocity = record {
    end_at = end_pos;
    distance = axes_d;
    length_d = move_d;
    inverse = div_f (lit 1 1) move_d;
    rate = config.max_accel;
    velocity = velocity;
    kinematic = true;
  }

  -- A move of the extruder alone.
  unfoldable pub extrude_only_shape : Axes F → Axes F → Axes F → F → Shape
  extrude_only_shape start_pos end_pos axes_d speed =
      let move_d = abs_f axes_d.e in
      record {
        end_at = record { x = start_pos.x; y = start_pos.y; z = start_pos.z; e = end_pos.e };
        distance = record { x = zero_f; y = zero_f; z = zero_f; e = axes_d.e };
        length_d = move_d;
        inverse = if not (eq_f move_d zero_f) then div_f (lit 1 1) move_d else zero_f;
        rate = lit 999999999 10;
        velocity = speed;
        kinematic = false;
      }

  unfoldable pub shape_of : MoveConfig F → Axes F → Axes F → F → Shape
  unfolding kinematic_shape extrude_only_shape
  shape_of config start_pos end_pos speed =
      let axes_d : Axes F = record {
        x = sub_f end_pos.x start_pos.x;
        y = sub_f end_pos.y start_pos.y;
        z = sub_f end_pos.z start_pos.z;
        e = sub_f end_pos.e start_pos.e;
      } in
      let move_d = sqrt_f (
        add_f (add_f (mul_f axes_d.x axes_d.x) (mul_f axes_d.y axes_d.y))
          (mul_f axes_d.z axes_d.z)) in
      if lt_f move_d (lit 1 1000000000)
      then extrude_only_shape start_pos end_pos axes_d speed
      else kinematic_shape config end_pos axes_d move_d (min_f speed config.max_velocity)

  unfoldable pub move_of_shape : MoveConfig F → Axes F → Shape → Move F
  move_of_shape config start_pos s = record {
    start_pos = start_pos;
    end_pos = s.end_at;
    accel = s.rate;
    junction_deviation = config.junction_deviation;
    is_kinematic_move = s.kinematic;
    axes_d = s.distance;
    move_d = s.length_d;
    axes_r = record {
      x = mul_f s.distance.x s.inverse;
      y = mul_f s.distance.y s.inverse;
      z = mul_f s.distance.z s.inverse;
      e = mul_f s.distance.e s.inverse;
    };
    min_move_t = div_f s.length_d s.velocity;
    max_start_v2 = zero_f;
    max_cruise_v2 = mul_f s.velocity s.velocity;
    delta_v2 = mul_f (mul_f (lit 2 1) s.length_d) s.rate;
    next_junction_v2 = lit 9999999999 10;
    max_mcr_start_v2 = zero_f;
    mcr_delta_v2 = mul_f (mul_f (lit 2 1) s.length_d) config.max_accel_to_decel;
    max_smoothed_v2 = zero_f;
    smooth_delta_v2 = mul_f (mul_f (lit 2 1) s.length_d) config.max_accel_to_decel;
    start_v = zero_f;
    cruise_v = zero_f;
    end_v = zero_f;
    accel_t = zero_f;
    cruise_t = zero_f;
    decel_t = zero_f;
  }

  -- `NewMove`
  unfoldable pub new_move : MoveConfig F → Axes F → Axes F → F → Move F
  unfolding shape_of move_of_shape
  new_move config start_pos end_pos speed =
      move_of_shape config start_pos (shape_of config start_pos end_pos speed)

  -- `Limit_speed`
  unfoldable pub limit_speed : F → F → Move F → Move F
  limit_speed speed accel self =
      let speed2 = mul_f speed speed in
      let slower = lt_f speed2 self.max_cruise_v2 in
      let rate = min_f self.accel accel in
      let delta = mul_f (mul_f (lit 2 1) self.move_d) rate in
      record self {
        max_cruise_v2 = if slower then speed2 else self.max_cruise_v2;
        min_move_t = if slower then div_f self.move_d speed else self.min_move_t;
        accel = rate;
        delta_v2 = delta;
        mcr_delta_v2 = min_f self.mcr_delta_v2 delta;
        smooth_delta_v2 = min_f self.mcr_delta_v2 delta;
      }

  unfoldable pub limit_next_junction_speed : F → Move F → Move F
  limit_next_junction_speed speed self = record self {
    next_junction_v2 = min_f self.next_junction_v2 (mul_f speed speed);
  }

  -- `customMin`, with its first value apart.
  unfoldable pub custom_min : F → List F → F
  custom_min best [] = best
  custom_min best (v ∷ vs) = custom_min (if lt_f v best then v else best) vs

  -- The limits of a corner, from the sine and cosine of half its angle.
  unfoldable pub corner_limits : F → F → Move F → Move F → List F
  corner_limits sin_theta_d2 cos_theta_d2 prev self =
      let r_jd = div_f sin_theta_d2 (sub_f (lit 1 1) sin_theta_d2) in
      let quarter_tan_theta_d2 = div_f (mul_f (lit 25 100) sin_theta_d2) cos_theta_d2 in
      mul_f (mul_f r_jd self.junction_deviation) self.accel
      ∷ mul_f (mul_f r_jd prev.junction_deviation) prev.accel
      ∷ mul_f self.delta_v2 quarter_tan_theta_d2
      ∷ mul_f prev.delta_v2 quarter_tan_theta_d2
      ∷ []

  -- The speed that the corner between two moves allows.
  unfoldable pub junction_v2 : F → Move F → Move F → F
  unfolding custom_min corner_limits
  junction_v2 extruder_v2 prev self =
      let base = custom_min extruder_v2 (
        self.max_cruise_v2
        ∷ prev.max_cruise_v2
        ∷ prev.next_junction_v2
        ∷ add_f prev.max_start_v2 prev.delta_v2
        ∷ []) in
      let cosine = neg_f (
        add_f (add_f (mul_f self.axes_r.x prev.axes_r.x) (mul_f self.axes_r.y prev.axes_r.y))
          (mul_f self.axes_r.z prev.axes_r.z)) in
      let sin_theta_d2 = sqrt_f (max_f (mul_f (lit 5 10) (sub_f (lit 1 1) cosine)) zero_f) in
      let cos_theta_d2 = sqrt_f (max_f (mul_f (lit 5 10) (add_f (lit 1 1) cosine)) zero_f) in
      if lt_f zero_f (sub_f (lit 1 1) sin_theta_d2) && lt_f zero_f cos_theta_d2
      then custom_min base (corner_limits sin_theta_d2 cos_theta_d2 prev self)
      else base

  -- The extruder's own limit is a function, when there is an extruder.
  unfoldable pub extruder_v2 : Option (Move F → Move F → F) → Move F → Move F → F
  extruder_v2 none prev self = self.max_cruise_v2
  extruder_v2 (some limit) prev self = limit prev self

  -- `skip` is whether one of the moves is of the extruder alone.
  unfoldable pub update_junction : Bool → F → Move F → Move F → Move F
  update_junction true start_v2 prev self = self
  update_junction false start_v2 prev self =
      let mcr = min_f start_v2 (add_f prev.max_mcr_start_v2 prev.mcr_delta_v2) in
      record self { max_start_v2 = start_v2; max_mcr_start_v2 = mcr; max_smoothed_v2 = mcr }

  -- `Calc_junction`
  unfoldable pub calc_junction : Option (Move F → Move F → F) → Move F → Move F → Move F
  unfolding junction_v2 extruder_v2 update_junction
  calc_junction extruder prev self =
      update_junction (not self.is_kinematic_move || not prev.is_kinematic_move)
        (junction_v2 (extruder_v2 extruder prev self) prev self) prev self

  -- `Set_junction`
  unfoldable pub set_junction : F → F → F → Move F → Move F
  set_junction start_v2 cruise_v2 end_v2 self =
      let half_inv_accel = div_f (lit 5 10) self.accel in
      let accel_d = mul_f (sub_f cruise_v2 start_v2) half_inv_accel in
      let decel_d = mul_f (sub_f cruise_v2 end_v2) half_inv_accel in
      let cruise_d = sub_f (sub_f self.move_d accel_d) decel_d in
      let first = sqrt_f start_v2 in
      let top = sqrt_f cruise_v2 in
      let last = sqrt_f end_v2 in
      record self {
        start_v = first;
        cruise_v = top;
        end_v = last;
        accel_t = div_f accel_d (mul_f (add_f first top) (lit 5 10));
        cruise_t = div_f cruise_d top;
        decel_t = div_f decel_d (mul_f (add_f last top) (lit 5 10));
      }
