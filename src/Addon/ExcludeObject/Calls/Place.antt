-- ===== src/Addon/ExcludeObject/Calls/Place.antt =====
-- A move of `ExcludeObject`, made or dropped, and the position that is answered behind it.
use klipper_go.Common.{
  ◌≡◌, refl, sym, ap, ◌∙◌, ◌⊎◌, inl, inr, Bool, true, false, Option, none, some, List, [], ◌∷◌,
  arith,
}
use klipper_go.Common.Real.{Float}
use klipper_go.Common.Assoc.{lookup-insert_own}
use Prim.Native.String.{String}
use klipper_go.Addon.ExcludeObject.{
  Position, ExcludeObject, add_position, sub_position, origin, normal_move, ignore_move,
  set_offsets, finish_normal, leaving, leave_e, leave_z, leave_xy, get_extrusion_offsets,
  move_from_excluded_region, move_with,
}
use klipper_go.Addon.ExcludeObject.Calls.{move_call, moved_to, drops}

-- What a difference takes away a sum brings back.
pub record IsTracked (R : Float) : Type 0 where
  pub add-sub : (a b : R.F) → R.add_f (R.sub_f a b) b ≡ a
  pub add-shift : (m o l n : R.F) → R.add_f m o ≡ l → R.add_f m (R.sub_f (R.add_f o n) l) ≡ n

module _ (R : Float) (sort : List String → List String) (extruder : String)
    (laws : IsTracked R) where
  abbrev pub offsets : ExcludeObject R.F → Position R.F
  offsets self = get_extrusion_offsets R extruder self

  -- What is answered at a place of the transform.
  abbrev pub here : Position R.F → ExcludeObject R.F → Position R.F
  here at self = add_position R at (offsets self)

  -- Where the offsets and the positions stand. `goal` is the position last asked for, `at` the
  -- transform's, and a dropped move leaves only the extruder coordinate.
  pub record Holds (dropped : Bool) (goal at : Position R.F) (self : ExcludeObject R.F)
      : Type 0 where
    pub attached : self.has_transform ≡ true
    pub same_e : (here at self).e ≡ goal.e
    pub last_e : self.last_position.e ≡ goal.e
    pub same : (dropped ≡ true) ⊎ (here at self ≡ goal)

  set_own :
      (offset : Position R.F) (self : ExcludeObject R.F)
      → offsets (set_offsets R extruder offset self) ≡ offset
  unfolding get_extrusion_offsets set_offsets
  set_own offset self =
      ap (λ (o : Option (Position R.F)). elim o [ none ↦ origin R | some held ↦ held ])
        (lookup-insert_own extruder offset self.extrusion_offsets)

  brought_back : (p offset : Position R.F) → add_position R (sub_position R p offset) offset ≡ p
  unfolding add_position sub_position
  brought_back p offset =
      rw
        (
          laws.add-sub p.x offset.x,
          laws.add-sub p.y offset.y,
          laws.add-sub p.z offset.z,
          laws.add-sub p.e offset.e,
        )
        refl

  -- A move that is made.
  abbrev Made : Position R.F → ExcludeObject R.F × List (Position R.F) → Type 0
  Made p (after, moves) = (to : Position R.F) × (moves ≡ to ∷ []) × Holds false p to after

  finish-Made :
      (p : Position R.F) (self : ExcludeObject R.F) (left : Position R.F × R.F)
      → self.has_transform ≡ true
      → Made p (finish_normal R p extruder self left)
  unfolding finish_normal
  finish-Made p self (offset, adj) on =
      let after = (finish_normal R p extruder self (offset, adj)).0 in
      let own : offsets after ≡ offset = set_own offset _ in
      let back : here (sub_position R p offset) after ≡ p =
        ap (add_position R (sub_position R p offset)) own ∙ brought_back p offset in
      (
        sub_position R p offset,
        refl,
        record {
          attached = on;
          same_e = ap (λ (q : Position R.F). q.e) back;
          last_e = refl;
          same = inr back;
        },
      )

  normal-Made :
      (p : Position R.F) (self : ExcludeObject R.F)
      → self.has_transform ≡ true
      → Made p (normal_move R p extruder self)
  unfolding normal_move
  normal-Made p self on =
      let excluded = self.last_position_excluded in
      finish-Made p self
        (leave_e R p excluded
          (leave_z R p excluded (leave_xy R p excluded (offsets self, self.extruder_adj))))
        on

  leaving-on :
      (self : ExcludeObject R.F) → self.has_transform ≡ true → (leaving R self).has_transform ≡ true
  unfolding leaving
  leaving-on self on = on

  dropped_e :
      (p : Position R.F) (self : ExcludeObject R.F)
      → (offsets (ignore_move R p extruder self)).e
        ≡ R.sub_f (R.add_f (offsets self).e p.e) self.last_position.e
  unfolding ignore_move
  dropped_e p self =
      ap (λ (q : Position R.F). q.e)
        (set_own _ (record self {
          last_position = p;
          last_position_excluded = p;
          max_position_excluded = R.max_f self.max_position_excluded p.e;
        }))

  inside_e :
      (self : ExcludeObject R.F)
      → (offsets (record self { in_excluded_region = true })).e ≡ (offsets self).e
  unfolding get_extrusion_offsets
  inside_e self = refl

  -- A move that is dropped.
  ignored :
      (was : Bool) (p goal at : Position R.F) (self : ExcludeObject R.F)
      → Holds was goal at self
      → Holds true p at (ignore_move R p extruder (record self { in_excluded_region = true }))
  unfolding ignore_move add_position
  ignored was p goal at self h =
      let inside = record self { in_excluded_region = true } in
      let same_e : R.add_f at.e (offsets self).e ≡ self.last_position.e = h.same_e ∙ sym h.last_e in
      record {
        attached = h.attached;
        same_e =
            ap (R.add_f at.e) (dropped_e p inside)
            ∙ ap (λ (o : R.F). R.add_f at.e (R.sub_f (R.add_f o p.e) self.last_position.e))
                (inside_e self)
            ∙ laws.add-shift at.e (offsets self).e self.last_position.e p.e same_e;
        last_e = refl;
        same = inl refl;
      }

  -- What a move leaves, made or dropped.
  abbrev pub Follows :
      Position R.F → Position R.F → ExcludeObject R.F × List (Position R.F) → Type 0
  Follows p at (after, moves) =
      let (at', outputs) = moved_to R sort extruder at moves in
      Holds (drops false (move_call p) outputs) p at' after

  Made-Follows :
      (p at : Position R.F) (r : ExcludeObject R.F × List (Position R.F))
      → Made p r
      → Follows p at r
  unfolding moved_to
  Made-Follows p at (after, moves) (to, sent, h) = rw sent h

  pub move_with-Follows :
      (was has inside before : Bool) (p goal at : Position R.F) (self : ExcludeObject R.F)
      → has ≡ true
      → Holds was goal at self
      → Follows p at (move_with R has inside before p extruder self)
  unfolding move_with move_from_excluded_region moved_to
  move_with-Follows was false inside before p goal at self on h = absurd (ground (arith, on))
  move_with-Follows was true true before p goal at self on h = ignored was p goal at self h
  move_with-Follows was true false true p goal at self on h =
      Made-Follows p at (normal_move R p extruder (leaving R self))
        (normal-Made p (leaving R self) (leaving-on self h.attached))
  move_with-Follows was true false false p goal at self on h =
      Made-Follows p at (normal_move R p extruder self) (normal-Made p self h.attached)
