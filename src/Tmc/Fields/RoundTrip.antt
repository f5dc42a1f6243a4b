-- ===== src/Tmc/Fields/RoundTrip.antt =====
-- A field reads back as it was set, and fields elsewhere in the register are as they were.
use Prim.Native.Nat.{bit_and}
use mathlib.Core.Bool.{true≢false}
use klipper_go.Common.{
  ℕ, suc, ◌+◌, ◌≤◌, ◌≡◌, refl, sym, ap, ◌∙◌, ◌⊎◌, inl, inr, Bool-cases, false, none, some,
}
use klipper_go.Common.Int.{ℤ, pos}
use Prim.Native.String.{String}
use text.Mathlib.Text.{◌==◌ as str_eq}
use text.Mathlib.TextEquality.{eq_iff}
use klipper_go.Common.Assoc.{lookup, insert, lookup-insert_own, lookup-insert_other}
use klipper_go.Tmc.Fields.{
  FieldHelper, has, or_else, mask_of, get_field, set_field, track_register, extract, merge,
}
use klipper_go.Tmc.Fields.Extracted.{field_mask, Fits, extract-merge, extract-merge_apart}

get_known :
    (self : FieldHelper) (field reg : String)
    → lookup field self.field_to_register ≡ some reg
    → get_field field none none self
      ≡ extract
          (has field self.signed_fields)
          (mask_of reg field self)
          (or_else (pos 0) (lookup reg self.registers))
unfolding get_field
get_known self field reg known = rw known refl

module _ (self : FieldHelper) (field reg : String)
    (known : lookup field self.field_to_register ≡ some reg) where
  module _ (v : ℤ) where
    written : ℤ
    written = merge (mask_of reg field self) (or_else (pos 0) (lookup reg self.registers)) v

    after : FieldHelper
    unfolding track_register
    after = record (track_register reg self) { registers = insert reg written self.registers }

    set_known : (set_field field v none none self).0 ≡ after
    unfolding set_field after written
    set_known = rw known refl

    get_after :
        (other place : String)
        → lookup other self.field_to_register ≡ some place
        → get_field other none none after
          ≡ extract
              (has other self.signed_fields)
              (mask_of place other self)
              (or_else (pos 0) (lookup place (insert reg written self.registers)))
    unfolding get_field after mask_of track_register
    get_after other place known' = rw known' refl

    own_register : or_else (pos 0) (lookup reg (insert reg written self.registers)) ≡ written
    own_register = rw (lookup-insert_own reg written self.registers) refl

    other_register :
        (place : String)
        → str_eq reg place ≡ false
        → lookup place (insert reg written self.registers) ≡ lookup place self.registers
    other_register place h = lookup-insert_other reg place written self.registers h

    read_own :
        (s w : ℕ)
        → mask_of reg field self ≡ field_mask s w
        → s + suc w ≤ 62
        → Fits (has field self.signed_fields) w v
        → get_field field none none after ≡ v
    unfolding written
    read_own s w mask h fits =
        get_after field reg known
        ∙ rw (own_register, mask, written)
            (extract-merge (has field self.signed_fields) s w
              (or_else (pos 0) (lookup reg self.registers)) v h fits)

    read_other :
        (other place : String) (s w : ℕ)
        → mask_of reg field self ≡ field_mask s w
        → s + suc w ≤ 62
        → lookup other self.field_to_register ≡ some place
        → (str_eq reg place ≡ false) ⊎ (bit_and (field_mask s w) (mask_of place other self) ≡ 0)
        → get_field other none none after ≡ get_field other none none self
    unfolding written
    read_other other place s w mask h known' apart =
        get_after other place known' ∙ elsewhere ∙ sym (get_known self other place known')
      where
        elsewhere :
            extract
              (has other self.signed_fields)
              (mask_of place other self)
              (or_else (pos 0) (lookup place (insert reg written self.registers)))
            ≡ extract
                (has other self.signed_fields)
                (mask_of place other self)
                (or_else (pos 0) (lookup place self.registers))
        elsewhere = elim (Bool-cases (str_eq reg place)) [
          | inl same ↦ elim apart [
            | inl different ↦ absurd (true≢false (sym same ∙ different))
            | inr none_shared ↦
                (let here : place ≡ reg = sym ((eq_iff reg place).0 same) in
                  let shared = rw here at none_shared in
                  rw (here, own_register, written, mask)
                    (extract-merge_apart (has other self.signed_fields) s w (mask_of reg other self)
                      (or_else (pos 0) (lookup reg self.registers)) v h shared))
          ]
          | inr different ↦ rw (other_register place different) refl
        ]

-- A field that the helper knows, whose mask is a run of `suc w` bits, reads back as the value it was
-- set to, signed or not, when the value fits its width; and every other field, known to stand in
-- another register or under a mask with no common bit, reads as before.
pub get_field-set_field :
    (self : FieldHelper) (field reg other place : String) (s w : ℕ) (v : ℤ)
    → lookup field self.field_to_register ≡ some reg
    → mask_of reg field self ≡ field_mask s w
    → s + suc w ≤ 62
    → Fits (has field self.signed_fields) w v
    → lookup other self.field_to_register ≡ some place
    → (str_eq reg place ≡ false) ⊎ (bit_and (field_mask s w) (mask_of place other self) ≡ 0)
    → (get_field field none none (set_field field v none none self).0 ≡ v)
      × (get_field other none none (set_field field v none none self).0
          ≡ get_field other none none self)
get_field-set_field self field reg other place s w v known mask h fits known' apart = (
  ap (get_field field none none) (set_known self field reg known v)
      ∙ read_own self field reg known v s w mask h fits,
  ap (get_field other none none) (set_known self field reg known v)
      ∙ read_other self field reg known v other place s w mask h known' apart,
)
