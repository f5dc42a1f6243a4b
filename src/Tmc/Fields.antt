-- ===== src/Tmc/Fields.antt =====
-- `FieldHelper` of field_helper.go. A mask is a number below 2 ^ 63, a register an int64. The order of
-- `all_fields` stands for the order in which Go goes through the map.
pub mod Masks
pub mod RoundTrip
pub mod Extracted
pub mod Tracking
use Prim.Native.Nat.{bit_and, bit_or}
use Prim.Native.String.{String, compare}
use text.Mathlib.Text.{◌==◌ as str_eq, is_le}
use klipper_go.Common.{
  ℕ, zero, suc, ◌+◌, ◌-◌, ◌*◌, ◌/◌, ◌%◌, ◌^◌, Bool, true, false, not, ◌&&◌, ◌||◌, Option, none,
  some, List, [], ◌∷◌, ◌++◌, map, ◌==◌, ltb, if◌then◌else◌, length,
}
use klipper_go.Common.Int.{ℤ, pos, negsuc, ◌-ℤ◌, ltb_ℤ, mask_ℤ, wrap_i64}
use klipper_go.Common.Assoc.{lookup, insert}

unfoldable pub trailing_zeros : ℕ → ℕ → ℕ
trailing_zeros zero n = 0
trailing_zeros (suc bits) n =
    let rest = trailing_zeros bits (n / 2) in if n % 2 == 0 then suc rest else 0

-- `ffs`
unfoldable pub ffs : ℕ → ℕ
unfolding trailing_zeros
ffs mask = trailing_zeros 64 mask

-- `bits.Len` of a number of at most `bits` bits.
unfoldable pub bit_len : ℕ → ℕ → ℕ
bit_len zero n = 0
bit_len (suc bits) n = let rest = bit_len bits (n / 2) in if n == 0 then 0 else suc rest

abbrev pub str_le : String → String → Bool
str_le a b = is_le (compare a b)

abbrev pub has : String → List String → Bool
has name [] = false
has name (held ∷ rest) = str_eq held name || has name rest

pub record FieldHelper : Type 0 where
  pub all_fields : List (String × List (String × ℕ))
  pub signed_fields : List String
  pub registers : List (String × ℤ)
  pub register_order : List String
  pub register_seen : List String
  pub field_to_register : List (String × String)

abbrev pub or_else : {A : Type 0} → A → Option A → A
or_else default none = default
or_else default (some a) = a

unfoldable pub lookup_register : String → FieldHelper → Option String
lookup_register field_name self = lookup field_name self.field_to_register

-- `self.allFields[reg][field]`; a missing key reads as 0.
unfoldable pub mask_of : String → String → FieldHelper → ℕ
mask_of reg_name field_name self =
    or_else 0 (lookup field_name (or_else [] (lookup reg_name self.all_fields)))

unfoldable pub signed_value : Bool → ℕ → ℤ
signed_value negative field_value =
    if negative then pos field_value -ℤ pos (2 ^ bit_len 64 field_value) else pos field_value

-- The bits of a field, moved down and given their sign.
unfoldable pub extract : Bool → ℕ → ℤ → ℤ
unfolding ffs signed_value
extract is_signed mask reg_value =
    let masked = bit_and (mask_ℤ 64 reg_value) mask in
    signed_value (is_signed && ltb_ℤ (pos mask) (wrap_i64 (pos (masked * 2))))
      (masked / 2 ^ ffs mask)

abbrev pub resolve : String → Option String → FieldHelper → String
resolve field_name reg_name self =
    or_else (or_else "" (lookup field_name self.field_to_register)) reg_name

-- `Get_field`
unfoldable pub get_field : String → Option ℤ → Option String → FieldHelper → ℤ
get_field field_name reg_value reg_name self =
    let reg = resolve field_name reg_name self in
    let held = or_else (or_else (pos 0) (lookup reg self.registers)) reg_value in
    extract (has field_name self.signed_fields) (mask_of reg field_name self) held

unfoldable pub merge : ℕ → ℤ → ℤ → ℤ
unfolding ffs
merge mask reg_value field_value = wrap_i64 (
    pos (
      bit_or (bit_and (mask_ℤ 64 reg_value) (2 ^ 64 - 1 - mask))
        (bit_and (mask_ℤ 64 field_value * 2 ^ ffs mask % 2 ^ 64) mask)))

-- `trackRegister`
unfoldable pub track_register : String → FieldHelper → FieldHelper
track_register reg_name self =
    let seen = has reg_name self.register_seen in
    record self {
      register_order = if seen then self.register_order else self.register_order ++ (reg_name ∷ []);
      register_seen = if seen then self.register_seen else reg_name ∷ self.register_seen;
    }

-- `Set_field`
unfoldable pub set_field : String → ℤ → Option ℤ → Option String → FieldHelper → FieldHelper × ℤ
unfolding track_register
set_field field_name field_value reg_value reg_name self =
    let reg = resolve field_name reg_name self in
    let held = or_else (or_else (pos 0) (lookup reg self.registers)) reg_value in
    let new_value = merge (mask_of reg field_name self) held field_value in
    (
      record (track_register reg self) { registers = insert reg new_value self.registers },
      new_value,
    )

abbrev sorted_insert : String → List String → List String
sorted_insert name [] = name ∷ []
sorted_insert name (first ∷ rest) =
    if str_le name first then name ∷ first ∷ rest else first ∷ sorted_insert name rest

-- `sort.Strings`
abbrev pub sort : List String → List String
sort [] = []
sort (name ∷ rest) = sorted_insert name (sort rest)

abbrev pub keys : {V : Type 0} → List (String × V) → List String
keys = map (λ entry. entry.0)

abbrev pub untracked : List String → List String → List String
untracked seen [] = []
untracked seen (name ∷ rest) =
    if has name seen then untracked seen rest else name ∷ untracked seen rest

-- `orderedRegisterNames`; `make` with a negative capacity would be a panic.
unfoldable pub ordered_register_names : FieldHelper → Option (List String)
ordered_register_names self =
    let ordered = self.register_order in
    if length ordered == length self.registers
    then some ordered
    else if ltb (length self.registers) (length ordered)
    then none
    else some (ordered ++ sort (untracked self.register_seen (keys self.registers)))

abbrev pub map_fields : String → List (String × ℕ) → List (String × String) → List (String × String)
map_fields register_name [] fields_of = fields_of
map_fields register_name ((field_name, mask) ∷ rest) fields_of =
    map_fields register_name rest (insert field_name register_name fields_of)

abbrev pub map_registers :
    List (String × List (String × ℕ)) → List (String × String) → List (String × String)
map_registers [] fields_of = fields_of
map_registers ((register_name, fields) ∷ rest) fields_of =
    map_registers rest (map_fields register_name fields fields_of)

-- The loop over the sorted keys of the registers that the helper is given.
abbrev pub take_registers : List String → List (String × ℤ) → FieldHelper → FieldHelper
take_registers [] given self = self
take_registers (k ∷ ks) given self = take_registers ks given (record self {
  registers = insert k (or_else (pos 0) (lookup k given)) self.registers;
  register_order = self.register_order ++ (k ∷ []);
  register_seen = k ∷ self.register_seen;
})

abbrev pub given_registers : Option (List (String × ℤ)) → FieldHelper → FieldHelper
given_registers none self = self
given_registers (some given) self = take_registers (sort (keys given)) given self

-- `NewFieldHelper`, without the formatters, which only printing uses.
unfoldable pub new_field_helper :
    List (String × List (String × ℕ)) → List String → Option (List (String × ℤ)) → FieldHelper
new_field_helper all_fields signed_fields registers = given_registers registers (record {
  all_fields = all_fields;
  signed_fields = signed_fields;
  registers = [];
  register_order = [];
  register_seen = [];
  field_to_register = map_registers all_fields [];
})

abbrev fields_in : String → Option ℤ → List (String × ℕ) → FieldHelper → List (String × ℤ)
fields_in reg_name reg_value [] self = []
fields_in reg_name reg_value ((field_name, mask) ∷ rest) self =
    (field_name, get_field field_name reg_value (some reg_name) self)
    ∷ fields_in reg_name reg_value rest self

-- `Get_reg_fields`
unfoldable pub get_reg_fields : String → Option ℤ → FieldHelper → List (String × ℤ)
get_reg_fields reg_name reg_value self =
    fields_in reg_name reg_value (or_else [] (lookup reg_name self.all_fields)) self
