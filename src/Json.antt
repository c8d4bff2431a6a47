-- ===== src/Json.antt =====
-- The values of src/diffusers_dynamic_offloader/profiles.py, what `json` reads and writes. A number is a whole
-- one, not negative, and a mapping's keys are strings, no two alike. The order of strings is a parameter.
pub mod Canonical
use mathlib.Core.Option
use diffusers_dynamic_offloa.Prelude.{
  ℕ, ◌≡◌, refl, String, string_eq, Bool, true, false, ◌&&◌, not, Option, none, some, List, [], ◌∷◌,
  map, eqb, if◌then◌else◌, ◌==◌, length,
}
use diffusers_dynamic_offloa.Dict.{Dict, get}
use diffusers_dynamic_offloa.Sorting.{sorted}

-- `other` is a value of any class that `json` does not know.
mutual
  pub data Value : Type 0 where
    null : Value
    boolean : Bool → Value
    number : ℕ → Value
    text : String → Value
    array : Items → Value
    object : Fields → Value
    other : Value

  pub data Items : Type 0 where
    no_items : Items
    item : Value → Items → Items

  pub data Fields : Type 0 where
    no_fields : Fields
    field : String → Value → Fields → Fields

abbrev pub values : Items → List Value
values no_items = []
values (item v items) = v ∷ values items

abbrev pub array_of : List Value → Items
array_of [] = no_items
array_of (v ∷ vs) = item v (array_of vs)

abbrev pub entries : Fields → Dict String Value
entries no_fields = []
entries (field key v fs) = (key, v) ∷ entries fs

abbrev pub object_of : Dict String Value → Fields
object_of [] = no_fields
object_of ((key, v) ∷ d) = field key v (object_of d)

-- `value.get(key)` on a mapping; `none` also where the value is no mapping.
abbrev pub value_get : String → Value → Option Value
value_get key (object fs) = get key (entries fs)
value_get key v = none

abbrev pub is_object : Value → Bool
is_object (object fs) = true
is_object v = false

-- The number that a value is, where `isinstance(value, (int, float))`: a truth value is one.
abbrev pub number_of : Value → Option ℕ
number_of (boolean b) = some (if b then 1 else 0)
number_of (number n) = some n
number_of v = none

-- `bool(value)`
abbrev pub is_truthy : Value → Bool
is_truthy null = false
is_truthy (boolean b) = b
is_truthy (number n) = not (eqb n 0)
is_truthy (text s) = not (s == "")
is_truthy (array no_items) = false
is_truthy (array (item v items)) = true
is_truthy (object no_fields) = false
is_truthy (object (field key v fs)) = true
is_truthy other = true

abbrev pub number_beq : Option ℕ → Value → Bool
number_beq (some m) w = elim (number_of w) [ none ↦ false | some n ↦ eqb m n ]
number_beq none w = false

-- Python's `==`: truth values are numbers, and the order of a mapping's keys is of no matter.
unfoldable mutual
  pub value_beq : Value → Value → Bool
  value_beq null null = true
  value_beq (boolean a) w = number_beq (number_of (boolean a)) w
  value_beq (number m) w = number_beq (number_of (number m)) w
  value_beq (text s) (text t) = s == t
  value_beq (array items) (array others) = items_beq items others
  value_beq (object fs) (object others) =
      eqb (length (entries fs)) (length (entries others)) && fields_in fs others
  value_beq v w = false

  items_beq : Items → Items → Bool
  items_beq no_items no_items = true
  items_beq (item v items) (item w others) = value_beq v w && items_beq items others
  items_beq items others = false

  fields_in : Fields → Fields → Bool
  fields_in no_fields others = true
  fields_in (field key v fs) others =
      elim (get key (entries others)) [ none ↦ false | some w ↦ value_beq v w ]
      && fields_in fs others

abbrev pub with_item : Option Value → Option Items → Option Items
with_item (some v) (some items) = some (item v items)
with_item v items = none

abbrev pub with_field :
    String → Option Value → Option (Dict String Value) → Option (Dict String Value)
with_field key (some v) (some d) = some ((key, v) ∷ d)
with_field key v d = none

module _ (string_le : String → String → Bool) where
  abbrev pub key_le : String × Value → String × Value → Bool
  key_le v w = string_le v.0 w.0

  -- The mapping with its keys in order.
  abbrev pub sorted_object : Dict String Value → Value
  sorted_object d = object (object_of (sorted key_le d))

  -- `_json_value`; `none` is its TypeError.
  unfoldable mutual
    pub json_value : Value → Option Value
    json_value (array items) = Option.map array (json_items items)
    json_value (object fs) = Option.map sorted_object (json_fields fs)
    json_value other = none
    json_value v = some v

    pub json_items : Items → Option Items
    json_items no_items = some no_items
    json_items (item v items) = with_item (json_value v) (json_items items)

    pub json_fields : Fields → Option (Dict String Value)
    json_fields no_fields = some []
    json_fields (field key v fs) = with_field key (json_value v) (json_fields fs)
