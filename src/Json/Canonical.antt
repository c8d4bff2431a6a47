-- ===== src/Json/Canonical.antt =====
-- What `_json_value` returns has its keys in order, and is what it returns for it again.
use mathlib.Core.Option
use mathlib.Core.Option.{some-injective}
use diffusers_dynamic_offloa.Prelude.{
  ◌≡◌, refl, sym, ap, subst, String, Bool, true, false, Option, none, some, [], ◌∷◌, All,
}
use diffusers_dynamic_offloa.Dict.{Dict}
use diffusers_dynamic_offloa.Sorting.{IsSorted, sorted, sorted-All, sorted-IsSorted, sorted-fixed}
use diffusers_dynamic_offloa.Json.{
  Value, null, boolean, number, text, array, object, other, Items, no_items, item, Fields,
  no_fields, field, object_of, entries, key_le, sorted_object, json_value, json_items, json_fields,
  with_item, with_field,
}

module _ (string_le : String → String → Bool) where
  -- The keys of every mapping in the value, at any depth, are in order.
  mutual
    pub IsOrdered : Value → Type 0
    IsOrdered (array items) = AreOrdered items
    IsOrdered (object fs) = IsSorted (key_le string_le) (entries fs) × FieldsOrdered fs
    IsOrdered v = Unit

    pub AreOrdered : Items → Type 0
    AreOrdered no_items = Unit
    AreOrdered (item v items) = IsOrdered v × AreOrdered items

    pub FieldsOrdered : Fields → Type 0
    FieldsOrdered no_fields = Unit
    FieldsOrdered (field key v fs) = IsOrdered v × FieldsOrdered fs

module _ (string_le : String → String → Bool)
    (trans : (a b c : String) → string_le a b ≡ true → string_le b c ≡ true → string_le a c ≡ true)
    (total : (a b : String) → string_le a b ≡ false → string_le b a ≡ true) where
  entries-object_of : (d : Dict String Value) → entries (object_of d) ≡ d
  entries-object_of [] = refl
  entries-object_of ((key, v) ∷ d) = ap (λ rest. (key, v) ∷ rest) (entries-object_of d)

  object_of-FieldsOrdered :
      (d : Dict String Value)
      → All (λ entry. IsOrdered string_le entry.1) d
      → FieldsOrdered string_le (object_of d)
  unfolding IsOrdered
  object_of-FieldsOrdered [] h = tt
  object_of-FieldsOrdered ((key, v) ∷ d) h = (h.0, object_of-FieldsOrdered d h.1)

  sorted-IsOrdered :
      (d : Dict String Value)
      → All (λ entry. IsOrdered string_le entry.1) d
      → IsOrdered string_le (sorted_object string_le d)
  unfolding IsOrdered
  sorted-IsOrdered d h =
      let order = key_le string_le in
      (
        subst (IsSorted order) (sym (entries-object_of (sorted order d)))
            (sorted-IsSorted order (λ a b c. trans a.0 b.0 c.0) (λ a b. total a.0 b.0) d),
        object_of-FieldsOrdered (sorted order d)
            (sorted-All order (λ entry. IsOrdered string_le entry.1) d h),
      )

  abbrev IsFixed : Value → Type 0
  IsFixed v = json_value string_le v ≡ some v

  fixed_fields :
      (d : Dict String Value)
      → All (λ entry. IsFixed entry.1) d
      → json_fields string_le (object_of d) ≡ some d
  unfolding json_fields
  fixed_fields [] h = refl
  fixed_fields ((key, v) ∷ d) h = rw (h.0, fixed_fields d h.1) refl

  sorted-IsFixed :
      (d : Dict String Value)
      → All (λ entry. IsFixed entry.1) d
      → IsFixed (sorted_object string_le d)
  unfolding json_value
  sorted-IsFixed d h =
      let order = key_le string_le in
      let in_order = sorted-IsSorted order (λ a b c. trans a.0 b.0 c.0) (λ a b. total a.0 b.0) d in
      rw
        (
          fixed_fields (sorted order d) (sorted-All order (λ entry. IsFixed entry.1) d h),
          sorted-fixed order (sorted order d) in_order,
        )
        refl

  with_item-some :
      (v : Option Value) (items : Option Items) (found : Items)
      → with_item v items ≡ some found
      → (w : Value) × (rest : Items) × (v ≡ some w) × (items ≡ some rest) × (found ≡ item w rest)
  with_item-some none items found e = absurd (cc)
  with_item-some (some w) none found e = absurd (cc)
  with_item-some (some w) (some rest) found e =
      (w, rest, refl, refl, sym (some-injective (item w rest) found e))

  with_field-some :
      (key : String) (v : Option Value) (d : Option (Dict String Value)) (found : Dict String Value)
      → with_field key v d ≡ some found
      → (w : Value) × (rest : Dict String Value) × (v ≡ some w)
        × (d ≡ some rest)
        × (found ≡ (key, w) ∷ rest)
  with_field-some key none d found e = absurd (cc)
  with_field-some key (some w) none found e = absurd (cc)
  with_field-some key (some w) (some rest) found e =
      (w, rest, refl, refl, sym (some-injective ((key, w) ∷ rest) found e))

  map-some :
      {A B : Type 0} (f : A → B) (o : Option A) (b : B)
      → Option.map f o ≡ some b
      → (a : A) × (o ≡ some a) × (b ≡ f a)
  map-some f none b e = absurd (cc)
  map-some f (some a) b e = (a, refl, sym (some-injective (f a) b e))

  mutual
    unfolding json_value json_items json_fields

    value-IsFixed : (v w : Value) → json_value string_le v ≡ some w → IsFixed w
    value-IsFixed null w e = rw (sym (some-injective null w e)) refl
    value-IsFixed (boolean b) w e = rw (sym (some-injective (boolean b) w e)) refl
    value-IsFixed (number n) w e = rw (sym (some-injective (number n) w e)) refl
    value-IsFixed (text s) w e = rw (sym (some-injective (text s) w e)) refl
    value-IsFixed (array items) w e =
        let (found, items_found, same) = map-some array (json_items string_le items) w e in
        rw (same, items_again items found items_found) refl
    value-IsFixed (object fs) w e =
        let (d, fields_found, same) =
          map-some (sorted_object string_le) (json_fields string_le fs) w e in
        rw same (sorted-IsFixed d (fields-IsFixed fs d fields_found))
    value-IsFixed other w e = absurd (cc)

    items_again :
        (items found : Items)
        → json_items string_le items ≡ some found
        → json_items string_le found ≡ some found
    items_again no_items found e = rw (sym (some-injective no_items found e)) refl
    items_again (item v items) found e =
        let (w, rest, value_found, rest_found, same) =
          with_item-some (json_value string_le v) (json_items string_le items) found e in
        rw (same, value-IsFixed v w value_found, items_again items rest rest_found) refl

    fields-IsFixed :
        (fs : Fields) (d : Dict String Value)
        → json_fields string_le fs ≡ some d
        → All (λ entry. IsFixed entry.1) d
    fields-IsFixed no_fields d e = rw (sym (some-injective [] d e)) tt
    fields-IsFixed (field key v fs) d e =
        let (w, rest, value_found, rest_found, same) =
          with_field-some key (json_value string_le v) (json_fields string_le fs) d e in
        rw same (value-IsFixed v w value_found, fields-IsFixed fs rest rest_found)

  mutual
    unfolding json_value json_items json_fields IsOrdered AreOrdered

    value-IsOrdered : (v w : Value) → json_value string_le v ≡ some w → IsOrdered string_le w
    value-IsOrdered null w e = rw (sym (some-injective null w e)) tt
    value-IsOrdered (boolean b) w e = rw (sym (some-injective (boolean b) w e)) tt
    value-IsOrdered (number n) w e = rw (sym (some-injective (number n) w e)) tt
    value-IsOrdered (text s) w e = rw (sym (some-injective (text s) w e)) tt
    value-IsOrdered (array items) w e =
        let (found, items_found, same) = map-some array (json_items string_le items) w e in
        rw same (items-AreOrdered items found items_found)
    value-IsOrdered (object fs) w e =
        let (d, fields_found, same) =
          map-some (sorted_object string_le) (json_fields string_le fs) w e in
        subst (IsOrdered string_le) (sym same)
          (sorted-IsOrdered d (fields-IsOrdered fs d fields_found))
    value-IsOrdered other w e = absurd (cc)

    items-AreOrdered :
        (items found : Items) → json_items string_le items ≡ some found → AreOrdered string_le found
    items-AreOrdered no_items found e = rw (sym (some-injective no_items found e)) tt
    items-AreOrdered (item v items) found e =
        let (w, rest, value_found, rest_found, same) =
          with_item-some (json_value string_le v) (json_items string_le items) found e in
        rw same (value-IsOrdered v w value_found, items-AreOrdered items rest rest_found)

    fields-IsOrdered :
        (fs : Fields) (d : Dict String Value)
        → json_fields string_le fs ≡ some d
        → All (λ entry. IsOrdered string_le entry.1) d
    fields-IsOrdered no_fields d e = rw (sym (some-injective [] d e)) tt
    fields-IsOrdered (field key v fs) d e =
        let (w, rest, value_found, rest_found, same) =
          with_field-some key (json_value string_le v) (json_fields string_le fs) d e in
        rw same (value-IsOrdered v w value_found, fields-IsOrdered fs rest rest_found)

  -- In a total order of strings, what `_json_value` returns for a value has the keys of each of its mappings,
  -- at any depth, in order, and is in normal form: to normalize it once more returns it unchanged.
  pub json_value-idempotent :
      (v w : Value)
      → json_value string_le v ≡ some w
      → IsOrdered string_le w × (json_value string_le w ≡ some w)
  json_value-idempotent v w e = (value-IsOrdered v w e, value-IsFixed v w e)
