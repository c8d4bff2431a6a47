-- ===== src/Profiles/Reading.antt =====
-- What a context is read as: its normal form, its key, its path and its profile.
use Prim.Native.String.{◌++◌ as ◌<>◌}
use mathlib.Core.Option
use mathlib.Core.Option.{some-injective}
use diffusers_dynamic_offloa.Prelude.{
  ◌≡◌, refl, subst, String, string_eq, true, false, ◌&&◌, Option, none, some, [], ◌∷◌, if_rule,
  Bool-cases, inl, inr,
}
use diffusers_dynamic_offloa.Dict.{Dict, get}
use diffusers_dynamic_offloa.Outcome.{done, raise, value_error}
use diffusers_dynamic_offloa.Sorting.{insert, sorted}
use diffusers_dynamic_offloa.Json.{
  Value, null, boolean, number, text, array, object, other, no_fields, field, object_of, is_object,
  is_truthy, json_value, json_fields, key_le, sorted_object, with_field,
}
use diffusers_dynamic_offloa.Json.Canonical.{json_value-idempotent}
use diffusers_dynamic_offloa.Profiles.{
  Files, Python, get_profile_dir, normalize_context, profile_key, profile_path, read_profile,
  load_profile, is_undecodable,
}

module _ (python : Python)
    (trans : (a b c : String)
      → python.string_le a b ≡ true
      → python.string_le b c ≡ true
      → python.string_le a c ≡ true)
    (total : (a b : String) → python.string_le a b ≡ false → python.string_le b a ≡ true) where
  -- `normalized` is the context in its normal form.
  abbrev pub IsNormalOf : Value → Value → Type 0
  IsNormalOf normalized context =
      ((is_object context && is_truthy context) ≡ true)
      × (json_value python.string_le context ≡ some normalized)
      × (is_object normalized ≡ true)

  pub normalize_known :
      (normalized context : Value)
      → IsNormalOf normalized context
      → (s : Files) → normalize_context python context s ≡ done normalized s
  unfolding normalize_context
  normalize_known normalized context h s = rw (h.0, h.1, h.2) refl

  full :
      (entry : String × Value) (d : Dict String Value)
      → is_truthy (object (object_of (insert (key_le python.string_le) entry d))) ≡ true
  unfolding insert
  full entry [] = refl
  full entry (first ∷ d) =
      if_rule (λ e. is_truthy (object (object_of e)) ≡ true) (key_le python.string_le entry first)
        (entry ∷ first ∷ d) (first ∷ insert (key_le python.string_le) entry d) (λ _. refl)
        (λ _. refl)

  full_sorted :
      (entry : String × Value) (d : Dict String Value)
      → is_truthy (sorted_object python.string_le (entry ∷ d)) ≡ true
  unfolding sorted
  full_sorted entry d = full entry (sorted (key_le python.string_le) d)

  truthy :
      (context normalized : Value)
      → (is_object context && is_truthy context) ≡ true
      → json_value python.string_le context ≡ some normalized
      → is_truthy normalized ≡ true
  unfolding json_value json_fields
  truthy (object (field key v fs)) normalized h e =
      filled (json_value python.string_le v) (json_fields python.string_le fs) e
    where
      filled :
          (value : Option Value) (d : Option (Dict String Value))
          → Option.map (sorted_object python.string_le) (with_field key value d) ≡ some normalized
          → is_truthy normalized ≡ true
      filled none d e = absurd (cc)
      filled (some w) none e = absurd (cc)
      filled (some w) (some d) e =
          subst (λ n. is_truthy n ≡ true) (some-injective _ normalized e) (full_sorted (key, w) d)
  truthy (object no_fields) normalized h e = absurd (cc)
  truthy null normalized h e = absurd (cc)
  truthy (boolean b) normalized h e = absurd (cc)
  truthy (number n) normalized h e = absurd (cc)
  truthy (text s) normalized h e = absurd (cc)
  truthy (array items) normalized h e = absurd (cc)
  truthy other normalized h e = absurd (cc)

  pub normal_again :
      (normalized context : Value)
      → IsNormalOf normalized context
      → IsNormalOf normalized normalized
  normal_again normalized context h = (
    rw (h.2, truthy context normalized h.0 h.1) refl,
    (json_value-idempotent python.string_le trans total context normalized h.1).1,
    h.2,
  )

  abbrev pub key_of : Value → String
  key_of normalized = "ddo-capacity-v1-" <> python.digest normalized

  abbrev pub path_of : Option String → Value → String
  path_of profile_dir normalized =
      get_profile_dir python profile_dir <> "/" <> key_of normalized <> ".json"

  module _ (normalized context : Value) (h : IsNormalOf normalized context)
      (profile_dir : Option String) (s : Files) where
    pub key_known : profile_key python context s ≡ done (key_of normalized) s
    unfolding profile_key
    key_known = rw (normalize_known normalized context h s) refl

    pub path_known :
        profile_path python context profile_dir s ≡ done (path_of profile_dir normalized) s
    unfolding profile_path
    path_known = rw key_known refl

  pub load_known :
      (normalized context : Value)
      → IsNormalOf normalized context
      → (profile_dir : Option String) (s : Files)
      → is_undecodable (get (path_of profile_dir normalized) s) ≡ false
      → load_profile python context profile_dir s
        ≡ done
            (read_profile python normalized
              (key_of normalized)
              (get (path_of profile_dir normalized) s))
            s
  unfolding load_profile
  load_known normalized context h profile_dir s readable =
      let again = normal_again normalized context h in
      rw
        (
          normalize_known normalized context h s,
          path_known normalized normalized again profile_dir s,
          key_known normalized normalized again profile_dir s,
          readable,
        )
        refl

  pub load_refused :
      (normalized context : Value)
      → IsNormalOf normalized context
      → (profile_dir : Option String) (s : Files)
      → is_undecodable (get (path_of profile_dir normalized) s) ≡ true
      → load_profile python context profile_dir s ≡ raise value_error s
  unfolding load_profile
  load_refused normalized context h profile_dir s bad =
      let again = normal_again normalized context h in
      rw
        (
          normalize_known normalized context h s,
          path_known normalized normalized again profile_dir s,
          key_known normalized normalized again profile_dir s,
          bad,
        )
        refl

  -- A profile that is loaded was text.
  pub loaded_text :
      (normalized context : Value)
      → IsNormalOf normalized context
      → (profile_dir : Option String) (s : Files) (found : Option Value)
      → load_profile python context profile_dir s ≡ done found s
      → is_undecodable (get (path_of profile_dir normalized) s) ≡ false
  loaded_text normalized context h profile_dir s found loads =
      elim (Bool-cases (is_undecodable (get (path_of profile_dir normalized) s))) [
        | inl bad ↦ absurd (let refused = load_refused normalized context h profile_dir s bad in cc)
        | inr readable ↦ readable
      ]
