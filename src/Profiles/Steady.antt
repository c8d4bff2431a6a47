-- ===== src/Profiles/Steady.antt =====
-- The parts of `record_dynamic_offload_profile` that write no file.
use diffusers_dynamic_offloa.Prelude.{
  ℕ, refl, String, string_eq, Bool, true, false, not, Option, none, some, [], max, min, eqb, ◌==◌,
  if◌then◌else◌,
}
use diffusers_dynamic_offloa.Dict.{Dict, get}
use diffusers_dynamic_offloa.Outcome.{
  type_error, pure, throw, or_raise, IsSteady, continue-IsSteady, or_raise-IsSteady,
}
use diffusers_dynamic_offloa.Json.{
  Value, null, boolean, number, text, array, object, other, no_items, item, value_get, value_beq,
  json_value, number_of,
}
use diffusers_dynamic_offloa.Profiles.{
  Files, Python, or_null, dict_of, or_number, measured, save_limit, keep_best, merge_into,
  merge_measured, merge_capacity_limits, list_of, json_option,
}

-- What a value that is no container gives, if it gives anything: nothing.
falsy-IsSteady :
    {A : Type 0} (b : Bool) (a : A) (s : Files)
    → IsSteady s ((if b then throw type_error else pure a) s)
falsy-IsSteady true a s = refl
falsy-IsSteady false a s = refl

dict_of-IsSteady : (o : Option Value) (s : Files) → IsSteady s (dict_of o s)
unfolding dict_of
dict_of-IsSteady none s = refl
dict_of-IsSteady (some null) s = refl
dict_of-IsSteady (some (boolean b)) s = falsy-IsSteady b [] s
dict_of-IsSteady (some (number n)) s = falsy-IsSteady (not (eqb n 0)) [] s
dict_of-IsSteady (some (text t)) s = falsy-IsSteady (not (t == "")) [] s
dict_of-IsSteady (some (array no_items)) s = refl
dict_of-IsSteady (some (array (item v items))) s = refl
dict_of-IsSteady (some (object fs)) s = refl
dict_of-IsSteady (some other) s = refl

pub list_of-IsSteady : (python : Python) (v : Value) (s : Files) → IsSteady s (list_of python v s)
unfolding list_of
list_of-IsSteady python null s = refl
list_of-IsSteady python (boolean b) s = falsy-IsSteady b [] s
list_of-IsSteady python (number n) s = falsy-IsSteady (not (eqb n 0)) [] s
list_of-IsSteady python (text t) s = refl
list_of-IsSteady python (array items) s = refl
list_of-IsSteady python (object fs) s = refl
list_of-IsSteady python other s = refl

keep_best-IsSteady :
    (side : String) (choose : ℕ → ℕ → ℕ) (metric : String) (value : ℕ)
    (limits previous : Dict String Value) (s : Files)
    → IsSteady s (keep_best side choose metric value limits previous s)
unfolding keep_best
keep_best-IsSteady side choose metric value limits previous s =
    let known = number_of (or_number value (get side previous)) in
    continue-IsSteady (or_raise known type_error s)
      (λ best. pure (save_limit metric side (choose value best) previous limits)) s
      (or_raise-IsSteady known type_error s) λ best. refl

merge_into-IsSteady :
    (status : Value) (metric : String) (value : ℕ) (limits previous : Dict String Value) (s : Files)
    → IsSteady s (merge_into status metric value limits previous s)
unfolding merge_into
merge_into-IsSteady status metric value limits previous s =
    pick (value_beq status (text "success")) (value_beq status (text "failure"))
  where
    pick :
        (success failure : Bool)
        → IsSteady s (
            (if success
                then keep_best "max_success" max metric value limits previous
                else if failure
                then keep_best "min_failure" min metric value limits previous
                else pure limits)
              s)
    pick true failure = keep_best-IsSteady "max_success" max metric value limits previous s
    pick false true = keep_best-IsSteady "min_failure" min metric value limits previous s
    pick false false = refl

merge_measured-IsSteady :
    (status : Value) (limits : Dict String Value) (o : Option (String × ℕ)) (s : Files)
    → IsSteady s (merge_measured status limits o s)
unfolding merge_measured
merge_measured-IsSteady status limits none s = refl
merge_measured-IsSteady status limits (some (metric, value)) s =
    continue-IsSteady (dict_of (get metric limits) s) (merge_into status metric value limits) s
      (dict_of-IsSteady (get metric limits) s)
      λ previous. merge_into-IsSteady status metric value limits previous s

pub merge-IsSteady :
    (existing : Option Value) (observation : Value) (s : Files)
    → IsSteady s (merge_capacity_limits existing observation s)
unfolding merge_capacity_limits
merge-IsSteady existing observation s =
    continue-IsSteady (dict_of existing s)
      (λ limits.
        merge_measured (or_null (value_get "status" observation)) limits (measured observation))
      s (dict_of-IsSteady existing s)
      λ limits.
        merge_measured-IsSteady (or_null (value_get "status" observation)) limits
          (measured observation) s

pub json_option-IsSteady :
    (python : Python) (o : Option Value) (s : Files) → IsSteady s (json_option python o s)
unfolding json_option
json_option-IsSteady python none s = refl
json_option-IsSteady python (some v) s =
    let normal = json_value python.string_le v in
    continue-IsSteady (or_raise normal type_error s) (λ w. pure (some w)) s
      (or_raise-IsSteady normal type_error s) λ w. refl
