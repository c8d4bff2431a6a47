-- ===== src/Profiles.antt =====
-- src/diffusers_dynamic_offloader/profiles.py: the files of capacity profiles, one for each context. A file is
-- what `json` reads of it; the order of the keys that `sort_keys` writes is not kept, since nothing reads it.
-- The digest of a context, the order and the characters of strings, `expanduser`, the name of a temporary file
-- and whether it can be written and renamed are parameters, and the time is an argument.
pub mod Trials
pub mod Limits
pub mod Steady
pub mod Reading
pub mod Storing
pub mod History
use Prim.Native.String.{◌++◌ as ◌<>◌}
use diffusers_dynamic_offloa.Prelude.{
  ℕ, ◌-◌, zero, suc, max, min, String, string_eq, Bool, true, false, ◌&&◌, not, Option, none, some,
  List, [], ◌∷◌, ◌++◌, map, if◌then◌else◌, ◌==◌, length, is_some,
}
use diffusers_dynamic_offloa.Dict.{Dict, get, put, remove}
use diffusers_dynamic_offloa.Outcome.{
  Outcome, Exec, done, raise, value_error, type_error, os_error, ◌>>=◌, ◌>>◌, pure, throw, raise_if,
  or_raise, continue,
}
use diffusers_dynamic_offloa.Json.{
  Value, null, boolean, number, text, array, object, other, values, array_of, entries, object_of,
  no_fields, value_get, is_object, number_of, is_truthy, value_beq, json_value,
}

-- A file that `json` reads, one that it does not, and one that is no UTF-8.
pub data Content : Type 0 where
  parsed : Value → Content
  not_json : Content
  not_text : Content

abbrev pub Files : Type 0
Files = Dict String Content

-- `read_text` raises UnicodeDecodeError.
abbrev pub is_undecodable : Option Content → Bool
is_undecodable (some not_text) = true
is_undecodable content = false

-- `leaves` is what a write that fails leaves of its file.
pub record Python : Type 0 where
  pub string_le : String → String → Bool
  pub digest : Value → String
  pub characters : String → List String
  pub expanduser : String → String
  pub home : String
  pub profile_dir_variable : Option String
  pub uuid : Files → String
  pub writes : String → Bool
  pub leaves : String → Option Content
  pub replaces : String → Bool

-- `value.get(key)` with None where it is missing.
abbrev pub or_null : Option Value → Value
or_null none = null
or_null (some v) = v

-- `dict(value or {})`. A list of pairs, which `dict` takes too, is left out.
unfoldable pub dict_of : Option Value → Exec Files (Dict String Value)
dict_of none = pure []
dict_of (some (object fs)) = pure (entries fs)
dict_of (some v) = if is_truthy v then throw type_error else pure []

-- `float(value)`. A text that is a number is left out.
abbrev pub float_of : Value → Exec Files ℕ
float_of v = or_raise (number_of v) type_error

-- `metric` where it is a text and not the empty one.
abbrev pub metric_name : Value → Option String
metric_name (text s) = if s == "" then none else some s
metric_name v = none

abbrev pub both : {A B : Type 0} → Option A → Option B → Option (A × B)
both (some a) (some b) = some (a, b)
both a b = none

-- The metric and the value of an observation's capacity.
unfoldable pub measured : Value → Option (String × ℕ)
measured observation =
    let capacity = or_null (value_get "capacity" observation) in
    both (metric_name (or_null (value_get "metric" capacity)))
      (number_of (or_null (value_get "value" capacity)))

abbrev pub or_number : ℕ → Option Value → Value
or_number n none = number n
or_number n (some v) = v

abbrev pub save_limit :
    String → String → ℕ → Dict String Value → Dict String Value → Dict String Value
save_limit metric side value previous limits =
    put metric (object (object_of (put side (number value) previous))) limits

unfoldable pub keep_best :
    String
    → (ℕ → ℕ → ℕ)
    → String
    → ℕ
    → Dict String Value
    → Dict String Value
    → Exec Files (Dict String Value)
keep_best side choose metric value limits previous = do
  best ← float_of (or_number value (get side previous))
  pure (save_limit metric side (choose value best) previous limits)

unfoldable pub merge_into :
    Value → String → ℕ → Dict String Value → Dict String Value → Exec Files (Dict String Value)
merge_into status metric value limits previous =
    if value_beq status (text "success")
    then keep_best "max_success" max metric value limits previous
    else if value_beq status (text "failure")
    then keep_best "min_failure" min metric value limits previous
    else pure limits

unfoldable pub merge_measured :
    Value → Dict String Value → Option (String × ℕ) → Exec Files (Dict String Value)
merge_measured status limits none = pure limits
merge_measured status limits (some (metric, value)) = do
  previous ← dict_of (get metric limits)
  merge_into status metric value limits previous

unfoldable pub merge_capacity_limits : Option Value → Value → Exec Files (Dict String Value)
merge_capacity_limits existing observation = do
  limits ← dict_of existing
  merge_measured (or_null (value_get "status" observation)) limits (measured observation)

-- `list(value or [])`
unfoldable pub list_of : Python → Value → Exec Files (List Value)
list_of python (array items) = pure (values items)
list_of python (object fs) = pure (map (λ entry. text entry.0) (entries fs))
list_of python (text s) = pure (map text (python.characters s))
list_of python v = if is_truthy v then throw type_error else pure []

abbrev pub drop : {A : Type 0} → ℕ → List A → List A
drop zero xs = xs
drop (suc n) [] = []
drop (suc n) (x ∷ xs) = drop n xs

-- `observations[-20:]`
unfoldable pub last_twenty : List Value → List Value
last_twenty observations = drop (length observations - 20) observations

abbrev or_home : Python → Option String → String
or_home python none = python.home <> "/.ddo/profiles"
or_home python (some directory) =
    if directory == "" then python.home <> "/.ddo/profiles" else python.expanduser directory

unfoldable pub get_profile_dir : Python → Option String → String
get_profile_dir python none = or_home python python.profile_dir_variable
get_profile_dir python (some directory) = or_home python (some directory)

module _ (python : Python) where
  unfoldable pub normalize_context : Value → Exec Files Value
  normalize_context context = do
    _ ← raise_if (not (is_object context && is_truthy context)) value_error
    normalized ← or_raise (json_value python.string_le context) type_error
    _ ← raise_if (not (is_object normalized)) type_error
    pure normalized

  unfoldable pub profile_key : Value → Exec Files String
  profile_key context = do
    normalized ← normalize_context context
    pure ("ddo-capacity-v1-" <> python.digest normalized)

  unfoldable pub profile_path : Value → Option String → Exec Files String
  profile_path context profile_dir = do
    key ← profile_key context
    pure (get_profile_dir python profile_dir <> "/" <> key <> ".json")

  -- The tests that a record passes to be the profile of a context.
  unfoldable pub is_profile_of : Value → String → Value → Bool
  is_profile_of expected key record_ =
      is_object record_
      && (value_beq (or_null (value_get "schema_version" record_)) (number 1)
          && (value_beq (or_null (value_get "profile_key" record_)) (text key)
              && value_beq (or_null (value_get "context" record_)) expected))

  unfoldable pub read_profile : Value → String → Option Content → Option Value
  read_profile expected key (some (parsed record_)) =
      if is_profile_of expected key record_ then some record_ else none
  read_profile expected key content = none

  unfoldable pub load_profile : Value → Option String → Exec Files (Option Value)
  load_profile context profile_dir = do
    expected ← normalize_context context
    path ← profile_path expected profile_dir
    key ← profile_key expected
    λ files.
        continue (raise_if (is_undecodable (get path files)) value_error files)
          λ _ files1. done (read_profile expected key (get path files1)) files1

  -- The recommendation that a record has: the new one, or the one before.
  abbrev pub recommended : Option Value → Option Value → Dict String Value
  recommended (some recommendation) prior = ("recommendation", recommendation) ∷ []
  recommended none (some (object fs)) = ("recommendation", object fs) ∷ []
  recommended none prior = []

  unfoldable pub json_option : Option Value → Exec Files (Option Value)
  json_option none = pure none
  json_option (some v) = do w ← or_raise (json_value python.string_le v) type_error; pure (some w)

  abbrev pub profile_record :
      String → String → Value → Dict String Value → List Value → Dict String Value → Value
  profile_record key now context limits observations last = object (
      object_of (
        ("schema_version", number 1)
        ∷ ("profile_key", text key)
        ∷ ("updated_at", text now)
        ∷ ("context", context)
        ∷ ("capacity_limits", object (object_of limits))
        ∷ ("observations", array (array_of (last_twenty observations)))
        ∷ last))

  -- The temporary file beside the profile's.
  abbrev pub temporary : String → Files → String
  temporary path files = path <> "." <> python.uuid files <> ".tmp"

  abbrev pub left_of : String → Option Content → Files → Files
  left_of name none files = files
  left_of name (some content) files = put name content files

  -- `os.replace`: the temporary file takes the place of the profile's.
  abbrev pub replaced : String → Value → Files → Files
  replaced path record_ files =
      put path (parsed record_)
        (remove (temporary path files) (put (temporary path files) (parsed record_) files))

  unfoldable pub write_profile : String → Value → Exec Files String
  write_profile path record_ files =
      let name = temporary path files in
      if python.writes name
      then (if python.replaces path
          then done path (replaced path record_ files)
          else raise os_error (put name (parsed record_) files))
      else raise os_error (left_of name (python.leaves name) files)

  abbrev pub or_empty : Option Value → Value
  or_empty none = object no_fields
  or_empty (some v) = v

  abbrev pub is_no_object : Option Value → Bool
  is_no_object none = false
  is_no_object (some v) = not (is_object v)

  -- The part of `record_dynamic_offload_profile` behind the checks of its arguments.
  unfoldable pub record_observation :
      String → Option String → Value → Value → Option Value → Exec Files String
  record_observation now profile_dir context observation recommendation = do
    path ← profile_path context profile_dir
    found ← load_profile context profile_dir
    observations ← list_of python (or_null (value_get "observations" (or_empty found)))
    key ← profile_key context
    limits ← merge_capacity_limits (value_get "capacity_limits" (or_empty found)) observation
    write_profile path (
        profile_record key now context limits (observations ++ observation ∷ [])
          (recommended recommendation (value_get "recommendation" (or_empty found))))

  unfoldable pub record_profile :
      String → Option String → Value → Value → Option Value → Exec Files String
  record_profile now profile_dir context observation recommendation = do
    normalized ← normalize_context context
    observed ← or_raise (json_value python.string_le observation) type_error
    advised ← json_option recommendation
    _ ← raise_if (not (is_object observed)) type_error
    _ ← raise_if (is_no_object advised) type_error
    record_observation now profile_dir normalized observed advised

-- `float(value)` of the two limits of a metric.
unfoldable pub limits_in : Dict String Value → Exec Files (Dict String ℕ)
limits_in [] = pure []
limits_in ((key, v) ∷ d) =
    let rest = limits_in d in
    if key == "max_success"
    then (float_of v >>= λ n. rest >>= λ found. pure ((key, n) ∷ found))
    else if key == "min_failure"
    then (float_of v >>= λ n. rest >>= λ found. pure ((key, n) ∷ found))
    else rest

abbrev pub or_none : Dict String ℕ → Option (Dict String ℕ)
or_none [] = none
or_none d = some d

abbrev pub limits_at : Option Value → Exec Files (Option (Dict String ℕ))
limits_at (some (object fs)) = limits_in (entries fs) >>= λ found. pure (or_none found)
limits_at v = pure none

unfoldable pub get_profile_capacity : Value → String → Exec Files (Option (Dict String ℕ))
get_profile_capacity profile metric =
    limits_at (value_get metric (or_null (value_get "capacity_limits" profile)))

abbrev pub mapping : Option Value → Option (Dict String Value)
mapping (some (object fs)) = some (entries fs)
mapping v = none

unfoldable pub get_profile_recommendation : Value → Option (Dict String Value)
get_profile_recommendation profile = mapping (value_get "recommendation" profile)
