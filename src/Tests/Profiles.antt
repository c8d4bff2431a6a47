-- ===== src/Tests/Profiles.antt =====
-- A context, two trials and a place for their files.
use mathlib.Core.Option.{some-injective}
use diffusers_dynamic_offloa.Prelude.{
  ℕ, ◌≡◌, refl, sym, subst, ◌∙◌, String, string_eq, Bool, true, false, Option, none, some, List, [],
  leb, if◌then◌else◌, ◌==◌, arith, ◌∷◌,
}
use diffusers_dynamic_offloa.Dict.{Dict, get}
use diffusers_dynamic_offloa.Outcome.{Post, done}
use diffusers_dynamic_offloa.Sorting.{insert, sorted}
use diffusers_dynamic_offloa.Json.{
  Value, number, text, object, object_of, json_value, json_fields, value_beq,
}
use diffusers_dynamic_offloa.Json.Canonical.{IsOrdered, json_value-idempotent}
use diffusers_dynamic_offloa.Profiles.{
  Files, Python, or_empty, or_none, get_profile_dir, normalize_context, profile_key, profile_path,
  load_profile, read_profile, record_profile, get_profile_capacity,
}
use diffusers_dynamic_offloa.Profiles.Trials.{Trial, observation_of, side_of, best}
use diffusers_dynamic_offloa.Profiles.Storing.{Stored, Kept, record_profile-Stored}
use diffusers_dynamic_offloa.Profiles.History.{record_trials, behind, record_trials-best}

abbrev python : Python
python = record {
  string_le = λ a b. true;
  digest = λ context. "0123";
  characters = λ s. s ∷ [];
  expanduser = λ path. path;
  home = "/home/user";
  profile_dir_variable = none;
  uuid = λ files. "0001";
  writes = λ name. true;
  leaves = λ name. none;
  replaces = λ path. true;
}

all_le : (a b c : String) → true ≡ true → true ≡ true → true ≡ true
all_le a b c h k = refl

either_le : (a b : String) → true ≡ false → true ≡ true
either_le a b h = refl

abbrev context : Value
context = object (object_of (("name", text "flux") ∷ ("identity_version", number 2) ∷ []))

context_normal : json_value python.string_le context ≡ some context
unfolding json_value json_fields sorted insert
context_normal = refl

equals_itself : value_beq context context ≡ true
unfolding value_beq get
equals_itself = refl

equal_if_normal : (n : Value) → json_value python.string_le context ≡ some n → value_beq n n ≡ true
equal_if_normal n e =
    subst (λ v. value_beq v v ≡ true) (some-injective context n (sym context_normal ∙ e))
      equals_itself

abbrev trials : List Trial
trials =
    record { succeeded = true; metric = "tokens"; value = 512 }
    ∷ record { succeeded = false; metric = "tokens"; value = 4096 }
    ∷ []

nothing_there : load_profile python context none [] ≡ done none []
unfolding load_profile normalize_context profile_key profile_path read_profile get_profile_dir
    json_value json_fields sorted insert get
nothing_there = refl

-- An order of the keys at hand.
abbrev rank : String → ℕ
rank s = if s == "name" then 1 else 0

abbrev rank_le : String → String → Bool
rank_le a b = leb (rank a) (rank b)

rank_trans : (a b c : String) → rank_le a b ≡ true → rank_le b c ≡ true → rank_le a c ≡ true
rank_trans a b c h k = ground arith

rank_total : (a b : String) → rank_le a b ≡ false → rank_le b a ≡ true
rank_total a b h = ground arith

abbrev in_order : Value
in_order = object (object_of (("identity_version", number 2) ∷ ("name", text "flux") ∷ []))

put_in_order : json_value rank_le context ≡ some in_order
unfolding json_value json_fields sorted insert
put_in_order = refl

normalized_example : IsOrdered rank_le in_order × (json_value rank_le in_order ≡ some in_order)
normalized_example =
    json_value-idempotent rank_le rank_trans rank_total context in_order put_in_order

record_profile_example :
    Post
      (Stored python all_le either_le none context
        (observation_of (record { succeeded = true; metric = "tokens"; value = 512 }))
        [])
      (Kept python all_le either_le none context [])
      (record_profile python "now" none context
        (observation_of (record { succeeded = true; metric = "tokens"; value = 512 }))
        none
        [])
record_profile_example =
    record_profile-Stored python all_le either_le "now" none context
      (observation_of (record { succeeded = true; metric = "tokens"; value = 512 })) []
      equal_if_normal none

record_trials_example :
    (s' : Files) × (record_trials python "now" none context trials [] ≡ done tt s')
    × (found : Option Value) × (load_profile python context none s' ≡ done found s')
    × ((metric : String)
        → (c : Dict String ℕ) × (get_profile_capacity (or_empty python found) metric s'
            ≡ done (or_none c) s')
          × ((side : Bool) → get (side_of side) c ≡ best side metric (behind trials [])))
record_trials_example =
    record_trials-best python all_le either_le "now" none context context
      (refl, context_normal, refl) equals_itself (λ files. refl) refl trials [] (refl, (refl, tt))
      nothing_there
