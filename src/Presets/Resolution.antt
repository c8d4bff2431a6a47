-- ===== src/Presets/Resolution.antt =====
-- A requested preset is found or rejected; the environment's own values win.
use diffusers_dynamic_offloa.Prelude.{
  ◌≡◌, refl, sym, subst, String, string_eq, true, false, ◌&&◌, ◌||◌, not, if◌then◌else◌, Option,
  none, some, ◌==◌, is_some, ◌⊎◌, inl, inr, arith, Bool-cases, ==_iff,
}
use mathlib.Core.Option.{some-injective}
use diffusers_dynamic_offloa.Dict.{get, contains}
use diffusers_dynamic_offloa.Outcome.{
  Error, done, value_error, key_error, continue, or_raise, Post, Post-continue, Post-raise_if,
  Post-if, Post-weaken,
}
use diffusers_dynamic_offloa.Presets.{
  Env, presets, resolve_preset, or_default, preset_value, effective_or_resolved, value_or_preset,
  preset_env_value,
}

-- The preset is no preset, or one of the table.
abbrev pub IsKnown : String → Type 0
IsKnown preset = (preset ≡ "") ⊎ (contains preset presets ≡ true)

-- The preset that a request stands for.
abbrev pub asked : String → String
asked requested = if requested == "auto" then "one_shot_fast" else requested

-- The value that a preset gives: the default with no preset, else what the table says.
pub data Given (name default preset value : String) : Type 0 where
  no_preset : preset ≡ "" → value ≡ default → Given name default preset value
  named :
      (values : Env)
      → get preset presets ≡ some values
      → get name values ≡ some value
      → Given name default preset value
  unnamed :
      (values : Env)
      → get preset presets ≡ some values
      → get name values ≡ none
      → value ≡ default
      → Given name default preset value

abbrev pub Rejected : Env → Error → Env → Type 0
Rejected env e env1 = (e ≡ value_error) × (env1 ≡ env)

-- A request that `auto`, the empty one and the table do not cover.
abbrev pub Unknown : String → Type 0
Unknown requested =
    (requested == "auto" ≡ false) × (requested == "" ≡ false) × (get requested presets ≡ none)

default_known : contains "one_shot_fast" presets ≡ true
unfolding presets get
default_known = refl

no_vmm_fast : get "vmm_fast" presets ≡ none
unfolding presets get
no_vmm_fast = refl

no_nvme_baseline : get "nvme_baseline" presets ≡ none
unfolding presets get
no_nvme_baseline = refl

-- The two presets outside the table are not accepted.
not_outside :
    (preset : String)
    → contains preset presets ≡ true
    → (preset == "vmm_fast" || preset == "nvme_baseline") ≡ false
not_outside preset there = elim (Bool-cases (preset == "vmm_fast")) [
  | inl same ↦ absurd (missing "vmm_fast" no_vmm_fast ((==_iff preset "vmm_fast").0 same))
  | inr differ ↦ elim (Bool-cases (preset == "nvme_baseline")) [
    | inl same ↦
        absurd (missing "nvme_baseline" no_nvme_baseline ((==_iff preset "nvme_baseline").0 same))
    | inr also ↦ rw (differ, also) refl
  ]
]
  where
    missing : (other : String) → get other presets ≡ none → preset ≡ other → ⊥
    missing other none_there same =
        let gone : get preset presets ≡ none =
          subst (λ p. get p presets ≡ none) (sym same) none_there in
        let found : is_some (get preset presets) ≡ true = there in
        absurd
          (let bad : is_some {A = Env} none ≡ true = subst (λ o. is_some o ≡ true) gone found in cc)

resolve_preset-Post :
    (requested : String) (env : Env)
    → Post
        (λ preset env1. IsKnown preset × (preset ≡ asked requested) × (env1 ≡ env))
        (λ e env1. Rejected env e env1 × Unknown requested)
        (resolve_preset requested env)
unfolding resolve_preset
resolve_preset-Post requested env =
    Post-if _ _ (requested == "auto") _ _ (λ auto. (inr default_known, rw auto refl, refl))
      λ other.
        Post-raise_if _ _ (not (requested == "") && not (contains requested presets)) value_error
          env _
          (λ bad.
            ((refl, refl), (other, ground arith, absent (get requested presets) (ground arith))))
          λ fine. (known fine, rw other refl, refl)
  where
    absent : (o : Option Env) → is_some o ≡ false → o ≡ none
    absent none e = refl
    absent (some values) e = absurd (cc)

    known : not (requested == "") && not (contains requested presets) ≡ false → IsKnown requested
    known fine = elim (Bool-cases (contains requested presets)) [
      | inl there ↦ inr there
      | inr missing ↦ inl ((==_iff requested "").0 (ground arith))
    ]

-- A known preset's value is the one the table gives; the lookup does not fail.
preset_value-Post :
    (name default preset : String) (env : Env)
    → IsKnown preset
    → Post
        (λ value env1. (env1 ≡ env) × Given name default preset value)
        (λ e env1. ⊥)
        (preset_value name default preset env)
unfolding preset_value or_default
preset_value-Post name default preset env (inl empty) =
    rw ((==_iff preset "").1 empty) (refl, no_preset empty refl)
preset_value-Post name default preset env (inr there) =
    Post-if _ _ (preset == "" || (preset == "vmm_fast" || preset == "nvme_baseline")) _ _
      (λ outside. (
        refl,
        no_preset ((==_iff preset "").0 (let inside = not_outside preset there in ground arith))
            refl,
      ))
      λ _. looked_up (get preset presets) refl there
  where
    valued :
        (values : Env) (o : Option String)
        → get preset presets ≡ some values
        → get name values ≡ o
        → Given name default preset (or_default o default)
    valued values none found e = unnamed values found e refl
    valued values (some value) found e = named values found e

    looked_up :
        (o : Option Env)
        → get preset presets ≡ o
        → is_some o ≡ true
        → Post
            (λ value env1. (env1 ≡ env) × Given name default preset value)
            (λ e env1. ⊥)
            (continue
              (or_raise o key_error env)
              (λ values env1. done (or_default (get name values) default) env1))
    looked_up (some values) found e = (refl, valued values (get name values) found refl)
    looked_up none found e = absurd (cc)

-- A lookup for a requested preset, whatever is asked for, changes no variable. It returns the environment's
-- own value where there is one. Otherwise `auto` stands for `one_shot_fast`; the empty request gives the
-- default, a preset of the table gives its value or, where it has none, the default; and any other request,
-- and nothing else, raises `ValueError`.
pub preset_env_value-Post :
    (name default requested : String) (env : Env)
    → Post
        (λ value env1.
          (env1 ≡ env)
          × ((own : String) → get name env ≡ some own → value ≡ own)
          × (get name env ≡ none → Given name default (asked requested) value))
        (λ e env1. Rejected env e env1 × (get name env ≡ none) × Unknown requested)
        (preset_env_value name default requested none env)
unfolding preset_env_value value_or_preset effective_or_resolved
preset_env_value-Post name default requested env = from (get name env)
  where
    preset :
        Post
          (λ value env1. (env1 ≡ env) × Given name default (asked requested) value)
          (λ e env1. Rejected env e env1 × Unknown requested)
          (continue
            (effective_or_resolved none requested env)
            λ preset env1. preset_value name default preset env1)
    preset =
        Post-continue (λ p env1. IsKnown p × (p ≡ asked requested) × (env1 ≡ env))
          (λ value env1. (env1 ≡ env) × Given name default (asked requested) value)
          (λ e env1. Rejected env e env1 × Unknown requested) (resolve_preset requested env) _
          (resolve_preset-Post requested env)
          λ p env1 (known, same, kept).
            subst
              (λ e.
                Post (λ value env2. (env2 ≡ env) × Given name default (asked requested) value)
                  (λ e env2. Rejected env e env2 × Unknown requested)
                  (preset_value name default p e))
              (sym kept)
              (Post-weaken (λ value env2. (env2 ≡ env) × Given name default p value) _ (λ e env2. ⊥)
                _ (preset_value name default p env) (preset_value-Post name default p env known)
                (λ value env2 (unchanged, given).
                  (unchanged, subst (λ q. Given name default q value) same given))
                (λ e env2 never. absurd never))

    from :
        (o : Option String)
        → Post
            (λ value env1.
              (env1 ≡ env)
              × ((own : String) → o ≡ some own → value ≡ own)
              × (o ≡ none → Given name default (asked requested) value))
            (λ e env1. Rejected env e env1 × (o ≡ none) × Unknown requested)
            (value_or_preset o name default requested none env)
    from (some value) = (refl, (λ own e. some-injective value own e), λ e. absurd (cc))
    from none =
        Post-weaken (λ value env1. (env1 ≡ env) × Given name default (asked requested) value) _
          (λ e env1. Rejected env e env1 × Unknown requested) _
          (continue (effective_or_resolved none requested env)
            λ preset env1. preset_value name default preset env1)
          preset (λ value env1 (kept, given). (kept, (λ own e. absurd (cc)), λ e. given))
          (λ e env1 (rejected, unknown). (rejected, refl, unknown))
