-- ===== src/Presets.antt =====
-- The presets of src/diffusers_dynamic_offloader/dynamic_offload.py. The environment is the state of a call;
-- the requested preset is the text after `strip().lower()`.
pub mod Resolution
use diffusers_dynamic_offloa.Prelude.{
  String, string_eq, Bool, true, false, ◌&&◌, ◌||◌, not, Option, none, some, List, [], ◌∷◌,
  if◌then◌else◌, ◌==◌,
}
use diffusers_dynamic_offloa.Dict.{Dict, get, contains}
use diffusers_dynamic_offloa.Outcome.{
  Exec, done, value_error, key_error, raise_if, or_raise, continue,
}

abbrev pub Env : Type 0
Env = Dict String String

-- `DDO_PRESETS`
unfoldable pub presets : Dict String Env
presets =
    ("off", ("DDO_EXECUTION_MODE", "plan") ∷ ("DDO_PLAN", "0") ∷ [])
    ∷ (
      "diffusers_leaf_offload_compat",
      ("DDO_RUNNER_TEXT_ENCODER_GROUP_OFFLOAD", "1")
          ∷ ("DDO_RUNNER_TEXT_ENCODER_OFFLOAD_TYPE", "leaf_level")
          ∷ ("DDO_RUNNER_TEXT_ENCODER_OFFLOAD_STREAM", "1")
          ∷ ("DDO_RUNNER_TEXT_ENCODER_DYNAMIC_OFFLOAD", "0")
          ∷ ("DDO_RUNNER_TRANSFORMER_MEMORY_MANAGER", "off")
          ∷ ("DDO_RUNNER_TRANSFORMER_GROUP_OFFLOAD", "1")
          ∷ ("DDO_RUNNER_TRANSFORMER_OFFLOAD_TYPE", "leaf_level")
          ∷ ("DDO_RUNNER_TRANSFORMER_OFFLOAD_STREAM", "1")
          ∷ ("DDO_RUNNER_TRANSFORMER_OFFLOAD_RECORD_STREAM", "1")
          ∷ ("DDO_RUNNER_TRANSFORMER_OFFLOAD_LOW_CPU_MEM_USAGE", "1")
          ∷ ("DDO_RUNNER_ATTENTION_BACKEND", "native")
          ∷ ("DDO_EXECUTION_MODE", "plan")
          ∷ ("DDO_PLAN", "0")
          ∷ ("DDO_RUNNER_PRE_VAE_CLEANUP_REPEATS", "1")
          ∷ [],
    )
    ∷ (
      "diffusers_offload_compat",
      ("DDO_RUNNER_TEXT_ENCODER_GROUP_OFFLOAD", "1")
          ∷ ("DDO_RUNNER_TEXT_ENCODER_OFFLOAD_TYPE", "leaf_level")
          ∷ ("DDO_RUNNER_TEXT_ENCODER_OFFLOAD_STREAM", "1")
          ∷ ("DDO_RUNNER_TEXT_ENCODER_DYNAMIC_OFFLOAD", "0")
          ∷ ("DDO_RUNNER_TRANSFORMER_MEMORY_MANAGER", "off")
          ∷ ("DDO_RUNNER_TRANSFORMER_GROUP_OFFLOAD", "1")
          ∷ ("DDO_RUNNER_TRANSFORMER_OFFLOAD_TYPE", "block_level")
          ∷ ("DDO_RUNNER_TRANSFORMER_OFFLOAD_STREAM", "1")
          ∷ ("DDO_RUNNER_TRANSFORMER_OFFLOAD_RECORD_STREAM", "1")
          ∷ ("DDO_RUNNER_TRANSFORMER_OFFLOAD_LOW_CPU_MEM_USAGE", "1")
          ∷ ("DDO_RUNNER_TRANSFORMER_NUM_BLOCKS_PER_GROUP", "1")
          ∷ ("DDO_RUNNER_ATTENTION_BACKEND", "native")
          ∷ ("DDO_EXECUTION_MODE", "plan")
          ∷ ("DDO_PLAN", "0")
          ∷ ("DDO_RUNNER_PRE_VAE_CLEANUP_REPEATS", "1")
          ∷ [],
    )
    ∷ (
      "one_shot_fast",
      ("DDO_RUNNER_TEXT_ENCODER_GROUP_OFFLOAD", "1")
          ∷ ("DDO_RUNNER_TEXT_ENCODER_OFFLOAD_TYPE", "leaf_level")
          ∷ ("DDO_RUNNER_TEXT_ENCODER_OFFLOAD_STREAM", "1")
          ∷ ("DDO_RUNNER_TEXT_ENCODER_DYNAMIC_OFFLOAD", "0")
          ∷ ("DDO_RUNNER_TRANSFORMER_MEMORY_MANAGER", "off")
          ∷ ("DDO_RUNNER_TRANSFORMER_GROUP_OFFLOAD", "0")
          ∷ ("DDO_RUNNER_ATTENTION_BACKEND", "native")
          ∷ ("DDO_EXECUTION_MODE", "linear_runtime")
          ∷ ("DDO_PIN_CPU_MEMORY", "1")
          ∷ ("DDO_ALLOW_PIN_MEMORY_FALLBACK", "1")
          ∷ ("DDO_PIN_CPU_WORKERS", "4")
          ∷ ("DDO_AUTO_BUDGET_POLICY", "balanced")
          ∷ ("DDO_MAX_RESIDENT_MODULE_BUDGET_GB", "0")
          ∷ ("DDO_SYSTEM_RAM_HEADROOM_GB", "8")
          ∷ ("DDO_RESIDENT_MODULE_BUDGET_GB", "0")
          ∷ ("DDO_RESIDENT_MODULE_PATTERNS", "auto")
          ∷ ("DDO_RESIDENT_MODULE_SELECTION", "spread")
          ∷ ("DDO_SMALL_TENSOR_THRESHOLD_KB", "1024")
          ∷ ("DDO_RUNNER_PRE_VAE_CLEANUP_REPEATS", "1")
          ∷ ("DDO_PURGE_WINDOWS_STANDBY_BEFORE_RUN", "1")
          ∷ ("DDO_PURGE_WINDOWS_STANDBY_AFTER_TEXT_ENCODER", "1")
          ∷ ("DDO_PURGE_WINDOWS_STANDBY_BEFORE_TRANSFORMER", "1")
          ∷ [],
    )
    ∷ (
      "wsl_compat",
      ("DDO_RUNNER_TEXT_ENCODER_GROUP_OFFLOAD", "1")
          ∷ ("DDO_RUNNER_TEXT_ENCODER_OFFLOAD_TYPE", "leaf_level")
          ∷ ("DDO_RUNNER_TEXT_ENCODER_OFFLOAD_STREAM", "0")
          ∷ ("DDO_RUNNER_TRANSFORMER_MEMORY_MANAGER", "off")
          ∷ ("DDO_RUNNER_TRANSFORMER_GROUP_OFFLOAD", "0")
          ∷ ("DDO_RUNNER_ATTENTION_BACKEND", "native")
          ∷ ("DDO_EXECUTION_MODE", "linear_runtime")
          ∷ ("DDO_PIN_CPU_MEMORY", "0")
          ∷ ("DDO_ALLOW_PIN_MEMORY_FALLBACK", "1")
          ∷ ("DDO_DISABLE_PIN_ON_WSL", "1")
          ∷ ("DDO_PIN_CPU_WORKERS", "1")
          ∷ ("DDO_AUTO_BUDGET_POLICY", "off")
          ∷ ("DDO_RESIDENT_MODULE_BUDGET_GB", "6")
          ∷ ("DDO_RESIDENT_MODULE_PATTERNS", "auto")
          ∷ ("DDO_RESIDENT_MODULE_SELECTION", "spread")
          ∷ ("DDO_SMALL_TENSOR_THRESHOLD_KB", "1024")
          ∷ ("DDO_RUNNER_PRE_VAE_CLEANUP_REPEATS", "3")
          ∷ [],
    )
    ∷ (
      "warm_process",
      ("DDO_RUNNER_TEXT_ENCODER_GROUP_OFFLOAD", "1")
          ∷ ("DDO_RUNNER_TEXT_ENCODER_OFFLOAD_TYPE", "leaf_level")
          ∷ ("DDO_RUNNER_TEXT_ENCODER_OFFLOAD_STREAM", "1")
          ∷ ("DDO_RUNNER_TEXT_ENCODER_DYNAMIC_OFFLOAD", "0")
          ∷ ("DDO_RUNNER_GENERATION_REPEATS", "2")
          ∷ ("DDO_RUNNER_TRANSFORMER_MEMORY_MANAGER", "off")
          ∷ ("DDO_RUNNER_TRANSFORMER_GROUP_OFFLOAD", "0")
          ∷ ("DDO_RUNNER_ATTENTION_BACKEND", "native")
          ∷ ("DDO_EXECUTION_MODE", "linear_runtime")
          ∷ ("DDO_PIN_CPU_MEMORY", "1")
          ∷ ("DDO_ALLOW_PIN_MEMORY_FALLBACK", "1")
          ∷ ("DDO_PIN_CPU_WORKERS", "4")
          ∷ ("DDO_CACHE_PINNED_WEIGHTS", "1")
          ∷ ("DDO_AUTO_BUDGET_POLICY", "off")
          ∷ ("DDO_RESIDENT_MODULE_BUDGET_GB", "6")
          ∷ ("DDO_RESIDENT_MODULE_PATTERNS", "auto")
          ∷ ("DDO_RESIDENT_MODULE_SELECTION", "spread")
          ∷ ("DDO_SMALL_TENSOR_THRESHOLD_KB", "1024")
          ∷ [],
    )
    ∷ (
      "low_ram_safe",
      ("DDO_RUNNER_TEXT_ENCODER_GROUP_OFFLOAD", "1")
          ∷ ("DDO_RUNNER_TEXT_ENCODER_OFFLOAD_TYPE", "leaf_level")
          ∷ ("DDO_RUNNER_TEXT_ENCODER_OFFLOAD_STREAM", "0")
          ∷ ("DDO_RUNNER_TEXT_ENCODER_DYNAMIC_OFFLOAD", "0")
          ∷ ("DDO_RUNNER_TRANSFORMER_MEMORY_MANAGER", "off")
          ∷ ("DDO_RUNNER_TRANSFORMER_GROUP_OFFLOAD", "0")
          ∷ ("DDO_RUNNER_ATTENTION_BACKEND", "native")
          ∷ ("DDO_EXECUTION_MODE", "linear_runtime")
          ∷ ("DDO_PIN_CPU_MEMORY", "0")
          ∷ ("DDO_ALLOW_PIN_MEMORY_FALLBACK", "1")
          ∷ ("DDO_PIN_CPU_WORKERS", "1")
          ∷ ("DDO_AUTO_BUDGET_POLICY", "off")
          ∷ ("DDO_RESIDENT_MODULE_BUDGET_GB", "3")
          ∷ ("DDO_RESIDENT_MODULE_PATTERNS", "auto")
          ∷ ("DDO_RESIDENT_MODULE_SELECTION", "spread")
          ∷ ("DDO_SMALL_TENSOR_THRESHOLD_KB", "1024")
          ∷ [],
    )
    ∷ []

unfoldable pub resolve_preset : String → Exec Env String
resolve_preset requested env =
    if requested == "auto"
    then done "one_shot_fast" env
    else continue
        (raise_if (not (requested == "") && not (contains requested presets)) value_error env)
        (λ _ env1. done requested env1)

unfoldable pub or_default : Option String → String → String
or_default none default = default
or_default (some value) default = value

-- The value that a preset gives; `vmm_fast` and `nvme_baseline` give none.
unfoldable pub preset_value : String → String → String → Exec Env String
preset_value name default preset env =
    if preset == "" || (preset == "vmm_fast" || preset == "nvme_baseline")
    then done default env
    else continue (or_raise (get preset presets) key_error env)
        (λ values env1. done (or_default (get name values) default) env1)

unfoldable pub effective_or_resolved : Option String → String → Exec Env String
effective_or_resolved none requested env = resolve_preset requested env
effective_or_resolved (some preset) requested env = done preset env

unfoldable pub value_or_preset :
    Option String → String → String → String → Option String → Exec Env String
value_or_preset (some value) name default requested effective env = done value env
value_or_preset none name default requested effective env =
    continue (effective_or_resolved effective requested env)
      λ preset env1. preset_value name default preset env1

unfoldable pub preset_env_value : String → String → String → Option String → Exec Env String
preset_env_value name default requested effective env =
    value_or_preset (get name env) name default requested effective env

unfoldable pub vae_leaf_policy : Env
vae_leaf_policy =
    ("ROUTE", "diffusers_group_offload")
    ∷ ("OFFLOAD_TYPE", "leaf_level")
    ∷ ("OFFLOAD_STREAM", "0")
    ∷ ("OFFLOAD_LOW_CPU_MEM_USAGE", "0")
    ∷ []

-- `_PRESET_COMPONENT_POLICIES`
unfoldable pub component_policies : Dict String (Dict String Env)
component_policies =
    ("one_shot_fast", ("vae", vae_leaf_policy) ∷ [])
    ∷ ("low_ram_safe", ("vae", vae_leaf_policy) ∷ [])
    ∷ ("vmm_fast", ("vae", vae_leaf_policy) ∷ [])
    ∷ ("warm_process", ("vae", ("ROUTE", "none") ∷ []) ∷ [])
    ∷ ("wsl_compat", ("vae", ("ROUTE", "none") ∷ []) ∷ [])
    ∷ ("nvme_baseline", ("vae", ("ROUTE", "none") ∷ []) ∷ [])
    ∷ []

-- `d.get(key, {})`
abbrev pub or_empty : {V : Type 0} → Option (Dict String V) → Dict String V
or_empty none = []
or_empty (some d) = d

-- The last step of `_component_preset_value`, for a component's name in lower case.
unfoldable pub policy_value : Bool → String → String → String → String → String
policy_value allow_preset_policy effective component name default =
    if allow_preset_policy
    then or_default
        (get name (or_empty (get component (or_empty (get effective component_policies))))) default
    else default
