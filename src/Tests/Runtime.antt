-- ===== src/Tests/Runtime.antt =====
-- Two groups of one weight each, on an arena whose allocator never fails.
use diffusers_dynamic_offloa.Prelude.{
  eqb, List, none, ◌+◌, ◌≡◌, refl, true, false, ◌⊎◌, String, string_eq, some, [], ◌∷◌, map, ◌==◌,
}
use diffusers_dynamic_offloa.Outcome.{Post}
use diffusers_dynamic_offloa.Dict.{Dict, get, put}
use diffusers_dynamic_offloa.ModelArena
use diffusers_dynamic_offloa.ModelArena.{
  Native, Group, Arena, View, Weights, new_arena, new_group, place_weights,
}
use diffusers_dynamic_offloa.ModelArena.Leases.{
  Acquired, Unchanged, Released, Dropped, acquire-Acquired, release-Released,
}
use diffusers_dynamic_offloa.ModelArena.Grouping.{Apart, Within, total_bytes, place_weights-Within}
use diffusers_dynamic_offloa.ExecutionGroups.{Groups, Cuda}
use diffusers_dynamic_offloa.ExecutionGroups.Exclusion.{IsApart, IsExclusive, IsPaired}
use diffusers_dynamic_offloa.ExecutionGroups.Keeping.{
  enter_group, work, leave_group, clear_groups, run,
}
use diffusers_dynamic_offloa.ExecutionGroups.Sequences.{run-IsExclusive}
use diffusers_dynamic_offloa.Presets.{
  Env, preset_env_value, policy_value, component_policies, or_default,
}
use diffusers_dynamic_offloa.Presets.Resolution.{
  Rejected, Given, Unknown, asked, preset_env_value-Post,
}
use diffusers_dynamic_offloa.SourceCache.{of_bytes, gibibytes, native_source_cache_transport_config}
use diffusers_dynamic_offloa.SourceCache.Limits.{
  Accepted, native_source_cache_transport_config-Accepted,
}
use diffusers_dynamic_offloa.PlanBuilding.{State, Python, Config, Root, build_uncached}
use diffusers_dynamic_offloa.PlanBuilding.Totals.{IsCounted, build_uncached-IsCounted}
use diffusers_dynamic_offloa.PlanBuilding.Transparency.{
  Request, IsTrue, Remembers, expected, said, builds, builds-uncached,
}
use diffusers_dynamic_offloa.Tests.Memory.{tensor_at}

abbrev pub steady : Native
steady = record { succeeds = λ trace call. true; bound_views = λ trace key. (key, 0) ∷ [] }

abbrev pub reserved : Arena
reserved = record (new_arena 32) {
  groups =
      ("blocks.0", new_group "blocks.0" 32 8 [] [])
      ∷ ("blocks.1", new_group "blocks.1" 32 8 [] [])
      ∷ [];
}

abbrev pub ready : Groups
ready = record {
  names = "blocks.0" ∷ "blocks.1" ∷ [];
  arena = some reserved;
  resources = true;
  executor = true;
  futures = [];
  detached = [];
  pending_leases = [];
  pending_events = [];
  active_leases = [];
  events = 0;
}

-- Every call on an event succeeds.
abbrev pub sound : Cuda
sound = record { records = λ n. true; waits = λ n. true; synchronizes = λ n. true }

pub ready-IsPaired : IsPaired ready
unfolding IsApart get
ready-IsPaired name = (refl, refl)

ready-IsExclusive : IsExclusive ready
unfolding IsApart get
ready-IsExclusive name = (refl, refl)

-- The second event cannot be waited for.
abbrev shaky : Cuda
shaky = record { records = λ n. true; waits = λ n. eqb n 0; synchronizes = λ n. true }

run_groups_example : IsExclusive (
    run steady shaky
      (enter_group 0 ∷ work "blocks.1" ∷ leave_group "blocks.0" ∷ enter_group 1 ∷ clear_groups ∷ [])
      ready)
run_groups_example =
    run-IsExclusive steady shaky
      (enter_group 0 ∷ work "blocks.1" ∷ leave_group "blocks.0" ∷ enter_group 1 ∷ clear_groups ∷ [])
      ready ready-IsExclusive

acquire_group_example :
    Post
      (Acquired steady "blocks.0" reserved)
      (λ _. Unchanged steady reserved.groups)
      (ModelArena.acquire steady "blocks.0" reserved)
acquire_group_example = acquire-Acquired steady "blocks.0" reserved

abbrev in_use : Arena
in_use = record reserved {
  groups = ("blocks.0", record (new_group "blocks.0" 32 8 [] []) { active_leases = 1 }) ∷ [];
}

release_group_example :
    Post
      (λ _. Released steady "blocks.0" in_use)
      (λ _ s'. (s'.groups ≡ in_use.groups) ⊎ Dropped steady "blocks.0" in_use s')
      (ModelArena.release steady "blocks.0" in_use)
release_group_example = release-Released steady "blocks.0" in_use

abbrev weights : Weights
weights = ("q", tensor_at 64) ∷ ("k", tensor_at 128) ∷ []

abbrev placed : Dict String View
placed =
    ("q", record { name = "q"; offset = 0; bytes = 8 })
    ∷ ("k", record { name = "k"; offset = 8; bytes = 8 })
    ∷ []

weights_placed : place_weights [] weights 0 [] ≡ some (16, placed)
unfolding place_weights get put
weights_placed = refl

nothing_placed : Within 0 []
unfolding get
nothing_placed name view e = absurd (cc)

nothing_shared : Apart []
unfolding get
nothing_shared a b v w differ found_a found_b = absurd (cc)

place_weights_example : (16 ≡ 0 + total_bytes weights) × Within 16 placed × Apart placed
place_weights_example =
    place_weights-Within [] weights 0 [] 16 placed nothing_placed nothing_shared weights_placed

transport_example : Accepted 100000000 (
    native_source_cache_transport_config 100000000 0 0 false true
      (of_bytes (gibibytes 1))
      (of_bytes 0))
transport_example =
    native_source_cache_transport_config-Accepted 100000000 0 0 false true (of_bytes (gibibytes 1))
      (of_bytes 0)

abbrev overridden : Env
overridden = ("DDO_EXECUTION_MODE", "linear") ∷ []

abbrev python : Python
python = record {
  search = λ pattern name. pattern == name;
  class_name = λ qualname. qualname;
  bases = λ class_module qualname. qualname ∷ [];
}

abbrev config : Config
config = record {
  target_classes = "Linear" ∷ [];
  skip_patterns = [];
  always_resident_patterns = [];
  resident_patterns = [];
  small_tensor_threshold = 4;
  cache_plan = true;
}

abbrev root : Root
root = record {
  class_module = "models";
  qualname = "Transformer";
  modules =
      record {
        name = "blocks.0.q";
        class_module = "torch.nn";
        qualname = "Linear";
        tensors = ("weight", "cpu", tensor_at 64) ∷ [];
      }
      ∷ [];
}

build_example : IsCounted (build_uncached python config root)
build_example = build_uncached-IsCounted python config root

abbrev request : Request
request = record { config = config; root = root; patterns = [] }

empty-IsTrue : IsTrue python []
unfolding get
empty-IsTrue key s e = absurd (cc)

-- The same model with other patterns.
abbrev requests : List Request
requests = request ∷ record request { patterns = "q" ∷ [] } ∷ []

empty-Remembers : Remembers [] []
unfolding get
empty-Remembers key = refl

builds_example :
    (map said (builds python requests [])
      ≡ map (λ r. said (build_uncached python r.config r.root)) requests)
    × (map (λ (s : State). s.resolved_patterns) (builds python requests [])
        ≡ expected python requests [])
builds_example = builds-uncached python requests [] [] empty-IsTrue empty-Remembers

preset_example :
    Post
      (λ value env1.
        (env1 ≡ overridden)
        × ((own : String) → get "DDO_PLAN" overridden ≡ some own → value ≡ own)
        × (get "DDO_PLAN" overridden ≡ none → Given "DDO_PLAN" "1" (asked "off") value))
      (λ e env1. Rejected overridden e env1 × (get "DDO_PLAN" overridden ≡ none) × Unknown "off")
      (preset_env_value "DDO_PLAN" "1" "off" none overridden)
preset_example = preset_env_value-Post "DDO_PLAN" "1" "off" overridden

vae_route : policy_value true "warm_process" "vae" "ROUTE" "" ≡ "none"
unfolding policy_value component_policies or_default get
vae_route = refl
