-- ===== src/PlanBuilding.antt =====
-- The plan of src/diffusers_dynamic_offloader/dynamic_offload.py: `build_dynamic_offload_plan` and what it
-- counts. Modules are what `named_modules` gives of each. The search for a pattern, the name and the bases of
-- a class are Python's, and functions. The fields of a state that no plan sets are left out, and so are its
-- times.
pub mod Totals
pub mod Keyed
pub mod Transparency
use diffusers_dynamic_offloa.Prelude.{
  ℕ, ◌+◌, String, string_eq, Bool, true, false, ◌||◌, not, Option, none, some, List, [], ◌∷◌, ◌++◌,
  leb, if◌then◌else◌, ◌==◌, Eq, any, map, nat_eq, list_eq, product_eq,
}
use diffusers_dynamic_offloa.Tensors.{Tensor, size_bytes}
use diffusers_dynamic_offloa.Dict.{Dict, get, put}

pub record Entry : Type 0 where
  pub module_name : String
  pub module_type : String
  pub tensor_name : String
  pub shape : List ℕ
  pub dtype : String
  pub device : String
  pub bytes : ℕ
  pub placement : String

-- `tensors` are the module's own parameters, then its own buffers, each with its device; `class_module` and
-- `qualname` name its class.
pub record Module : Type 0 where
  pub name : String
  pub class_module : String
  pub qualname : String
  pub tensors : List (String × String × Tensor)

pub record Root : Type 0 where
  pub class_module : String
  pub qualname : String
  pub modules : List Module

pub record Config : Type 0 where
  pub target_classes : List String
  pub skip_patterns : List String
  pub always_resident_patterns : List String
  pub resident_patterns : List String
  pub small_tensor_threshold : ℕ
  pub cache_plan : Bool

-- `bases` are the full names of a class and of what it inherits from.
pub record Python : Type 0 where
  pub search : String → String → Bool
  pub class_name : String → String
  pub bases : String → String → List String

pub record State : Type 0 where
  pub entries : List Entry
  pub module_count : ℕ
  pub total_bytes : ℕ
  pub bytes_by_placement : Dict String ℕ
  pub resolved_patterns : List String
  pub setup_bytes : Dict String ℕ
  pub copy_bytes : Dict String ℕ
  pub copy_calls : Dict String ℕ
  pub decisions : Dict String String

abbrev pub new_state : State
new_state = record {
  entries = [];
  module_count = 0;
  total_bytes = 0;
  bytes_by_placement = [];
  resolved_patterns = [];
  setup_bytes = [];
  copy_bytes = [];
  copy_calls = [];
  decisions = [];
}

-- `d.get(key, 0)`
abbrev pub or_zero : Option ℕ → ℕ
or_zero none = 0
or_zero (some n) = n

-- `d[key] = d.get(key, 0) + n`
unfoldable pub add_to : String → ℕ → Dict String ℕ → Dict String ℕ
add_to key n d = put key (or_zero (get key d) + n) d

-- `add_setup` and `add_copy` of the state, without the seconds.
unfoldable pub add_setup : String → ℕ → State → State
add_setup action byte_count s = record s { setup_bytes = add_to action byte_count s.setup_bytes }

unfoldable pub add_copy : String → ℕ → State → State
add_copy name byte_count s = record s {
  copy_bytes = add_to name byte_count s.copy_bytes;
  copy_calls = add_to name 1 s.copy_calls;
}

-- What a run of the plan starts from.
unfoldable pub clone_for_runtime : State → State
clone_for_runtime s = record s { setup_bytes = []; copy_bytes = []; copy_calls = [] }

unfoldable pub classify_tensor : Tensor → Bool → ℕ → String
classify_tensor tensor module_resident threshold =
    if module_resident
    then "resident_module"
    else if leb (size_bytes tensor) threshold
    then "resident_small"
    else "streamed_large"

-- `any(pattern.search(name) for pattern in patterns)`
abbrev pub matches : Python → List String → String → Bool
matches python patterns name = any (λ pattern. python.search pattern name) patterns

-- `isinstance(module, config.target_module_classes)`
abbrev pub is_target : Python → Config → Module → Bool
is_target python config module_ =
    any (λ base. any (λ target. base == target) config.target_classes)
      (python.bases module_.class_module module_.qualname)

unfoldable pub entry_of : Python → Config → Module → String → String → Tensor → Entry
entry_of python config module_ name device tensor = record {
  module_name = module_.name;
  module_type = python.class_name module_.qualname;
  tensor_name = name;
  shape = tensor.shape;
  dtype = tensor.dtype;
  device = device;
  bytes = size_bytes tensor;
  placement =
      classify_tensor tensor (matches python config.always_resident_patterns module_.name)
        config.small_tensor_threshold;
}

unfoldable pub add_entry : Entry → State → State
add_entry entry s = record s {
  entries = s.entries ++ entry ∷ [];
  total_bytes = s.total_bytes + entry.bytes;
  bytes_by_placement = add_to entry.placement entry.bytes s.bytes_by_placement;
}

unfoldable pub add_tensors :
    Python → Config → Module → List (String × String × Tensor) → State → State
add_tensors python config module_ [] s = s
add_tensors python config module_ ((name, device, tensor) ∷ tensors) s =
    add_tensors python config module_ tensors
      (add_entry (entry_of python config module_ name device tensor) s)

unfoldable pub is_left_out : Python → Config → Module → Bool
is_left_out python config module_ =
    module_.name == ""
    || (matches python config.skip_patterns module_.name || not (is_target python config module_))

unfoldable pub add_module : Python → Config → Module → State → State
add_module python config module_ s =
    if is_left_out python config module_
    then s
    else add_tensors python config module_ module_.tensors
        (record s { module_count = s.module_count + 1 })

unfoldable pub add_modules : Python → Config → List Module → State → State
add_modules python config [] s = s
add_modules python config (module_ ∷ modules) s =
    add_modules python config modules (add_module python config module_ s)

unfoldable pub build_uncached : Python → Config → Root → State
build_uncached python config root = add_modules python config root.modules new_state

-- What the cache tells plans apart by.
abbrev pub TensorSignature : Type 0
TensorSignature = String × (List ℕ × (String × (String × (ℕ × ℕ))))

abbrev pub Signature : Type 0
Signature = List (String × (String × (String × List TensorSignature)))

abbrev pub Key : Type 0
Key =
    String
    × (String × (List String × (List String × (List String × (List String × (ℕ × Signature))))))

abbrev names_eq : Eq (List String)
names_eq = list_eq

abbrev numbers_eq : Eq (List ℕ)
numbers_eq = list_eq

abbrev both : {A B : Type 0} → Eq A → Eq B → Eq (A × B)
both e f = product_eq ⦃e = e⦄ ⦃f = f⦄

abbrev tensor_signature_eq : Eq TensorSignature
tensor_signature_eq =
    both string_eq (both numbers_eq (both string_eq (both string_eq (both nat_eq nat_eq))))

abbrev signature_eq : Eq Signature
signature_eq =
    list_eq
      ⦃e = both string_eq (both string_eq (both string_eq (list_eq ⦃e = tensor_signature_eq⦄)))⦄

instance abbrev pub key_eq : Eq Key
key_eq = both string_eq (
    both string_eq
      (both names_eq (both names_eq (both names_eq (both names_eq (both nat_eq signature_eq))))))

abbrev pub tensor_signature : String × String × Tensor → TensorSignature
tensor_signature (name, device, tensor) =
    (name, (tensor.shape, (tensor.dtype, (device, (tensor.numel, tensor.element_size)))))

unfoldable pub structure_signature : Python → Config → List Module → Signature
structure_signature python config [] = []
structure_signature python config (module_ ∷ modules) =
    let rest = structure_signature python config modules in
    if is_left_out python config module_
    then rest
    else (
      module_.name,
      (module_.class_module, (module_.qualname, map tensor_signature module_.tensors)),
    )
      ∷ rest

unfoldable pub plan_cache_key : Python → Config → Root → Key
plan_cache_key python config root = (
  root.class_module,
  (
    root.qualname,
    (
      config.target_classes,
      (
        config.skip_patterns,
        (
          config.always_resident_patterns,
          (
            config.resident_patterns,
            (config.small_tensor_threshold, structure_signature python config root.modules),
          ),
        ),
      ),
    ),
  ),
)

abbrev pub decided : String → State → State
decided outcome s = record s { decisions = put "plan_cache" outcome s.decisions }

abbrev pub Cache : Type 0
Cache = Dict Key State

-- The plan from the cache, or a new one that goes into it. `patterns` is what `_resolve_resident_module_patterns`
-- finds.
unfoldable pub from_cache :
    Python → Config → Root → List String → Option State → Cache → State × Cache
from_cache python config root patterns (some state) cache =
    (decided "hit" (clone_for_runtime state), cache)
from_cache python config root patterns none cache =
    let state =
      decided "miss"
        (record (build_uncached python config root) { resolved_patterns = patterns }) in
    (state, put (plan_cache_key python config root) (clone_for_runtime state) cache)

unfoldable pub build_plan : Python → Config → Root → List String → Cache → State × Cache
build_plan python config root patterns cache =
    if config.cache_plan
    then from_cache python config root patterns (get (plan_cache_key python config root) cache)
        cache
    else (decided "disabled" (build_uncached python config root), cache)
