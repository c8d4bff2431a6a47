-- ===== src/SourceMetadata.antt =====
-- src/diffusers_dynamic_offloader/weight_source_metadata.py: the association of a checkpoint's byte ranges with
-- the parameters of a module. What the transformers package says of a module's names is a parameter.
pub mod Grouping
pub mod Settling
pub mod Association
use diffusers_dynamic_offloa.Prelude.{
  ℕ, ◌+◌, String, string_eq, product_eq, nat_eq, Bool, true, false, ◌&&◌, not, Option, none, some,
  List, [], ◌∷◌, ◌++◌, eqb, any, if◌then◌else◌, ◌==◌, length,
}
use diffusers_dynamic_offloa.Tensors.{Tensor}
use diffusers_dynamic_offloa.FileSlices.{FileSlice, slice_beq}
use diffusers_dynamic_offloa.Dict.{Dict, get, put}
use diffusers_dynamic_offloa.Outcome.{
  Exec, Outcome, done, raise, left_by, ◌>>=◌, ◌>>◌, pure, continue,
}
use diffusers_dynamic_offloa.SliceRegistry.{Registry, Key, key_of, empty, bind, descriptor_count}

-- What the loader does to the names and payloads of a checkpoint of a `PreTrainedModel`.
pub data Mapping : Type 0 where
  unavailable : Mapping
  no_list : Mapping
  payload_transform : Mapping
  renaming : (String → String) → Mapping

-- `mapping` is there for a `PreTrainedModel`; `parameters` is `named_parameters(remove_duplicate=False)`.
pub record Module : Type 0 where
  pub is_quantized : Bool
  pub has_quantizer : Bool
  pub mapping : Option Mapping
  pub parameters : List (String × Tensor)

pub record Summary : Type 0 where
  pub bound : ℕ
  pub available : ℕ
  pub resolver : String
  pub rejected_storage_groups : ℕ
  pub missing_storage_groups : ℕ
  pub ineligible_parameter_aliases : ℕ

abbrev pub new_summary : ℕ → Summary
new_summary available = record {
  bound = 0;
  available = available;
  resolver = "exact_names";
  rejected_storage_groups = 0;
  missing_storage_groups = 0;
  ineligible_parameter_aliases = 0;
}

abbrev mapping_resolver : Mapping → String × Option (String → String)
mapping_resolver unavailable = ("unsupported_loader_mapping", none)
mapping_resolver no_list = ("unsupported_loader_mapping", none)
mapping_resolver payload_transform = ("unsupported_payload_transform", none)
mapping_resolver (renaming rename) = ("transformers_name_mapping", some rename)

abbrev own_resolver : Option Mapping → Bool → String × Option (String → String)
own_resolver (some mapping) has_key_mapping = mapping_resolver mapping
own_resolver none true = ("unsupported_loader_mapping", none)
own_resolver none false = ("exact_names", some (λ name. name))

-- The resolver's name, and the resolver where it is supported.
unfoldable pub resolver_of : Module → Bool → String × Option (String → String)
resolver_of module_ has_key_mapping =
    if module_.is_quantized
    then ("unsupported_quantized_payload", none)
    else if module_.has_quantizer
    then ("unsupported_quantized_payload", none)
    else own_resolver module_.mapping has_key_mapping

abbrev pub or_no_slices : Option (List FileSlice) → List FileSlice
or_no_slices none = []
or_no_slices (some slices) = slices

-- `mapped.setdefault(resolve(name), []).append(descriptor)`
unfoldable pub map_names :
    (String → String)
    → Dict String FileSlice
    → Dict String (List FileSlice)
    → Dict String (List FileSlice)
map_names resolve [] mapped = mapped
map_names resolve ((name, slice) ∷ available) mapped =
    map_names resolve available
      (put (resolve name) (or_no_slices (get (resolve name) mapped) ++ slice ∷ []) mapped)

pub record Group : Type 0 where
  pub parameters : List Tensor
  pub descriptors : List FileSlice

abbrev pub or_no_group : Option Group → Group
or_no_group none = record { parameters = []; descriptors = [] }
or_no_group (some group) = group

abbrev pub is_eligible : Tensor → Bool
is_eligible tensor = tensor.on_cpu && (tensor.contiguous && not (eqb tensor.numel 0))

abbrev pub Groups : Type 0
Groups = Dict Key Group

abbrev pub joined : Group → Tensor → List FileSlice → Group
joined group tensor slices = record {
  parameters = group.parameters ++ tensor ∷ [];
  descriptors = group.descriptors ++ slices;
}

unfoldable pub add_parameter : Dict String (List FileSlice) → String → Tensor → Groups → Groups
add_parameter mapped name tensor groups =
    put (key_of tensor)
      (joined (or_no_group (get (key_of tensor) groups)) tensor (or_no_slices (get name mapped)))
      groups

-- The groups of the eligible parameters, and how many parameters are not eligible.
unfoldable pub group_parameters :
    Dict String (List FileSlice) → List (String × Tensor) → Groups × ℕ → Groups × ℕ
group_parameters mapped [] found = found
group_parameters mapped ((name, tensor) ∷ parameters) (groups, ineligible) =
    group_parameters mapped parameters (
      if is_eligible tensor
      then (add_parameter mapped name tensor groups, ineligible)
      else (groups, ineligible + 1))

-- `set(descriptors)`
abbrev pub distinct : List FileSlice → List FileSlice
distinct [] = []
distinct (slice ∷ slices) =
    let rest = distinct slices in if any (slice_beq slice) rest then rest else slice ∷ rest

-- `all(probe.bind(parameter, descriptor) for parameter in parameters)`
unfoldable pub bind_all : FileSlice → List Tensor → Exec Registry Bool
bind_all slice [] = pure true
bind_all slice (tensor ∷ tensors) =
    let rest = bind_all slice tensors in
    bind tensor slice >>= λ accepted. if accepted then rest else pure false

abbrev pub bind_first : FileSlice → List Tensor → Exec Registry Bool
bind_first slice [] = pure false
bind_first slice (tensor ∷ tensors) = bind tensor slice

abbrev pub rejected : Summary → Summary
rejected summary = record summary { rejected_storage_groups = summary.rejected_storage_groups + 1 }

abbrev pub probed :
    Outcome Registry Bool → FileSlice → List Tensor → Summary → Exec Registry Summary
probed (raise e probe) slice parameters summary r = raise e r
probed (done false probe) slice parameters summary r = done (rejected summary) r
probed (done true probe) slice parameters summary r =
    (bind_first slice parameters >> pure summary) r

unfoldable pub associate_group : List FileSlice → List Tensor → Summary → Exec Registry Summary
associate_group [] parameters summary =
    pure (record summary { missing_storage_groups = summary.missing_storage_groups + 1 })
associate_group (slice ∷ []) parameters summary =
    probed (bind_all slice parameters empty) slice parameters summary
associate_group (slice ∷ another ∷ slices) parameters summary = pure (rejected summary)

unfoldable pub associate_groups : Groups → Summary → Exec Registry Summary
associate_groups [] summary = pure summary
associate_groups ((key, group) ∷ groups) summary =
    associate_group (distinct group.descriptors) group.parameters summary
    >>= associate_groups groups

unfoldable pub associate_resolved :
    (String → String)
    → Dict String FileSlice
    → List (String × Tensor)
    → Summary
    → Exec Registry Summary
associate_resolved resolve available parameters summary =
    let (groups, ineligible) =
      group_parameters (map_names resolve available []) parameters ([], 0) in
    associate_groups groups (record summary { ineligible_parameter_aliases = ineligible })
    >>= λ found r. done (record found { bound = descriptor_count r }) r

abbrev pub associate_with :
    Option (String → String)
    → Dict String FileSlice
    → List (String × Tensor)
    → Summary
    → Exec Registry Summary
associate_with none available parameters summary = pure summary
associate_with (some resolve) available parameters summary =
    associate_resolved resolve available parameters summary

-- The new registry, and the summary.
unfoldable pub associate_source_metadata :
    Module → Dict String FileSlice → Bool → Outcome Registry Summary
associate_source_metadata module_ available has_key_mapping =
    let (resolver, resolve) = resolver_of module_ has_key_mapping in
    associate_with resolve available module_.parameters
      (record (new_summary (length available)) { resolver = resolver }) empty
