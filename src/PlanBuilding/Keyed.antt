-- ===== src/PlanBuilding/Keyed.antt =====
-- A plan is a function of the key that the cache has for it.
use diffusers_dynamic_offloa.Prelude.{
  ℕ, ◌+◌, ◌*◌, ◌≡◌, refl, ap, ◌∙◌, String, Bool, List, [], ◌∷◌, leb, if◌then◌else◌, map, Bool-cases,
  inl, inr,
}
use diffusers_dynamic_offloa.Tensors.{Tensor}
use diffusers_dynamic_offloa.Dict.{Dict}
use diffusers_dynamic_offloa.PlanBuilding.{
  Python, Root, Module, Config, Entry, State, TensorSignature, Signature, Key, new_state, matches,
  classify_tensor, entry_of, add_entry, add_tensors, add_module, add_modules, build_uncached,
  is_left_out, tensor_signature, structure_signature, plan_cache_key,
}

-- No run of another plan has left its counts in a plan.
abbrev pub counters : State → Dict String ℕ × Dict String ℕ × Dict String ℕ
counters s = (s.setup_bytes, s.copy_bytes, s.copy_calls)

module _ (python : Python) where
  abbrev placed : Bool → ℕ → ℕ → String
  placed resident bytes threshold =
      if resident
      then "resident_module"
      else if leb bytes threshold
      then "resident_small"
      else "streamed_large"

  abbrev keyed_entry : List String → ℕ → String → String → TensorSignature → Entry
  keyed_entry patterns threshold name qualname
        (tensor_name, (shape, (dtype, (device, (numel, element_size))))) =
      record {
        module_name = name;
        module_type = python.class_name qualname;
        tensor_name = tensor_name;
        shape = shape;
        dtype = dtype;
        device = device;
        bytes = numel * element_size;
        placement = placed (matches python patterns name) (numel * element_size) threshold;
      }

  abbrev keyed_tensors : List String → ℕ → String → String → List TensorSignature → State → State
  keyed_tensors patterns threshold name qualname [] s = s
  keyed_tensors patterns threshold name qualname (tensor ∷ tensors) s =
      keyed_tensors patterns threshold name qualname tensors
        (add_entry (keyed_entry patterns threshold name qualname tensor) s)

  abbrev keyed_modules : List String → ℕ → Signature → State → State
  keyed_modules patterns threshold [] s = s
  keyed_modules patterns threshold ((name, (class_module, (qualname, tensors))) ∷ modules) s =
      keyed_modules patterns threshold modules (
        keyed_tensors patterns threshold name qualname tensors
          (record s { module_count = s.module_count + 1 }))

  abbrev pub plan_of_key : Key → State
  plan_of_key
        (
          root_module,
          (root_name, (targets, (skips, (always, (resident, (threshold, signature)))))),
        ) =
      keyed_modules always threshold signature new_state

  add_tensors-keyed :
      (config : Config) (module_ : Module) (tensors : List (String × String × Tensor)) (s : State)
      → add_tensors python config module_ tensors s
        ≡ keyed_tensors config.always_resident_patterns config.small_tensor_threshold module_.name
            module_.qualname
            (map tensor_signature tensors)
            s
  unfolding add_tensors entry_of classify_tensor
  add_tensors-keyed config module_ [] s = refl
  add_tensors-keyed config module_ ((name, device, tensor) ∷ tensors) s =
      add_tensors-keyed config module_ tensors
        (add_entry (entry_of python config module_ name device tensor) s)

  add_modules-keyed :
      (config : Config) (modules : List Module) (s : State)
      → add_modules python config modules s
        ≡ keyed_modules config.always_resident_patterns config.small_tensor_threshold
            (structure_signature python config modules)
            s
  unfolding add_modules add_module structure_signature
  add_modules-keyed config [] s = refl
  add_modules-keyed config (module_ ∷ modules) s =
      elim (Bool-cases (is_left_out python config module_)) [
        | inl out ↦ rw out (add_modules-keyed config modules s)
        | inr planned ↦ rw planned (
            add_modules-keyed config modules (
              add_tensors python config module_ module_.tensors
                (record s { module_count = s.module_count + 1 }))
            ∙ ap
                (keyed_modules config.always_resident_patterns config.small_tensor_threshold
                  (structure_signature python config modules))
                (add_tensors-keyed config module_ module_.tensors
                  (record s { module_count = s.module_count + 1 })))
      ]

  -- Two roots and configurations with the same cache key have the same plan.
  pub build_uncached-plan_of_key :
      (config : Config) (root : Root)
      → build_uncached python config root ≡ plan_of_key (plan_cache_key python config root)
  unfolding build_uncached plan_cache_key
  build_uncached-plan_of_key config root = add_modules-keyed config root.modules new_state

  keyed_tensors-counters :
      (patterns : List String) (threshold : ℕ) (name qualname : String)
      (tensors : List TensorSignature) (s : State)
      → counters (keyed_tensors patterns threshold name qualname tensors s) ≡ counters s
  unfolding add_entry
  keyed_tensors-counters patterns threshold name qualname [] s = refl
  keyed_tensors-counters patterns threshold name qualname (tensor ∷ tensors) s =
      keyed_tensors-counters patterns threshold name qualname tensors
        (add_entry (keyed_entry patterns threshold name qualname tensor) s)

  keyed_modules-counters :
      (patterns : List String) (threshold : ℕ) (modules : Signature) (s : State)
      → counters (keyed_modules patterns threshold modules s) ≡ counters s
  keyed_modules-counters patterns threshold [] s = refl
  keyed_modules-counters patterns threshold ((name, (class_module, (qualname, tensors))) ∷ modules)
        s =
      keyed_modules-counters patterns threshold modules (
        keyed_tensors patterns threshold name qualname tensors
          (record s { module_count = s.module_count + 1 }))
      ∙ keyed_tensors-counters patterns threshold name qualname tensors
          (record s { module_count = s.module_count + 1 })

  -- A plan starts with no counts of its runs.
  pub plan_of_key-counters : (key : Key) → counters (plan_of_key key) ≡ ([], [], [])
  plan_of_key-counters
        (
          root_module,
          (root_name, (targets, (skips, (always, (resident, (threshold, signature)))))),
        ) =
      keyed_modules-counters always threshold signature new_state
