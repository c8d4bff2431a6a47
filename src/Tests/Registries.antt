-- ===== src/Tests/Registries.antt =====
-- Registries with two tensors: a relocation that moves a slice, and host memory of 12 bytes.
use diffusers_dynamic_offloa.Prelude.{
  ◌↔◌, ◌≡◌, refl, true, false, some, none, List, [], ◌∷◌, ◌++◌, product_eq, nat_eq, ◌⊎◌, arith,
}
use diffusers_dynamic_offloa.Outcome.{Post, runtime_error}
use diffusers_dynamic_offloa.Dict.{get, total}
use diffusers_dynamic_offloa.SliceRegistry
use diffusers_dynamic_offloa.SliceRegistry.{empty, Slices, Replacement, rebind_many}
use diffusers_dynamic_offloa.SliceRegistry.Binding.{Describes, IsFree, Extends, bind-Post}
use diffusers_dynamic_offloa.SliceRegistry.Relocation.{Moved, Spared, rebind_many-Post}
use diffusers_dynamic_offloa.HostRegistry
use diffusers_dynamic_offloa.HostRegistry.Budget.{
  IsBudgeted, Answered, released, register-Post, close-released,
}
use diffusers_dynamic_offloa.SourceMetadata.{Module, resolver_of, associate_source_metadata}
use diffusers_dynamic_offloa.SourceMetadata.Association.{Accounted, associate_source_metadata-Post}
use diffusers_dynamic_offloa.Tests.Memory.{working, tensor_at, slice_at}

bind_example :
    Post
      (λ b t.
        (false ≡ false)
        × ((b ≡ true)
            ↔ (Describes (slice_at 0) (tensor_at 64) × IsFree [] (tensor_at 64) (slice_at 0)))
        × Extends [] t.slices
        × ((b ≡ true) × (get (SliceRegistry.key_of (tensor_at 64)) t.slices ≡ some (slice_at 0))
            ⊎ (b ≡ false) × (t ≡ empty)))
      (λ e t. (false ≡ true) × (e ≡ runtime_error) × (t ≡ empty))
      (SliceRegistry.bind (tensor_at 64) (slice_at 0) empty)
bind_example = bind-Post (tensor_at 64) (slice_at 0) empty

abbrev bound : SliceRegistry.Registry
bound = record { slices = ((64, 8), slice_at 0) ∷ ((128, 8), slice_at 8) ∷ []; closed = false }

abbrev moves : List Replacement
moves = (tensor_at 64, tensor_at 256) ∷ []

rebind_many_example :
    Post
      (λ _ t.
        Moved bound.slices t.slices moves × Spared moves bound.slices t.slices × (t.closed ≡ false))
      (λ e t. t ≡ bound)
      (rebind_many moves bound)
rebind_many_example = rebind_many-Post moves bound

abbrev registered : HostRegistry.Registry
registered = record {
  max_bytes = 12;
  registered_bytes = 8;
  skipped_bytes = 0;
  registrations = ((64, 8), record { source = tensor_at 64; owned = true }) ∷ [];
  budget_skips = [];
  trace = [];
}

registered-IsBudgeted : IsBudgeted registered
unfolding total
registered-IsBudgeted = record { counted = refl; bounded = omega arith; skips_counted = refl }

register_example :
    Post
      (λ b t. IsBudgeted t × Answered (tensor_at 128) registered b t)
      (λ e t. ⊥)
      (HostRegistry.register working (tensor_at 128) registered)
register_example = register-Post working (tensor_at 128) registered registered-IsBudgeted

close_registry_example :
    Post
      (λ _ t.
        (t.trace ≡ released working registered.registrations ++ registered.trace)
        × (t.registrations ≡ [])
        × (t.registered_bytes ≡ 0)
        × (t.skipped_bytes ≡ 0))
      (λ e t. t.registrations ≡ registered.registrations)
      (HostRegistry.close working registered)
close_registry_example = close-released working registered

abbrev tied : Module
tied = record {
  is_quantized = false;
  has_quantizer = false;
  mapping = none;
  parameters = ("embed", tensor_at 64) ∷ ("head", tensor_at 64) ∷ ("norm", tensor_at 128) ∷ [];
}

associate_example :
    Post
      (Accounted (resolver_of tied false).1 (("embed", slice_at 0) ∷ []) tied.parameters)
      (λ _ _. true ≡ false)
      (associate_source_metadata tied (("embed", slice_at 0) ∷ []) false)
associate_example = associate_source_metadata-Post tied (("embed", slice_at 0) ∷ []) false
