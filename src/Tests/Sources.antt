-- ===== src/Tests/Sources.antt =====
-- Two tied parameters with a source, and a protected interval behind them.
use diffusers_dynamic_offloa.Prelude.{◌≡◌, true, false, List, [], ◌∷◌}
use diffusers_dynamic_offloa.Outcome.{Post, done}
use diffusers_dynamic_offloa.AuxiliarySources.{
  Memory, Torch, Module, Groups, collect, detach_cpu_sources,
}
use diffusers_dynamic_offloa.AuxiliarySources.Transaction.{Detached, detach_cpu_sources-Post}
use diffusers_dynamic_offloa.SliceRegistry.{Key}
use diffusers_dynamic_offloa.Tests.Memory.{tensor_at, slice_at}

abbrev torch : Torch
torch = record { is_plain = λ id. true; assigns = λ id. true; address = λ key. 4096 }

abbrev component : Module
component = record {
  training = false;
  references = ("parameter:embed", 1) ∷ ("parameter:head", 2) ∷ [];
}

abbrev memory : Memory
memory = record {
  heap = (1, tensor_at 64) ∷ (2, tensor_at 64) ∷ [];
  registry = record { slices = ((64, 8), slice_at 0) ∷ []; closed = false };
}

abbrev protected : List Key
protected = (128, 8) ∷ []

detach_example :
    Post
      (λ report t.
        (groups : Groups) × (collect component.references [] memory ≡ done groups memory)
        × Detached torch 16 protected memory groups report t)
      (λ _ t. t ≡ memory)
      (detach_cpu_sources torch component 16 protected memory)
detach_example = detach_cpu_sources-Post torch component 16 protected memory
