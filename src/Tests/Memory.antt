-- ===== src/Tests/Memory.antt =====
-- Tensors, slices, and a CUDA driver whose calls all succeed.
use diffusers_dynamic_offloa.Prelude.{ℕ, ◌+◌, true, false, some, [], ◌∷◌, length}
use diffusers_dynamic_offloa.Tensors.{Tensor}
use diffusers_dynamic_offloa.FileSlices.{FileSlice}
use diffusers_dynamic_offloa.CudaDriver.{Driver}
use diffusers_dynamic_offloa.StagingPool.{Files}

abbrev pub working : Driver
working = record {
  succeeds = λ trace call. true;
  already_registered = λ trace call. false;
  returned = λ trace call. length trace + 1;
}

abbrev pub tensor_at : ℕ → Tensor
tensor_at pointer = record {
  on_cpu = true;
  contiguous = true;
  numel = 4;
  element_size = 2;
  data_ptr = pointer;
  shape = 4 ∷ [];
  dtype = "torch.float16";
}

abbrev pub slice_at : ℕ → FileSlice
slice_at offset = record {
  path = "model.safetensors";
  offset_bytes = offset;
  size_bytes = 8;
  shape = some (4 ∷ []);
  dtype = some "F16";
}

abbrev pub shard : Files
shard = record {
  readable = λ path. true;
  mapped_size = λ path. 64;
  read_at = λ path offset bytes. true;
}
