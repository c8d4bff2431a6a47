-- ===== src/Tensors.antt =====
-- What the offloader reads of a tensor; torch itself is not modelled. A source descriptor with no
-- `device` and no `is_contiguous` passes the same tests as a contiguous CPU tensor.
use diffusers_dynamic_offloa.Prelude.{ℕ, ◌*◌, Bool, String, List}

pub record Tensor : Type 0 where
  pub on_cpu : Bool
  pub contiguous : Bool
  pub numel : ℕ
  pub element_size : ℕ
  pub data_ptr : ℕ
  pub shape : List ℕ
  pub dtype : String

-- `_tensor_size_bytes`
abbrev pub size_bytes : Tensor → ℕ
size_bytes tensor = tensor.numel * tensor.element_size
