-- ===== src/SliceRegistry.antt =====
-- src/diffusers_dynamic_offloader/vmm_weight_store.py: `SafetensorSliceRegistry`.
pub mod Binding
pub mod Relocation
use diffusers_dynamic_offloa.Prelude.{
  ℕ, String, string_eq, nat_eq, list_eq, option_eq, product_eq, nat_eq, Bool, true, false, not,
  ◌&&◌, ◌||◌, Option, none, some, List, [], ◌∷◌, if◌then◌else◌, ◌==◌, length,
}
use diffusers_dynamic_offloa.Tensors.{Tensor, size_bytes}
use diffusers_dynamic_offloa.FileSlices.{FileSlice, slice_beq}
use diffusers_dynamic_offloa.Dict.{Dict, get, put, remove, total}
use diffusers_dynamic_offloa.Outcome.{
  Exec, Outcome, done, raise, value_error, runtime_error, ◌>>=◌, ◌>>◌, pure, raise_if, or_raise,
  continue,
}

-- A storage address and a byte count.
abbrev pub Key : Type 0
Key = ℕ × ℕ

abbrev pub Slices : Type 0
Slices = Dict Key FileSlice

pub record Registry : Type 0 where
  pub slices : Slices
  pub closed : Bool

abbrev pub empty : Registry
empty = record { slices = []; closed = false }

abbrev pub key_of : Tensor → Key
key_of tensor = (tensor.data_ptr, size_bytes tensor)

abbrev pub require_open : Exec Registry (Unit {0})
require_open r = raise_if r.closed runtime_error r

-- The names of the safetensors types, as torch prints its own.
abbrev pub dtype_names : Dict String String
dtype_names =
    ("BOOL", "torch.bool")
    ∷ ("U8", "torch.uint8")
    ∷ ("I8", "torch.int8")
    ∷ ("I16", "torch.int16")
    ∷ ("I32", "torch.int32")
    ∷ ("I64", "torch.int64")
    ∷ ("F16", "torch.float16")
    ∷ ("BF16", "torch.bfloat16")
    ∷ ("F32", "torch.float32")
    ∷ ("F64", "torch.float64")
    ∷ ("F8_E4M3", "torch.float8_e4m3fn")
    ∷ ("F8_E5M2", "torch.float8_e5m2")
    ∷ []

abbrev pub shape_fits : Option (List ℕ) → Tensor → Bool
shape_fits none tensor = true
shape_fits (some shape) tensor = tensor.shape == shape

abbrev pub dtype_fits : Option String → Tensor → Bool
dtype_fits none tensor = true
dtype_fits (some name) tensor = get name dtype_names == some tensor.dtype

-- The tests of `bind` that do not read the registry.
unfoldable pub describes : FileSlice → Tensor → Bool
describes slice tensor =
    tensor.on_cpu
    && (tensor.contiguous
        && (size_bytes tensor == slice.size_bytes
            && (shape_fits slice.shape tensor && dtype_fits slice.dtype tensor)))

-- No other slice is bound to the key.
abbrev pub agrees : Option FileSlice → FileSlice → Bool
agrees none slice = true
agrees (some old) slice = slice_beq old slice

-- All tests of `bind`.
abbrev pub accepts : Slices → Tensor → FileSlice → Bool
accepts slices tensor slice = describes slice tensor && agrees (get (key_of tensor) slices) slice

unfoldable pub bind : Tensor → FileSlice → Exec Registry Bool
bind tensor slice = do
  require_open
  λ r.
      if accepts r.slices tensor slice
      then done true (record r { slices = put (key_of tensor) slice r.slices })
      else done false r

unfoldable pub lookup : Tensor → Exec Registry (Option FileSlice)
lookup tensor = do require_open; λ r. done (get (key_of tensor) r.slices) r

abbrev pub Replacement : Type 0
Replacement = Tensor × Tensor

-- The first loop of `rebind_many`: the descriptors of the old tensors, and the slices without them.
unfoldable pub collect :
    List Replacement → Slices → Exec Registry (List (Tensor × FileSlice) × Slices)
unfolding lookup
collect [] candidate r = done ([], candidate) r
collect ((old, new) ∷ replacements) candidate r =
    let rest = λ (slice : FileSlice). collect replacements (remove (key_of old) candidate) >>= λ s.
    pure ((new, slice) ∷ s.0, s.1) in
    continue (continue (lookup old r) (λ found. or_raise found value_error)) rest

-- The second loop, on the candidate registry; `none` when a relocated storage conflicts.
unfoldable pub rebind : List (Tensor × FileSlice) → Slices → Option Slices
rebind [] candidate = some candidate
rebind ((new, slice) ∷ pending) candidate =
    let rest = rebind pending (put (key_of new) slice candidate) in
    if accepts candidate new slice then rest else none

abbrev pub replace_slices : Option Slices → Exec Registry (Unit {0})
replace_slices none r = raise value_error r
replace_slices (some slices) r = done tt (record r { slices = slices })

unfoldable pub rebind_many : List Replacement → Exec Registry (Unit {0})
rebind_many replacements r =
    (do
      require_open
      (pending, candidate) ← collect replacements r.slices
      replace_slices (rebind pending candidate))
      r

abbrev pub descriptor_count : Registry → ℕ
descriptor_count r = length r.slices

abbrev pub descriptor_bytes : Registry → ℕ
descriptor_bytes r = total (λ slice. slice.size_bytes) r.slices

unfoldable pub close : Registry → Registry
close r = record r { slices = []; closed = true }
