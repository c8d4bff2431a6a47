-- ===== src/FileSlices.antt =====
-- `SafetensorFileSlice` of src/diffusers_dynamic_offloader/vmm_weight_store.py.
use diffusers_dynamic_offloa.Prelude.{
  ℕ, String, List, Option, Bool, true, ◌≡◌, ◌↔◌, ◌&&◌, ◌==◌, ==_iff, string_eq, nat_eq, list_eq,
  option_eq, arith,
}

pub record FileSlice : Type 0 where
  pub path : String
  pub offset_bytes : ℕ
  pub size_bytes : ℕ
  pub shape : Option (List ℕ)
  pub dtype : Option String

-- The equality that `@dataclass(frozen=True)` generates.
abbrev pub slice_beq : FileSlice → FileSlice → Bool
slice_beq a b =
    a.path == b.path
    && (a.offset_bytes == b.offset_bytes
        && (a.size_bytes == b.size_bytes && (a.shape == b.shape && a.dtype == b.dtype)))

pub slice_beq_iff : (a b : FileSlice) → (slice_beq a b ≡ true) ↔ (a ≡ b)
slice_beq_iff a b =
    ground (arith, ==_iff a.path b.path, ==_iff a.shape b.shape, ==_iff a.dtype b.dtype)
