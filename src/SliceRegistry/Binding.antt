-- ===== src/SliceRegistry/Binding.antt =====
-- `bind` and `lookup` of `SafetensorSliceRegistry`.
use diffusers_dynamic_offloa.Prelude.{
  ◌≡◌, refl, sym, ap, product_eq, nat_eq, ==_refl, true, false, some, arith, ==_iff, inl, inr, ◌⊎◌,
  ◌↔◌, ◌∙◌, subst, ℕ, String, string_eq, list_eq, option_eq, List, Option, none,
}
use mathlib.Core.Option.{some-injective}
use diffusers_dynamic_offloa.Tensors.{Tensor, size_bytes}
use diffusers_dynamic_offloa.FileSlices.{FileSlice, slice_beq_iff}
use diffusers_dynamic_offloa.Dict.{get, put, get-put}
use diffusers_dynamic_offloa.Outcome.{runtime_error, Post, Post-if, Post-raise_if}
use diffusers_dynamic_offloa.SliceRegistry.{
  Registry, Key, Slices, key_of, accepts, bind, describes, shape_fits, dtype_fits, dtype_names,
  agrees,
}

-- Slices bound in the first registry are bound in the second.
abbrev pub Extends : Slices → Slices → Type 0
Extends old new = (k : Key) (slice : FileSlice) → get k old ≡ some slice → get k new ≡ some slice

-- An accepted slice takes no key from another.
pub accepted-Extends :
    (slices : Slices) (tensor : Tensor) (slice : FileSlice)
    → accepts slices tensor slice ≡ true
    → Extends slices (put (key_of tensor) slice slices)
accepted-Extends slices tensor slice h k old found = ground (
  arith,
  get-put (key_of tensor) k slice slices,
  ==_iff (key_of tensor) k,
  slice_beq_iff old slice,
  ap (λ (j : Key). get j slices) {x = key_of tensor} {y = k},
)

-- The slice describes the tensor: one that is contiguous, on the CPU, of the slice's bytes, and of its shape
-- and type where the slice names them.
abbrev pub Describes : FileSlice → Tensor → Type 0
Describes slice tensor =
    (tensor.on_cpu ≡ true)
    × (tensor.contiguous ≡ true)
    × (size_bytes tensor ≡ slice.size_bytes)
    × ((shape : List ℕ) → slice.shape ≡ some shape → tensor.shape ≡ shape)
    × ((name : String) → slice.dtype ≡ some name → get name dtype_names ≡ some tensor.dtype)

-- No other slice is bound to the tensor's key.
abbrev pub IsFree : Slices → Tensor → FileSlice → Type 0
IsFree slices tensor slice = (old : FileSlice) → get (key_of tensor) slices ≡ some old → old ≡ slice

shape_fits_iff :
    (o : Option (List ℕ)) (tensor : Tensor)
    → (shape_fits o tensor ≡ true) ↔ ((shape : List ℕ) → o ≡ some shape → tensor.shape ≡ shape)
shape_fits_iff none tensor = (λ h shape e. absurd (cc), λ h. refl)
shape_fits_iff (some found) tensor = (
  λ h shape e. (==_iff tensor.shape found).0 h ∙ some-injective found shape e,
  λ h. (==_iff tensor.shape found).1 (h found refl),
)

dtype_fits_iff :
    (o : Option String) (tensor : Tensor)
    → (dtype_fits o tensor ≡ true)
      ↔ ((name : String) → o ≡ some name → get name dtype_names ≡ some tensor.dtype)
dtype_fits_iff none tensor = (λ h name e. absurd (cc), λ h. refl)
dtype_fits_iff (some found) tensor = (
  λ h name e.
      subst (λ n. get n dtype_names ≡ some tensor.dtype) (some-injective found name e)
        ((==_iff (get found dtype_names) (some tensor.dtype)).0 h),
  λ h. (==_iff (get found dtype_names) (some tensor.dtype)).1 (h found refl),
)

agrees_iff :
    (o : Option FileSlice) (slice : FileSlice)
    → (agrees o slice ≡ true) ↔ ((old : FileSlice) → o ≡ some old → old ≡ slice)
agrees_iff none slice = (λ h old e. absurd (cc), λ h. refl)
agrees_iff (some found) slice = (
  λ h old e. sym (some-injective found old e) ∙ (slice_beq_iff found slice).0 h,
  λ h. (slice_beq_iff found slice).1 (h found refl),
)

describes_iff :
    (slice : FileSlice) (tensor : Tensor) → (describes slice tensor ≡ true) ↔ Describes slice tensor
unfolding describes
describes_iff slice tensor =
    let shapes = shape_fits_iff slice.shape tensor in
    let dtypes = dtype_fits_iff slice.dtype tensor in
    let sizes = ==_iff (size_bytes tensor) slice.size_bytes in
    (
      λ h. (
        ground (arith),
        ground (arith),
        sizes.0 (ground (arith)),
        shapes.0 (ground (arith)),
        dtypes.0 (ground (arith)),
      ),
      λ (cpu, contiguous, size, shape, dtype).
          rw (shapes.1 shape, dtypes.1 dtype, sizes.1 size, cpu, contiguous) refl,
    )

accepts_iff :
    (slices : Slices) (tensor : Tensor) (slice : FileSlice)
    → (accepts slices tensor slice ≡ true) ↔ (Describes slice tensor × IsFree slices tensor slice)
accepts_iff slices tensor slice =
    let described = describes_iff slice tensor in
    let free = agrees_iff (get (key_of tensor) slices) slice in
    (
      λ h. (described.0 (ground (arith)), free.0 (ground (arith))),
      λ (yes', no_other). rw (described.1 yes', free.1 no_other) refl,
    )

-- What `bind` tells and does on an open registry: it says yes exactly when the tensor is contiguous, on the
-- CPU, of the slice's bytes, and of the slice's shape and type where it names them, and no other slice is
-- bound to the tensor's key; then the slice is bound to it, and otherwise the registry is as it was. No
-- slice that was bound is lost. It raises exactly on a closed registry.
pub bind-Post :
    (tensor : Tensor) (slice : FileSlice) (r : Registry)
    → Post
        (λ b t.
          (r.closed ≡ false)
          × ((b ≡ true) ↔ (Describes slice tensor × IsFree r.slices tensor slice))
          × Extends r.slices t.slices
          × ((b ≡ true) × (get (key_of tensor) t.slices ≡ some slice) ⊎ (b ≡ false) × (t ≡ r)))
        (λ e t. (r.closed ≡ true) × (e ≡ runtime_error) × (t ≡ r))
        (bind tensor slice r)
unfolding bind
bind-Post tensor slice r =
    Post-raise_if _ _ r.closed runtime_error r _ (λ h. (h, refl, refl))
      λ opened.
        Post-if _ _ (accepts r.slices tensor slice) _ _
          (λ yes'. (
            opened,
            (λ e. (accepts_iff r.slices tensor slice).0 yes', λ h. refl),
            accepted-Extends r.slices tensor slice yes',
            inl (refl, put_self),
          ))
          (λ no'. (
            opened,
            (
              λ e. absurd (cc),
              λ h. absurd (let yes' = (accepts_iff r.slices tensor slice).1 h in cc),
            ),
            (λ k s h. h),
            inr (refl, refl),
          ))
  where
    put_self : get (key_of tensor) (put (key_of tensor) slice r.slices) ≡ some slice
    put_self =
        rw (get-put (key_of tensor) (key_of tensor) slice r.slices, ==_refl (key_of tensor)) refl
