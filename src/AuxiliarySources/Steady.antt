-- ===== src/AuxiliarySources/Steady.antt =====
-- The parts of `_detach_cpu_sources` that only look.
use diffusers_dynamic_offloa.Prelude.{
  ℕ, ◌≡◌, refl, String, string_eq, product_eq, nat_eq, Bool, true, false, ◌&&◌, ◌||◌, not, Option,
  none, some, List, [], ◌∷◌, eqb, if◌then◌else◌, arith,
}
use diffusers_dynamic_offloa.Tensors.{Tensor}
use diffusers_dynamic_offloa.FileSlices.{FileSlice}
use diffusers_dynamic_offloa.Dict.{Dict, get}
use diffusers_dynamic_offloa.Outcome.{
  IsSteady, continue-IsSteady, or_raise-IsSteady, done, runtime_error, checked-IsSteady,
  value_error, key_error, pure, raise_if, or_raise, continue,
}
use diffusers_dynamic_offloa.SliceRegistry.{key_of, lookup}
use diffusers_dynamic_offloa.AuxiliarySources.{
  Memory, Torch, Group, Groups, or_new_group, on_registry, conflicts, joined, described,
  add_reference, collect_one, collect, is_accepted, accepted, check_owners, check_groups,
}

pub neither : {a b : Bool} → (a || b) ≡ false → (a ≡ false) × (b ≡ false)
neither {a} {b} h = ground arith

lookup-IsSteady :
    (tensor : Tensor) (s : Memory) → IsSteady s (on_registry s (lookup tensor s.registry))
unfolding lookup
lookup-IsSteady tensor s = from s.registry.closed
  where
    from :
        (closed : Bool)
        → IsSteady s (
            on_registry s (
              continue
                (raise_if closed runtime_error s.registry)
                (λ _ r. done (get (key_of tensor) r.slices) r)))
    from true = refl
    from false = refl

described-IsSteady :
    (found : Option FileSlice) (group : Group) (s : Memory) → IsSteady s (described found group s)
unfolding described
described-IsSteady none group s = refl
described-IsSteady (some slice) group s =
    checked-IsSteady (conflicts group.descriptor slice) value_error s
      (λ _. pure (record group { descriptor = some slice })) refl

collect_one-IsSteady :
    (label : String) (id : ℕ) (groups : Groups) (s : Memory)
    → IsSteady s (collect_one label id groups s)
unfolding collect_one add_reference
collect_one-IsSteady label id groups s =
    continue-IsSteady (or_raise (get id s.heap) key_error s)
      (λ tensor.
        if not tensor.on_cpu || eqb tensor.numel 0
        then pure groups
        else add_reference label id tensor groups)
      s (or_raise-IsSteady (get id s.heap) key_error s)
      λ tensor. pick tensor (not tensor.on_cpu || eqb tensor.numel 0)
  where
    added : (tensor : Tensor) → IsSteady s (add_reference label id tensor groups s)
    added tensor =
        continue-IsSteady (on_registry s (lookup tensor s.registry)) _ s (lookup-IsSteady tensor s)
          λ found.
            continue-IsSteady
              (described found (joined (or_new_group (get (key_of tensor) groups)) label id tensor)
                s)
              _ s
              (described-IsSteady found
                (joined (or_new_group (get (key_of tensor) groups)) label id tensor) s)
              λ group. refl

    pick :
        (tensor : Tensor) (skipped : Bool)
        → IsSteady s ((if skipped then pure groups else add_reference label id tensor groups) s)
    pick tensor true = refl
    pick tensor false = added tensor

pub collect-IsSteady :
    (references : List (String × ℕ)) (groups : Groups) (s : Memory)
    → IsSteady s (collect references groups s)
unfolding collect
collect-IsSteady [] groups s = refl
collect-IsSteady ((label, id) ∷ references) groups s =
    continue-IsSteady (collect_one label id groups s) (collect references) s
      (collect_one-IsSteady label id groups s) λ g. collect-IsSteady references g s

check_owners-IsSteady :
    (torch : Torch) (descriptor : Option FileSlice) (owners : Dict ℕ Tensor) (s : Memory)
    → IsSteady s (check_owners torch descriptor owners s)
unfolding check_owners
check_owners-IsSteady torch descriptor [] s = refl
check_owners-IsSteady torch descriptor ((id, tensor) ∷ owners) s =
    checked-IsSteady (not (torch.is_plain id && tensor.contiguous)) value_error s _ (
      checked-IsSteady (not (is_accepted (accepted descriptor tensor))) value_error s _
        (check_owners-IsSteady torch descriptor owners s))

pub check_groups-IsSteady :
    (torch : Torch) (groups : Groups) (s : Memory) → IsSteady s (check_groups torch groups s)
unfolding check_groups
check_groups-IsSteady torch [] s = refl
check_groups-IsSteady torch ((key, group) ∷ groups) s =
    continue-IsSteady (check_owners torch group.descriptor group.owners s)
      (λ _. check_groups torch groups) s
      (check_owners-IsSteady torch group.descriptor group.owners s)
      λ _. check_groups-IsSteady torch groups s
