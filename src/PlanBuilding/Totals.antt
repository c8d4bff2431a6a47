-- ===== src/PlanBuilding/Totals.antt =====
-- The plan's totals are its entries' bytes.
use diffusers_dynamic_offloa.Prelude.{
  ℕ, ◌+◌, ◌≡◌, refl, String, string_eq, Option, none, some, List, [], ◌∷◌, sum_of, sum_of-append,
  arith, if_rule,
}
use diffusers_dynamic_offloa.Tensors.{Tensor}
use diffusers_dynamic_offloa.Dict.{Dict, get, total, total-put, weight}
use diffusers_dynamic_offloa.PlanBuilding.{
  Python, Root, Entry, Module, Config, State, new_state, or_zero, add_to, entry_of, add_entry,
  add_tensors, add_module, add_modules, build_uncached, is_left_out,
}

-- The total, the placements' bytes and the entries' bytes agree.
abbrev pub IsCounted : State → Type 0
IsCounted s =
    (s.total_bytes ≡ sum_of (λ entry. entry.bytes) s.entries)
    × (total (λ n. n) s.bytes_by_placement ≡ s.total_bytes)

total-add_to :
    (key : String) (n : ℕ) (d : Dict String ℕ)
    → total (λ m. m) (add_to key n d) ≡ total (λ m. m) d + n
unfolding add_to
total-add_to key n d =
    omega (arith, total-put (λ m. m) key (or_zero (get key d) + n) d, weighs (get key d))
  where
    weighs : (o : Option ℕ) → weight (λ m. m) o ≡ or_zero o
    weighs none = refl
    weighs (some m) = refl

add_entry-IsCounted : (entry : Entry) (s : State) → IsCounted s → IsCounted (add_entry entry s)
unfolding add_entry
add_entry-IsCounted entry s (sums, places) = (
  omega (arith, sum_of-append (λ e. e.bytes) s.entries (entry ∷ [])),
  omega (arith, total-add_to entry.placement entry.bytes s.bytes_by_placement),
)

add_tensors-IsCounted :
    (python : Python) (config : Config) (module_ : Module)
    (tensors : List (String × String × Tensor)) (s : State)
    → IsCounted s
    → IsCounted (add_tensors python config module_ tensors s)
unfolding add_tensors
add_tensors-IsCounted python config module_ [] s h = h
add_tensors-IsCounted python config module_ ((name, device, tensor) ∷ tensors) s h =
    let entry = entry_of python config module_ name device tensor in
    add_tensors-IsCounted python config module_ tensors (add_entry entry s)
      (add_entry-IsCounted entry s h)

add_modules-IsCounted :
    (python : Python) (config : Config) (modules : List Module) (s : State)
    → IsCounted s
    → IsCounted (add_modules python config modules s)
unfolding add_modules add_module
add_modules-IsCounted python config [] s h = h
add_modules-IsCounted python config (module_ ∷ modules) s h =
    add_modules-IsCounted python config modules (add_module python config module_ s) (
      if_rule IsCounted (is_left_out python config module_) s _ (λ _. h)
        λ _.
          add_tensors-IsCounted python config module_ module_.tensors
            (record s { module_count = s.module_count + 1 }) h)

-- For any modules, the plan built without the cache has as its total the bytes of its entries, and the
-- bytes by placement add up to the same.
pub build_uncached-IsCounted :
    (python : Python) (config : Config) (root : Root)
    → IsCounted (build_uncached python config root)
unfolding build_uncached total
build_uncached-IsCounted python config root =
    add_modules-IsCounted python config root.modules new_state (refl, refl)
