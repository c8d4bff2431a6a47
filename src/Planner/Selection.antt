-- ===== src/Planner/Selection.antt =====
-- Which weights are pinned and which modules stay resident: `_select_linear_weights_to_pin`,
-- `_select_sdnq_parameters_to_pin` and `_select_resident_modules` of dynamic_offload.py.
-- Patterns are their tests, `pattern.search`; a ratio is its product with a size, `int(size * ratio)`.
pub mod Budgets
use Prim.Native.String.{◌++◌ as append}
use text.Mathlib.Text.{starts_with}
use diffusers_dynamic_offloa.Prelude.{
  ℕ, ◌+◌, ◌-◌, ◌<◌, ◌≤◌, ◌≡◌, refl, Bool, true, false, ◌&&◌, ◌||◌, not, Option, none, some, List,
  [], ◌∷◌, ◌++◌, String, min, max, leb, ltb, eqb, if◌then◌else◌, any, keep, map, is_some, ◌==◌,
  string_eq, arith,
}
use diffusers_dynamic_offloa.Planner.Orders.{Item, bytes_of, largest_first_order, spread_order}

pub data Selection : Type 0 where
  first : Selection
  spread : Selection
  largest : Selection

-- Python's doubles: `share n p` is `int(n * (p / 100))`, and `share_up` the same rounded up.
pub record Doubles : Type 0 where
  pub share : ℕ → ℕ → ℕ
  pub share_up : ℕ → ℕ → ℕ

-- The bounds of the planner; 0 stands for "none", as in the source.
pub record Limits : Type 0 where
  pub pin_weight_budget : ℕ
  pub pin_weight_ratio : Option (ℕ → ℕ)
  pub max_pin_weight : ℕ
  pub resident_budget : ℕ
  pub max_resident : ℕ
  pub available_ram : ℕ
  pub ram_headroom : ℕ
  pub force_full_pin : Bool
  pub skip_pin_weights : Bool
  pub pin_memory_disabled : Bool

unfoldable pub ordered : Selection → List Item → ℕ → Option (List Item)
ordered first items budget = some items
ordered spread items budget = spread_order items budget
ordered largest items budget = some (largest_first_order items)

-- The loop `if selected_bytes + bytes > budget: continue`.
unfoldable pub within_budget : ℕ → ℕ → List Item → List Item
within_budget budget used [] = []
within_budget budget used (item ∷ items) =
    let over = ltb budget (used + item.bytes) in
    let rest = within_budget budget (if over then used else used + item.bytes) items in
    if over then rest else item ∷ rest

unfoldable pub select_within : Option (List Item) → ℕ → Option (List Item)
select_within none budget = none
select_within (some items) budget = some (within_budget budget 0 items)

unfoldable pub ratio_bytes : Option (ℕ → ℕ) → ℕ → ℕ
ratio_bytes none bytes = 0
ratio_bytes (some scale) bytes = scale bytes

-- The budget of `_select_linear_weights_to_pin` before the snap to a full pin.
unfoldable pub requested_pin_budget : Limits → ℕ → ℕ
requested_pin_budget limits candidate_bytes =
    let budget =
      if eqb limits.pin_weight_budget 0
      then ratio_bytes limits.pin_weight_ratio candidate_bytes
      else limits.pin_weight_budget in
    if ltb 0 budget && ltb 0 limits.max_pin_weight then min budget limits.max_pin_weight else budget

-- The budget after it; 0 stands for no bound.
unfoldable pub pin_budget : Doubles → Limits → ℕ → ℕ
pin_budget doubles limits candidate_bytes =
    let budget = requested_pin_budget limits candidate_bytes in
    if ltb 0 candidate_bytes && leb (doubles.share candidate_bytes 95) budget then 0 else budget

unfoldable pub select_linear_weights_to_pin :
    Doubles → Limits → Selection → List Item → Option (List Item)
select_linear_weights_to_pin doubles limits selection candidates =
    let budget = pin_budget doubles limits (bytes_of candidates) in
    if limits.force_full_pin
    then some candidates
    else if eqb budget 0
    then some candidates
    else select_within (ordered selection candidates budget) budget

unfoldable pub at_most : Bool → ℕ → ℕ → ℕ
at_most applies limit budget = if applies then min budget limit else budget

unfoldable pub sdnq_pin_budget : Limits → Bool → ℕ → ℕ
sdnq_pin_budget limits pin_cpu_memory candidate_bytes =
    let given = at_most (ltb 0 limits.pin_weight_budget) limits.pin_weight_budget candidate_bytes in
    let scaled =
      at_most (is_some limits.pin_weight_ratio)
        (ratio_bytes limits.pin_weight_ratio candidate_bytes) given in
    let capped = at_most (ltb 0 limits.max_pin_weight) limits.max_pin_weight scaled in
    let budget =
      at_most (ltb 0 limits.available_ram) (limits.available_ram - limits.ram_headroom) capped in
    if not pin_cpu_memory || limits.skip_pin_weights || limits.pin_memory_disabled
    then 0
    else budget

-- The loop over the ordered parameters, those the loader has pinned left out.
unfoldable pub pin_loop : (ℕ → Bool) → ℕ → ℕ → List Item → List Item
pin_loop is_pinned budget remaining [] = []
pin_loop is_pinned budget remaining (item ∷ items) =
    let chosen =
      not (is_pinned item.object)
      && (ltb 0 budget && (ltb 0 item.bytes && leb item.bytes remaining)) in
    let rest =
      pin_loop is_pinned budget (if chosen then remaining - item.bytes else remaining) items in
    if chosen then item ∷ rest else rest

unfoldable pub existing_bytes : (ℕ → Bool) → List Item → ℕ
existing_bytes is_pinned candidates = bytes_of (keep (λ item. is_pinned item.object) candidates)

unfoldable pub pin_within : (ℕ → Bool) → ℕ → ℕ → Option (List Item) → Option (List Item)
pin_within is_pinned budget remaining none = none
pin_within is_pinned budget remaining (some items) =
    some (pin_loop is_pinned budget remaining items)

unfoldable pub select_sdnq_parameters_to_pin :
    Limits → Bool → Selection → (ℕ → Bool) → List Item → Option (List Item)
select_sdnq_parameters_to_pin limits pin_cpu_memory selection is_pinned candidates =
    let budget = sdnq_pin_budget limits pin_cpu_memory (bytes_of candidates) in
    pin_within is_pinned budget (budget - existing_bytes is_pinned candidates)
      (ordered selection candidates budget)

unfoldable pub is_module_descendant : String → String → Bool
is_module_descendant module_name parent_name = starts_with module_name (append parent_name ".")

-- The tests of `_select_resident_modules`, in their order.
unfoldable pub is_resident_candidate : (String → Bool) → (String → Bool) → List String → Item → Bool
is_resident_candidate skipped wanted resident item =
    not (item.name == "")
    && (not (skipped item.name)
        && (wanted item.name
            && not (any (λ parent. is_module_descendant item.name parent) resident)))

unfoldable pub resident_candidates :
    (String → Bool) → (String → Bool) → List String → List Item → List Item
resident_candidates skipped wanted resident = keep (is_resident_candidate skipped wanted resident)

-- The modules `_select_resident_modules` adds to the resident ones; it returns their bytes.
unfoldable pub select_resident_modules :
    Limits
    → Selection
    → (String → Bool)
    → (String → Bool)
    → List String
    → List Item
    → Option (List Item)
select_resident_modules limits selection skipped wanted resident modules =
    let candidates = resident_candidates skipped wanted resident modules in
    select_within (ordered selection candidates limits.resident_budget) limits.resident_budget
