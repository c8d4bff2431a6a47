-- ===== src/Tests/Planning.antt =====
-- Three modules, a budget that two of them fit, and a card of 8 GiB.
use mathlib.Core.List.{Perm}
use diffusers_dynamic_offloa.Prelude.{
  is_some, not, ◌||◌, ℕ, ◌+◌, ◌-◌, ◌*◌, ◌/◌, ◌<◌, ◌≤◌, ◌≡◌, refl, subst, zero, suc, Bool, true,
  false, ◌⊎◌, none, some, List, [], ◌∷◌, max, All, arith,
}
use native.Mathlib.Nat.{mul_comm, div-le_of_le-mul, mul-le-mul_left}
use diffusers_dynamic_offloa.Planner.Orders.{Item, bytes_of, spread_order}
use diffusers_dynamic_offloa.Planner.Orders.SpreadPerm.{spread_order-Perm}
use diffusers_dynamic_offloa.Planner.Selection.{
  ratio_bytes, spread, largest, first, Doubles, Limits, select_resident_modules,
  resident_candidates, select_linear_weights_to_pin, requested_pin_budget,
  select_sdnq_parameters_to_pin, sdnq_pin_budget, existing_bytes,
}
use diffusers_dynamic_offloa.Planner.Selection.Budgets.{
  Greedy, PinOutcome, select_resident_modules-Greedy, select_linear_weights_to_pin-PinOutcome,
  select_sdnq_parameters_to_pin-le, sdnq_pin_budget-le,
}
use diffusers_dynamic_offloa.Planner.AutoBudget.{
  Policy, Sizes, gib, usable_ram, unbudgeted_pin, can_auto_full_pin, vram_target,
  apply_auto_budget_policy,
}
use diffusers_dynamic_offloa.Planner.AutoBudget.Bounds.{
  IsShare, apply_auto_budget_policy-resident, apply_auto_budget_policy-ram,
}

abbrev blocks : List Item
blocks =
    record { name = "blocks.0"; object = 0; bytes = 40 }
    ∷ record { name = "blocks.1"; object = 1; bytes = 30 }
    ∷ record { name = "blocks.2"; object = 2; bytes = 50 }
    ∷ []

abbrev limits : Limits
limits = record {
  pin_weight_budget = 0;
  pin_weight_ratio = none;
  max_pin_weight = 0;
  resident_budget = 0;
  max_resident = 0;
  available_ram = 32 * gib;
  ram_headroom = 4 * gib;
  force_full_pin = false;
  skip_pin_weights = false;
  pin_memory_disabled = false;
}

abbrev budgeted : Limits
budgeted = record limits { pin_weight_budget = 80; resident_budget = 80; max_pin_weight = 75 }

-- Shares as exact fractions.
abbrev exact : Doubles
exact = record { share = λ n p. n * p / 100; share_up = λ n p. (n * p + 99) / 100 }

exact-IsShare : IsShare exact
exact-IsShare n p h =
    div-le_of_le-mul 100 (subst (λ m. n * p ≤ m) (mul_comm n 100) (mul-le-mul_left n h))

abbrev policy : Policy
policy = record {
  disabled = false;
  pin_cpu_memory = true;
  full_pin_ratio_reached = none;
  profile_resident_bytes = 0;
  profile_budget_applied = false;
  vram_headroom = 0;
}

abbrev sizes : Sizes
sizes = record { weights = 12 * gib; modules = 10 * gib; total_vram = 8 * gib }

spread_order_example : (out : List Item) × (spread_order blocks 80 ≡ some out) × Perm out blocks
spread_order_example = spread_order-Perm blocks 80

select_resident_modules_example :
    (order chosen : List Item) × (select_resident_modules budgeted largest
        (λ name. false)
        (λ name. true)
        []
        blocks
      ≡ some chosen)
    × Perm order (resident_candidates (λ name. false) (λ name. true) [] blocks)
    × Greedy 80 0 order chosen
    × (bytes_of chosen ≤ 80)
select_resident_modules_example =
    select_resident_modules-Greedy budgeted largest (λ name. false) (λ name. true) [] blocks

select_linear_weights_to_pin_example :
    (chosen : List Item) × (select_linear_weights_to_pin exact budgeted spread blocks ≡ some chosen)
    × PinOutcome exact budgeted blocks chosen
    × (0 < 75 → requested_pin_budget budgeted 120 ≤ 75)
select_linear_weights_to_pin_example =
    select_linear_weights_to_pin-PinOutcome exact budgeted spread blocks

abbrev pinned : ℕ → Bool
pinned zero = true
pinned (suc n) = false

select_sdnq_parameters_to_pin_example :
    (chosen : List Item) × (select_sdnq_parameters_to_pin budgeted true first pinned blocks
      ≡ some chosen)
    × (existing_bytes pinned blocks + bytes_of chosen
        ≤ max (existing_bytes pinned blocks) (sdnq_pin_budget budgeted true (bytes_of blocks)))
    × (sdnq_pin_budget budgeted true (bytes_of blocks) ≤ existing_bytes pinned blocks → chosen ≡ [])
    × All (λ item. pinned item.object ≡ false) chosen
    × All (λ item. 0 < item.bytes) chosen
select_sdnq_parameters_to_pin_example =
    select_sdnq_parameters_to_pin-le budgeted true first pinned blocks

sdnq_pin_budget_example :
    (sdnq_pin_budget budgeted true 120 ≤ 120)
    × (0 < 80 → sdnq_pin_budget budgeted true 120 ≤ 80)
    × (0 < 75 → sdnq_pin_budget budgeted true 120 ≤ 75)
    × (0 < 32 * gib → sdnq_pin_budget budgeted true 120 ≤ 32 * gib - 4 * gib)
    × (is_some budgeted.pin_weight_ratio ≡ true
        → sdnq_pin_budget budgeted true 120 ≤ ratio_bytes budgeted.pin_weight_ratio 120)
    × (not true || budgeted.skip_pin_weights || budgeted.pin_memory_disabled ≡ true
        → sdnq_pin_budget budgeted true 120 ≡ 0)
sdnq_pin_budget_example = sdnq_pin_budget-le budgeted true 120

resident_example :
    let resident = (apply_auto_budget_policy exact policy limits sizes).resident_budget in
    (resident ≤ sizes.modules)
    × (can_auto_full_pin policy limits sizes ≡ false
        → 0 < limits.max_resident
        → resident ≤ limits.max_resident)
    × (can_auto_full_pin policy limits sizes ≡ false
        → policy.profile_budget_applied ≡ false
        → 0 < sizes.total_vram
        → resident ≤ vram_target exact policy sizes)
resident_example =
    apply_auto_budget_policy-resident exact policy limits sizes exact-IsShare refl refl

no_pin_budget : unbudgeted_pin limits ≡ true
unfolding unbudgeted_pin
no_pin_budget = refl

ram_example :
    let out = apply_auto_budget_policy exact policy limits sizes in
    ((sizes.weights + out.resident_budget ≤ usable_ram limits)
      × (out.pin_weight_budget ≤ sizes.weights)
      × (0 < limits.max_pin_weight → out.pin_weight_budget ≤ limits.max_pin_weight))
    ⊎ ((usable_ram limits < sizes.weights + out.resident_budget)
        × (out.pin_weight_budget ≡ 0)
        × (out.skip_pin_weights ≡ true))
ram_example =
    apply_auto_budget_policy-ram exact policy limits sizes exact-IsShare refl no_pin_budget
      (omega arith) (omega arith)
