-- ===== src/Planner/AutoBudget/Bounds.antt =====
-- What the automatic budgets respect: the candidates, the configured maxima, the card and the RAM.
use diffusers_dynamic_offloa.Prelude.{
  ℕ, ◌+◌, ◌<◌, ◌≤◌, ◌≡◌, true, false, ◌⊎◌, inl, inr, arith, Bool-cases,
}
use diffusers_dynamic_offloa.Planner.Selection.{Doubles, Limits}
use diffusers_dynamic_offloa.Planner.AutoBudget.{
  Policy, Sizes, usable_ram, unbudgeted_pin, can_auto_full_pin, profile_resident_budget,
  can_apply_profile_resident_budget, vram_target, vram_budget, auto_resident_budget,
  resolved_resident_budget, auto_pin_budget, lacks_ram, with_resident, with_pin, without_pin,
  apply_auto_budget_policy,
}

-- A share of at most all of it is at most all of it.
abbrev pub IsShare : Doubles → Type 0
IsShare doubles = (n p : ℕ) → p ≤ 100 → doubles.share n p ≤ n

resident-eq :
    (doubles : Doubles) (policy : Policy) (limits : Limits) (sizes : Sizes)
    → policy.disabled ≡ false
    → (apply_auto_budget_policy doubles policy limits sizes).resident_budget
      ≡ resolved_resident_budget doubles policy limits sizes
unfolding apply_auto_budget_policy with_resident with_pin without_pin
resident-eq doubles policy limits sizes on = ground arith

vram_budget-le :
    (doubles : Doubles) (policy : Policy) (sizes : Sizes)
    → IsShare doubles
    → vram_budget doubles policy sizes ≤ sizes.modules
unfolding vram_budget
vram_budget-le doubles policy sizes shares =
    let quarter = shares sizes.modules 25 (omega arith) in ground arith

vram_budget-target :
    (doubles : Doubles) (policy : Policy) (sizes : Sizes)
    → 0 < sizes.total_vram
    → vram_budget doubles policy sizes ≤ vram_target doubles policy sizes
unfolding vram_budget
vram_budget-target doubles policy sizes card = ground arith

auto_pin_budget-le :
    (doubles : Doubles) (policy : Policy) (limits : Limits) (sizes : Sizes)
    → IsShare doubles
    → (auto_pin_budget doubles policy limits sizes ≤ sizes.weights)
      × (0 < limits.max_pin_weight
          → auto_pin_budget doubles policy limits sizes ≤ limits.max_pin_weight)
unfolding auto_pin_budget
auto_pin_budget-le doubles policy limits sizes shares =
    let whole = shares sizes.weights 100 (omega arith) in
    let most = shares sizes.weights 85 (omega arith) in
    let part = shares sizes.weights 75 (omega arith) in (ground arith, λ h. ground arith)

-- Where the policy is on and no budget was given for resident modules, the one it sets is at most the
-- bytes of the modules that may stay; and where all weights are not to be pinned, it is also at most the
-- maximum that is set, and, on a card and without a profile's budget, at most the card's target.
pub apply_auto_budget_policy-resident :
    (doubles : Doubles) (policy : Policy) (limits : Limits) (sizes : Sizes)
    → IsShare doubles
    → policy.disabled ≡ false
    → limits.resident_budget ≡ 0
    → let resident = (apply_auto_budget_policy doubles policy limits sizes).resident_budget in
      (resident ≤ sizes.modules)
      × (can_auto_full_pin policy limits sizes ≡ false
          → 0 < limits.max_resident
          → resident ≤ limits.max_resident)
      × (can_auto_full_pin policy limits sizes ≡ false
          → policy.profile_budget_applied ≡ false
          → 0 < sizes.total_vram
          → resident ≤ vram_target doubles policy sizes)
unfolding resolved_resident_budget auto_resident_budget profile_resident_budget
    can_apply_profile_resident_budget
apply_auto_budget_policy-resident doubles policy limits sizes shares on unset =
    let eq = resident-eq doubles policy limits sizes on in
    let fits = vram_budget-le doubles policy sizes shares in
    let target = vram_budget-target doubles policy sizes in
    (ground arith, λ part h. ground arith, λ part own card. ground (arith, target card))

-- Where the policy is on, no pin budget was given, there are weights to pin and the available RAM is known:
-- either the weights and the resident modules fit the RAM left over the headroom, and the pin budget is at
-- most the weights and any maximum that is set, or the pin budget is 0 and pinning is switched off.
pub apply_auto_budget_policy-ram :
    (doubles : Doubles) (policy : Policy) (limits : Limits) (sizes : Sizes)
    → IsShare doubles
    → policy.disabled ≡ false
    → unbudgeted_pin limits ≡ true
    → 0 < sizes.weights
    → 0 < limits.available_ram
    → let out = apply_auto_budget_policy doubles policy limits sizes in
      ((sizes.weights + out.resident_budget ≤ usable_ram limits)
        × (out.pin_weight_budget ≤ sizes.weights)
        × (0 < limits.max_pin_weight → out.pin_weight_budget ≤ limits.max_pin_weight))
      ⊎ ((usable_ram limits < sizes.weights + out.resident_budget)
          × (out.pin_weight_budget ≡ 0)
          × (out.skip_pin_weights ≡ true))
unfolding apply_auto_budget_policy lacks_ram with_resident with_pin without_pin
apply_auto_budget_policy-ram doubles policy limits sizes shares on unset some_weights known =
    let pin = auto_pin_budget-le doubles policy limits sizes shares in
    elim (Bool-cases
      (lacks_ram limits sizes (resolved_resident_budget doubles policy limits sizes))) [
        | inl lacks ↦ inr (ground arith, ground arith, ground arith)
        | inr fits ↦ inl (ground arith, ground arith, λ h. ground arith)
      ]
