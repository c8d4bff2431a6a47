-- ===== src/Planner/AutoBudget.antt =====
-- `_apply_auto_budget_policy` of dynamic_offload.py. Sizes are bytes throughout: the source writes a byte
-- count in gibibytes as a double, `bytes / 1024**3`, which is exact, and compares and scales that. The
-- decisions it records for the log are left out.
pub mod Bounds
use diffusers_dynamic_offloa.Prelude.{
  ℕ, ◌+◌, ◌-◌, ◌*◌, ◌<◌, ◌≤◌, ◌≡◌, refl, Bool, true, false, ◌&&◌, ◌||◌, not, Option, none, some,
  min, max, leb, ltb, eqb, if◌then◌else◌, is_some, arith,
}
use diffusers_dynamic_offloa.Planner.Selection.{Doubles, Limits}

pub record Policy : Type 0 where
  pub disabled : Bool
  pub pin_cpu_memory : Bool
  -- `model_to_vram_ratio >= auto_full_pin_min_model_to_vram_ratio`, when that is positive
  pub full_pin_ratio_reached : Option (ℕ → ℕ → Bool)
  pub profile_resident_bytes : ℕ
  pub profile_budget_applied : Bool
  -- `auto_vram_headroom_gb`, rounded up to bytes; 0 when unset
  pub vram_headroom : ℕ

-- What is known of the model and the machine: the bytes of the weights that may be pinned and of the modules
-- that may stay resident, and the memory of the card, 0 when there is none.
pub record Sizes : Type 0 where
  pub weights : ℕ
  pub modules : ℕ
  pub total_vram : ℕ

abbrev pub gib : ℕ
gib = 1073741824

abbrev pub half_gib : ℕ
half_gib = 536870912

unfoldable pub usable_ram : Limits → ℕ
usable_ram limits = limits.available_ram - limits.ram_headroom

unfoldable pub reaches : Option (ℕ → ℕ → Bool) → ℕ → ℕ → Bool
reaches none modules total = false
reaches (some test) modules total = test modules total

unfoldable pub unbudgeted_pin : Limits → Bool
unbudgeted_pin limits = eqb limits.pin_weight_budget 0 && not (is_some limits.pin_weight_ratio)

unfoldable pub can_auto_full_pin : Policy → Limits → Sizes → Bool
can_auto_full_pin policy limits sizes =
    policy.pin_cpu_memory
    && (unbudgeted_pin limits
        && (eqb limits.resident_budget 0
            && (eqb limits.max_pin_weight 0
                && (ltb 0 limits.available_ram
                    && (ltb 0 sizes.weights
                        && (leb sizes.weights (usable_ram limits)
                            && reaches policy.full_pin_ratio_reached sizes.modules
                                sizes.total_vram))))))

unfoldable pub profile_resident_budget : Policy → Sizes → ℕ
profile_resident_budget policy sizes = min policy.profile_resident_bytes sizes.modules

unfoldable pub can_apply_profile_resident_budget : Policy → Limits → Sizes → Bool
can_apply_profile_resident_budget policy limits sizes =
    can_auto_full_pin policy limits sizes
    && (ltb 0 (profile_resident_budget policy sizes)
        && leb (sizes.weights + profile_resident_budget policy sizes) (usable_ram limits))

-- The headroom left to the card: by its size, unless configured.
unfoldable pub vram_headroom : Doubles → Policy → Sizes → ℕ
vram_headroom doubles policy sizes =
    if ltb 0 policy.vram_headroom
    then policy.vram_headroom
    else if leb sizes.total_vram (17 * half_gib)
    then (if leb (2 * sizes.modules) (5 * sizes.total_vram) then 3 * gib else 2 * gib)
    else if leb sizes.total_vram (25 * half_gib)
    then 5 * half_gib
    else max (3 * gib) (doubles.share_up sizes.total_vram 15)

unfoldable pub vram_target : Doubles → Policy → Sizes → ℕ
vram_target doubles policy sizes = max gib (sizes.total_vram - vram_headroom doubles policy sizes)

-- A quarter of the modules; for a model larger than the card as much as the target takes; never above it.
unfoldable pub vram_budget : Doubles → Policy → Sizes → ℕ
vram_budget doubles policy sizes =
    let quarter = doubles.share sizes.modules 25 in
    let target = vram_target doubles policy sizes in
    let wanted =
      if ltb sizes.total_vram sizes.modules
      then min (max quarter target) sizes.modules
      else quarter in
    if ltb 0 sizes.total_vram then min wanted target else quarter

unfoldable pub auto_resident_budget : Doubles → Policy → Limits → Sizes → ℕ
auto_resident_budget doubles policy limits sizes =
    let budget =
      if policy.profile_budget_applied
      then profile_resident_budget policy sizes
      else vram_budget doubles policy sizes in
    if ltb 0 limits.max_resident then min budget limits.max_resident else budget

unfoldable pub resolved_resident_budget : Doubles → Policy → Limits → Sizes → ℕ
resolved_resident_budget doubles policy limits sizes =
    if eqb limits.resident_budget 0
      && (ltb 0 sizes.modules && not (can_auto_full_pin policy limits sizes))
    then auto_resident_budget doubles policy limits sizes
    else if can_apply_profile_resident_budget policy limits sizes
    then profile_resident_budget policy sizes
    else limits.resident_budget

-- The budget for pinned weights: all of them up to 8 GiB, 85 % up to 16 GiB, 75 % above.
unfoldable pub auto_pin_budget : Doubles → Policy → Limits → Sizes → ℕ
auto_pin_budget doubles policy limits sizes =
    let budget =
      if can_auto_full_pin policy limits sizes
      then sizes.weights
      else if leb sizes.weights (8 * gib)
      then doubles.share sizes.weights 100
      else if leb sizes.weights (16 * gib)
      then doubles.share sizes.weights 85
      else doubles.share sizes.weights 75 in
    if ltb 0 limits.max_pin_weight then min budget limits.max_pin_weight else budget

unfoldable pub lacks_ram : Limits → Sizes → ℕ → Bool
lacks_ram limits sizes resident =
    ltb 0 limits.available_ram && ltb (usable_ram limits) (sizes.weights + resident)

unfoldable pub with_resident : Limits → ℕ → Limits
with_resident limits budget = record limits { resident_budget = budget }

unfoldable pub with_pin : Limits → ℕ → Limits
with_pin limits budget = record limits { pin_weight_budget = budget }

unfoldable pub without_pin : Limits → Limits
without_pin limits = record limits { pin_weight_budget = 0; skip_pin_weights = true }

unfoldable pub apply_auto_budget_policy : Doubles → Policy → Limits → Sizes → Limits
apply_auto_budget_policy doubles policy limits sizes =
    let resident = resolved_resident_budget doubles policy limits sizes in
    let bounded = with_resident limits resident in
    if policy.disabled
    then limits
    else if unbudgeted_pin limits && ltb 0 sizes.weights
    then (if lacks_ram limits sizes resident
        then without_pin bounded
        else with_pin bounded (auto_pin_budget doubles policy limits sizes))
    else bounded
