-- ===== src/Planner/Selection/Budgets.antt =====
-- What the selections choose: within the budget, and nothing left out that would still fit.
use mathlib.Core.List.{Perm}
use mathlib.Core.List.Perm
use diffusers_dynamic_offloa.Sorting.{sorted-perm}
use diffusers_dynamic_offloa.Prelude.{
  ℕ, ◌+◌, ◌-◌, ◌<◌, ◌≤◌, ◌≡◌, refl, ◌∙◌, ap, Bool, true, false, ◌&&◌, ◌||◌, not, some, is_some,
  List, [], ◌∷◌, String, max, leb, ltb, eqb, arith, Bool-cases, inl, inr, All,
}
use diffusers_dynamic_offloa.Planner.Orders.{Item, bytes_of, largest_first_order}
use diffusers_dynamic_offloa.Planner.Orders.SpreadPerm.{spread_order-Perm}
use diffusers_dynamic_offloa.Planner.Selection.{
  Selection, first, spread, largest, Limits, Doubles, ordered, within_budget, select_within,
  pin_loop, existing_bytes, ratio_bytes, pin_budget, requested_pin_budget, at_most, sdnq_pin_budget,
  select_resident_modules, resident_candidates, select_sdnq_parameters_to_pin, pin_within,
  select_linear_weights_to_pin,
}

-- `chosen` is `items` less some items, each of which exceeded the budget when its turn came.
pub data Greedy (budget : ℕ) : ℕ → List Item → List Item → Type 0 where
  done : {used : ℕ} → Greedy budget used [] []
  taken :
      {used : ℕ} {items chosen : List Item} (item : Item)
      → used + item.bytes ≤ budget
      → Greedy budget (used + item.bytes) items chosen
      → Greedy budget used (item ∷ items) (item ∷ chosen)
  left_out :
      {used : ℕ} {items chosen : List Item} (item : Item)
      → budget < used + item.bytes
      → Greedy budget used items chosen
      → Greedy budget used (item ∷ items) chosen

within_budget-Greedy :
    (budget used : ℕ) (items : List Item)
    → Greedy budget used items (within_budget budget used items)
unfolding within_budget
within_budget-Greedy budget used [] = done
within_budget-Greedy budget used (item ∷ items) =
    elim (Bool-cases (ltb budget (used + item.bytes))) [
      | inl over ↦ rw over (left_out item (ground arith) (within_budget-Greedy budget used items))
      | inr fits ↦
          rw fits
            (taken item (ground arith) (within_budget-Greedy budget (used + item.bytes) items))
    ]

Greedy-le :
    {budget used : ℕ} {items chosen : List Item}
    → Greedy budget used items chosen
    → used ≤ budget
    → used + bytes_of chosen ≤ budget
Greedy-le done h = omega arith
Greedy-le (taken item fits rest) h = omega (arith, Greedy-le rest fits)
Greedy-le (left_out item over rest) h = Greedy-le rest h

ordered-Perm :
    (selection : Selection) (items : List Item) (budget : ℕ)
    → (out : List Item) × (ordered selection items budget ≡ some out) × Perm out items
unfolding ordered largest_first_order
ordered-Perm first items budget = (items, refl, Perm.refl items)
ordered-Perm spread items budget = spread_order-Perm items budget
ordered-Perm largest items budget =
    (largest_first_order items, refl, sorted-perm (λ a b. leb b.bytes a.bytes) items)

-- Whatever the order (`first`, `spread`, `largest`), the choice of resident modules succeeds: it goes
-- through the candidates in a permutation of their order, takes an item exactly when it still fits the
-- budget beside those taken before it, and the modules taken stay within the budget together.
pub select_resident_modules-Greedy :
    (limits : Limits) (selection : Selection) (skipped wanted : String → Bool)
    (resident : List String) (modules : List Item)
    → (order chosen : List Item) × (select_resident_modules limits selection skipped wanted resident
          modules
        ≡ some chosen)
      × Perm order (resident_candidates skipped wanted resident modules)
      × Greedy limits.resident_budget 0 order chosen
      × (bytes_of chosen ≤ limits.resident_budget)
unfolding select_resident_modules select_within
select_resident_modules-Greedy limits selection skipped wanted resident modules =
    let (order, found, perm) =
      ordered-Perm selection (resident_candidates skipped wanted resident modules)
        limits.resident_budget in
    let greedy = within_budget-Greedy limits.resident_budget 0 order in
    rw found (
      order,
      within_budget limits.resident_budget 0 order,
      refl,
      perm,
      greedy,
      omega (arith, Greedy-le greedy),
    )

pin_loop-le :
    (is_pinned : ℕ → Bool) (budget remaining : ℕ) (items : List Item)
    → bytes_of (pin_loop is_pinned budget remaining items) ≤ remaining
unfolding pin_loop
pin_loop-le is_pinned budget remaining [] = omega arith
pin_loop-le is_pinned budget remaining (item ∷ items) =
    elim (Bool-cases (
      not (is_pinned item.object)
      && (ltb 0 budget && (ltb 0 item.bytes && leb item.bytes remaining)))) [
        | inl chosen ↦ rw chosen (
            omega (arith, pin_loop-le is_pinned budget (remaining - item.bytes) items, fits chosen))
        | inr left ↦ rw left (pin_loop-le is_pinned budget remaining items)
      ]
  where
    fits :
        not (is_pinned item.object)
            && (ltb 0 budget && (ltb 0 item.bytes && leb item.bytes remaining))
          ≡ true
        → item.bytes ≤ remaining
    fits e = ground arith

pin_loop-fresh :
    (is_pinned : ℕ → Bool) (budget remaining : ℕ) (items : List Item)
    → All (λ item. is_pinned item.object ≡ false) (pin_loop is_pinned budget remaining items)
unfolding pin_loop
pin_loop-fresh is_pinned budget remaining [] = tt
pin_loop-fresh is_pinned budget remaining (item ∷ items) =
    elim (Bool-cases (
      not (is_pinned item.object)
      && (ltb 0 budget && (ltb 0 item.bytes && leb item.bytes remaining)))) [
        | inl chosen ↦
            rw chosen (fresh chosen, pin_loop-fresh is_pinned budget (remaining - item.bytes) items)
        | inr left ↦ rw left (pin_loop-fresh is_pinned budget remaining items)
      ]
  where
    fresh :
        not (is_pinned item.object)
            && (ltb 0 budget && (ltb 0 item.bytes && leb item.bytes remaining))
          ≡ true
        → is_pinned item.object ≡ false
    fresh e = ground arith

-- With nothing left of the budget, no parameter is chosen.
pin_loop-spent :
    (is_pinned : ℕ → Bool) (budget remaining : ℕ) (items : List Item)
    → remaining ≡ 0
    → pin_loop is_pinned budget remaining items ≡ []
unfolding pin_loop
pin_loop-spent is_pinned budget remaining [] e = refl
pin_loop-spent is_pinned budget remaining (item ∷ items) e =
    rw skipped (pin_loop-spent is_pinned budget remaining items e)
  where
    skipped :
        not (is_pinned item.object)
          && (ltb 0 budget && (ltb 0 item.bytes && leb item.bytes remaining))
        ≡ false
    skipped = ground arith

pin_loop-pos :
    (is_pinned : ℕ → Bool) (budget remaining : ℕ) (items : List Item)
    → All (λ item. 0 < item.bytes) (pin_loop is_pinned budget remaining items)
unfolding pin_loop
pin_loop-pos is_pinned budget remaining [] = tt
pin_loop-pos is_pinned budget remaining (item ∷ items) =
    elim (Bool-cases (
      not (is_pinned item.object)
      && (ltb 0 budget && (ltb 0 item.bytes && leb item.bytes remaining)))) [
        | inl chosen ↦
            rw chosen
              (some_bytes chosen, pin_loop-pos is_pinned budget (remaining - item.bytes) items)
        | inr left ↦ rw left (pin_loop-pos is_pinned budget remaining items)
      ]
  where
    some_bytes :
        not (is_pinned item.object)
            && (ltb 0 budget && (ltb 0 item.bytes && leb item.bytes remaining))
          ≡ true
        → 0 < item.bytes
    some_bytes e = ground arith

at_most-le : (applies : Bool) (limit budget : ℕ) → at_most applies limit budget ≤ budget
unfolding at_most
at_most-le true limit budget = omega arith
at_most-le false limit budget = omega arith

at_most-limit :
    (applies : Bool) (limit budget : ℕ) → applies ≡ true → at_most applies limit budget ≤ limit
unfolding at_most
at_most-limit true limit budget e = omega arith
at_most-limit false limit budget e = absurd (cc)

-- The budget for packed parameters, whatever the limits, exceeds neither the candidates nor a limit that is
-- set: the fixed budget, the ratio's bytes, the maximum, and the RAM left over the headroom when it is known;
-- and it is 0 where pinning is off, skipped or disabled.
pub sdnq_pin_budget-le :
    (limits : Limits) (pin_cpu_memory : Bool) (candidate_bytes : ℕ)
    → (sdnq_pin_budget limits pin_cpu_memory candidate_bytes ≤ candidate_bytes)
      × (0 < limits.pin_weight_budget
          → sdnq_pin_budget limits pin_cpu_memory candidate_bytes ≤ limits.pin_weight_budget)
      × (0 < limits.max_pin_weight
          → sdnq_pin_budget limits pin_cpu_memory candidate_bytes ≤ limits.max_pin_weight)
      × (0 < limits.available_ram
          → sdnq_pin_budget limits pin_cpu_memory candidate_bytes
            ≤ limits.available_ram - limits.ram_headroom)
      × (is_some limits.pin_weight_ratio ≡ true
          → sdnq_pin_budget limits pin_cpu_memory candidate_bytes
            ≤ ratio_bytes limits.pin_weight_ratio candidate_bytes)
      × (not pin_cpu_memory || limits.skip_pin_weights || limits.pin_memory_disabled ≡ true
          → sdnq_pin_budget limits pin_cpu_memory candidate_bytes ≡ 0)
unfolding sdnq_pin_budget at_most
sdnq_pin_budget-le limits pin_cpu_memory candidate_bytes = (
  ground arith,
  λ h. ground arith,
  λ h. ground arith,
  λ h. ground arith,
  λ h. ground arith,
  λ h. ground arith,
)

-- Whatever the limits, the order and the candidates, the selection of packed parameters succeeds; those
-- selected and those the loader has pinned fit the budget together, unless the pinned ones alone exceed it;
-- none is selected where the pinned ones use the budget up or the budget is 0; and none is selected that is
-- pinned or has no bytes.
pub select_sdnq_parameters_to_pin-le :
    (limits : Limits) (pin_cpu_memory : Bool) (selection : Selection) (is_pinned : ℕ → Bool)
    (candidates : List Item)
    → let budget = sdnq_pin_budget limits pin_cpu_memory (bytes_of candidates) in
      (chosen : List Item) × (select_sdnq_parameters_to_pin limits pin_cpu_memory selection
          is_pinned candidates
        ≡ some chosen)
      × (existing_bytes is_pinned candidates + bytes_of chosen
          ≤ max (existing_bytes is_pinned candidates) budget)
      × (budget ≤ existing_bytes is_pinned candidates → chosen ≡ [])
      × All (λ item. is_pinned item.object ≡ false) chosen
      × All (λ item. 0 < item.bytes) chosen
unfolding select_sdnq_parameters_to_pin pin_within
select_sdnq_parameters_to_pin-le limits pin_cpu_memory selection is_pinned candidates =
    let budget = sdnq_pin_budget limits pin_cpu_memory (bytes_of candidates) in
    let remaining = budget - existing_bytes is_pinned candidates in
    let (order, found, _) = ordered-Perm selection candidates budget in
    rw found (
      pin_loop is_pinned budget remaining order,
      refl,
      omega (arith, pin_loop-le is_pinned budget remaining order),
      λ spent. pin_loop-spent is_pinned budget remaining order (omega arith),
      pin_loop-fresh is_pinned budget remaining order,
      pin_loop-pos is_pinned budget remaining order,
    )

-- What the selection of linear weights means: all candidates are pinned, because that was forced, because no
-- budget is set, or because the budget reaches 95 % of them; or the chosen ones fit the budget asked for.
pub data PinOutcome (doubles : Doubles) (limits : Limits) (candidates : List Item)
    : List Item → Type 0 where
  all_forced : limits.force_full_pin ≡ true → PinOutcome doubles limits candidates candidates
  all_unlimited :
      requested_pin_budget limits (bytes_of candidates) ≡ 0
      → PinOutcome doubles limits candidates candidates
  all_snapped :
      doubles.share (bytes_of candidates) 95 ≤ requested_pin_budget limits (bytes_of candidates)
      → PinOutcome doubles limits candidates candidates
  limited :
      {order chosen : List Item}
      → Perm order candidates
      → Greedy (requested_pin_budget limits (bytes_of candidates)) 0 order chosen
      → bytes_of chosen ≤ requested_pin_budget limits (bytes_of candidates)
      → PinOutcome doubles limits candidates chosen

requested_pin_budget-max :
    (limits : Limits) (bytes : ℕ)
    → 0 < limits.max_pin_weight
    → requested_pin_budget limits bytes ≤ limits.max_pin_weight
unfolding requested_pin_budget
requested_pin_budget-max limits bytes h = ground arith

unbounded :
    (doubles : Doubles) (limits : Limits) (candidates : List Item)
    → pin_budget doubles limits (bytes_of candidates) ≡ 0
    → PinOutcome doubles limits candidates candidates
unfolding pin_budget
unbounded doubles limits candidates none_left =
    elim (Bool-cases (
      leb (doubles.share (bytes_of candidates) 95)
        (requested_pin_budget limits (bytes_of candidates)))) [
          | inl reached ↦ all_snapped (ground arith)
          | inr below ↦ all_unlimited (ground arith)
        ]

bounded :
    (doubles : Doubles) (limits : Limits) (candidates : List Item)
    → eqb (pin_budget doubles limits (bytes_of candidates)) 0 ≡ false
    → pin_budget doubles limits (bytes_of candidates)
      ≡ requested_pin_budget limits (bytes_of candidates)
unfolding pin_budget
bounded doubles limits candidates some_left = ground arith

-- Whatever the limits, the order and the candidates, the selection of linear weights succeeds and is one of:
-- all candidates, because that was forced, no budget is set, or the budget reaches 95 % of them; or the
-- candidates that fit one after another, in a permutation of their order, the budget asked for, which
-- together stay within it. That budget stays within the maximum when one is set.
pub select_linear_weights_to_pin-PinOutcome :
    (doubles : Doubles) (limits : Limits) (selection : Selection) (candidates : List Item)
    → (chosen : List Item) × (select_linear_weights_to_pin doubles limits selection candidates
        ≡ some chosen)
      × PinOutcome doubles limits candidates chosen
      × (0 < limits.max_pin_weight
          → requested_pin_budget limits (bytes_of candidates) ≤ limits.max_pin_weight)
unfolding select_linear_weights_to_pin select_within
select_linear_weights_to_pin-PinOutcome doubles limits selection candidates =
    elim (Bool-cases limits.force_full_pin) [
      | inl forced ↦ (candidates, ground arith, all_forced forced, capped)
      | inr free ↦ elim (Bool-cases (eqb budget 0)) [
        | inl unlimited_pin ↦
            (candidates, ground arith, unbounded doubles limits candidates (ground arith), capped)
        | inr limited_pin ↦
            (let (order, found, perm) = ordered-Perm selection candidates budget in
              let same = bounded doubles limits candidates limited_pin in
              let greedy = within_budget-Greedy requested 0 order in
              (
                within_budget requested 0 order,
                takes limited_pin free
                    ∙ ap (λ o. select_within o budget) found
                    ∙ ap (λ n. some (within_budget n 0 order)) same,
                limited perm greedy (omega (arith, Greedy-le greedy)),
                capped,
              ))
      ]
    ]
  where
    takes :
        eqb (pin_budget doubles limits (bytes_of candidates)) 0 ≡ false
        → limits.force_full_pin ≡ false
        → select_linear_weights_to_pin doubles limits selection candidates
          ≡ select_within
              (ordered selection candidates (pin_budget doubles limits (bytes_of candidates)))
              (pin_budget doubles limits (bytes_of candidates))
    takes bound free = ground arith

    requested : ℕ
    requested = requested_pin_budget limits (bytes_of candidates)

    budget : ℕ
    budget = pin_budget doubles limits (bytes_of candidates)

    capped :
        0 < limits.max_pin_weight
        → requested_pin_budget limits (bytes_of candidates) ≤ limits.max_pin_weight
    capped = requested_pin_budget-max limits (bytes_of candidates)
