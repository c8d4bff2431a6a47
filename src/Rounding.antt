-- ===== src/Rounding.antt =====
-- `_round_up` of src/diffusers_dynamic_offloader/vmm_weight_store.py.
use native.Mathlib.Nat.{lt-div-mul-add, div-mul-le_self, mul-mod_left}
use diffusers_dynamic_offloa.Prelude.{ℕ, ◌+◌, ◌-◌, ◌*◌, ◌/◌, ◌%◌, ◌<◌, ◌≤◌, ◌≡◌, arith}

unfoldable pub round_up : ℕ → ℕ → ℕ
round_up value multiple = (value + multiple - 1) / multiple * multiple

pub le-round_up : (value multiple : ℕ) → 0 < multiple → value ≤ round_up value multiple
unfolding round_up
le-round_up value multiple h =
    omega (arith, lt-div-mul-add {a = value + multiple - 1} {b = multiple} h)

pub round_up-lt : (value multiple : ℕ) → 0 < multiple → round_up value multiple < value + multiple
unfolding round_up
round_up-lt value multiple h = omega (arith, div-mul-le_self (value + multiple - 1) multiple)

-- For a positive unit, a value is rounded up to a multiple of the unit that is at least the value and less
-- than one unit above it.
pub round_up-bounds :
    (value multiple : ℕ)
    → 0 < multiple
    → (value ≤ round_up value multiple)
      × (round_up value multiple < value + multiple)
      × (round_up value multiple % multiple ≡ 0)
unfolding round_up
round_up-bounds value multiple h =
    (le-round_up value multiple h, round_up-lt value multiple h, mul-mod_left _ _)
