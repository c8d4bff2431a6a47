-- ===== src/Tests/Leases.antt =====
-- The leases of the groups of Tests/Runtime.antt, counted.
use diffusers_dynamic_offloa.Prelude.{
  ◌≡◌, refl, String, string_eq, false, some, [], ◌∷◌, ◌==◌, Bool-cases, inl, inr,
}
use diffusers_dynamic_offloa.Dict.{get}
use diffusers_dynamic_offloa.Outcome.{Post}
use diffusers_dynamic_offloa.ModelArena.{Arena}
use diffusers_dynamic_offloa.ModelArena.Counts.{held}
use diffusers_dynamic_offloa.ExecutionGroups.{clear}
use diffusers_dynamic_offloa.ExecutionGroups.Exclusion.{IsPaired}
use diffusers_dynamic_offloa.ExecutionGroups.Balance.{IsBalanced, IsOwn}
use diffusers_dynamic_offloa.ExecutionGroups.Keeping.{
  enter_group, work, leave_group, clear_groups, run,
}
use diffusers_dynamic_offloa.ExecutionGroups.Returns.{IsWorking, run-IsBalanced}
use diffusers_dynamic_offloa.ExecutionGroups.Draining.{clear-held}
use diffusers_dynamic_offloa.Tests.Runtime.{steady, reserved, sound, ready, ready-IsPaired}

none_held : (name : String) → held name reserved ≡ 0
unfolding get
none_held name = elim (Bool-cases ("blocks.0" == name)) [
  | inl first ↦ rw first refl
  | inr other ↦ elim (Bool-cases ("blocks.1" == name)) [
    | inl second ↦ rw (other, second) refl
    | inr neither ↦ rw (other, neither) refl
  ]
]

nothing-IsOwn : IsOwn []
unfolding get
nothing-IsOwn name leases e = absurd (cc)

ready-IsBalanced : IsBalanced ready
unfolding get
ready-IsBalanced = record {
  arena = reserved;
  has_arena = refl;
  opened = refl;
  counted = none_held;
  own_pending = nothing-IsOwn;
  own_active = nothing-IsOwn;
}

all_sound : IsWorking sound
all_sound = record { records = λ n. refl; waits = λ n. refl; synchronizes = λ n. refl }

run_leases_example : IsBalanced (
    run steady sound
      (enter_group 0 ∷ work "blocks.1" ∷ leave_group "blocks.0" ∷ enter_group 1 ∷ clear_groups ∷ [])
      ready)
run_leases_example =
    run-IsBalanced steady sound all_sound
      (enter_group 0 ∷ work "blocks.1" ∷ leave_group "blocks.0" ∷ enter_group 1 ∷ clear_groups ∷ [])
      ready ready-IsPaired ready-IsBalanced

clear_example :
    Post
      (λ _ t.
        (arena : Arena) × (t.arena ≡ some arena)
        × (arena.closed ≡ false)
        × ((name : String) → held name arena ≡ 0))
      (λ _ t. IsPaired t × IsBalanced t)
      (clear steady sound ready)
clear_example = clear-held steady sound all_sound ready ready-IsPaired ready-IsBalanced
