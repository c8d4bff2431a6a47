-- ===== src/ModelArena/Counts.antt =====
-- How many leases a group counts after `acquire` and `release`, on an open arena.
use diffusers_dynamic_offloa.Prelude.{
  ℕ, ◌+◌, ◌-◌, ◌<◌, ◌≡◌, refl, sym, subst, ap, ◌∙◌, String, string_eq, true, false, Option, none,
  some, ◌∷◌, eqb, if◌then◌else◌, ◌==◌, arith, Bool-cases, inl, inr, if_rule,
}
use diffusers_dynamic_offloa.Dict.{Dict, get, put, get-put}
use diffusers_dynamic_offloa.Outcome.{
  Outcome, Error, done, raise, runtime_error, key_error, left_by, continue, Post, Post-continue,
  Post-raise_if, Post-or_raise, Post-if, raise_if-false, or_raise-some,
}
use diffusers_dynamic_offloa.ModelArena.{
  Native, NativeCall, Group, Arena, require_open, get_group, call_native, or_retry, acquire,
  release_group, release, save_group, collect_completed_events, prefetch_loaded_group,
  release_after_current_stream,
}

abbrev pub leases_of : Option Group → ℕ
leases_of none = 0
leases_of (some group) = group.active_leases

abbrev pub held : String → Arena → ℕ
held name s = leases_of (get name s.groups)

held-put :
    (key name : String) (group : Group) (groups : Dict String Group)
    → leases_of (get name (put key group groups))
      ≡ (if key == name then group.active_leases else leases_of (get name groups))
held-put key name group groups = elim (Bool-cases (key == name)) [
  | inl same ↦ rw (get-put key name group groups, same) refl
  | inr other ↦ rw (get-put key name group groups, other) refl
]

-- The count of one group becomes `n`, and the others' stay.
abbrev pub Counts : String → ℕ → Arena → Arena → Type 0
Counts key n s s' =
    (s'.closed ≡ s.closed)
    × ((name : String) → held name s' ≡ (if key == name then n else held name s))

abbrev Same : Arena → Arena → Type 0
Same s s' = (s'.closed ≡ s.closed) × (s'.groups ≡ s.groups)

module _ (native : Native) where
  call-Same :
      (c : NativeCall) (s0 s : Arena)
      → Same s0 s
      → Post (λ _. Same s0) (λ _. Same s0) (call_native native c s)
  unfolding call_native
  call-Same c s0 s h = Post-if _ _ (native.succeeds s.trace c) _ _ (λ _. h) (λ _. h)

  retry-Same :
      (key : String) (s0 : Arena) (o : Outcome Arena (Unit {0}))
      → Post (λ _. Same s0) (λ _. Same s0) o
      → Post (λ _. Same s0) (λ _. Same s0) (or_retry native key o)
  unfolding or_retry
  retry-Same key s0 (done _ s) h = h
  retry-Same key s0 (raise _ s) h =
      Post-continue (λ _. Same s0) (λ _. Same s0) (λ _. Same s0)
        (call_native native (collect_completed_events true) s) _
        (call-Same (collect_completed_events true) s0 s h)
        λ _ s1 h1. call-Same (prefetch_loaded_group key) s0 s1 h1

  added-Counts :
      (key : String) (group : Group) (s s' : Arena)
      → get key s.groups ≡ some group
      → Same s s'
      → Counts key
          (held key s + 1)
          s
          (save_group key (record group { active_leases = group.active_leases + 1 }) s')
  added-Counts key group s s' found h = (
    h.0,
    λ name.
        held-put key name (record group { active_leases = group.active_leases + 1 }) s'.groups
        ∙ elim (Bool-cases (key == name)) [
          | inl same ↦ rw (same, found) refl
          | inr other ↦ rw (other, h.1) refl
        ],
  )

  pub acquire-Counts :
      (key : String) (s : Arena)
      → Post
          (λ lease s'. (lease ≡ key) × Counts key (held key s + 1) s s')
          (λ _ s'. (s'.closed ≡ s.closed) × (s'.groups ≡ s.groups))
          (acquire native key s)
  unfolding acquire require_open get_group
  acquire-Counts key s =
      Post-raise_if Q E s.closed runtime_error s _ (λ _. (refl, refl))
        λ _.
          Post-or_raise Q E (get key s.groups) key_error s _ (refl, refl)
            λ group found.
              Post-continue (λ _. Same s) Q E
                (call_native native (collect_completed_events false) s) _
                (call-Same (collect_completed_events false) s s (refl, refl))
                λ _ s3 h3.
                  Post-continue (λ _. Same s) Q E
                    (or_retry native key (call_native native (prefetch_loaded_group key) s3)) _
                    (retry-Same key s (call_native native (prefetch_loaded_group key) s3)
                      (call-Same (prefetch_loaded_group key) s s3 h3))
                    λ _ s4 h4. (refl, added-Counts key group s s4 found h4)
    where
      Q : String → Arena → Type 0
      Q lease s' = (lease ≡ key) × Counts key (held key s + 1) s s'

      E : Error → Arena → Type 0
      E e = Same s

  -- A group saved with one lease less, once or twice.
  lowered-Counts :
      (key : String) (group group' : Group) (s s' : Arena)
      → get key s.groups ≡ some group
      → group'.active_leases ≡ group.active_leases - 1
      → s'.closed ≡ s.closed
      → ((name : String) → (key == name) ≡ false → held name s' ≡ held name s)
      → Counts key (held key s - 1) s (save_group key group' s')
  lowered-Counts key group group' s s' found less same_closed rest = (
    same_closed,
    λ name. held-put key name group' s'.groups ∙ elim (Bool-cases (key == name)) [
      | inl same ↦ rw (same, found) less
      | inr other ↦ rw other (rest name other)
    ],
  )

  -- A call of the allocator's, whichever way it ends.
  call_rule :
      {B : Type 0} (P : Outcome Arena B → Type 0) (c : NativeCall) (s : Arena)
      (f : Unit {0} → Arena → Outcome Arena B)
      → P (f tt (record s { trace = c ∷ s.trace }))
      → P (raise runtime_error (record s { trace = c ∷ s.trace }))
      → P (continue (call_native native c s) f)
  unfolding call_native
  call_rule P c s f h k =
      if_rule (λ o. P (continue o f)) (native.succeeds s.trace c)
        (done tt (record s { trace = c ∷ s.trace }))
        (raise runtime_error (record s { trace = c ∷ s.trace })) (λ _. h) (λ _. k)

  release_group-Counts :
      (key : String) (group : Group) (s : Arena)
      → get key s.groups ≡ some group
      → Counts key (held key s - 1) s (left_by (release_group native key group s))
  unfolding release_group
  release_group-Counts key group s found =
      if_rule (λ o. Counts key (held key s - 1) s (left_by o)) (eqb (group.active_leases - 1) 0) _
        (done tt (save_group key left s))
        (λ _.
          call_rule (λ (o : Outcome Arena (Unit {0})). Counts key (held key s - 1) s (left_by o))
            (release_after_current_stream key) (save_group key left s) _
            (lowered-Counts key group (record left { temporary_views = none }) s sent found refl
              refl elsewhere)
            (lowered-Counts key group left s
              (record s { trace = release_after_current_stream key ∷ s.trace }) found refl refl
              (λ name other. refl)))
        (λ _. lowered-Counts key group left s s found refl refl (λ name other. refl))
    where
      left : Group
      left = record group { active_leases = group.active_leases - 1 }

      sent : Arena
      sent = record (save_group key left s) { trace = release_after_current_stream key ∷ s.trace }

      elsewhere :
          (name : String) → (key == name) ≡ false → held name (save_group key left s) ≡ held name s
      elsewhere name other = held-put key name left s.groups ∙ rw other refl

  -- On an open arena a group that is leased gives one lease back, and no other, also where the allocator fails.
  pub release-Counts :
      (key : String) (s : Arena)
      → s.closed ≡ false
      → 0 < held key s
      → Counts key (held key s - 1) s (left_by (release native key s))
  unfolding release require_open get_group
  release-Counts key s opened leased = from (get key s.groups) refl
    where
      from :
          (o : Option Group)
          → get key s.groups ≡ o
          → Counts key (held key s - 1) s (left_by (release native key s))
      from none e = absurd (ground (arith, e, ap leases_of e))
      from (some group) e =
          subst (λ o. Counts key (held key s - 1) s (left_by o))
            (sym (
              raise_if-false s.closed runtime_error s _ opened
              ∙ or_raise-some (get key s.groups) key_error s _ e
              ∙ raise_if-false (eqb group.active_leases 0) runtime_error s _
                  (ground (arith, ap leases_of e))))
            (release_group-Counts key group s e)
