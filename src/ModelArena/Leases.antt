-- ===== src/ModelArena/Leases.antt =====
-- Leases of a group: what `acquire`, `release` and `close` leave, where they return and where they raise.
use diffusers_dynamic_offloa.Prelude.{
  ◌+◌, ◌-◌, ◌<◌, ◌≡◌, refl, sym, ◌∙◌, ap, String, string_eq, Bool, true, false, none, some, eqb,
  if◌then◌else◌, arith, inl, inr, ◌⊎◌,
}
use diffusers_dynamic_offloa.Dict.{Dict, get, put, put-put}
use diffusers_dynamic_offloa.Outcome.{
  Outcome, Error, done, raise, runtime_error, key_error, Post, Post-continue, Post-raise_if,
  Post-or_raise, Post-if, Post-weaken,
}
use diffusers_dynamic_offloa.ModelArena.{
  Native, NativeCall, Group, Arena, require_open, get_group, call_native, or_retry, acquire,
  release_group, release, collect_completed_events, prefetch_loaded_group,
  release_after_current_stream,
}

module _ (native : Native) where
  abbrev pub Unchanged : Dict String Group → Arena → Type 0
  Unchanged groups s = s.groups ≡ groups

  -- A call of the allocator's leaves the groups.
  call-Post :
      (c : NativeCall) (groups : Dict String Group) (s : Arena)
      → Unchanged groups s
      → Post (λ _. Unchanged groups) (λ _. Unchanged groups) (call_native native c s)
  unfolding call_native
  call-Post c groups s h = Post-if _ _ (native.succeeds s.trace c) _ _ (λ _. h) (λ _. h)

  retry-Post :
      (key : String) (groups : Dict String Group) (o : Outcome Arena (Unit {0}))
      → Post (λ _. Unchanged groups) (λ _. Unchanged groups) o
      → Post (λ _. Unchanged groups) (λ _. Unchanged groups) (or_retry native key o)
  unfolding or_retry
  retry-Post key groups (done _ s) h = h
  retry-Post key groups (raise _ s) h =
      Post-continue (λ _. Unchanged groups) _ _
        (call_native native (collect_completed_events true) s) _
        (call-Post (collect_completed_events true) groups s h)
        λ _ s1 h1. call-Post (prefetch_loaded_group key) groups s1 h1

  abbrev pub Acquired : String → Arena → String → Arena → Type 0
  Acquired key s lease s' =
      (lease ≡ key)
      × (group : Group) × (get key s.groups ≡ some group)
      × (s'.groups ≡ put key (record group { active_leases = group.active_leases + 1 }) s.groups)

  -- An acquisition that returns gives a lease on a group that was there and counts one lease more, with or
  -- without the second attempt; one that raises, whether the arena is closed, the group is unknown or the
  -- allocator fails, leaves every group as it was.
  pub acquire-Acquired :
      (key : String) (s : Arena)
      → Post (Acquired key s) (λ _. Unchanged s.groups) (acquire native key s)
  unfolding acquire require_open get_group
  acquire-Acquired key s =
      Post-raise_if (Acquired key s) E s.closed runtime_error s _ (λ _. refl)
        λ _. Post-or_raise (Acquired key s) E (get key s.groups) key_error s _ refl λ group found.
          Post-continue (λ _. Unchanged s.groups) (Acquired key s) E
            (call_native native (collect_completed_events false) s) _
            (call-Post (collect_completed_events false) s.groups s refl)
            λ _ s3 h3.
              Post-continue (λ _. Unchanged s.groups) (Acquired key s) E
                (or_retry native key (call_native native (prefetch_loaded_group key) s3)) _
                (retry-Post key s.groups (call_native native (prefetch_loaded_group key) s3)
                  (call-Post (prefetch_loaded_group key) s.groups s3 h3))
                λ _ s4 h4. (
                  refl,
                  group,
                  found,
                  ap (put key (record group { active_leases = group.active_leases + 1 })) h4,
                )
    where
      E : Error → Arena → Type 0
      E e s' = s'.groups ≡ s.groups

  abbrev pub lowered : Group → Group
  lowered group = record group { active_leases = group.active_leases - 1 }

  -- The group with one lease less, and no temporary views after its last.
  abbrev pub given_back : Group → Bool → Group
  given_back group last = record group {
    active_leases = group.active_leases - 1;
    temporary_views = if last then none else group.temporary_views;
  }

  abbrev pub Released : String → Arena → Arena → Type 0
  Released key s s' =
      (group : Group) × (get key s.groups ≡ some group)
      × (0 < group.active_leases)
      × (s'.groups ≡ put key (given_back group (eqb (group.active_leases - 1) 0)) s.groups)

  -- The last lease is gone and the allocator's failure is on its way.
  abbrev pub Dropped : String → Arena → Arena → Type 0
  Dropped key s s' =
      (group : Group) × (get key s.groups ≡ some group)
      × (group.active_leases ≡ 1)
      × (s'.groups ≡ put key (lowered group) s.groups)

  -- A release that returns gives one lease of the group back and touches no other group; one that raises
  -- leaves the groups as they were, unless the allocator fails once the last lease has been given back.
  pub release-Released :
      (key : String) (s : Arena)
      → Post
          (λ _. Released key s)
          (λ _ s'. (s'.groups ≡ s.groups) ⊎ Dropped key s s')
          (release native key s)
  unfolding release require_open get_group release_group
  release-Released key s =
      Post-raise_if (λ _. Released key s) E s.closed runtime_error s _ (λ _. inl refl)
        λ _.
          Post-or_raise (λ _. Released key s) E (get key s.groups) key_error s _ (inl refl)
            λ group found.
              Post-raise_if (λ _. Released key s) E (eqb group.active_leases 0) runtime_error s _
                (λ _. inl refl)
                λ held.
                  let left = lowered group in
                  Post-if (λ _. Released key s) E (eqb left.active_leases 0) _ _
                    (λ last.
                      Post-continue (λ _. Unchanged (put key left s.groups)) (λ _. Released key s) E
                        (call_native native (release_after_current_stream key)
                          (record s { groups = put key left s.groups }))
                        _
                        (Post-weaken (λ _. Unchanged (put key left s.groups))
                          (λ _. Unchanged (put key left s.groups))
                          (λ _. Unchanged (put key left s.groups)) E
                          (call_native native (release_after_current_stream key)
                            (record s { groups = put key left s.groups }))
                          (call-Post (release_after_current_stream key) (put key left s.groups)
                            (record s { groups = put key left s.groups }) refl)
                          (λ _ s' h. h) (λ e s' h. inr (group, found, ground arith, h)))
                        λ _ s1 h1. (
                          group,
                          found,
                          ground arith,
                          ap (put key (record left { temporary_views = none })) h1
                              ∙ put-put key left (record left { temporary_views = none }) s.groups
                              ∙ ap (λ b. put key (given_back group b) s.groups) (sym last),
                        ))
                    (λ more. (
                      group,
                      found,
                      ground arith,
                      ap (λ b. put key (given_back group b) s.groups) (sym more),
                    ))
    where
      E : Error → Arena → Type 0
      E e s' = (s'.groups ≡ s.groups) ⊎ Dropped key s s'
