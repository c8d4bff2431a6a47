-- ===== src/ExecutionGroups/Returns.antt =====
-- Uploads, entries and exits keep the runtime's leases and the arena's counts in step.
use diffusers_dynamic_offloa.Prelude.{
  ℕ, ◌+◌, ◌-◌, ◌<◌, ◌≡◌, refl, sym, subst, ap, ◌∙◌, String, string_eq, true, false, Option, none,
  some, List, [], ◌∷◌, if◌then◌else◌, ◌==◌, is_some, arith,
}
use diffusers_dynamic_offloa.Dict.{get, remove, contains}
use diffusers_dynamic_offloa.Outcome.{
  Outcome, done, raise, runtime_error, left_by, continue, left_by-raise_if, Post, raise_if,
  or_raise-some, raise_if-false,
}
use diffusers_dynamic_offloa.ModelArena
use diffusers_dynamic_offloa.ModelArena.{Arena, Native}
use diffusers_dynamic_offloa.ModelArena.Counts.{
  held, leases_of, Counts, acquire-Counts, release-Counts,
}
use diffusers_dynamic_offloa.ExecutionGroups.{
  Groups, Cuda, is_taken, with_arena, on_arena, get_arena, mark_pending, upload, exit_lease,
  exit_leases, leases_in, leave, leave_pending,
}
use diffusers_dynamic_offloa.ExecutionGroups.Exclusion.{IsPaired}
use diffusers_dynamic_offloa.ExecutionGroups.Keeping.{Keeps}
use diffusers_dynamic_offloa.ExecutionGroups.Keeping.{Command, run, run_keeps}
use diffusers_dynamic_offloa.ExecutionGroups.Sequences.{IsPaired-Keeps, synchronize-works}
use diffusers_dynamic_offloa.ExecutionGroups.Balance.{
  IsBalanced, IsOwn, holds, one_if, remove-IsOwn, missing_kept, removed_count, removed_count_first,
  marked-IsBalanced, activate-IsBalanced,
}

-- No call on an event fails.
pub record IsWorking (cuda : Cuda) : Type 0 where
  pub records : (n : ℕ) → cuda.records n ≡ true
  pub waits : (n : ℕ) → cuda.waits n ≡ true
  pub synchronizes : (n : ℕ) → cuda.synchronizes n ≡ true

module _ (native : Native) (cuda : Cuda) (works : IsWorking cuda) where
  answered-IsBalanced :
      (name : String) (s : Groups) (h : IsBalanced s) (o : Outcome Arena String)
      → is_taken name s ≡ false
      → Post
          (λ lease arena. (lease ≡ name) × Counts name (held name h.arena + 1) h.arena arena)
          (λ _ arena. (arena.closed ≡ h.arena.closed) × (arena.groups ≡ h.arena.groups))
          o
      → IsBalanced (
          left_by (
            continue (on_arena o s) λ lease s3.
              continue
                (raise_if (if cuda.records s3.events then false else true) runtime_error s3)
                λ _ s4. done tt (mark_pending name lease s4)))
  unfolding on_arena
  answered-IsBalanced name s h (raise e arena) free (same_closed, same_groups) = record {
    arena = arena;
    has_arena = refl;
    opened = same_closed ∙ h.opened;
    counted = λ other. ap (λ g. leases_of (get other g)) same_groups ∙ h.counted other;
    own_pending = h.own_pending;
    own_active = h.own_active;
  }
  answered-IsBalanced name s h (done lease arena) free (same, counts) =
      subst (λ o. IsBalanced (left_by o))
        (sym (
          raise_if-false (if cuda.records s.events then false else true) runtime_error
            (with_arena arena s) _ (rw (works.records s.events) refl)))
        (marked-IsBalanced name lease s h arena free same counts)

  upload-IsBalanced :
      (name : String) (s : Groups)
      → is_taken name s ≡ false
      → IsBalanced s
      → IsBalanced (left_by (upload native cuda name s))
  unfolding upload get_arena
  upload-IsBalanced name s free h =
      left_by-raise_if IsBalanced (if s.resources then false else true) runtime_error s _ h λ _.
        subst (λ o. IsBalanced (left_by o))
          (sym (or_raise-some s.arena runtime_error s _ h.has_arena))
          (answered-IsBalanced name s h (ModelArena.acquire native name h.arena) free
            (acquire-Counts native name h.arena))

  -- The one lease of a group goes back to the arena.
  exited-IsBalanced :
      (name : String) (s t : Groups)
      → IsBalanced s
      → t.arena ≡ s.arena
      → IsOwn t.pending_leases
      → IsOwn t.active_leases
      → 0 < holds name s
      → ((other : String)
          → holds other t ≡ (if name == other then holds name s - 1 else holds other s))
      → IsBalanced (left_by (exit_leases native cuda (name ∷ []) t))
  unfolding exit_leases exit_lease get_arena on_arena
  exited-IsBalanced name s t h same_arena own_pending own_active leased fewer =
      subst (λ o. IsBalanced (left_by o))
        (sym (or_raise-some t.arena runtime_error t _ (same_arena ∙ h.has_arena)))
        (returned (ModelArena.release native name h.arena)
          (release-Counts native name h.arena h.opened (rw (h.counted name) leased)))
    where
      settled :
          (arena : Arena)
          → Counts name (held name h.arena - 1) h.arena arena
          → IsBalanced (with_arena arena t)
      settled arena counts = record {
        arena = arena;
        has_arena = refl;
        opened = counts.0 ∙ h.opened;
        counted =
            λ other. counts.1 other ∙ rw (h.counted name, h.counted other) refl ∙ sym (fewer other);
        own_pending = own_pending;
        own_active = own_active;
      }

      returned :
          (o : Outcome Arena (Unit {0}))
          → Counts name (held name h.arena - 1) h.arena (left_by o)
          → IsBalanced (left_by (on_arena o t))
      returned (done _ arena) counts = settled arena counts
      returned (raise e arena) counts = settled arena counts

  leave-IsBalanced :
      (name : String) (s : Groups) → IsBalanced s → IsBalanced (left_by (leave native cuda name s))
  unfolding leave exit_leases leases_in
  leave-IsBalanced name s h = from (get name s.active_leases) refl
    where
      t : Groups
      t = record s { active_leases = remove name s.active_leases }

      from :
          (o : Option (List String))
          → get name s.active_leases ≡ o
          → IsBalanced (left_by (exit_leases native cuda (leases_in o) t))
      from none e = record {
        arena = h.arena;
        has_arena = h.has_arena;
        opened = h.opened;
        counted = λ other.
            h.counted other
            ∙ ap (λ b. one_if (contains other s.pending_leases) + one_if b)
                (missing_kept name other s.active_leases (ap is_some e));
        own_pending = h.own_pending;
        own_active = remove-IsOwn name s.active_leases h.own_active;
      }
      from (some leases) e =
          subst (λ l. IsBalanced (left_by (exit_leases native cuda l t)))
            (sym (h.own_active name leases e))
            (exited-IsBalanced name s t h refl h.own_pending
              (remove-IsOwn name s.active_leases h.own_active) (rw (ap is_some e) (omega arith))
              (λ other. removed_count name other s.active_leases s.pending_leases (ap is_some e)))

  leave_pending-IsBalanced :
      (name : String) (s : Groups)
      → IsBalanced s
      → IsBalanced (left_by (leave_pending native cuda name s))
  unfolding leave_pending exit_leases leases_in
  leave_pending-IsBalanced name s h =
      subst
        (λ o. IsBalanced (
          left_by (
            continue o λ _ s1.
              exit_leases native cuda (leases_in (get name s1.pending_leases))
                (record s1 { pending_leases = remove name s1.pending_leases }))))
        (sym (
          synchronize-works cuda (get name s.pending_events)
            (record s { pending_events = remove name s.pending_events }) works.synchronizes))
        (from (get name s.pending_leases) refl)
    where
      t : Groups
      t = record s {
        pending_events = remove name s.pending_events;
        pending_leases = remove name s.pending_leases;
      }

      from :
          (o : Option (List String))
          → get name s.pending_leases ≡ o
          → IsBalanced (left_by (exit_leases native cuda (leases_in o) t))
      from none e = record {
        arena = h.arena;
        has_arena = h.has_arena;
        opened = h.opened;
        counted = λ other.
            h.counted other
            ∙ ap (λ b. one_if b + one_if (contains other s.active_leases))
                (missing_kept name other s.pending_leases (ap is_some e));
        own_pending = remove-IsOwn name s.pending_leases h.own_pending;
        own_active = h.own_active;
      }
      from (some leases) e =
          subst (λ l. IsBalanced (left_by (exit_leases native cuda l t)))
            (sym (h.own_pending name leases e))
            (exited-IsBalanced name s t h refl (remove-IsOwn name s.pending_leases h.own_pending)
              h.own_active (rw (ap is_some e) (omega arith))
              (λ other.
                removed_count_first name other s.pending_leases s.active_leases (ap is_some e)))

  pub IsBalanced-Keeps : Keeps native cuda (λ s. IsPaired s × IsBalanced s)
  IsBalanced-Keeps = record {
    futures_free = λ futures s h.
        (x.futures_free futures s h.0, moved (record s { futures = futures }) h.1 refl refl refl);
    detached_free = λ detached s h. (
      x.detached_free detached s h.0,
      moved (record s { detached = detached }) h.1 refl refl refl,
    );
    executor_free = λ s h. (
      x.executor_free s h.0,
      moved (record s { executor = false; detached = [] }) h.1 refl refl refl,
    );
    names_free = λ s h. (x.names_free s h.0, moved (record s { names = [] }) h.1 refl refl refl);
    upload_keeps =
        λ name s free h. (x.upload_keeps name s free h.0, upload-IsBalanced name s free h.1);
    activate_keeps = λ name s h.
        (x.activate_keeps name s h.0, activate-IsBalanced cuda name s works.waits h.0 h.1);
    leave_keeps = λ name s h. (x.leave_keeps name s h.0, leave-IsBalanced name s h.1);
    leave_pending_keeps =
        λ name s h. (x.leave_pending_keeps name s h.0, leave_pending-IsBalanced name s h.1);
  }
    where
      x : Keeps native cuda IsPaired
      x = IsPaired-Keeps native cuda works.waits works.synchronizes

      moved :
          {s : Groups} (t : Groups)
          → IsBalanced s
          → t.arena ≡ s.arena
          → t.pending_leases ≡ s.pending_leases
          → t.active_leases ≡ s.active_leases
          → IsBalanced t
      moved t h same_arena same_pending same_active = record {
        arena = h.arena;
        has_arena = same_arena ∙ h.has_arena;
        opened = h.opened;
        counted = λ name. rw (same_pending, same_active) (h.counted name);
        own_pending = rw same_pending h.own_pending;
        own_active = rw same_active h.own_active;
      }

  -- Where every event is recorded, waited for and synchronized with: after any sequence of uploads,
  -- submissions, steps of the worker, entries, exits and clearings, whichever of them raise, from a state in
  -- step whose groups are not pending and active at once and have events exactly where they are pending, the
  -- arena is still open and counts for each group as many leases as the runtime holds,
  -- one if it is pending and one if it is active.
  pub run-IsBalanced :
      (commands : List Command) (s : Groups)
      → IsPaired s
      → IsBalanced s
      → IsBalanced (run native cuda commands s)
  run-IsBalanced commands s x h =
      (run_keeps native cuda (λ t. IsPaired t × IsBalanced t) IsBalanced-Keeps commands s (x, h)).1
