-- ===== src/ExecutionGroups/Sequences.antt =====
-- The calls on execution groups, one after another in any order, keep the groups apart.
use diffusers_dynamic_offloa.Prelude.{
  ℕ, ◌≡◌, refl, sym, subst, Option, none, some, String, string_eq, Bool, true, false, List, [], ◌∷◌,
  if◌then◌else◌,
}
use diffusers_dynamic_offloa.Dict.{get, remove}
use diffusers_dynamic_offloa.Outcome.{
  Exec, done, continue, runtime_error, left_by, left_by-continue, left_by-raise_if,
  left_by-or_raise,
}
use diffusers_dynamic_offloa.ModelArena
use diffusers_dynamic_offloa.ModelArena.{Native}
use diffusers_dynamic_offloa.ExecutionGroups.{
  Groups, Cuda, synchronize_with, is_taken, get_arena, upload, exit_lease, exit_leases, leases_in,
  leave, leave_pending,
}
use diffusers_dynamic_offloa.ExecutionGroups.Keeping.{Command, Keeps, run, run_keeps, after}
use diffusers_dynamic_offloa.ExecutionGroups.Exclusion.{
  IsApart, IsExclusive, IsPaired, if_pending, both_or_none, on_arena-IsApart, activate-IsExclusive,
  activate-IsPaired, answered-IsApart, left-IsApart, left_pending-IsApart, unmarked-IsExclusive,
}

module _ (related : Bool → Bool → Bool) (both : related true true ≡ true) (native : Native)
    (cuda : Cuda) where
  pub upload-IsApart :
      (name : String) (s : Groups)
      → is_taken name s ≡ false
      → IsApart related s
      → IsApart related (left_by (upload native cuda name s))
  unfolding upload get_arena
  upload-IsApart name s free h =
      left_by-raise_if (IsApart related) (if s.resources then false else true) runtime_error s _ h
        λ _. left_by-or_raise (IsApart related) s.arena runtime_error s _ h λ arena found.
          answered-IsApart related both cuda name s (ModelArena.acquire native name arena) free h

  exit_lease-IsApart :
      (lease : String) (s : Groups)
      → IsApart related s
      → IsApart related (left_by (exit_lease native cuda lease s))
  unfolding exit_lease get_arena
  exit_lease-IsApart lease s h =
      left_by-or_raise (IsApart related) s.arena runtime_error s _ h
        λ arena found. on_arena-IsApart related (ModelArena.release native lease arena) s h

  pub exit_leases-IsApart :
      (leases : List String) (s : Groups)
      → IsApart related s
      → IsApart related (left_by (exit_leases native cuda leases s))
  unfolding exit_leases
  exit_leases-IsApart [] s h = h
  exit_leases-IsApart (lease ∷ leases) s h =
      let ih = exit_leases-IsApart leases s h in
      left_by-continue (IsApart related) (exit_leases native cuda leases s) _ ih
        λ _ s1 e. exit_lease-IsApart lease s1 (after (IsApart related) ih e)

  pub leave-IsApart :
      (name : String) (s : Groups)
      → IsApart related s
      → IsApart related (left_by (leave native cuda name s))
  unfolding leave
  leave-IsApart name s h =
      exit_leases-IsApart (leases_in (get name s.active_leases)) _ (left-IsApart related name s h)

synchronize-known :
    (cuda : Cuda) (P : Groups → Type 0) (o : Option ℕ) (s : Groups)
    (f : Unit {0} → Exec Groups (Unit {0}))
    → P s
    → P (left_by (f tt s))
    → P (left_by (continue (synchronize_with cuda o s) f))
unfolding synchronize_with
synchronize-known cuda P none s f h k = k
synchronize-known cuda P (some event) s f h k =
    left_by-raise_if P (if cuda.synchronizes event then false else true) runtime_error s f h λ _. k

-- Where the events can be synchronized with, the test passes.
pub synchronize-works :
    (cuda : Cuda) (o : Option ℕ) (s : Groups)
    → ((n : ℕ) → cuda.synchronizes n ≡ true)
    → synchronize_with cuda o s ≡ done tt s
unfolding synchronize_with
synchronize-works cuda none s works = refl
synchronize-works cuda (some event) s works = rw (works event) refl

module _ (native : Native) (cuda : Cuda) where
  leave_pending-IsExclusive :
      (name : String) (s : Groups)
      → IsExclusive s
      → IsExclusive (left_by (leave_pending native cuda name s))
  unfolding leave_pending
  leave_pending-IsExclusive name s h =
      synchronize-known cuda IsExclusive (get name s.pending_events)
        (record s { pending_events = remove name s.pending_events }) _
        (unmarked-IsExclusive name s h)
        (exit_leases-IsApart if_pending refl native cuda (leases_in (get name s.pending_leases)) _
          (left_pending-IsApart if_pending refl name s h))

  pub leave_pending-IsPaired :
      (name : String) (s : Groups)
      → ((n : ℕ) → cuda.synchronizes n ≡ true)
      → IsPaired s
      → IsPaired (left_by (leave_pending native cuda name s))
  unfolding leave_pending
  leave_pending-IsPaired name s works h =
      subst
        (λ o. IsPaired (
          left_by (
            continue o λ _ s1.
              exit_leases native cuda (leases_in (get name s1.pending_leases))
                (record s1 { pending_leases = remove name s1.pending_leases }))))
        (sym (
          synchronize-works cuda (get name s.pending_events)
            (record s { pending_events = remove name s.pending_events }) works))
        (exit_leases-IsApart both_or_none refl native cuda (leases_in (get name s.pending_leases)) _
          (left_pending-IsApart both_or_none refl name s h))

  pub IsExclusive-Keeps : Keeps native cuda IsExclusive
  unfolding IsApart
  IsExclusive-Keeps = record {
    futures_free = λ futures s h. h;
    detached_free = λ detached s h. h;
    executor_free = λ s h. h;
    names_free = λ s h. h;
    upload_keeps = upload-IsApart if_pending refl native cuda;
    activate_keeps = activate-IsExclusive cuda;
    leave_keeps = leave-IsApart if_pending refl native cuda;
    leave_pending_keeps = leave_pending-IsExclusive;
  }

  -- Where every event is waited for and synchronized with, the pending groups keep their events.
  pub IsPaired-Keeps :
      ((n : ℕ) → cuda.waits n ≡ true)
      → ((n : ℕ) → cuda.synchronizes n ≡ true)
      → Keeps native cuda IsPaired
  unfolding IsApart
  IsPaired-Keeps waits synchronizes = record {
    futures_free = λ futures s h. h;
    detached_free = λ detached s h. h;
    executor_free = λ s h. h;
    names_free = λ s h. h;
    upload_keeps = upload-IsApart both_or_none refl native cuda;
    activate_keeps = λ name s. activate-IsPaired cuda name s waits;
    leave_keeps = leave-IsApart both_or_none refl native cuda;
    leave_pending_keeps = λ name s. leave_pending-IsPaired name s synchronizes;
  }

  -- After any sequence of uploads, submissions, steps of the worker, entries, exits and clearings, whichever
  -- of them and of the calls on events raise, from a state where no group is pending and active at once and
  -- only pending groups have events: no group is pending and active at once, and only pending groups have
  -- events.
  pub run-IsExclusive :
      (commands : List Command) (s : Groups)
      → IsExclusive s
      → IsExclusive (run native cuda commands s)
  run-IsExclusive = run_keeps native cuda IsExclusive IsExclusive-Keeps
