-- ===== src/ExecutionGroups/Draining.antt =====
-- Where `clear` returns, every lease has gone back to the arena.
use diffusers_dynamic_offloa.Prelude.{
  ◌≡◌, refl, sym, subst, ap, ◌∙◌, String, string_eq, false, ◌&&◌, not, some, List, [], ◌∷◌, arith,
}
use diffusers_dynamic_offloa.Dict.{Dict, get, remove, contains}
use diffusers_dynamic_offloa.Outcome.{
  Outcome, Exec, done, raise, runtime_error, left_by, continue, left_by-continue, left_by-or_raise,
  Post, Post-continue, Post-weaken,
}
use diffusers_dynamic_offloa.ModelArena
use diffusers_dynamic_offloa.ModelArena.{Arena, Native}
use diffusers_dynamic_offloa.ModelArena.Counts.{held}
use diffusers_dynamic_offloa.ExecutionGroups.{
  Groups, Cuda, on_arena, get_arena, exit_lease, exit_leases, leases_in, leave, leave_pending,
  leave_each, stop_executor, clear,
}
use diffusers_dynamic_offloa.ExecutionGroups.Exclusion.{IsPaired, contains-remove}
use diffusers_dynamic_offloa.ExecutionGroups.Keeping.{after, clear_keeps}
use diffusers_dynamic_offloa.ExecutionGroups.Balance.{IsBalanced}
use diffusers_dynamic_offloa.ExecutionGroups.Returns.{IsWorking, IsBalanced-Keeps}
use diffusers_dynamic_offloa.ExecutionGroups.Sequences.{synchronize-works}

abbrev Leases : Type 0
Leases = Dict String (List String)

-- The dict without the keys of some entries.
abbrev drop_keys : List (String × List String) → Leases → Leases
drop_keys [] d = d
drop_keys ((name, leases) ∷ entries) d = drop_keys entries (remove name d)

contains-drop_keys :
    (name : String) (entries : List (String × List String)) (d : Leases)
    → contains name (drop_keys entries d) ≡ contains name d && not (contains name entries)
unfolding get
contains-drop_keys name [] d = ground arith
contains-drop_keys name ((key, leases) ∷ entries) d =
    contains-drop_keys name entries (remove key d) ∙ ground (arith, contains-remove key name d)

drained : (name : String) (d : Leases) → contains name (drop_keys d d) ≡ false
drained name d = contains-drop_keys name d d ∙ ground arith

abbrev Kept : Leases → Leases → Groups → Type 0
Kept pending active s = (s.pending_leases ≡ pending) × (s.active_leases ≡ active)

on_arena-Kept :
    {A : Type 0} (pending active : Leases) (o : Outcome Arena A) (s : Groups)
    → Kept pending active s
    → Kept pending active (left_by (on_arena o s))
unfolding on_arena
on_arena-Kept pending active (done a arena) s h = h
on_arena-Kept pending active (raise e arena) s h = h

-- Leaving the groups of some entries takes their keys out of one dict and leaves the other.
module _ (moving fixed : Groups → Leases) (leave_one : String → Exec Groups (Unit {0}))
    (leaves : (name : String) (s : Groups)
      → (moving (left_by (leave_one name s)) ≡ remove name (moving s))
        × (fixed (left_by (leave_one name s)) ≡ fixed s)) where
  abbrev Drops : List (String × List String) → Groups → Groups → Type 0
  Drops entries s t = (moving t ≡ drop_keys entries (moving s)) × (fixed t ≡ fixed s)

  leave_each-Drops :
      (entries : List (String × List String)) (s : Groups)
      → Post (λ _. Drops entries s) (λ _ t. Unit {0}) (leave_each leave_one entries s)
  unfolding leave_each
  leave_each-Drops [] s = (refl, refl)
  leave_each-Drops ((name, leases) ∷ entries) s =
      from (λ t. leave_each-Drops entries t) (leave_one name s) (leaves name s)
    where
      from :
          ((t : Groups)
            → Post (λ _. Drops entries t) (λ _ u. Unit {0}) (leave_each leave_one entries t))
          → (o : Outcome Groups (Unit {0}))
          → (moving (left_by o) ≡ remove name (moving s)) × (fixed (left_by o) ≡ fixed s)
          → Post
              (λ _. Drops ((name, leases) ∷ entries) s)
              (λ _ t. Unit {0})
              (continue o λ _ t. leave_each leave_one entries t)
      from rest (raise e t) h = tt
      from rest (done _ t) h =
          Post-weaken (λ _. Drops entries t) (λ _. Drops ((name, leases) ∷ entries) s)
            (λ _ u. Unit {0}) (λ _ u. Unit {0}) (leave_each leave_one entries t) (rest t)
            (λ _ u k. (k.0 ∙ ap (drop_keys entries) h.0, k.1 ∙ h.1)) (λ e u k. tt)

IsEmpty : Groups → Type 0
IsEmpty t =
    (name : String)
    → (contains name t.pending_leases ≡ false) × (contains name t.active_leases ≡ false)

module _ (native : Native) (cuda : Cuda) where
  exit_leases-Kept :
      (pending active : Leases) (leases : List String) (s : Groups)
      → Kept pending active s
      → Kept pending active (left_by (exit_leases native cuda leases s))
  unfolding exit_leases exit_lease get_arena
  exit_leases-Kept pending active [] s h = h
  exit_leases-Kept pending active (lease ∷ leases) s h =
      let ih = exit_leases-Kept pending active leases s h in
      left_by-continue (Kept pending active) (exit_leases native cuda leases s) _ ih λ _ s1 e.
        left_by-or_raise (Kept pending active) s1.arena runtime_error s1 _
          (after (Kept pending active) ih e)
          λ arena found.
            on_arena-Kept pending active (ModelArena.release native lease arena) s1
              (after (Kept pending active) ih e)

  leave-Kept :
      (name : String) (s : Groups)
      → Kept s.pending_leases (remove name s.active_leases) (left_by (leave native cuda name s))
  unfolding leave
  leave-Kept name s = exit_leases-Kept _ _ (leases_in (get name s.active_leases)) _ (refl, refl)

  leave_pending-Kept :
      (name : String) (s : Groups)
      → IsWorking cuda
      → Kept
          (remove name s.pending_leases)
          s.active_leases
          (left_by (leave_pending native cuda name s))
  unfolding leave_pending
  leave_pending-Kept name s works =
      subst
        (λ o. Kept (remove name s.pending_leases) s.active_leases (
          left_by (
            continue o λ _ s1.
              exit_leases native cuda (leases_in (get name s1.pending_leases))
                (record s1 { pending_leases = remove name s1.pending_leases }))))
        (sym (
          synchronize-works cuda (get name s.pending_events)
            (record s { pending_events = remove name s.pending_events }) works.synchronizes))
        (exit_leases-Kept _ _ (leases_in (get name s.pending_leases)) _ (refl, refl))

  clear-IsEmpty :
      (s : Groups) → IsWorking cuda → Post (λ _. IsEmpty) (λ _ t. Unit {0}) (clear native cuda s)
  unfolding clear IsEmpty
  clear-IsEmpty s works =
      Post-continue (λ _ t. Unit {0}) (λ _. IsEmpty) (λ _ t. Unit {0}) (stop_executor native cuda s)
        _ (any_end (stop_executor native cuda s))
        λ _ s1 _.
          Post-continue (λ _. Drops active pending (leave native cuda) leaves s1.active_leases s1)
            (λ _. IsEmpty) (λ _ t. Unit {0}) (leave_each (leave native cuda) s1.active_leases s1) _
            (leave_each-Drops active pending (leave native cuda) leaves s1.active_leases s1)
            λ _ s2 h2.
              Post-continue
                (λ _.
                  Drops pending active (leave_pending native cuda) leaves_pending s2.pending_leases
                    s2)
                (λ _. IsEmpty) (λ _ t. Unit {0})
                (leave_each (leave_pending native cuda) s2.pending_leases s2) _
                (leave_each-Drops pending active (leave_pending native cuda) leaves_pending
                  s2.pending_leases s2)
                λ _ s3 h3 name. (
                  ap (contains name) h3.0 ∙ drained name s2.pending_leases,
                  ap (contains name) (h3.1 ∙ h2.0) ∙ drained name s1.active_leases,
                )
    where
      active : Groups → Leases
      active t = t.active_leases

      pending : Groups → Leases
      pending t = t.pending_leases

      leaves :
          (name : String) (t : Groups)
          → ((left_by (leave native cuda name t)).active_leases ≡ remove name t.active_leases)
            × ((left_by (leave native cuda name t)).pending_leases ≡ t.pending_leases)
      leaves name t = let k = leave-Kept name t in (k.1, k.0)

      leaves_pending :
          (name : String) (t : Groups)
          → ((left_by (leave_pending native cuda name t)).pending_leases
              ≡ remove name t.pending_leases)
            × ((left_by (leave_pending native cuda name t)).active_leases ≡ t.active_leases)
      leaves_pending name t = leave_pending-Kept name t works

      any_end : {A : Type 0} (o : Outcome Groups A) → Post (λ _ t. Unit {0}) (λ _ t. Unit {0}) o
      any_end (done a t) = tt
      any_end (raise e t) = tt

-- Where every event is recorded, waited for and synchronized with, and from a state in step whose groups are
-- not pending and active at once and have events exactly where they are pending: where `clear` returns, the arena is open and no group of it is leased, so that nothing stands in the
-- way of its closing; where it raises, the arena still counts what the runtime holds.
pub clear-held :
    (native : Native) (cuda : Cuda)
    → IsWorking cuda
    → (s : Groups) → IsPaired s
    → IsBalanced s
    → Post
        (λ _ t.
          (arena : Arena) × (t.arena ≡ some arena)
          × (arena.closed ≡ false)
          × ((name : String) → held name arena ≡ 0))
        (λ _ t. IsPaired t × IsBalanced t)
        (clear native cuda s)
unfolding IsEmpty
clear-held native cuda works s x h =
    from (clear native cuda s) kept (clear-IsEmpty native cuda s works)
  where
    P : Groups → Type 0
    P t = IsPaired t × IsBalanced t

    kept : P (left_by (clear native cuda s))
    kept = clear_keeps native cuda P (IsBalanced-Keeps native cuda works) s (x, h)

    from :
        (o : Outcome Groups (Unit {0}))
        → P (left_by o)
        → Post (λ _. IsEmpty) (λ _ t. Unit {0}) o
        → Post
            (λ _ t.
              (arena : Arena) × (t.arena ≡ some arena)
              × (arena.closed ≡ false)
              × ((name : String) → held name arena ≡ 0))
            (λ _ t. P t)
            o
    from (raise e t) k empty = k
    from (done _ t) k empty =
        let b = k.1 in
        (
          b.arena,
          b.has_arena,
          b.opened,
          λ name. b.counted name ∙ rw ((empty name).0, (empty name).1) refl,
        )
