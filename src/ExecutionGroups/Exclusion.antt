-- ===== src/ExecutionGroups/Exclusion.antt =====
-- A group is never pending and active at once, and its event is there only with its lease.
use diffusers_dynamic_offloa.Prelude.{
  ℕ, Bool, ◌≡◌, refl, sym, ap, ◌∙◌, String, string_eq, true, false, ◌&&◌, ◌||◌, List, [], ◌∷◌,
  if◌then◌else◌, ◌==◌, ==_iff, is_some, arith, not, subst, Bool-cases, inl, inr,
}
use diffusers_dynamic_offloa.Dict.{Dict, get, put, remove, contains, get-put, get-remove}
use diffusers_dynamic_offloa.Outcome.{
  key_error, runtime_error, Outcome, done, raise, left_by, raise_if, continue, left_by-raise_if,
  left_by-or_raise, left_by-or_raise-cases, or_raise-there,
}
use diffusers_dynamic_offloa.ModelArena.{Arena}
use diffusers_dynamic_offloa.ExecutionGroups.{
  Groups, Cuda, is_taken, with_arena, on_arena, mark_pending, activate,
}

-- No group is pending and active at once, and of each its event and its pending lease are related.
unfoldable pub IsApart : (Bool → Bool → Bool) → Groups → Type 0
IsApart related s =
    (name : String)
    → (related (contains name s.pending_events) (contains name s.pending_leases) ≡ true)
      × (contains name s.pending_leases && contains name s.active_leases ≡ false)

-- Only a pending group has an event.
abbrev pub if_pending : Bool → Bool → Bool
if_pending event lease = not event || lease

abbrev pub IsExclusive : Groups → Type 0
IsExclusive = IsApart if_pending

-- The pending groups, and no others, have their events.
abbrev pub both_or_none : Bool → Bool → Bool
both_or_none event lease = if event then lease else not lease

abbrev pub IsPaired : Groups → Type 0
IsPaired = IsApart both_or_none

pub contains-put :
    {V : Type 0} (k j : String) (v : V) (d : Dict String V)
    → contains j (put k v d) ≡ (k == j) || contains j d
contains-put k j v d = elim (Bool-cases (k == j)) [
  | inl same ↦ rw (get-put k j v d, same) refl
  | inr other ↦ rw (get-put k j v d, other) refl
]

pub contains-remove :
    {V : Type 0} (k j : String) (d : Dict String V)
    → contains j (remove k d) ≡ (if k == j then false else contains j d)
contains-remove k j d = elim (Bool-cases (k == j)) [
  | inl same ↦ rw (get-remove k j d, same) refl
  | inr other ↦ rw (get-remove k j d, other) refl
]

pub event_of :
    (name : String) (s : Groups)
    → IsPaired s
    → contains name s.pending_leases ≡ true
    → contains name s.pending_events ≡ true
unfolding IsApart
event_of name s h found = let pair = (h name).0 in ground arith

-- A call of the arena's moves no group.
pub on_arena-IsApart :
    (related : Bool → Bool → Bool) {A : Type 0} (o : Outcome Arena A) (s : Groups)
    → IsApart related s
    → IsApart related (left_by (on_arena o s))
unfolding on_arena IsApart
on_arena-IsApart related (done a arena) s h = h
on_arena-IsApart related (raise e arena) s h = h

mark_pending-IsApart :
    (related : Bool → Bool → Bool) (both : related true true ≡ true) (name lease : String)
    (s : Groups)
    → is_taken name s ≡ false
    → IsApart related s
    → IsApart related (mark_pending name lease s)
unfolding mark_pending IsApart
mark_pending-IsApart related both name lease s free h j =
    rw
      (
        contains-put name j s.events s.pending_events,
        contains-put name j (lease ∷ []) s.pending_leases,
      )
      (elim (Bool-cases (name == j)) [
        | inl same ↦ rw same (both, ap (λ n. contains n s.active_leases) (sym (at same)) ∙ idle)
        | inr other ↦ rw other (h j)
      ])
  where
    at : (name == j) ≡ true → name ≡ j
    at same = (==_iff name j).0 same

    idle : contains name s.active_leases ≡ false
    idle = ground arith

activated-IsApart :
    (related : Bool → Bool → Bool) (neither : related false false ≡ true) (name : String)
    (leases : List String) (s : Groups)
    → IsApart related s
    → IsApart related (record s {
      pending_leases = remove name s.pending_leases;
      pending_events = remove name s.pending_events;
      active_leases = put name leases s.active_leases;
    })
unfolding IsApart
activated-IsApart related neither name leases s h j =
    rw
      (
        contains-remove name j s.pending_events,
        contains-remove name j s.pending_leases,
        contains-put name j leases s.active_leases,
      )
      (elim (Bool-cases (name == j)) [
        | inl same ↦ rw same (neither, refl)
        | inr other ↦ rw other (h j)
      ])

pub left-IsApart :
    (related : Bool → Bool → Bool) (name : String) (s : Groups)
    → IsApart related s
    → IsApart related (record s { active_leases = remove name s.active_leases })
unfolding IsApart
left-IsApart related name s h j =
    rw (contains-remove name j s.active_leases) (elim (Bool-cases (name == j)) [
      | inl found ↦ rw found ((h j).0, idle (contains j s.pending_leases))
      | inr other ↦ rw other (h j)
    ])
  where
    idle : (b : Bool) → b && false ≡ false
    idle true = refl
    idle false = refl

pub left_pending-IsApart :
    (related : Bool → Bool → Bool) (neither : related false false ≡ true) (name : String)
    (s : Groups)
    → IsApart related s
    → IsApart related (record s {
      pending_events = remove name s.pending_events;
      pending_leases = remove name s.pending_leases;
    })
unfolding IsApart
left_pending-IsApart related neither name s h j =
    rw (contains-remove name j s.pending_leases, contains-remove name j s.pending_events)
      (elim (Bool-cases (name == j)) [
        | inl found ↦ rw found (neither, refl)
        | inr other ↦ rw other (h j)
      ])

pub unmarked-IsExclusive :
    (name : String) (s : Groups)
    → IsExclusive s
    → IsExclusive (record s { pending_events = remove name s.pending_events })
unfolding IsApart
unmarked-IsExclusive name s h j =
    rw (contains-remove name j s.pending_events) (elim (Bool-cases (name == j)) [
      | inl same ↦ rw same (refl, (h j).1)
      | inr other ↦ rw other (h j)
    ])

-- A lease that has no event may go.
lost-IsExclusive :
    (name : String) (s : Groups)
    → contains name s.pending_events ≡ false
    → IsExclusive s
    → IsExclusive (record s { pending_leases = remove name s.pending_leases })
unfolding IsApart
lost-IsExclusive name s missing h j =
    rw (contains-remove name j s.pending_leases) (elim (Bool-cases (name == j)) [
      | inl same ↦ rw same (
        subst (λ n. not (contains n s.pending_events) || false ≡ true) ((==_iff name j).0 same)
            (rw missing refl),
        refl,
      )
      | inr other ↦ rw other (h j)
    ])

pub activate-IsExclusive :
    (cuda : Cuda) (name : String) (s : Groups)
    → IsExclusive s
    → IsExclusive (left_by (activate cuda name s))
unfolding activate
activate-IsExclusive cuda name s h =
    left_by-raise_if IsExclusive (contains name s.active_leases) runtime_error s _ h λ _.
      left_by-or_raise IsExclusive (get name s.pending_leases) key_error s _ h λ leases found.
        left_by-or_raise-cases IsExclusive (get name s.pending_events) key_error
          (record s { pending_leases = remove name s.pending_leases }) _
          (λ missing. lost-IsExclusive name s (ap is_some missing) h)
          λ event _.
            left_by-raise_if IsExclusive (if cuda.waits event then false else true) runtime_error
              (record s {
                pending_leases = remove name s.pending_leases;
                pending_events = remove name s.pending_events;
              })
              _ (left_pending-IsApart if_pending refl name s h)
              λ _. activated-IsApart if_pending refl name leases s h

-- Where the events are waited for, activation keeps them with their leases.
pub activate-IsPaired :
    (cuda : Cuda) (name : String) (s : Groups)
    → ((n : ℕ) → cuda.waits n ≡ true)
    → IsPaired s
    → IsPaired (left_by (activate cuda name s))
unfolding activate
activate-IsPaired cuda name s waits h =
    left_by-raise_if IsPaired (contains name s.active_leases) runtime_error s _ h λ _.
      left_by-or_raise IsPaired (get name s.pending_leases) key_error s _ h λ leases found.
        or_raise-there IsPaired (get name s.pending_events) key_error
          (record s { pending_leases = remove name s.pending_leases }) _
          (event_of name s h (ap is_some found))
          λ event.
            left_by-raise_if IsPaired (if cuda.waits event then false else true) runtime_error
              (record s {
                pending_leases = remove name s.pending_leases;
                pending_events = remove name s.pending_events;
              })
              _ (left_pending-IsApart both_or_none refl name s h)
              λ _. activated-IsApart both_or_none refl name leases s h

-- After the arena has answered, the group is pending if its event was recorded.
pub answered-IsApart :
    (related : Bool → Bool → Bool) (both : related true true ≡ true) (cuda : Cuda) (name : String)
    (s : Groups) (o : Outcome Arena String)
    → is_taken name s ≡ false
    → IsApart related s
    → IsApart related (
        left_by (
          continue (on_arena o s) λ lease s3.
            continue
              (raise_if (if cuda.records s3.events then false else true) runtime_error s3)
              λ _ s4. done tt (mark_pending name lease s4)))
unfolding on_arena IsApart
answered-IsApart related both cuda name s (raise e arena) free h = h
answered-IsApart related both cuda name s (done lease arena) free h =
    left_by-raise_if (IsApart related) (if cuda.records s.events then false else true) runtime_error
      (with_arena arena s) _ h
      λ _. mark_pending-IsApart related both name lease (with_arena arena s) free h
