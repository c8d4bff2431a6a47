-- ===== src/WeightStore/Eviction.antt =====
-- `evict`, `_unmap` and `_ensure_capacity` of `VmmWeightStore`.
use diffusers_dynamic_offloa.Prelude.{
  ℕ, ◌≡◌, refl, ◌∙◌, sym, subst, Option, String, string_eq, true, false, some, none, arith, eqb,
  List, [], ◌∷◌, Option-cases, Bool-cases, ==_iff, inl, inr, All, map, keep,
}
use diffusers_dynamic_offloa.Sorting.{sorted-All}
use diffusers_dynamic_offloa.Dict.{get, put, get-put, entries-get}
use diffusers_dynamic_offloa.Outcome.{Exec, left_by, continue, or_raise, left_by-continue}
use diffusers_dynamic_offloa.CudaDriver.{Driver, Call}
use diffusers_dynamic_offloa.WeightStore.{
  Store, Slot, fetch, save, call, unmap, evict_mapped, evict_slot, evict, candidates, evictable,
  sync_event,
}
use diffusers_dynamic_offloa.WeightStore.Invariant.{
  IsConsistent, SlotOk, save-IsConsistent, unmapped-IsConsistent, traced-IsConsistent,
}

-- Slots that are leased or hold no memory are as they were.
pub record Kept (s t : Store) : Type 0 where
  pub same_max : t.max_resident_bytes ≡ s.max_resident_bytes
  pub kept :
      (k : String) (slot : Slot)
      → get k s.slots ≡ some slot
      → evictable slot ≡ false
      → get k t.slots ≡ some slot

pub Kept-refl : (s : Store) → Kept s s
Kept-refl s = record { same_max = refl; kept = λ k slot e h. e }

pub Kept-trans : {s t u : Store} → Kept s t → Kept t u → Kept s u
Kept-trans a b = record {
  same_max = b.same_max ∙ a.same_max;
  kept = λ k slot e h. b.kept k slot (a.kept k slot e h) h;
}

-- A change to a slot that may be evicted, and to nothing else.
Kept-put :
    (s t : Store) (key : String) (old slot : Slot)
    → get key s.slots ≡ some old
    → evictable old ≡ true
    → t.max_resident_bytes ≡ s.max_resident_bytes
    → t.slots ≡ put key slot s.slots
    → Kept s t
Kept-put s t key old slot found idle max e = record {
  same_max = max;
  kept = λ k x h busy. rw e (ground (arith, get-put key k slot s.slots, ==_iff key k));
}

put_self : (s : Store) (key : String) (slot : Slot) → get key (put key slot s.slots) ≡ some slot
put_self s key slot = ground (arith, get-put key key slot s.slots, ==_iff key key)

abbrev pub Good : Store → Store → Type 0
Good s t = IsConsistent t × Kept s t

traced-Good : (s t : Store) (trace : List Call) → Good s t → Good s (record t { trace = trace })
traced-Good s t trace (v, k) =
    (traced-IsConsistent t trace v, record { same_max = k.same_max; kept = k.kept })

module _ (driver : Driver) where
  -- A call to the driver changes the trace alone, whatever it answers.
  pub call-then :
      {B : Type 0} (P : Store → Type 0) (c : Call) (s : Store) (f : ℕ → Exec Store B)
      → P (record s { trace = c ∷ s.trace })
      → ((n : ℕ) → P (left_by (f n (record s { trace = c ∷ s.trace }))))
      → P (left_by (continue (call driver c s) f))
  unfolding call
  call-then P c s f h k = elim (Bool-cases (driver.succeeds s.trace c)) [
    | inl e ↦ rw e (k _)
    | inr e ↦ rw e h
  ]

  unmap-Good :
      (s : Store) (key : String) (slot : Slot) (handle : ℕ)
      → IsConsistent s
      → get key s.slots ≡ some slot
      → slot.handle ≡ some handle
      → slot.active_leases ≡ 0
      → Good s (left_by (unmap driver key slot handle s))
  unfolding unmap
  unmap-Good s key slot handle v found mapped idle =
      call-then (Good s) _ _ _ (traced-Good s _ _ half) λ n.
        call-then (Good s) _ _ _ (traced-Good s _ _ half) λ m. (
          unmapped-IsConsistent _ key hidden (traced-IsConsistent _ _ half.0)
              (put_self s key hidden) (ground arith) idle,
          record {
            same_max = refl;
            kept = λ k x h busy. ground (
              arith,
              get-put key k hidden s.slots,
              get-put key k cleared (put key hidden s.slots),
              ==_iff key k,
            );
          },
        )
    where
      hidden : Slot
      hidden = record slot { storage = false }

      cleared : Slot
      cleared = record slot { storage = false; handle = none; last_event = none }

      half : Good s (save key hidden s)
      half = (
        save-IsConsistent s key slot hidden v found refl refl (record {
          keyed = (v.slot_ok key slot found).keyed;
          leased = λ h. absurd (omega arith);
          viewed = λ h. cc;
        }),
        Kept-put s _ key slot hidden found (ground arith) refl refl,
      )

  sync-then :
      {B : Type 0} (P : Store → Type 0) (event : Option ℕ) (s : Store) (f : ℕ → Exec Store B)
      → P s
      → ((trace : List Call) → P (record s { trace = trace }))
      → ((n : ℕ) (trace : List Call) → P (left_by (f n (record s { trace = trace }))))
      → P (left_by (continue (sync_event driver event s) f))
  sync-then P none s f h t k = k 0 s.trace
  sync-then P (some event) s f h t k = call-then P _ s f (t _) (λ n. k n _)

  evict_mapped-Good :
      (s : Store) (key : String) (slot : Slot) (handle : ℕ)
      → IsConsistent s
      → get key s.slots ≡ some slot
      → slot.handle ≡ some handle
      → slot.active_leases ≡ 0
      → Good s (left_by (evict_mapped driver key slot handle s))
  unfolding evict_mapped
  evict_mapped-Good s key slot handle v found mapped idle =
      sync-then (Good s) slot.last_event s _ (v, Kept-refl s)
        (λ t. traced-Good s s t (v, Kept-refl s))
        λ n t.
          let sub =
            unmap-Good (record s { trace = t }) key slot handle (traced-IsConsistent s t v) found
              mapped idle in
          let sub' : Good s (left_by (unmap driver key slot handle (record s { trace = t }))) =
            (sub.0, record { same_max = sub.1.same_max; kept = sub.1.kept }) in
          left_by-continue (Good s) (unmap driver key slot handle (record s { trace = t })) _ sub'
            (λ u s' e. rw e at sub')

  evict_slot-Good :
      (s : Store) (key : String) (slot : Slot) (handle : Option ℕ)
      → IsConsistent s
      → get key s.slots ≡ some slot
      → slot.handle ≡ handle
      → Good s (left_by (evict_slot driver key slot handle s))
  unfolding evict_slot
  evict_slot-Good s key slot none v found e = (v, Kept-refl s)
  evict_slot-Good s key slot (some handle) v found e =
      elim (Bool-cases (eqb slot.active_leases 0)) [
        | inl idle ↦ rw idle (evict_mapped-Good s key slot handle v found e (ground arith))
        | inr busy ↦ rw busy (v, Kept-refl s)
      ]

  pub fetch-then :
      {B : Type 0} (P : Store → Type 0) (key : String) (s : Store) (f : Slot → Exec Store B)
      → P s
      → ((slot : Slot) → get key s.slots ≡ some slot → P (left_by (f slot s)))
      → P (left_by (continue (fetch key s) f))
  unfolding fetch
  fetch-then P key s f h k = elim (Option-cases (get key s.slots)) [
    | inl e ↦ rw (e, or_raise) h
    | inr (slot, e) ↦ rw (e, or_raise) (k slot e)
  ]

  -- Whatever the driver answers, eviction of any key, in a consistent store, leaves the store consistent,
  -- whether it returns or raises, and every slot that is leased or holds no memory as it was.
  pub evict-Good :
      (s : Store) (key : String) → IsConsistent s → Good s (left_by (evict driver key s))
  unfolding evict
  evict-Good s key v =
      fetch-then (Good s) key s _ (v, Kept-refl s)
        λ slot e. evict_slot-Good s key slot slot.handle v e refl

-- The slots that `_ensure_capacity` chooses from are in the store, and may be evicted.
abbrev pub Candidate : Store → Slot → Type 0
Candidate s slot = (get slot.key s.slots ≡ some slot) × (evictable slot ≡ true)

keep-Candidate :
    (s : Store) (entries : List (String × Slot))
    → ((k : String) (slot : Slot) → get k s.slots ≡ some slot → SlotOk k slot)
    → All (λ entry. get entry.0 s.slots ≡ some entry.1) entries
    → All (Candidate s) (keep evictable (map (λ entry. entry.1) entries))
keep-Candidate s [] ok found = tt
keep-Candidate s ((k, slot) ∷ entries) ok found =
    let rest = keep-Candidate s entries ok found.1 in
    elim (Bool-cases (evictable slot)) [
      | inl e ↦ rw e (
        (subst (λ j. get j s.slots ≡ some slot) (sym (ok k slot found.0).keyed) found.0, e),
        rest,
      )
      | inr e ↦ rw e rest
    ]

pub candidates-All : (s : Store) → IsConsistent s → All (Candidate s) (candidates s)
unfolding candidates
candidates-All s v =
    sorted-All _ (Candidate s) _
      (keep-Candidate s s.slots v.slot_ok (entries-get s.slots v.distinct))
