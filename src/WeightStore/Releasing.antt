-- ===== src/WeightStore/Releasing.antt =====
-- `release` of `VmmWeightStore`: what it gives back, and when it refuses.
use mathlib.Core.Option.{some-injective}
use diffusers_dynamic_offloa.Prelude.{
  ℕ, ◌+◌, ◌-◌, ◌<◌, ◌≡◌, refl, sym, subst, ap, ◌∙◌, Option, String, string_eq, true, false, some,
  none, arith, eqb, List, ◌∷◌, Bool-cases, inl, inr, ◌⊎◌, ◌==◌, is_some,
}
use diffusers_dynamic_offloa.Dict.{get, put, get-put}
use diffusers_dynamic_offloa.Outcome.{Error, key_error, Post, continue, or_raise}
use diffusers_dynamic_offloa.CudaDriver.{Driver, Call, record_event}
use diffusers_dynamic_offloa.WeightStore.{Store, Slot, fetch, save, release_slot, release}
use diffusers_dynamic_offloa.WeightStore.Invariant.{
  IsConsistent, SlotOk, save-IsConsistent, traced-IsConsistent,
}
use diffusers_dynamic_offloa.WeightStore.Operations.{Raised, put_self, call-rule, raised}

-- One lease of the slot has gone back at the given time, its memory is as it was, and so are the slots of
-- the other keys.
pub record GivenBack (key : String) (now : ℕ) (slot after : Slot) (s t : Store) : Type 0 where
  pub stored : get key t.slots ≡ some after
  pub fewer : after.active_leases + 1 ≡ slot.active_leases
  pub used : after.last_used ≡ now
  pub same_memory :
      (after.address ≡ slot.address)
      × (after.size ≡ slot.size)
      × (after.handle ≡ slot.handle)
      × (after.storage ≡ slot.storage)
  pub others : (other : String) → (key == other) ≡ false → get other t.slots ≡ get other s.slots

-- The last lease leaves an event; after any other the slot has the event it had.
abbrev pub HasEvent : Slot → Slot → Type 0
HasEvent slot after =
    (after.active_leases ≡ 0 → is_some after.last_event ≡ true)
    × (0 < after.active_leases → after.last_event ≡ slot.last_event)

abbrev pub Returned : String → ℕ → Store → Store → Type 0
Returned key now s t =
    IsConsistent t
    × ((slot after : Slot) × (get key s.slots ≡ some slot)
        × GivenBack key now slot after s t
        × HasEvent slot after)

-- No lease to give back, or the last one given back and its event not recorded.
abbrev pub Refused : String → ℕ → Store → Error → Store → Type 0
Refused key now s e t =
    Raised e t
    × ((t ≡ s) × ((slot : Slot) → get key s.slots ≡ some slot → slot.active_leases ≡ 0)
        ⊎ ((slot after : Slot) × (get key s.slots ≡ some slot)
            × GivenBack key now slot after s t
            × (after.active_leases ≡ 0)
            × (after.last_event ≡ none)))

abbrev fewer_of : Slot → ℕ → Option ℕ → Slot
fewer_of slot now event = record slot {
  active_leases = slot.active_leases - 1;
  last_used = now;
  last_event = event;
}

put_other :
    {V : Type 0} (key other : String) (v : V) (d : List (String × V))
    → (key == other) ≡ false
    → get other (put key v d) ≡ get other d
put_other key other v d differ = rw (get-put key other v d, differ) refl

fewer-IsConsistent :
    (s : Store) (key : String) (old slot : Slot) (now : ℕ) (event : Option ℕ)
    → IsConsistent s
    → get key s.slots ≡ some old
    → SlotOk key slot
    → (old ≡ slot) ⊎ (old ≡ fewer_of slot now none)
    → IsConsistent (save key (fewer_of slot now event) s)
fewer-IsConsistent s key old slot now event v found ok (inl same) =
    save-IsConsistent s key slot (fewer_of slot now event) v (found ∙ ap some same) refl refl
      (record { keyed = ok.keyed; leased = λ h. ok.leased (omega arith); viewed = ok.viewed })
fewer-IsConsistent s key old slot now event v found ok (inr same) =
    save-IsConsistent s key (fewer_of slot now none) (fewer_of slot now event) v
      (found ∙ ap some same) refl refl
      (record { keyed = ok.keyed; leased = λ h. ok.leased (omega arith); viewed = ok.viewed })

module _ (driver : Driver) where
  release_slot-Post :
      (s : Store) (key : String) (slot : Slot) (now : ℕ)
      → IsConsistent s
      → get key s.slots ≡ some slot
      → Post (λ _ t. Returned key now s t) (Refused key now s) (release_slot driver key slot now s)
  unfolding release_slot
  release_slot-Post s key slot now v found = elim (Bool-cases (eqb slot.active_leases 0)) [
    | inl z ↦ rw z ((v, λ h. cc), inl (refl, none_left (ground arith)))
    | inr z ↦ elim (Bool-cases (eqb (slot.active_leases - 1) 0)) [
      | inl last ↦
          rw (z, last)
            (call-rule driver (λ _ t. Returned key now s t) (Refused key now s) record_event _ _
              (
                raised driver (traced-IsConsistent _ _ unmarked),
                inr (slot, fewer none, found, once none _ (ground arith), ground arith, refl),
              )
              λ event. (
                fewer-IsConsistent _ key (fewer none) slot now (some event)
                    (traced-IsConsistent _ _ unmarked) (put_self s key (fewer none)) ok (inr refl),
                (
                  slot,
                  fewer (some event),
                  found,
                  twice (some event) (record_event ∷ s.trace) (ground arith),
                  ((λ h. refl), λ h. absurd (ground arith)),
                ),
              ))
      | inr more ↦
          rw (z, more)
            (
              given slot.last_event,
              (
                slot,
                fewer slot.last_event,
                found,
                once slot.last_event s.trace (ground arith),
                ((λ h. absurd (ground arith)), λ h. refl),
              ),
            )
    ]
  ]
    where
      fewer : Option ℕ → Slot
      fewer event = fewer_of slot now event

      none_left :
          slot.active_leases ≡ 0
          → (other : Slot) → get key s.slots ≡ some other
          → other.active_leases ≡ 0
      none_left z other e =
          subst (λ x. x.active_leases ≡ 0) (some-injective slot other (sym found ∙ e)) z

      ok : SlotOk key slot
      ok = v.slot_ok key slot found

      given : (event : Option ℕ) → IsConsistent (save key (fewer event) s)
      given event = fewer-IsConsistent s key slot slot now event v found ok (inl refl)

      unmarked : IsConsistent (save key (fewer none) s)
      unmarked = given none

      once :
          (event : Option ℕ) (trace : List Call)
          → 0 < slot.active_leases
          → GivenBack key now slot
              (fewer event)
              s
              (record (save key (fewer event) s) { trace = trace })
      once event trace leased = record {
        stored = put_self s key (fewer event);
        fewer = omega arith;
        used = refl;
        same_memory = (refl, refl, refl, refl);
        others = λ other differ. put_other key other (fewer event) s.slots differ;
      }

      twice :
          (event : Option ℕ) (trace : List Call)
          → 0 < slot.active_leases
          → GivenBack key now slot
              (fewer event)
              s
              (save key (fewer event) (record (save key (fewer none) s) { trace = trace }))
      twice event trace leased = record {
        stored = put_self (save key (fewer none) s) key (fewer event);
        fewer = omega arith;
        used = refl;
        same_memory = (refl, refl, refl, refl);
        others = λ other differ.
            put_other key other (fewer event) (put key (fewer none) s.slots) differ
            ∙ put_other key other (fewer none) s.slots differ;
      }

  -- In a consistent store, `release` leaves a consistent store however it ends. Where it returns, the key had
  -- a slot with a lease; exactly one lease has gone back, at the time of the call, the slot's memory and the
  -- slots of the other keys are as they were, and the last lease leaves an event. Where it raises, there was
  -- no lease to give back and the store is as it was, or the last lease went back and its event could not be
  -- recorded.
  pub release-Post :
      (s : Store) (key : String) (now : ℕ)
      → IsConsistent s
      → Post (λ _ t. Returned key now s t) (Refused key now s) (release driver key now s)
  unfolding release fetch
  release-Post s key now v = from (get key s.slots) refl
    where
      from :
          (o : Option Slot)
          → get key s.slots ≡ o
          → Post
              (λ _ t. Returned key now s t)
              (Refused key now s)
              (continue (or_raise o key_error s) λ slot. release_slot driver key slot now)
      from none missing = ((v, λ h. cc), inl (refl, λ slot found. absurd (cc)))
      from (some slot) found = release_slot-Post s key slot now v found
