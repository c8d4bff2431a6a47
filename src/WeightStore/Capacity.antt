-- ===== src/WeightStore/Capacity.antt =====
-- `_ensure_capacity` of `VmmWeightStore`: the loop ends, makes the room, and evicts only what may go.
use diffusers_dynamic_offloa.Prelude.{
  ℕ, zero, suc, ◌+◌, ◌<◌, ◌≤◌, ◌≡◌, refl, Option, String, string_eq, true, false, some, none, arith,
  if◌then◌else◌, leb, eqb, List, [], ◌∷◌, Bool-cases, ==_iff, inl, inr, length, ◌⊎◌,
}
use diffusers_dynamic_offloa.Dict.{get, put, total, total-put, get-put, total-le}
use diffusers_dynamic_offloa.Outcome.{
  Exec, left_by, continue, or_raise, left_by-continue, Post, Post-continue, Post-left_by,
  Post-weaken, IsPython,
}
use diffusers_dynamic_offloa.CudaDriver.{Driver, Call}
use diffusers_dynamic_offloa.WeightStore.{
  Store, Slot, is_mapped, fetch, call, unmap, evict_mapped, evict_slot, evict, candidates,
  evictable, ensure_loop, ensure_capacity, sync_event,
}
use diffusers_dynamic_offloa.WeightStore.Invariant.{IsConsistent}
use diffusers_dynamic_offloa.WeightStore.Eviction.{
  Good, Kept-refl, Kept-trans, evict-Good, Candidate, candidates-All,
}

List-cases : {A : Type 0} (xs : List A) → (xs ≡ []) ⊎ ((x : A) × (r : List A) × (xs ≡ x ∷ r))
List-cases [] = inl refl
List-cases (x ∷ r) = inr (x, r, refl)

abbrev mapped_one : Slot → ℕ
mapped_one slot = if is_mapped slot then 1 else 0

-- How many slots hold memory: what falls in each round.
abbrev mapped_count : Store → ℕ
mapped_count s = total mapped_one s.slots

module _ (driver : Driver) where
  pub call-Post :
      {B : Type 0} (Q : B → Store → Type 0) (c : Call) (s : Store) (f : ℕ → Exec Store B)
      → ((n : ℕ) → Post Q IsPython (f n (record s { trace = c ∷ s.trace })))
      → Post Q IsPython (continue (call driver c s) f)
  unfolding call
  call-Post Q c s f k = elim (Bool-cases (driver.succeeds s.trace c)) [
    | inl e ↦ rw e (k _)
    | inr e ↦ rw e (λ h. cc)
  ]

  pub sync-Post :
      {B : Type 0} (Q : B → Store → Type 0) (event : Option ℕ) (s : Store) (f : ℕ → Exec Store B)
      → ((n : ℕ) (trace : List Call) → Post Q IsPython (f n (record s { trace = trace })))
      → Post Q IsPython (continue (sync_event driver event s) f)
  sync-Post Q none s f k = k 0 s.trace
  sync-Post Q (some event) s f k = call-Post Q _ s f (λ n. k n _)

  evict_mapped-Post :
      (s : Store) (key : String) (slot : Slot) (handle : ℕ)
      → get key s.slots ≡ some slot
      → slot.handle ≡ some handle
      → Post
          (λ _ t. mapped_count t < mapped_count s)
          IsPython
          (evict_mapped driver key slot handle s)
  unfolding evict_mapped unmap
  evict_mapped-Post s key slot handle found e = sync-Post _ slot.last_event s _ λ n trace.
      Post-continue (λ _ t. mapped_count t < mapped_count s) _ IsPython
        (unmap driver key slot handle (record s { trace = trace })) _
        (call-Post _ _ _ _ λ m. call-Post _ _ _ _ λ k. ground (
          arith,
          total-put mapped_one key hidden s.slots,
          total-put mapped_one key cleared (put key hidden s.slots),
          get-put key key hidden s.slots,
          ==_iff key key,
        ))
        (λ u t h. h)
    where
      hidden : Slot
      hidden = record slot { storage = false }

      cleared : Slot
      cleared = record slot { storage = false; handle = none; last_event = none }

  evict_slot-Post :
      (s : Store) (key : String) (slot : Slot) (handle : Option ℕ)
      → get key s.slots ≡ some slot
      → slot.handle ≡ handle
      → evictable slot ≡ true
      → Post (λ _ t. mapped_count t < mapped_count s) IsPython (evict_slot driver key slot handle s)
  unfolding evict_slot
  evict_slot-Post s key slot none found e idle = absurd (ground arith)
  evict_slot-Post s key slot (some handle) found e idle =
      elim (Bool-cases (eqb slot.active_leases 0)) [
        | inl z ↦ rw z (evict_mapped-Post s key slot handle found e)
        | inr z ↦ absurd (ground arith)
      ]

  evict-Post :
      (s : Store) (slot : Slot)
      → Candidate s slot
      → Post (λ _ t. mapped_count t < mapped_count s) IsPython (evict driver slot.key s)
  unfolding evict fetch
  evict-Post s slot c =
      rw (c.0, or_raise) (evict_slot-Post s slot.key slot slot.handle c.0 refl c.1)

  -- With the rounds that `_ensure_capacity` may need, the loop ends by itself, and on a return the
  -- room is there.
  ensure_loop-Post :
      (fuel required : ℕ) (s : Store)
      → IsConsistent s
      → mapped_count s < fuel
      → Post
          (λ _ t. t.stats.resident_bytes + required ≤ t.max_resident_bytes)
          IsPython
          (ensure_loop driver fuel required s)
  unfolding ensure_loop
  ensure_loop-Post zero required s v h = absurd (omega arith)
  ensure_loop-Post (suc fuel) required s v h =
      elim (Bool-cases (leb (s.stats.resident_bytes + required) s.max_resident_bytes)) [
        | inl e ↦ rw e (ground arith)
        | inr e ↦ elim (List-cases (candidates s)) [
          | inl none_left ↦ rw (e, none_left) (λ p. cc)
          | inr (slot, more, found) ↦
              let c = (rw found at (candidates-All s v)).0 in
              rw (e, found)
                (Post-continue _ _ IsPython (evict driver slot.key s) _
                  (Post-left_by (Good s) _ IsPython (evict driver slot.key s)
                    (evict-Good driver s slot.key v) (evict-Post s slot c))
                  λ b t r. ensure_loop-Post fuel required t r.0.0 (omega arith))
        ]
      ]

  ensure_loop-Good :
      (fuel required : ℕ) (s : Store)
      → IsConsistent s
      → Good s (left_by (ensure_loop driver fuel required s))
  unfolding ensure_loop
  ensure_loop-Good zero required s v = (v, Kept-refl s)
  ensure_loop-Good (suc fuel) required s v =
      elim (Bool-cases (leb (s.stats.resident_bytes + required) s.max_resident_bytes)) [
        | inl e ↦ rw e (v, Kept-refl s)
        | inr e ↦ elim (List-cases (candidates s)) [
          | inl none_left ↦ rw (e, none_left) (v, Kept-refl s)
          | inr (slot, more, found) ↦
              rw (e, found)
                (left_by-continue (Good s) (evict driver slot.key s) _
                  (evict-Good driver s slot.key v)
                  λ b t p.
                    let g = rw p at (evict-Good driver s slot.key v) in
                    let r = ensure_loop-Good fuel required t g.0 in (r.0, Kept-trans g.1 r.1))
        ]
      ]

  pub ensure_capacity-Good :
      (required : ℕ) (s : Store)
      → IsConsistent s
      → Good s (left_by (ensure_capacity driver required s))
  unfolding ensure_capacity
  ensure_capacity-Good required s v = elim (Bool-cases (eqb s.max_resident_bytes 0)) [
    | inl e ↦ rw e (v, Kept-refl s)
    | inr e ↦ rw e (ensure_loop-Good _ required s v)
  ]

  -- In a consistent store, whatever the driver answers, `_ensure_capacity` ends with no lack of fuel. Where it
  -- returns, the required bytes fit the budget beside what is resident, if there is a budget at all.
  pub ensure_capacity-Post :
      (required : ℕ) (s : Store)
      → IsConsistent s
      → Post
          (λ _ t.
            0 < t.max_resident_bytes → t.stats.resident_bytes + required ≤ t.max_resident_bytes)
          IsPython
          (ensure_capacity driver required s)
  unfolding ensure_capacity
  ensure_capacity-Post required s v = elim (Bool-cases (eqb s.max_resident_bytes 0)) [
    | inl e ↦ rw e (λ p. absurd (ground arith))
    | inr e ↦ rw e (
        Post-weaken _ _ IsPython IsPython (ensure_loop driver _ required s)
          (ensure_loop-Post (suc (length s.slots)) required s v
            (omega (arith, total-le mapped_one s.slots mapped_one-le)))
          (λ b t h p. h) (λ e t h. h))
  ]
    where
      mapped_one-le : (slot : Slot) → mapped_one slot ≤ 1
      mapped_one-le slot = ground arith
