-- ===== src/WeightStore/Operations.antt =====
-- `reserve` and `acquire` of `VmmWeightStore`: each keeps the invariant, whether it returns
-- or raises.
use diffusers_dynamic_offloa.Prelude.{
  ℕ, ◌+◌, ◌<◌, ◌≤◌, ◌≡◌, ◌≢◌, refl, Option, String, string_eq, true, false, not, some, none, arith,
  eqb, List, ◌∷◌, Option-cases, Bool-cases, ==_iff, inl, inr, ◌==◌, ltb,
}
use diffusers_dynamic_offloa.Rounding.{round_up, le-round_up}
use diffusers_dynamic_offloa.Tensors.{Tensor, size_bytes}
use diffusers_dynamic_offloa.Dict.{get, put, total-put, get-put, put-Distinct}
use diffusers_dynamic_offloa.Outcome.{
  Exec, Outcome, Error, left_by, done, raise, continue, out_of_fuel, runtime_error, value_error,
  key_error, attribute_error, Post, Post-continue, Post-weaken, Post-tidied, Post-raise_if,
  Post-or_raise, IsPython,
}
use diffusers_dynamic_offloa.CudaDriver.{Driver, Call, mem_map, mem_set_access}
use diffusers_dynamic_offloa.WeightStore.{
  Store, Slot, is_mapped, fetch, call, reserve, reserve_new, new_slot, ensure_capacity, map_handle,
  map_slot, materialize, wait_for, acquire_slot, acquire, lease, leased,
}
use diffusers_dynamic_offloa.WeightStore.Invariant.{
  IsConsistent, SlotOk, mapped_size, reserved_size, save-IsConsistent, traced-IsConsistent,
}
use diffusers_dynamic_offloa.WeightStore.Eviction.{Good}
use diffusers_dynamic_offloa.WeightStore.Capacity.{ensure_capacity-Good, ensure_capacity-Post}

-- What holds where a method raises: the invariant, and the exception is Python's.
abbrev pub Raised : Error → Store → Type 0
Raised e t = IsConsistent t × (e ≢ out_of_fuel)

counted-IsConsistent :
    (s : Store) (trace : List Call) (m c : ℕ)
    → IsConsistent s
    → IsConsistent (record s {
      stats = record s.stats { materializations = m; copied_bytes = c };
      trace = trace;
    })
counted-IsConsistent s trace m c v = record {
  resident = v.resident;
  reserved = v.reserved;
  bounded = v.bounded;
  distinct = v.distinct;
  slot_ok = v.slot_ok;
}

pub put_self : (s : Store) (key : String) (slot : Slot) → get key (put key slot s.slots) ≡ some slot
put_self s key slot = ground (arith, get-put key key slot s.slots, ==_iff key key)

-- A step that keeps the invariant however it ends.
Post-both :
    {A : Type 0} (P : Store → Type 0) (Q : A → Store → Type 0) (E : Error → Store → Type 0)
    (o : Outcome Store A)
    → P (left_by o)
    → Post Q E o
    → Post (λ a t. P t × Q a t) (λ e t. P t × E e t) o
Post-both P Q E (done a t) h k = (h, k)
Post-both P Q E (raise e t) h k = (h, k)

added-IsConsistent :
    (s : Store) (key : String) (address size : ℕ)
    → IsConsistent s
    → get key s.slots ≡ none
    → IsConsistent (record s {
      slots = put key (new_slot key address size) s.slots;
      stats = record s.stats { reserved_bytes = s.stats.reserved_bytes + size };
    })
added-IsConsistent s key address size v missing = record {
  resident =
      ground (arith, total-put mapped_size key (new_slot key address size) s.slots, v.resident);
  reserved =
      ground (arith, total-put reserved_size key (new_slot key address size) s.slots, v.reserved);
  bounded = v.bounded;
  distinct = put-Distinct key _ s.slots v.distinct;
  slot_ok = λ k x e.
      ground
        (arith, get-put key k (new_slot key address size) s.slots, ==_iff key k, v.slot_ok k x);
}

abbrev filled : Slot → ℕ → Slot
filled slot handle = record slot { handle = some handle; storage = true }

filled-IsConsistent :
    (s : Store) (key : String) (slot : Slot) (handle : ℕ)
    → IsConsistent s
    → get key s.slots ≡ some slot
    → is_mapped slot ≡ false
    → (0 < s.max_resident_bytes → s.stats.resident_bytes + slot.size ≤ s.max_resident_bytes)
    → IsConsistent (record s {
      slots = put key (filled slot handle) s.slots;
      stats = record s.stats { resident_bytes = s.stats.resident_bytes + slot.size };
    })
filled-IsConsistent s key slot handle v found free room = record {
  resident = ground (arith, total-put mapped_size key (filled slot handle) s.slots, v.resident);
  reserved = ground (arith, total-put reserved_size key (filled slot handle) s.slots, v.reserved);
  bounded = room;
  distinct = put-Distinct key _ s.slots v.distinct;
  slot_ok = λ k x e. ground (
    arith,
    get-put key k (filled slot handle) s.slots,
    ==_iff key k,
    v.slot_ok k x,
    v.slot_ok key slot,
  );
}

module _ (driver : Driver) where
  pub call-rule :
      {B : Type 0} (Q : B → Store → Type 0) (E : Error → Store → Type 0) (c : Call) (s : Store)
      (f : ℕ → Exec Store B)
      → E runtime_error (record s { trace = c ∷ s.trace })
      → ((n : ℕ) → Post Q E (f n (record s { trace = c ∷ s.trace })))
      → Post Q E (continue (call driver c s) f)
  unfolding call
  call-rule Q E c s f h k = elim (Bool-cases (driver.succeeds s.trace c)) [
    | inl e ↦ rw e (k _)
    | inr e ↦ rw e h
  ]

  pub raised : {s : Store} → IsConsistent s → Raised runtime_error s
  raised v = (v, λ h. cc)

  -- The slot of the key is there, and large enough.
  abbrev pub Fits : String → ℕ → ℕ → Store → Type 0
  Fits key size granularity t =
      (slot : Slot) × (get key t.slots ≡ some slot) × (0 < granularity → size ≤ slot.size)

  reserve_new-Post :
      (s : Store) (key : String) (size : ℕ)
      → IsConsistent s
      → get key s.slots ≡ none
      → Post
          (λ _ t. IsConsistent t × Fits key size s.granularity t)
          Raised
          (reserve_new driver key (round_up size s.granularity) s)
  unfolding reserve_new
  reserve_new-Post s key size v missing =
      call-rule _ Raised _ s _ (raised (traced-IsConsistent s _ v)) λ address.
        let slot = new_slot key address (round_up size s.granularity) in
        (
          added-IsConsistent _ key address _ (traced-IsConsistent s _ v) missing,
          (
            slot,
            ground (arith, get-put key key slot s.slots, ==_iff key key),
            le-round_up size s.granularity,
          ),
        )

  -- In a consistent store, `reserve` leaves a consistent store however it ends. Where it returns, there is a
  -- slot for the key, which holds the requested bytes if the granularity is positive.
  pub reserve-Post :
      (s : Store) (key : String) (size : ℕ)
      → IsConsistent s
      → Post
          (λ _ t. IsConsistent t × Fits key size s.granularity t)
          Raised
          (reserve driver key size s)
  unfolding reserve
  reserve-Post s key size v = elim (Bool-cases (key == "")) [
    | inl e ↦ rw e (v, λ h. cc)
    | inr e ↦ elim (Bool-cases (eqb size 0)) [
      | inl z ↦ rw (e, z) (v, λ h. cc)
      | inr z ↦ elim (Option-cases (get key s.slots)) [
        | inl missing ↦ rw (e, z, missing) (reserve_new-Post s key size v missing)
        | inr (slot, found) ↦ elim (Bool-cases (ltb slot.size size)) [
          | inl small ↦ rw (e, z, found, small) (v, λ h. cc)
          | inr fits ↦ rw (e, z, found, fits) (v, (slot, found, λ h. ground arith))
        ]
      ]
    ]
  ]

  pub call_tail-Post :
      (Q : ℕ → Store → Type 0) (E : Error → Store → Type 0) (c : Call) (s : Store)
      → E runtime_error (record s { trace = c ∷ s.trace })
      → ((n : ℕ) → Q n (record s { trace = c ∷ s.trace }))
      → Post Q E (call driver c s)
  unfolding call
  call_tail-Post Q E c s h k = elim (Bool-cases (driver.succeeds s.trace c)) [
    | inl e ↦ rw e (k _)
    | inr e ↦ rw e h
  ]

  map_handle-Post :
      (s : Store) (slot : Slot) (handle : ℕ)
      → IsConsistent s
      → Post
          (λ _ t. (trace : List Call) × (t ≡ record s { trace = trace }))
          Raised
          (map_handle driver slot handle s)
  unfolding map_handle
  map_handle-Post s slot handle v =
      Post-tidied _ Raised Raised
        (continue (call driver (mem_map slot.address slot.size handle) s)
          (λ n. call driver (mem_set_access slot.address slot.size)))
        _
        (call-rule _ Raised _ s _ (raised (traced-IsConsistent s _ v))
          λ n. call_tail-Post _ Raised _ _ (raised (traced-IsConsistent s _ v)) λ m. (_, refl))
        (λ e t h. (traced-IsConsistent t _ h.0, h.1))

  map_slot-Post :
      (s : Store) (key : String) (slot : Slot)
      → IsConsistent s
      → get key s.slots ≡ some slot
      → is_mapped slot ≡ false
      → (0 < s.max_resident_bytes → s.stats.resident_bytes + slot.size ≤ s.max_resident_bytes)
      → Post
          (λ slot' t.
            IsConsistent t
            × (get key t.slots ≡ some slot')
            × (slot'.storage ≡ true)
            × (slot'.size ≡ slot.size))
          Raised
          (map_slot driver key slot s)
  unfolding map_slot
  map_slot-Post s key slot v found free room =
      call-rule _ Raised _ s _ (raised (traced-IsConsistent s _ v)) λ handle.
        Post-continue _ _ Raised (map_handle driver slot handle _) _
          (map_handle-Post _ slot handle (traced-IsConsistent s _ v))
          λ u t r. rw r.1 (
            filled-IsConsistent (record s { trace = r.0 }) key slot handle
                (traced-IsConsistent s _ v) found free room,
            put_self s key (filled slot handle),
            refl,
            refl,
          )

  materialize-Post :
      (s : Store) (key : String) (slot : Slot) (size : ℕ)
      → IsConsistent s
      → get key s.slots ≡ some slot
      → is_mapped slot ≡ false
      → Post
          (λ slot' t.
            IsConsistent t
            × (get key t.slots ≡ some slot')
            × (slot'.storage ≡ true)
            × (slot'.size ≡ slot.size))
          Raised
          (materialize driver key slot size s)
  unfolding materialize
  materialize-Post s key slot size v found free =
      Post-continue _ _ Raised (ensure_capacity driver slot.size s) _
        (Post-weaken _ _ (λ e t. Good s t × IsPython e t) Raised
          (ensure_capacity driver slot.size s)
          (Post-both (Good s) _ IsPython (ensure_capacity driver slot.size s)
            (ensure_capacity-Good driver slot.size s v) (ensure_capacity-Post driver slot.size s v))
          (λ u t h. h) (λ e t h. (h.0.0, h.1)))
        λ u t r.
          Post-continue _ _ Raised (map_slot driver key slot t) _
            (map_slot-Post t key slot r.0.0 (r.0.1.kept key slot found (ground arith)) free r.1)
            λ slot' w q.
              call-rule _ Raised _ w _ (raised (traced-IsConsistent w _ q.0))
                λ n. (counted-IsConsistent w _ _ _ q.0, q.1, q.2, q.3)

  -- What `acquire` returns: a slot with its view, one more lease, and the time of this use.
  abbrev pub Leased : String → ℕ → Slot → Store → Type 0
  Leased key now slot t =
      IsConsistent t
      × (get key t.slots ≡ some slot)
      × (slot.storage ≡ true)
      × (0 < slot.active_leases)
      × (slot.last_used ≡ now)

  lease-Leased :
      (s : Store) (key : String) (slot : Slot) (now : ℕ)
      → IsConsistent s
      → get key s.slots ≡ some slot
      → slot.storage ≡ true
      → Post (Leased key now) Raised (lease key slot now s)
  lease-Leased s key slot now v found viewed = (
    save-IsConsistent s key slot (leased slot now) v found refl refl
        (record { keyed = ok.keyed; leased = λ h. viewed; viewed = ok.viewed }),
    put_self s key (leased slot now),
    viewed,
    omega arith,
    refl,
  )
    where
      ok : SlotOk key slot
      ok = v.slot_ok key slot found

  acquire_slot-Post :
      (s : Store) (key : String) (slot : Slot) (size now : ℕ)
      → IsConsistent s
      → get key s.slots ≡ some slot
      → Post (Leased key now) Raised (acquire_slot driver key slot size now s)
  unfolding acquire_slot
  acquire_slot-Post s key slot size now v found = elim (Bool-cases (is_mapped slot)) [
    | inl mapped ↦ rw mapped (
        Post-raise_if _ Raised (not slot.storage) attribute_error s _ (λ h. (v, λ p. cc))
          λ h. lease-Leased s key slot now v found (ground arith))
    | inr free ↦ rw free (
        Post-continue _ _ Raised (materialize driver key slot size s) _
          (materialize-Post s key slot size v found free)
          λ slot' t q. lease-Leased t key slot' now q.0 q.1 q.2)
  ]

  wait-rule :
      {B : Type 0} (Q : B → Store → Type 0) (event : Option ℕ) (s : Store) (f : ℕ → Exec Store B)
      → IsConsistent s
      → ((n : ℕ) (trace : List Call) → Post Q Raised (f n (record s { trace = trace })))
      → Post Q Raised (continue (wait_for driver event s) f)
  wait-rule Q none s f v k = k 0 s.trace
  wait-rule Q (some event) s f v k =
      call-rule Q Raised _ s f (raised (traced-IsConsistent s _ v)) (λ n. k n _)

  -- In a consistent store, `acquire` leaves a consistent store however it ends, and ends with no lack of fuel.
  -- Where it returns, the key's slot has a tensor view, is leased, and carries the time of the call.
  pub acquire-Post :
      (s : Store) (key : String) (source : Tensor) (now : ℕ)
      → IsConsistent s
      → Post (Leased key now) Raised (acquire driver key source now s)
  unfolding acquire fetch
  acquire-Post s key source now v =
      Post-raise_if _ Raised (not source.on_cpu) value_error s _ (λ h. (v, λ p. cc))
        λ h.
          Post-raise_if _ Raised (not source.contiguous) value_error s _ (λ k. (v, λ p. cc))
            λ k.
              Post-continue _ _ Raised (reserve driver key (size_bytes source) s) _
                (reserve-Post s key (size_bytes source) v)
                λ u t r.
                  Post-or_raise _ Raised (get key t.slots) key_error t _ (r.0, λ p. cc)
                    λ slot found. wait-rule _ slot.last_event t _ r.0 λ n trace.
                      acquire_slot-Post (record t { trace = trace }) key slot (size_bytes source)
                        now (traced-IsConsistent t trace r.0) found
