-- ===== src/WeightStore.antt =====
-- src/diffusers_dynamic_offloader/vmm_weight_store.py: `VmmWeightStore` and its slots. The clock is
-- an argument of each call; the lock serialises the methods, so each runs as one step.
pub mod Invariant
pub mod Eviction
pub mod Capacity
pub mod Operations
pub mod Releasing
pub mod Recency
pub mod Lifecycle
use diffusers_dynamic_offloa.Prelude.{
  ℕ, zero, suc, ◌+◌, ◌-◌, ◌*◌, ◌/◌, String, string_eq, Bool, true, false, not, ◌&&◌, Option, none,
  some, List, [], ◌∷◌, map, ltb, leb, eqb, if◌then◌else◌, ◌==◌, length, keep, is_some,
}
use diffusers_dynamic_offloa.Sorting.{sorted}
use diffusers_dynamic_offloa.Tensors.{Tensor, size_bytes}
use diffusers_dynamic_offloa.Rounding.{round_up}
use diffusers_dynamic_offloa.Dict.{Dict, get, put}
use diffusers_dynamic_offloa.Outcome.{
  Exec, done, raise, value_error, runtime_error, key_error, attribute_error, out_of_fuel, ◌>>=◌,
  ◌>>◌, pure, raise_if, or_raise, tidied, continue,
}
use diffusers_dynamic_offloa.CudaDriver.{
  Call, Driver, address_reserve, address_free, mem_create, mem_release, mem_map, mem_set_access,
  mem_unmap, wait_event, record_event, synchronize, copy_to_device,
}

pub record Stats : Type 0 where
  pub reserved_bytes : ℕ
  pub resident_bytes : ℕ
  pub materializations : ℕ
  pub evictions : ℕ
  pub copied_bytes : ℕ

-- `storage` tells whether the tensor view of the mapped memory is there; `buffer` comes and goes
-- with it.

pub record Slot : Type 0 where
  pub key : String
  pub address : ℕ
  pub size : ℕ
  pub handle : Option ℕ
  pub storage : Bool
  pub active_leases : ℕ
  pub last_used : ℕ
  pub last_event : Option ℕ

abbrev pub is_mapped : Slot → Bool
is_mapped slot = is_some slot.handle

pub record Store : Type 0 where
  pub max_resident_bytes : ℕ
  pub granularity : ℕ
  pub slots : Dict String Slot
  pub stats : Stats
  pub trace : List Call

abbrev pub new_slot : String → ℕ → ℕ → Slot
new_slot key address size = record {
  key = key;
  address = address;
  size = size;
  handle = none;
  storage = false;
  active_leases = 0;
  last_used = 0;
  last_event = none;
}

abbrev pub empty_stats : Stats
empty_stats = record {
  reserved_bytes = 0;
  resident_bytes = 0;
  materializations = 0;
  evictions = 0;
  copied_bytes = 0;
}

-- The constructor's state, for the granularity that the driver reports.
abbrev pub init : ℕ → ℕ → Store
init max_resident_bytes granularity = record {
  max_resident_bytes = max_resident_bytes;
  granularity = granularity;
  slots = [];
  stats = empty_stats;
  trace = [];
}

-- `self._slots[key]`
unfoldable pub fetch : String → Exec Store Slot
fetch key s = or_raise (get key s.slots) key_error s

abbrev pub save : String → Slot → Store → Store
save key slot s = record s { slots = put key slot s.slots }

-- The slots that may be evicted, the least recently used first.
abbrev pub evictable : Slot → Bool
evictable slot = is_mapped slot && eqb slot.active_leases 0

unfoldable pub candidates : Store → List Slot
candidates s =
    sorted (λ a b. leb a.last_used b.last_used) (keep evictable (map (λ entry. entry.1) s.slots))

-- The slot's memory and the counters after `_unmap` has released the handle.
abbrev pub unmapped : String → Slot → Store → Store
unmapped key slot s = record s {
  slots = put key (record slot { storage = false; handle = none; last_event = none }) s.slots;
  stats = record s.stats {
    resident_bytes = s.stats.resident_bytes - slot.size;
    evictions = s.stats.evictions + 1;
  };
}

abbrev pub leased : Slot → ℕ → Slot
leased slot now = record slot { active_leases = slot.active_leases + 1; last_used = now }

abbrev pub lease : String → Slot → ℕ → Exec Store Slot
lease key slot now s = done (leased slot now) (save key (leased slot now) s)

module _ (driver : Driver) where
  -- `_require_success(driver.c(…), …)`
  unfoldable pub call : Call → Exec Store ℕ
  call c s =
      let s' = record s { trace = c ∷ s.trace } in
      if driver.succeeds s.trace c
      then done (driver.returned s.trace c) s'
      else raise runtime_error s'

  unfoldable pub reserve_new : String → ℕ → Exec Store (Unit {0})
  unfolding round_up
  reserve_new key size = do
    address ← call (address_reserve size)
    λ s. done tt (record s {
      slots = put key (new_slot key address size) s.slots;
      stats = record s.stats { reserved_bytes = s.stats.reserved_bytes + size };
    })

  unfoldable pub reserve : String → ℕ → Exec Store (Unit {0})
  reserve key size s =
      if key == ""
      then raise value_error s
      else if eqb size 0
      then raise value_error s
      else elim (get key s.slots) [
        | some existing ↦ if ltb existing.size size then raise value_error s else done tt s
        | none ↦ reserve_new key (round_up size s.granularity) s
      ]

  abbrev pub sync_event : Option ℕ → Exec Store ℕ
  sync_event none = pure 0
  sync_event (some event) = call (synchronize event)

  unfoldable pub unmap : String → Slot → ℕ → Exec Store (Unit {0})
  unmap key slot handle s =
      (do
        call (mem_unmap slot.address slot.size)
        call (mem_release handle)
        λ s'. done tt (unmapped key slot s'))
        (save key (record slot { storage = false }) s)

  unfoldable pub evict_mapped : String → Slot → ℕ → Exec Store Bool
  evict_mapped key slot handle = do sync_event slot.last_event; unmap key slot handle; pure true

  unfoldable pub evict_slot : String → Slot → Option ℕ → Exec Store Bool
  evict_slot key slot none s = done false s
  evict_slot key slot (some handle) s =
      if eqb slot.active_leases 0 then evict_mapped key slot handle s else done false s

  unfoldable pub evict : String → Exec Store Bool
  evict key = do slot ← fetch key; evict_slot key slot slot.handle

  -- The loop of `_ensure_capacity`; a round evicts one slot.
  unfoldable pub ensure_loop : ℕ → ℕ → Exec Store (Unit {0})
  ensure_loop zero required s = raise out_of_fuel s
  ensure_loop (suc fuel) required s =
      let rest = λ (evicted : Bool). ensure_loop fuel required in
      if leb (s.stats.resident_bytes + required) s.max_resident_bytes
      then done tt s
      else elim (candidates s) [
        | [] ↦ raise runtime_error s
        | slot ∷ _ ↦ continue (evict slot.key s) rest
      ]

  unfoldable pub ensure_capacity : ℕ → Exec Store (Unit {0})
  ensure_capacity required s =
      if eqb s.max_resident_bytes 0
      then done tt s
      else ensure_loop (suc (length s.slots)) required s

  -- `cuMemMap` and `cuMemSetAccess`; on a failure the fresh handle is released, unchecked.
  unfoldable pub map_handle : Slot → ℕ → Exec Store ℕ
  map_handle slot handle s =
      tidied
        ((do
          call (mem_map slot.address slot.size handle)
          call (mem_set_access slot.address slot.size))
          s)
        (λ s'. record s' { trace = mem_release handle ∷ s'.trace })

  -- `Buffer.from_handle` and `torch.from_dlpack`, which wrap the mapped memory, are taken to succeed.
  unfoldable pub map_slot : String → Slot → Exec Store Slot
  map_slot key slot = do
    handle ← call (mem_create slot.size)
    map_handle slot handle
    let slot' = record slot { handle = some handle; storage = true }
    λ s. done slot' (record s {
      slots = put key slot' s.slots;
      stats = record s.stats { resident_bytes = s.stats.resident_bytes + slot.size };
    })

  abbrev pub wait_for : Option ℕ → Exec Store ℕ
  wait_for none = pure 0
  wait_for (some event) = call (wait_event event)

  -- The first use of a slot: room, memory, and the copy of the weight.
  unfoldable pub materialize : String → Slot → ℕ → Exec Store Slot
  materialize key slot size = do
    ensure_capacity slot.size
    slot' ← map_slot key slot
    call (copy_to_device slot.address size)
    λ s. done slot' (record s {
      stats = record s.stats {
        materializations = s.stats.materializations + 1;
        copied_bytes = s.stats.copied_bytes + size;
      };
    })

  unfoldable pub acquire_slot : String → Slot → ℕ → ℕ → Exec Store Slot
  acquire_slot key slot size now =
      if is_mapped slot
      then (do raise_if (not slot.storage) attribute_error; lease key slot now)
      else (do slot' ← materialize key slot size; lease key slot' now)

  unfoldable pub acquire : String → Tensor → ℕ → Exec Store Slot
  acquire key source now = do
    raise_if (not source.on_cpu) value_error
    raise_if (not source.contiguous) value_error
    reserve key (size_bytes source)
    slot ← fetch key
    wait_for slot.last_event
    acquire_slot key slot (size_bytes source) now

  -- The slot gets a new event before it is recorded; until then nothing waits for it.
  unfoldable pub release_slot : String → Slot → ℕ → Exec Store (Unit {0})
  release_slot key slot now s =
      if eqb slot.active_leases 0
      then raise runtime_error s
      else let slot' = record slot { active_leases = slot.active_leases - 1; last_used = now } in
        if eqb (slot.active_leases - 1) 0
        then (do
          event ← call record_event
          λ s'. done tt (save key (record slot' { last_event = some event }) s'))
            (save key (record slot' { last_event = none }) s)
        else done tt (save key slot' s)

  unfoldable pub release : String → ℕ → Exec Store (Unit {0})
  release key now = do slot ← fetch key; release_slot key slot now

  -- One round of `close`: a slot that was evicted stays reserved until its address is freed.
  unfoldable pub close_slot : String → Slot → Option ℕ → Exec Store ℕ
  close_slot key slot none = call (address_free slot.address slot.size)
  close_slot key slot (some handle) = do
    raise_if (not (eqb slot.active_leases 0)) runtime_error
    sync_event slot.last_event
    unmap key slot handle
    call (address_free slot.address slot.size)

  unfoldable pub close_loop : List (String × Slot) → Exec Store (Unit {0})
  close_loop [] s = done tt (record s { slots = [] })
  close_loop ((key, slot) ∷ entries) s =
      let rest = λ (n : ℕ). close_loop entries in continue (close_slot key slot slot.handle s) rest

  unfoldable pub close : Exec Store (Unit {0})
  close s = close_loop s.slots s
