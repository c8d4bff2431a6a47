-- ===== src/WeightStore/Invariant.antt =====
-- What holds of a `VmmWeightStore` between any two calls.
use diffusers_dynamic_offloa.Prelude.{
  ℕ, ◌<◌, ◌≤◌, ◌≡◌, String, string_eq, true, false, some, none, arith, if◌then◌else◌, List, ==_iff,
}
use diffusers_dynamic_offloa.Dict.{get, total, total-put, get-put, Distinct, put-Distinct}
use diffusers_dynamic_offloa.CudaDriver.{Call}
use diffusers_dynamic_offloa.WeightStore.{Store, Slot, is_mapped, save, unmapped}

-- The physical memory that a slot holds.
abbrev pub mapped_size : Slot → ℕ
mapped_size slot = if is_mapped slot then slot.size else 0

abbrev pub reserved_size : Slot → ℕ
reserved_size slot = slot.size

-- A leased slot is mapped and has its view; a view has memory behind it.
pub record SlotOk (key : String) (slot : Slot) : Type 0 where
  pub keyed : slot.key ≡ key
  pub leased : 0 < slot.active_leases → slot.storage ≡ true
  pub viewed : slot.storage ≡ true → is_mapped slot ≡ true

pub record IsConsistent (s : Store) : Type 0 where
  pub resident : total mapped_size s.slots ≡ s.stats.resident_bytes
  pub reserved : total reserved_size s.slots ≡ s.stats.reserved_bytes
  pub bounded : 0 < s.max_resident_bytes → s.stats.resident_bytes ≤ s.max_resident_bytes
  pub distinct : Distinct s.slots
  pub slot_ok : (k : String) (slot : Slot) → get k s.slots ≡ some slot → SlotOk k slot

-- Replacing a slot by one of the same size and memory keeps the counters.
pub save-IsConsistent :
    (s : Store) (key : String) (old slot : Slot)
    → IsConsistent s
    → get key s.slots ≡ some old
    → mapped_size slot ≡ mapped_size old
    → slot.size ≡ old.size
    → SlotOk key slot
    → IsConsistent (save key slot s)
save-IsConsistent s key old slot v found mapped size ok = record {
  resident = ground (arith, total-put mapped_size key slot s.slots, v.resident);
  reserved = ground (arith, total-put reserved_size key slot s.slots, v.reserved);
  bounded = v.bounded;
  distinct = put-Distinct key slot s.slots v.distinct;
  slot_ok = λ k x e. ground (arith, get-put key k slot s.slots, ==_iff key k, v.slot_ok k x);
}

-- So does releasing the memory of a slot.
pub unmapped-IsConsistent :
    (s : Store) (key : String) (slot : Slot)
    → IsConsistent s
    → get key s.slots ≡ some slot
    → is_mapped slot ≡ true
    → slot.active_leases ≡ 0
    → IsConsistent (unmapped key slot s)
unmapped-IsConsistent s key slot v found mapped idle = record {
  resident = ground (
    arith,
    total-put mapped_size key (record slot { storage = false; handle = none; last_event = none })
        s.slots,
    v.resident,
  );
  reserved = ground (
    arith,
    total-put reserved_size key (record slot { storage = false; handle = none; last_event = none })
        s.slots,
    v.reserved,
  );
  bounded = λ h. ground (arith, v.bounded h);
  distinct = put-Distinct key _ s.slots v.distinct;
  slot_ok = λ k x e. ground (
    arith,
    get-put key k (record slot { storage = false; handle = none; last_event = none }) s.slots,
    ==_iff key k,
    v.slot_ok k x,
    v.slot_ok key slot,
  );
}

-- The calls to the driver are no part of it.
pub traced-IsConsistent :
    (s : Store) (trace : List Call) → IsConsistent s → IsConsistent (record s { trace = trace })
traced-IsConsistent s trace v = record {
  resident = v.resident;
  reserved = v.reserved;
  bounded = v.bounded;
  distinct = v.distinct;
  slot_ok = v.slot_ok;
}
