-- ===== src/StagingPool.antt =====
-- src/diffusers_dynamic_offloader/vmm_weight_store.py: `PinnedStagingPool`. The clock's readings are
-- left out, and so is `close`: the pool is open. The state records which events were recorded and waited for,
-- and what was read into which slot.
pub mod Coalescing
pub mod Staging
pub mod Bounds
pub mod RingSafety
use diffusers_dynamic_offloa.Prelude.{
  ℕ, zero, suc, ◌+◌, ◌-◌, ◌%◌, String, string_eq, Bool, true, false, not, ◌&&◌, ◌||◌, Option, none,
  some, List, [], ◌∷◌, ◌++◌, ltb, eqb, if◌then◌else◌, ◌==◌, get_elem?, set, replicate, sum_of,
  is_some,
}
use mathlib.Core.List.{reverse}
use diffusers_dynamic_offloa.Tensors.{Tensor, size_bytes}
use diffusers_dynamic_offloa.FileSlices.{FileSlice}
use diffusers_dynamic_offloa.Dict.{Dict, get, put}
use diffusers_dynamic_offloa.Outcome.{
  Exec, done, raise, value_error, runtime_error, os_error, assertion_error, ◌>>=◌, ◌>>◌, pure,
  raise_if, or_raise, continue,
}

-- The files and the two ways to read them, which the repository does not define.
pub record Files : Type 0 where
  pub readable : String → Bool
  pub mapped_size : String → ℕ
  pub read_at : String → ℕ → ℕ → Bool

-- One range of a file, and where in a staging slot it goes.
pub record Run : Type 0 where
  pub path : String
  pub offset_bytes : ℕ
  pub slot : ℕ
  pub destination : ℕ
  pub bytes : ℕ

pub record View : Type 0 where
  pub slot : ℕ
  pub start : ℕ
  pub bytes : ℕ

pub record Stats : Type 0 where
  pub slot_reuse_waits : ℕ
  pub source_copy_bytes : ℕ
  pub shard_read_bytes : ℕ

-- An event is recorded behind a slot's upload, and waited for before the slot is used again.
pub data Sync : Type 0 where
  recorded : (event : ℕ) → Sync
  waited : (event : ℕ) → Sync

pub record Pool : Type 0 where
  pub size_bytes : ℕ
  pub slots : ℕ
  pub ready_events : List (Option ℕ)
  pub stats : Stats
  pub next_slot : ℕ
  pub active_slot : Option ℕ
  pub offset : ℕ
  pub checkpoint_maps : Dict String ℕ
  pub windows_file_reader : Bool
  -- What happened to events, and the ranges read, newest first.
  pub syncs : List Sync
  pub reads : List Run

abbrev pub Entry : Type 0
Entry = Tensor × FileSlice

-- The constructor; `none` stands for its `ValueError`.
unfoldable pub init : ℕ → ℕ → ℕ → Bool → Option Pool
init size slots chunk windows =
    if eqb size 0 || eqb slots 0 || eqb chunk 0
    then none
    else some (record {
      size_bytes = size;
      slots = slots;
      ready_events = replicate slots none;
      stats = record { slot_reuse_waits = 0; source_copy_bytes = 0; shard_read_bytes = 0 };
      next_slot = 0;
      active_slot = none;
      offset = 0;
      checkpoint_maps = [];
      windows_file_reader = windows;
      syncs = [];
      reads = [];
    })

-- The event that guards a slot, if it was used before.
abbrev pub event_of : List (Option ℕ) → ℕ → Option ℕ
event_of events slot = elim (get_elem? events slot) [ none ↦ none | some event ↦ event ]

abbrev pub used_again : ℕ → ℕ → Pool → Pool
used_again slot event p = record p {
  stats = record p.stats { slot_reuse_waits = p.stats.slot_reuse_waits + 1 };
  syncs = waited event ∷ p.syncs;
  active_slot = some slot;
  offset = 0;
}

-- The slot is acquired, after a wait if it was used before.
unfoldable pub start_slot : Bool → ℕ → Option ℕ → Exec Pool (Unit {0})
start_slot synchronizes slot none p = done tt (record p { active_slot = some slot; offset = 0 })
start_slot synchronizes slot (some event) p =
    continue (raise_if (not synchronizes) runtime_error p) λ _ q. done tt (used_again slot event q)

-- `synchronizes` tells whether `event.synchronize()` returns.
unfoldable pub begin_upload : Bool → Exec Pool (Unit {0})
unfolding start_slot
begin_upload synchronizes p =
    start_slot synchronizes p.next_slot (event_of p.ready_events p.next_slot)
      (record p { next_slot = (p.next_slot + 1) % p.slots })

-- `query` is the driver's answer for an event.
unfoldable pub next_slot_ready : (ℕ → Bool) → Pool → Bool
next_slot_ready query p = elim p.active_slot [
  | some slot ↦ false
  | none ↦ elim (event_of p.ready_events p.next_slot) [ none ↦ true | some event ↦ query event ]
]

-- `_active_buffer`
unfoldable pub active_buffer : Exec Pool ℕ
active_buffer p = or_raise p.active_slot runtime_error p

abbrev pub has_active_upload : Pool → Bool
has_active_upload p = is_some p.active_slot

unfoldable pub mark_upload : ℕ → Exec Pool (Unit {0})
unfolding active_buffer
mark_upload event = do
  slot ← active_buffer
  λ p. done tt (record p {
    ready_events = set p.ready_events slot (some event);
    active_slot = none;
    syncs = recorded event ∷ p.syncs;
  })

abbrev pub not_staged_from : Tensor → Bool
not_staged_from source = not source.on_cpu || not source.contiguous

unfoldable pub stage : Tensor → Exec Pool View
unfolding active_buffer
stage source p =
    let size = size_bytes source in
    let end = p.offset + size in
    (do
      raise_if (not_staged_from source) value_error
      raise_if (ltb p.size_bytes end) runtime_error
      slot ← active_buffer
      λ q.
          done (record { slot = slot; start = q.offset; bytes = size })
            (record q {
              stats = record q.stats { source_copy_bytes = q.stats.source_copy_bytes + size };
              offset = end;
            }))
      p

unfoldable pub record_shard_read : Run → Pool → Pool
record_shard_read run p = record p {
  stats = record p.stats { shard_read_bytes = p.stats.shard_read_bytes + run.bytes };
  reads = run ∷ p.reads;
}

module _ (files : Files) where
  -- The mapping of a shard, opened at its first use.
  unfoldable pub open_shard : String → Option ℕ → Exec Pool ℕ
  open_shard path (some size) p = done size p
  open_shard path none p =
      if files.readable path
      then done (files.mapped_size path)
          (record p { checkpoint_maps = put path (files.mapped_size path) p.checkpoint_maps })
      else raise os_error p

  unfoldable pub mapped_shard : String → Exec Pool ℕ
  unfolding open_shard
  mapped_shard path p = open_shard path (get path p.checkpoint_maps) p

  -- `_read_file_slice`
  unfoldable pub read_file_slice : Run → Exec Pool (Unit {0})
  unfolding record_shard_read
  read_file_slice run p =
      if p.windows_file_reader
      then (if files.read_at run.path run.offset_bytes run.bytes
          then done tt (record_shard_read run p)
          else raise os_error p)
      else (do
        size ← mapped_shard run.path
        raise_if (ltb size (run.offset_bytes + run.bytes)) os_error
        λ q. done tt (record_shard_read run q))
          p

  unfoldable pub stage_file_slice : Tensor → FileSlice → Exec Pool View
  unfolding active_buffer
  stage_file_slice source slice p =
      let size = size_bytes source in
      let end = p.offset + size in
      (do
        raise_if (not_staged_from source) value_error
        raise_if (not (eqb size slice.size_bytes)) value_error
        raise_if (ltb p.size_bytes end) runtime_error
        slot ← active_buffer
        read_file_slice (record {
          path = slice.path;
          offset_bytes = slice.offset_bytes;
          slot = slot;
          destination = p.offset;
          bytes = slice.size_bytes;
        })
        λ q.
            done (record { slot = slot; start = p.offset; bytes = size })
              (record q { offset = end }))
        p

  -- The reads are issued oldest first, and the list of runs is newest first.
  unfoldable pub read_runs : List Run → Exec Pool (Unit {0})
  read_runs [] p = done tt p
  read_runs (run ∷ older) p =
      let last = λ (u : Unit {0}). read_file_slice run in continue (read_runs older p) last

-- `runs[-1]` ends where the slice begins, in the file and in the slot.
abbrev pub extends : Run → FileSlice → ℕ → Bool
extends run slice offset =
    run.path == slice.path
    && eqb (run.offset_bytes + run.bytes) slice.offset_bytes
    && eqb (run.destination + run.bytes) offset

abbrev pub new_run : ℕ → FileSlice → ℕ → ℕ → Run
new_run slot slice offset size = record {
  path = slice.path;
  offset_bytes = slice.offset_bytes;
  slot = slot;
  destination = offset;
  bytes = size;
}

unfoldable pub add_run : ℕ → FileSlice → ℕ → ℕ → List Run → List Run
add_run slot slice offset size [] = new_run slot slice offset size ∷ []
add_run slot slice offset size (run ∷ older) =
    if extends run slice offset
    then record run { bytes = run.bytes + size } ∷ older
    else new_run slot slice offset size ∷ run ∷ older

-- One round of the loop over the entries; only the synchronous method tests the device.
unfoldable pub gather_entry : Bool → Entry → List Run → Exec Pool (List Run × View)
unfolding active_buffer
gather_entry checked (source, slice) runs p =
    let size = size_bytes source in
    let end = p.offset + size in
    (do
      raise_if (checked && not_staged_from source) value_error
      raise_if (not (eqb size slice.size_bytes)) value_error
      raise_if (ltb p.size_bytes end) runtime_error
      slot ← active_buffer
      λ q.
          done
            (
              add_run slot slice p.offset size runs,
              record { slot = slot; start = p.offset; bytes = size },
            )
            (record q { offset = end }))
      p

unfoldable pub gather : Bool → List Entry → List Run → Exec Pool (List Run × List View)
gather checked [] runs p = done (runs, []) p
gather checked (entry ∷ entries) runs p =
    let rest = λ (r : List Run × View). gather checked entries r.0 >>= λ s. pure (s.0, r.1 ∷ s.1) in
    continue (gather_entry checked entry runs p) rest

abbrev pub slice_bytes : Entry → ℕ
slice_bytes entry = entry.1.size_bytes

abbrev pub check_total : ℕ → List Entry → Exec Pool (Unit {0})
check_total start entries p =
    raise_if (not (eqb (p.offset - start) (sum_of slice_bytes entries))) assertion_error p

module _ (files : Files) where
  unfoldable pub stage_file_slices : List Entry → Exec Pool (List View)
  stage_file_slices [] p = done [] p
  stage_file_slices (entry ∷ entries) p =
      (do
        (runs, views) ← gather true (entry ∷ entries) []
        read_runs files runs
        check_total p.offset (entry ∷ entries)
        pure views)
        p

  -- With the Windows reader the runs are handed out as reads to wait for.
  unfoldable pub stage_file_slices_async : List Entry → Exec Pool (List View × List Run)
  stage_file_slices_async [] p = done ([], []) p
  stage_file_slices_async (entry ∷ entries) p =
      if p.windows_file_reader
      then (do
        (runs, views) ← gather false (entry ∷ entries) []
        check_total p.offset (entry ∷ entries)
        pure (views, reverse runs))
          p
      else (do views ← stage_file_slices (entry ∷ entries); pure (views, [])) p
