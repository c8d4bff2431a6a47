-- ===== src/ModelArena.antt =====
-- src/diffusers_dynamic_offloader/vmm_model_arena.py: `VmmModelArena`. The native allocator behind it is a
-- separate package: the arena's calls are written down, newest first, and whether a call returns, and which
-- tensor views a binding gives, is any function of the calls made before. The lock serialises the methods.
pub mod Leases
pub mod Counts
pub mod Grouping
use diffusers_dynamic_offloa.Prelude.{
  ℕ, ◌+◌, ◌-◌, String, string_eq, Bool, true, false, ◌&&◌, not, Option, none, some, List, [], ◌∷◌,
  ltb, eqb, if◌then◌else◌, ◌==◌, any, length, is_some,
}
use diffusers_dynamic_offloa.Tensors.{Tensor, size_bytes}
use diffusers_dynamic_offloa.Rounding.{round_up}
use diffusers_dynamic_offloa.Dict.{Dict, get, put, contains}
use diffusers_dynamic_offloa.Outcome.{
  Outcome, Exec, done, raise, value_error, runtime_error, key_error, ◌>>=◌, ◌>>◌, pure, raise_if,
  or_raise, continue,
}

pub data NativeCall : Type 0 where
  reserve_region : (key : String) (bytes : ℕ) → NativeCall
  bind_cpu_tensor_group : (key : String) → NativeCall
  reset_runtime_stats : NativeCall
  collect_completed_events : (wait : Bool) → NativeCall
  prefetch_loaded_group : (key : String) → NativeCall
  release_after_current_stream : (key : String) → NativeCall
  close_native : NativeCall

pub record Native : Type 0 where
  pub succeeds : List NativeCall → NativeCall → Bool
  pub bound_views : List NativeCall → String → Dict String ℕ

-- Where a weight lies in its group.
pub record View : Type 0 where
  pub name : String
  pub offset : ℕ
  pub bytes : ℕ

pub record Group : Type 0 where
  pub key : String
  pub allocation_bytes : ℕ
  pub payload_bytes : ℕ
  pub views : Dict String View
  pub tensor_views : Dict String ℕ
  pub temporary_views : Option (Dict String ℕ)
  pub active_leases : ℕ

pub record Arena : Type 0 where
  pub page_bytes : ℕ
  pub groups : Dict String Group
  pub weight_groups : Dict String String
  pub reserved_bytes : ℕ
  pub persistent_virtual_views : ℕ
  pub closed : Bool
  pub trace : List NativeCall

abbrev pub new_arena : ℕ → Arena
new_arena page_bytes = record {
  page_bytes = page_bytes;
  groups = [];
  weight_groups = [];
  reserved_bytes = 0;
  persistent_virtual_views = 0;
  closed = false;
  trace = [];
}

abbrev pub Weights : Type 0
Weights = List (String × Tensor)

-- `self._weight_groups.update(dict.fromkeys(views, group_key))`
unfoldable pub assign_group : String → Dict String View → Dict String String → Dict String String
assign_group key [] d = d
assign_group key ((name, view) ∷ views) d = assign_group key views (put name key d)

-- The views of a group's weights, one behind another, and the bytes they take.
unfoldable pub place_weights :
    Dict String String → Weights → ℕ → Dict String View → Option (ℕ × Dict String View)
place_weights taken [] offset views = some (offset, views)
place_weights taken ((name, tensor) ∷ weights) offset views =
    let view : View = record { name = name; offset = offset; bytes = size_bytes tensor } in
    let rest = place_weights taken weights (offset + size_bytes tensor) (put name view views) in
    if contains name taken then none else rest

unfoldable pub require_open : Exec Arena (Unit {0})
require_open s = raise_if s.closed runtime_error s

unfoldable pub get_group : String → Exec Arena Group
get_group key s = or_raise (get key s.groups) key_error s

abbrev pub save_group : String → Group → Arena → Arena
save_group key group s = record s { groups = put key group s.groups }

abbrev pub new_group : String → ℕ → ℕ → Dict String View → Dict String ℕ → Group
new_group key allocation_bytes payload_bytes views tensor_views = record {
  key = key;
  allocation_bytes = allocation_bytes;
  payload_bytes = payload_bytes;
  views = views;
  tensor_views = tensor_views;
  temporary_views = none;
  active_leases = 0;
}

abbrev pub is_held : String × Group → Bool
is_held entry = ltb 0 entry.1.active_leases

-- `group.temporary_views[name]` where it is there, else `group.tensor_views[name]`.
unfoldable pub view_in : Option (Dict String ℕ) → String → Dict String ℕ → Option ℕ
view_in none name tensor_views = get name tensor_views
view_in (some temporary) name tensor_views =
    if contains name temporary then get name temporary else get name tensor_views

unfoldable pub weight : String → Exec Arena ℕ
weight name = do
  _ ← require_open
  λ s. continue (or_raise (get name s.weight_groups) key_error s) λ key. do
    group ← get_group key
    or_raise (view_in group.temporary_views name group.tensor_views) key_error

module _ (native : Native) where
  unfoldable pub call_native : NativeCall → Exec Arena (Unit {0})
  call_native c s =
      let s' = record s { trace = c ∷ s.trace } in
      if native.succeeds s.trace c then done tt s' else raise runtime_error s'

  -- The native region, and the group's record once its tensors are bound to it.
  unfoldable pub reserve_region_of : String → ℕ × Dict String View → Exec Arena (Unit {0})
  unfolding round_up
  reserve_region_of key (payload, views) s =
      let allocation = round_up payload s.page_bytes in
      continue (call_native (reserve_region key allocation) s) λ _ s1.
        continue (call_native (bind_cpu_tensor_group key) s1) λ _ s2. done tt (record s2 {
          groups =
              put key (new_group key allocation payload views (native.bound_views s1.trace key))
                s2.groups;
          weight_groups = assign_group key views s2.weight_groups;
          reserved_bytes = s2.reserved_bytes + allocation;
          persistent_virtual_views = s2.persistent_virtual_views + length views;
        })

  unfoldable pub reserve_group : String → Weights → Exec Arena (Unit {0})
  reserve_group key weights s = continue (raise_if (eqb (length weights) 0) value_error s) λ _ s1.
      continue (or_raise (place_weights s1.weight_groups weights 0 []) value_error s1)
        λ placed s2. reserve_region_of key placed s2

  unfoldable pub reserve_each : List (String × Weights) → Exec Arena (Unit {0})
  reserve_each [] s = done tt s
  reserve_each ((key, weights) ∷ groups) s =
      continue (reserve_group key weights s) λ _ s1. reserve_each groups s1

  unfoldable pub reserve_groups : List (String × Weights) → Exec Arena (Unit {0})
  reserve_groups groups s =
      continue (raise_if (ltb 0 (length s.groups)) runtime_error s)
        λ _ s1. continue (reserve_each groups s1) λ _ s2. call_native reset_runtime_stats s2

  -- `except Exception`: wait for the events, then once more.
  unfoldable pub or_retry : String → Outcome Arena (Unit {0}) → Outcome Arena (Unit {0})
  or_retry key (done _ s) = done tt s
  or_retry key (raise _ s) =
      continue (call_native (collect_completed_events true) s)
        λ _ s1. call_native (prefetch_loaded_group key) s1

  -- The lease is the group's key; `VmmModelArenaLease.__exit__` releases it.
  unfoldable pub acquire : String → Exec Arena String
  acquire key s = continue (require_open s) λ _ s1. continue (get_group key s1) λ group s2.
      continue (call_native (collect_completed_events false) s2) λ _ s3.
        continue (or_retry key (call_native (prefetch_loaded_group key) s3)) λ _ s4.
          done key (save_group key (record group { active_leases = group.active_leases + 1 }) s4)

  unfoldable pub release_group : String → Group → Exec Arena (Unit {0})
  release_group key group s =
      let left = record group { active_leases = group.active_leases - 1 } in
      let s' = save_group key left s in
      if eqb left.active_leases 0
      then continue (call_native (release_after_current_stream key) s')
          (λ _ s1. done tt (save_group key (record left { temporary_views = none }) s1))
      else done tt s'

  unfoldable pub release : String → Exec Arena (Unit {0})
  release key s = continue (require_open s) λ _ s1. continue (get_group key s1) λ group s2.
      continue (raise_if (eqb group.active_leases 0) runtime_error s2)
        λ _ s3. release_group key group s3

  unfoldable pub close_open : Exec Arena (Unit {0})
  close_open s = continue (raise_if (any is_held s.groups) runtime_error s) λ _ s1.
      continue (call_native (collect_completed_events true) s1) λ _ s2.
        continue (call_native close_native s2)
          λ _ s3. done tt (record s3 { groups = []; weight_groups = []; closed = true })

  unfoldable pub close : Exec Arena (Unit {0})
  close s = if s.closed then done tt s else close_open s

pub record Stats : Type 0 where
  pub reserved_bytes : ℕ
  pub resident_bytes : ℕ
  pub materializations : ℕ
  pub evictions : ℕ
  pub copied_bytes : ℕ
  pub file_slice_bytes : ℕ
  pub temporary_fallbacks : ℕ
  pub temporary_bytes : ℕ
  pub persistent_virtual_views : ℕ

-- `counter` gives the allocator's counters, `runtime_stats().get(name, 0)`; the seconds, which `stats`
-- leaves at zero, are left out.
unfoldable pub stats : (String → ℕ) → Arena → Stats
stats counter s = record {
  reserved_bytes = s.reserved_bytes;
  resident_bytes = counter "resident_bytes";
  materializations = counter "materializations";
  evictions = counter "evictions";
  copied_bytes = counter "upload_bytes";
  file_slice_bytes = counter "file_upload_bytes";
  temporary_fallbacks = counter "temporary_groups";
  temporary_bytes = counter "temporary_bytes";
  persistent_virtual_views = s.persistent_virtual_views;
}

unfoldable pub contains_weight : String → Arena → Bool
contains_weight name s = contains name s.weight_groups
