-- ===== src/Lib.antt =====
-- The weight streaming core of diffusers-dynamic-offloader.
--
-- The program runs diffusion models whose weights exceed the memory of the card. A planner decides which
-- modules stay on the card and which weights are pinned in host memory; the others are streamed. In the VMM
-- runtime the weights keep their virtual addresses while their physical memory is mapped, filled from pinned
-- staging slots and released again; the weights of one execution group are uploaded while the group before
-- it computes. All paths are from the repository's root.
--
-- src/diffusers_dynamic_offloader/vmm_weight_store.py
--   WeightStore: `VmmWeightStore`, a store of slots with `reserve`, `acquire`, `release`, `evict`,
--     `_ensure_capacity`, `_map`, `_unmap` and `close`, and its counters.
--   StagingPool: `PinnedStagingPool`, the ring of slots with `begin_upload`, `stage`, `stage_file_slice`,
--     `stage_file_slices`, `stage_file_slices_async` and `mark_upload`.
--   SliceRegistry and FileSlices: `SafetensorSliceRegistry` and its slices of checkpoint files.
--   HostRegistry: `RegisteredHostWeightRegistry`, page-locked host ranges under a budget.
--   Rounding: `_round_up`.
-- src/diffusers_dynamic_offloader/vmm_model_arena.py
--   ModelArena: `VmmModelArena`, groups of weights in regions of the native allocator, and their leases.
-- src/diffusers_dynamic_offloader/dynamic_offload.py
--   ExecutionGroups: the uploads of execution groups, ahead of their use.
--   Planner: `_spread_order`, `_largest_first_order`, the selections under a budget, and
--     `_apply_auto_budget_policy`.
--   SourceCache: `_native_source_cache_transport_config`.
--   Presets: `DDO_PRESETS`, `resolve_dynamic_offload_preset` and `dynamic_offload_preset_env_value`.
--   PlanBuilding: `build_dynamic_offload_plan`, its cache and `DynamicOffloadState`.
--   Tensors: what is read of a tensor, `_tensor_size_bytes`.
-- src/diffusers_dynamic_offloader/weight_source_metadata.py
--   SourceMetadata: `associate_source_metadata`, which fills a SliceRegistry.
-- src/diffusers_dynamic_offloader/auxiliary_sources.py
--   AuxiliarySources: `_detach_cpu_sources`, which copies tensors and moves their slices in a SliceRegistry.
-- src/diffusers_dynamic_offloader/profiles.py
--   Json: `_json_value` and the values that `json` reads and writes.
--   Profiles: `load_dynamic_offload_profile`, `record_dynamic_offload_profile` and what they call.
-- src/diffusers_dynamic_offloader/metrics_journal.py
--   MetricsJournal: `DynamicOffloadMetricsJournal`.
--
-- A method is a function of its arguments and the object's state to an Outcome: a value and the new state,
-- or an exception and what was written before it. Locks make each method one step. Python's integers are
-- natural numbers here; a field that is 0 for "none" is so in the source. Dict is Python's dict in insertion
-- order, Sorting its stable sort.
--
-- Outside the repository, and so parameters: the CUDA driver (CudaDriver) and the native allocator answer
-- each call by any function of the calls made before; files are a function of their path and place; the
-- products of sizes and floating-point ratios are functions, of which the results that need it take that a
-- share of at most all is at most all. Regular expressions are tests or a search that is a function, the digest
-- of a profile's context is a function, and so are the order of strings, of which the results that need it take
-- that it is a total order, the name of a temporary file, and whether a write or a renaming succeeds. Whether
-- an event can be recorded, waited for and synchronized with is a function of its number, or an argument.
--
-- The one loop on fuel is that of `_ensure_capacity`: it takes one round more than the store has slots, and
-- each round but the last unmaps one, so that the fuel is enough.
--
-- Numbers in profiles are whole and not negative, and keys of mappings are strings.
--
-- Not modelled: torch itself, whose wrapping of mapped memory as a tensor is taken to succeed (the calls of
-- `Buffer.from_handle` and `torch.from_dlpack` in `_map`), `close` of the staging pool, the contents of memory and checkpoints, times, log entries, the patching of
-- modules, loaders, the measuring of a profiled run, the Windows file reader, the collection of metrics, scripts
-- and kernels.
pub mod Prelude
pub mod Outcome
pub mod Dict
pub mod Sorting
pub mod CudaDriver
pub mod Rounding
pub mod Tensors
pub mod WeightStore
pub mod FileSlices
pub mod StagingPool
pub mod SliceRegistry
pub mod HostRegistry
pub mod Presets
pub mod SourceCache
pub mod PlanBuilding
pub mod SourceMetadata
pub mod AuxiliarySources
pub mod MetricsJournal
pub mod Json
pub mod Profiles
pub mod ModelArena
pub mod ExecutionGroups
pub mod Planner
pub mod Tests
