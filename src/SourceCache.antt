-- ===== src/SourceCache.antt =====
-- `_native_source_cache_transport_config` of src/diffusers_dynamic_offloader/dynamic_offload.py. An amount in
-- GiB stands for the bytes it denotes, which are taken to be whole; `host_cache` is whether `host_cache_gb` is
-- not zero. Sizes and counts below zero, which the source rejects with zero, are left out.
pub mod Limits
use diffusers_dynamic_offloa.Prelude.{
  ℕ, ◌+◌, ◌-◌, ◌*◌, ◌/◌, ◌%◌, Bool, true, false, ◌&&◌, ◌||◌, not, Option, none, some, min, leb, ltb,
  eqb, if◌then◌else◌,
}

pub data Amount : Type 0 where
  not_finite : Amount
  below_zero : Amount
  of_bytes : (bytes : ℕ) → Amount

-- `registered_limit_bytes` is 0 where the key is not set.
pub record CacheConfig : Type 0 where
  pub slot_bytes : ℕ
  pub slots : ℕ
  pub process_limit_bytes : ℕ
  pub model_windows : Bool
  pub registered_limit_bytes : ℕ

pub record Transport : Type 0 where
  pub slot_size_bytes : ℕ
  pub slots : ℕ
  pub cache : Option CacheConfig

-- `ValueError`, the empty dict, or the configuration.
pub data Resolution : Type 0 where
  rejected : Resolution
  no_transport : Resolution
  resolved : Transport → Resolution

abbrev pub mib : ℕ
mib = 1048576

abbrev pub segment_bytes : ℕ
segment_bytes = 67108864

abbrev pub gibibytes : ℕ → ℕ
gibibytes n = n * 1073741824

unfoldable pub ceil_div : ℕ → ℕ → ℕ
ceil_div a b = (a + b - 1) / b

unfoldable pub plain_transport : ℕ → Transport
plain_transport staging_bytes =
    let window = min segment_bytes staging_bytes in
    record { slot_size_bytes = window; slots = ceil_div staging_bytes window; cache = none }

abbrev pub cached : Transport → CacheConfig → Transport
cached transport cache = record transport { cache = some cache }

-- The registration ceiling: whole segments, at least one.
unfoldable pub with_registered : Transport → CacheConfig → ℕ → Resolution
with_registered transport cache registered_bytes =
    if cache.model_windows && ltb 0 registered_bytes
    then (if ltb registered_bytes cache.slot_bytes || ltb 0 (registered_bytes % cache.slot_bytes)
        then rejected
        else resolved
            (cached transport (record cache { registered_limit_bytes = registered_bytes })))
    else resolved (cached transport cache)

unfoldable pub exceeds_cache : Bool → ℕ → ℕ → ℕ → Bool
exceeds_cache model_windows slot_bytes slots process_limit =
    ltb segment_bytes slot_bytes
    || (ltb (if model_windows then gibibytes 32 else 128 * mib) (slot_bytes * slots)
        || ltb (if model_windows then gibibytes 40 else gibibytes 1) process_limit)

-- The ring with a source cache of `slots` slots.
unfoldable pub with_cache : ℕ → Bool → ℕ → ℕ → ℕ → Resolution
with_cache staging_bytes model_windows slot_bytes slots registered_bytes =
    let transport = plain_transport staging_bytes in
    let process_limit = transport.slot_size_bytes * transport.slots + slot_bytes * slots in
    let cache : CacheConfig = record {
      slot_bytes = slot_bytes;
      slots = slots;
      process_limit_bytes = process_limit;
      model_windows = model_windows;
      registered_limit_bytes = 0;
    } in
    if exceeds_cache model_windows slot_bytes slots process_limit
    then rejected
    else with_registered transport cache registered_bytes

-- The ring and a cache of so many MiB slots, after the amounts have been checked.
unfoldable pub resolve_slots : ℕ → Bool → ℕ → ℕ → Bool → Bool → ℕ → Resolution
resolve_slots staging_bytes model_windows slot_mb slots host_cache native_transport
      registered_bytes =
    let cache_requested = ltb 0 slot_mb || ltb 0 slots in
    if not cache_requested && not native_transport
    then no_transport
    else if cache_requested && (eqb slot_mb 0 || eqb slots 0)
    then rejected
    else if cache_requested && host_cache
    then rejected
    else if eqb staging_bytes 0
    then rejected
    else if cache_requested
    then with_cache staging_bytes model_windows (slot_mb * mib) slots registered_bytes
    else if ltb (gibibytes 2) staging_bytes
    then rejected
    else resolved (plain_transport staging_bytes)

unfoldable pub resolve_bytes : ℕ → ℕ → ℕ → Bool → Bool → ℕ → ℕ → Resolution
resolve_bytes staging_bytes slot_mb slots host_cache native_transport cache_bytes registered_bytes =
    if ltb (gibibytes 32) cache_bytes || ltb cache_bytes registered_bytes
    then rejected
    else if ltb 0 cache_bytes && (ltb 0 slot_mb || ltb 0 slots)
    then rejected
    else if ltb 0 cache_bytes
    then resolve_slots staging_bytes true 64 (ceil_div cache_bytes segment_bytes) host_cache
        native_transport registered_bytes
    else resolve_slots staging_bytes false slot_mb slots host_cache native_transport
        registered_bytes

unfoldable pub native_source_cache_transport_config :
    ℕ → ℕ → ℕ → Bool → Bool → Amount → Amount → Resolution
native_source_cache_transport_config staging_bytes slot_mb slots host_cache native_transport
      (of_bytes cache) (of_bytes registered) =
    resolve_bytes staging_bytes slot_mb slots host_cache native_transport cache registered
native_source_cache_transport_config staging_bytes slot_mb slots host_cache native_transport
      (of_bytes cache) not_finite =
    rejected
native_source_cache_transport_config staging_bytes slot_mb slots host_cache native_transport
      (of_bytes cache) below_zero =
    rejected
native_source_cache_transport_config staging_bytes slot_mb slots host_cache native_transport
      not_finite registered =
    rejected
native_source_cache_transport_config staging_bytes slot_mb slots host_cache native_transport
      below_zero registered =
    rejected
