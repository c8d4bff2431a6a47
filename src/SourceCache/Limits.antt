-- ===== src/SourceCache/Limits.antt =====
-- A configuration that is resolved covers the staging bytes and keeps to the process's limits.
use native.Mathlib.Nat.{div-add-mod', mod-lt, zero-mod}
use diffusers_dynamic_offloa.Prelude.{
  ℕ, ◌+◌, ◌-◌, ◌*◌, ◌%◌, ◌<◌, ◌≤◌, ◌≡◌, refl, Bool, true, false, ◌&&◌, ◌||◌, not, Option, none,
  some, min, ltb, eqb, Bool-cases, inl, inr, sym, subst, if◌then◌else◌, arith, if_rule,
}
use diffusers_dynamic_offloa.SourceCache.{
  Amount, of_bytes, not_finite, below_zero, CacheConfig, Transport, Resolution, rejected,
  no_transport, resolved, segment_bytes, gibibytes, mib, ceil_div, plain_transport, with_registered,
  exceeds_cache, with_cache, resolve_slots, resolve_bytes, native_source_cache_transport_config,
}

-- With no cache the ring is at most 2 GiB. The cache's slots are of at most 64 MiB, 32 GiB together for the
-- windows of a model and 128 MiB otherwise, and with the ring they fit the process's limit, 40 GiB for the
-- windows of a model and 1 GiB otherwise; registered bytes are whole slots.
abbrev pub CacheFits : ℕ → Option CacheConfig → Type 0
CacheFits ring none = ring ≤ gibibytes 2
CacheFits ring (some cache) =
    (cache.slot_bytes ≤ segment_bytes)
    × (cache.slot_bytes * cache.slots ≤ (if cache.model_windows then gibibytes 32 else 128 * mib))
    × (cache.process_limit_bytes ≡ ring + cache.slot_bytes * cache.slots)
    × (cache.process_limit_bytes ≤ (if cache.model_windows then gibibytes 40 else gibibytes 1))
    × (cache.registered_limit_bytes % cache.slot_bytes ≡ 0)

abbrev pub Covers : ℕ → Transport → Type 0
Covers staging_bytes transport =
    (staging_bytes ≤ transport.slot_size_bytes * transport.slots)
    × (transport.slot_size_bytes * transport.slots < staging_bytes + transport.slot_size_bytes)
    × (transport.slot_size_bytes ≤ segment_bytes)
    × CacheFits (transport.slot_size_bytes * transport.slots) transport.cache

abbrev pub Accepted : ℕ → Resolution → Type 0
Accepted staging_bytes rejected = Unit
Accepted staging_bytes no_transport = Unit
Accepted staging_bytes (resolved transport) = Covers staging_bytes transport

ceil_div-bounds : (a b : ℕ) → 0 < b → (a ≤ b * ceil_div a b) × (b * ceil_div a b < a + b)
unfolding ceil_div
ceil_div-bounds a b pos =
    let whole = div-add-mod' (a + b - 1) b in
    let rest = mod-lt (a + b - 1) pos in (grind arith, grind arith)

plain-bounds :
    (staging_bytes : ℕ)
    → 0 < staging_bytes
    → let ring =
        (plain_transport staging_bytes).slot_size_bytes * (plain_transport staging_bytes).slots in
      (staging_bytes ≤ ring)
      × (ring < staging_bytes + (plain_transport staging_bytes).slot_size_bytes)
      × ((plain_transport staging_bytes).slot_size_bytes ≤ segment_bytes)
unfolding plain_transport
plain-bounds staging_bytes pos =
    let bounds = ceil_div-bounds staging_bytes (min segment_bytes staging_bytes) (omega arith) in
    (bounds.0, bounds.1, omega arith)

registered-Accepted :
    (staging_bytes : ℕ) (transport : Transport) (cache : CacheConfig) (bytes : ℕ)
    → cache.registered_limit_bytes ≡ 0
    → Covers staging_bytes (record transport { cache = some cache })
    → Accepted staging_bytes (with_registered transport cache bytes)
unfolding with_registered
registered-Accepted staging_bytes transport cache bytes unset
      (low, high, small, (slot, all_slots, limit, most, whole)) =
    if_rule (Accepted staging_bytes) (cache.model_windows && ltb 0 bytes) _ _
      (λ windows.
        if_rule (Accepted staging_bytes)
          (ltb bytes cache.slot_bytes || ltb 0 (bytes % cache.slot_bytes)) _ _ (λ _. tt)
          λ fits. (low, high, small, (slot, all_slots, limit, most, ground arith)))
      (λ _. (low, high, small, (slot, all_slots, limit, most, whole)))

with_cache-Accepted :
    (staging_bytes : ℕ) (windows : Bool) (slot_bytes slots registered_bytes : ℕ)
    → 0 < staging_bytes
    → 0 < slot_bytes
    → Accepted staging_bytes (with_cache staging_bytes windows slot_bytes slots registered_bytes)
unfolding with_cache exceeds_cache
with_cache-Accepted staging_bytes windows slot_bytes slots registered_bytes pos slot_pos =
    let (low, high, small) = plain-bounds staging_bytes pos in
    if_rule (Accepted staging_bytes) (exceeds_cache windows slot_bytes slots limit) _ _ (λ _. tt)
      λ fits.
        registered-Accepted staging_bytes (plain_transport staging_bytes) cache registered_bytes
          refl
          (
            low,
            high,
            small,
            (ground arith, cached windows fits, refl, most windows fits, zero-mod slot_bytes),
          )
  where
    limit : ℕ
    limit =
        (plain_transport staging_bytes).slot_size_bytes * (plain_transport staging_bytes).slots
        + slot_bytes * slots

    cache : CacheConfig
    cache = record {
      slot_bytes = slot_bytes;
      slots = slots;
      process_limit_bytes = limit;
      model_windows = windows;
      registered_limit_bytes = 0;
    }

    cached :
        (b : Bool)
        → exceeds_cache b slot_bytes slots limit ≡ false
        → slot_bytes * slots ≤ (if b then gibibytes 32 else 128 * mib)
    cached true e = ground arith
    cached false e = ground arith

    most :
        (b : Bool)
        → exceeds_cache b slot_bytes slots limit ≡ false
        → limit ≤ (if b then gibibytes 40 else gibibytes 1)
    most true e = ground arith
    most false e = ground arith

-- Windows of 64 MiB that reach at most 2 GiB are at most 32; a smaller one is the only one.
ring_le :
    (staging_bytes window windows : ℕ)
    → window ≡ min segment_bytes staging_bytes
    → window * windows < staging_bytes + window
    → staging_bytes ≤ gibibytes 2
    → window * windows ≤ gibibytes 2
ring_le staging_bytes window windows e high small =
    elim (Bool-cases (ltb staging_bytes segment_bytes)) [
      | inl one ↦ let below : staging_bytes < segment_bytes = ground arith in omega arith
      | inr whole ↦
          let above : segment_bytes ≤ staging_bytes = ground arith in
          let full : window ≡ segment_bytes = omega arith in
          subst (λ w. w * windows < staging_bytes + w → w * windows ≤ gibibytes 2) (sym full)
            (λ h. omega arith) high
    ]

plain_ring :
    (staging_bytes : ℕ)
    → 0 < staging_bytes
    → ltb (gibibytes 2) staging_bytes ≡ false
    → CacheFits
        ((plain_transport staging_bytes).slot_size_bytes * (plain_transport staging_bytes).slots)
        (plain_transport staging_bytes).cache
unfolding plain_transport
plain_ring staging_bytes pos small =
    let (low, high, window) = plain-bounds staging_bytes pos in
    ring_le staging_bytes _ _ refl high (ground arith)

slots-Accepted :
    (staging_bytes : ℕ) (windows : Bool) (slot_mb slots : ℕ) (host_cache native_transport : Bool)
    (registered_bytes : ℕ)
    → Accepted staging_bytes (
        resolve_slots staging_bytes windows slot_mb slots host_cache native_transport
          registered_bytes)
unfolding resolve_slots
slots-Accepted staging_bytes windows slot_mb slots host_cache native_transport registered_bytes =
    let requested = ltb 0 slot_mb || ltb 0 slots in
    if_rule A (not requested && not native_transport) _ _ (λ _. tt)
      λ _.
        if_rule A (requested && (eqb slot_mb 0 || eqb slots 0)) _ _ (λ _. tt)
          λ both.
            if_rule A (requested && host_cache) _ _ (λ _. tt)
              λ _.
                if_rule A (eqb staging_bytes 0) _ _ (λ _. tt)
                  λ pos.
                    if_rule A requested _ _
                      (λ cache.
                        with_cache-Accepted staging_bytes windows (slot_mb * mib) slots
                          registered_bytes (ground arith) (slot both cache))
                      λ _.
                        if_rule A (ltb (gibibytes 2) staging_bytes) _ _ (λ _. tt)
                          λ small.
                            let (low, high, window) = plain-bounds staging_bytes (ground arith) in
                            (low, high, window, plain_ring staging_bytes (ground arith) small)
  where
    A : Resolution → Type 0
    A = Accepted staging_bytes

    slot :
        (ltb 0 slot_mb || ltb 0 slots) && (eqb slot_mb 0 || eqb slots 0) ≡ false
        → (ltb 0 slot_mb || ltb 0 slots) ≡ true
        → 0 < slot_mb * mib
    slot both cache = ground arith

-- Every configuration that is accepted, whatever is asked for: the ring's slots hold the staging bytes with
-- less than a slot to spare, and have at most 64 MiB; with no cache the ring has at most 2 GiB; with a cache
-- its slots have at most 64 MiB each and 32 GiB together for a model's windows, 128 MiB otherwise, the
-- process's limit is the ring and the cache together and is at most 40 GiB for a model's windows and 1 GiB
-- otherwise, and registered bytes are whole slots.
pub native_source_cache_transport_config-Accepted :
    (staging_bytes slot_mb slots : ℕ) (host_cache native_transport : Bool)
    (source_cache source_registered : Amount)
    → Accepted staging_bytes (
        native_source_cache_transport_config staging_bytes slot_mb slots host_cache native_transport
          source_cache source_registered)
unfolding native_source_cache_transport_config resolve_bytes
native_source_cache_transport_config-Accepted staging_bytes slot_mb slots host_cache
      native_transport (of_bytes cache) (of_bytes registered) =
    if_rule (Accepted staging_bytes) (ltb (gibibytes 32) cache || ltb cache registered) _ _
      (λ _. tt)
      λ _.
        if_rule (Accepted staging_bytes) (ltb 0 cache && (ltb 0 slot_mb || ltb 0 slots)) _ _
          (λ _. tt)
          λ _.
            if_rule (Accepted staging_bytes) (ltb 0 cache) _ _
              (λ _.
                slots-Accepted staging_bytes true 64 (ceil_div cache segment_bytes) host_cache
                  native_transport registered)
              (λ _.
                slots-Accepted staging_bytes false slot_mb slots host_cache native_transport
                  registered)
native_source_cache_transport_config-Accepted staging_bytes slot_mb slots host_cache
      native_transport (of_bytes cache) not_finite =
    tt
native_source_cache_transport_config-Accepted staging_bytes slot_mb slots host_cache
      native_transport (of_bytes cache) below_zero =
    tt
native_source_cache_transport_config-Accepted staging_bytes slot_mb slots host_cache
      native_transport not_finite registered =
    tt
native_source_cache_transport_config-Accepted staging_bytes slot_mb slots host_cache
      native_transport below_zero registered =
    tt
