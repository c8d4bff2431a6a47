-- ===== src/WeightStore/Lifecycle.antt =====
-- Whole lives of a `VmmWeightStore`: any history of calls, and `close`.
use diffusers_dynamic_offloa.Prelude.{
  ℕ, ◌-◌, ◌≡◌, refl, String, not, Option, some, none, arith, eqb, List, [], ◌∷◌,
}
use diffusers_dynamic_offloa.Tensors.{Tensor}
use diffusers_dynamic_offloa.Dict.{total, get}
use diffusers_dynamic_offloa.Outcome.{
  left_by, runtime_error, Post, Post-continue, Post-raise_if, left_by-Post, IsPython,
}
use diffusers_dynamic_offloa.CudaDriver.{Driver}
use diffusers_dynamic_offloa.WeightStore.{
  Store, Slot, init, reserve, acquire, release, evict, close, close_loop, close_slot, unmap,
}
use diffusers_dynamic_offloa.WeightStore.Invariant.{IsConsistent, mapped_size}
use diffusers_dynamic_offloa.WeightStore.Eviction.{evict-Good}
use diffusers_dynamic_offloa.WeightStore.Capacity.{call-Post, sync-Post}
use diffusers_dynamic_offloa.WeightStore.Operations.{call_tail-Post, reserve-Post, acquire-Post}
use diffusers_dynamic_offloa.WeightStore.Releasing.{release-Post}

-- What a client may ask of an open store, in any order and with any arguments.
pub data Command : Type 0 where
  reserves : String → ℕ → Command
  acquires : String → Tensor → ℕ → Command
  releases : String → ℕ → Command
  evicts : String → Command

init-IsConsistent : (budget granularity : ℕ) → IsConsistent (init budget granularity)
unfolding total get
init-IsConsistent budget granularity = record {
  resident = refl;
  reserved = refl;
  bounded = λ h. omega arith;
  distinct = tt;
  slot_ok = λ k slot e. cc;
}

module _ (driver : Driver) where
  -- The state after a command, whether it returns or raises.
  unfoldable pub step : Command → Store → Store
  step (reserves key size) s = left_by (reserve driver key size s)
  step (acquires key source now) s = left_by (acquire driver key source now s)
  step (releases key now) s = left_by (release driver key now s)
  step (evicts key) s = left_by (evict driver key s)

  unfoldable pub run : List Command → Store → Store
  run [] s = s
  run (c ∷ cs) s = run cs (step c s)

  step-IsConsistent : (c : Command) (s : Store) → IsConsistent s → IsConsistent (step c s)
  unfolding step
  step-IsConsistent (reserves key size) s v =
      left_by-Post IsConsistent _ _ (reserve driver key size s) (reserve-Post driver s key size v)
        (λ a t h. h.0) (λ e t h. h.0)
  step-IsConsistent (acquires key source now) s v =
      left_by-Post IsConsistent _ _ (acquire driver key source now s)
        (acquire-Post driver s key source now v) (λ a t h. h.0) (λ e t h. h.0)
  step-IsConsistent (releases key now) s v =
      left_by-Post IsConsistent _ _ (release driver key now s) (release-Post driver s key now v)
        (λ a t h. h.0) (λ e t h. h.0.0)
  step-IsConsistent (evicts key) s v = (evict-Good driver s key v).0

  -- After every history of reservations, acquisitions, releases and evictions on a new store, the failed ones
  -- included and whatever the driver answers, the store is consistent: the counters of reserved and of
  -- resident bytes are the sums over the slots, and leased slots are mapped.
  pub run-IsConsistent :
      (budget granularity : ℕ) (cs : List Command) → IsConsistent (run cs (init budget granularity))
  unfolding run
  run-IsConsistent budget granularity cs =
      from cs (init budget granularity) (init-IsConsistent budget granularity)
    where
      from : (cs : List Command) (s : Store) → IsConsistent s → IsConsistent (run cs s)
      from [] s v = v
      from (c ∷ cs) s v = from cs (step c s) (step-IsConsistent c s v)

  close_slot-Post :
      (key : String) (slot : Slot) (handle : Option ℕ) (s : Store)
      → slot.handle ≡ handle
      → Post
          (λ _ t. t.stats.resident_bytes ≡ s.stats.resident_bytes - mapped_size slot)
          IsPython
          (close_slot driver key slot handle s)
  unfolding close_slot unmap
  close_slot-Post key slot none s e =
      call_tail-Post driver _ IsPython _ s (λ h. cc) (λ n. ground arith)
  close_slot-Post key slot (some handle) s e =
      Post-raise_if _ IsPython (not (eqb slot.active_leases 0)) runtime_error s _ (λ _ h. cc)
        λ idle. sync-Post driver _ slot.last_event s _ λ n trace.
          Post-continue (λ _ t. t.stats.resident_bytes ≡ s.stats.resident_bytes - mapped_size slot)
            _ IsPython (unmap driver key slot handle (record s { trace = trace })) _
            (call-Post driver _ _ _ _ λ m. call-Post driver _ _ _ _ λ k. ground arith)
            (λ u t h. call_tail-Post driver _ IsPython _ t (λ p. cc) (λ m. h))

  close_loop-Post :
      (entries : List (String × Slot)) (s : Store)
      → total mapped_size entries ≡ s.stats.resident_bytes
      → Post
          (λ _ t. (t.slots ≡ []) × (t.stats.resident_bytes ≡ 0))
          IsPython
          (close_loop driver entries s)
  unfolding close_loop total
  close_loop-Post [] s e = (refl, ground arith)
  close_loop-Post ((key, slot) ∷ entries) s e =
      Post-continue _ _ IsPython (close_slot driver key slot slot.handle s) _
        (close_slot-Post key slot slot.handle s refl)
        λ n t h. close_loop-Post entries t (omega arith)

  -- Where `close` returns, from a consistent store, the store holds no slot and counts no resident byte; it
  -- ends with no lack of fuel.
  pub close-Post :
      (s : Store)
      → IsConsistent s
      → Post (λ _ t. (t.slots ≡ []) × (t.stats.resident_bytes ≡ 0)) IsPython (close driver s)
  unfolding close
  close-Post s v = close_loop-Post s.slots s v.resident
