-- ===== src/Tests/Store.antt =====
-- A weight store of 16 bytes in units of 8: two weights loaded, one of them released.
use diffusers_dynamic_offloa.Prelude.{
  ◌+◌, ◌<◌, ◌≤◌, ◌≡◌, ◌%◌, refl, true, String, string_eq, some, List, [], ◌∷◌, arith,
}
use diffusers_dynamic_offloa.Outcome.{Post, IsPython, left_by}
use diffusers_dynamic_offloa.Rounding.{round_up, round_up-bounds}
use diffusers_dynamic_offloa.Dict.{get, put}
use diffusers_dynamic_offloa.Sorting.{sorted, insert}
use diffusers_dynamic_offloa.WeightStore.{
  Store, Slot, init, reserve, reserve_new, acquire, acquire_slot, release, release_slot, evict,
  ensure_capacity, ensure_loop, close, candidates, evictable, fetch, materialize, map_slot,
  map_handle, call,
}
use diffusers_dynamic_offloa.WeightStore.Invariant.{IsConsistent}
use diffusers_dynamic_offloa.WeightStore.Eviction.{Good, Candidate, evict-Good}
use diffusers_dynamic_offloa.WeightStore.Capacity.{ensure_capacity-Post}
use diffusers_dynamic_offloa.WeightStore.Operations.{
  Raised, Leased, Fits, reserve-Post, acquire-Post,
}
use diffusers_dynamic_offloa.WeightStore.Releasing.{Returned, Refused, release-Post}
use diffusers_dynamic_offloa.WeightStore.Recency.{candidates-least}
use diffusers_dynamic_offloa.WeightStore.Lifecycle.{
  Command, reserves, acquires, releases, step, run, run-IsConsistent, close-Post,
}
use diffusers_dynamic_offloa.Tests.Memory.{working, tensor_at}

abbrev history : List Command
history =
    reserves "a" 8
    ∷ acquires "a" (tensor_at 64) 1
    ∷ acquires "b" (tensor_at 128) 2
    ∷ releases "a" 3
    ∷ []

abbrev loaded : Store
loaded = run working history (init 16 8)

loaded-IsConsistent : IsConsistent loaded
loaded-IsConsistent = run-IsConsistent working 16 8 history

run_example : IsConsistent (run working history (init 16 8))
run_example = run-IsConsistent working 16 8 history

acquire_example : Post (Leased working "c" 4) Raised (acquire working "c" (tensor_at 192) 4 loaded)
acquire_example = acquire-Post working loaded "c" (tensor_at 192) 4 loaded-IsConsistent

reserve_example :
    Post
      (λ _ t. IsConsistent t × Fits working "c" 8 loaded.granularity t)
      Raised
      (reserve working "c" 8 loaded)
reserve_example = reserve-Post working loaded "c" 8 loaded-IsConsistent

release_example :
    Post (λ _ t. Returned "b" 5 loaded t) (Refused "b" 5 loaded) (release working "b" 5 loaded)
release_example = release-Post working loaded "b" 5 loaded-IsConsistent

evict_example : Good loaded (left_by (evict working "a" loaded))
evict_example = evict-Good working loaded "a" loaded-IsConsistent

ensure_capacity_example :
    Post
      (λ _ t. 0 < t.max_resident_bytes → t.stats.resident_bytes + 8 ≤ t.max_resident_bytes)
      IsPython
      (ensure_capacity working 8 loaded)
ensure_capacity_example = ensure_capacity-Post working 8 loaded loaded-IsConsistent

close_store_example :
    Post (λ _ t. (t.slots ≡ []) × (t.stats.resident_bytes ≡ 0)) IsPython (close working loaded)
close_store_example = close-Post working loaded loaded-IsConsistent

abbrev slot_a : Slot
slot_a = record {
  key = "a";
  address = 1;
  size = 8;
  handle = some 2;
  storage = true;
  active_leases = 0;
  last_used = 3;
  last_event = some 11;
}

only_a : candidates loaded ≡ slot_a ∷ []
unfolding candidates sorted insert run step reserve reserve_new acquire acquire_slot release
    release_slot fetch materialize map_slot map_handle call ensure_capacity ensure_loop round_up get
    put
only_a = refl

candidates_example :
    Candidate loaded slot_a
    × ((k : String) (other : Slot)
        → get k loaded.slots ≡ some other
        → evictable other ≡ true
        → 3 ≤ other.last_used)
candidates_example = candidates-least loaded loaded-IsConsistent only_a

round_up_example : (13 ≤ round_up 13 8) × (round_up 13 8 < 13 + 8) × (round_up 13 8 % 8 ≡ 0)
round_up_example = round_up-bounds 13 8 (omega arith)
