-- ===== src/Tests/Staging.antt =====
-- A ring of two slots of 32 bytes, and two slices of a shard that follow one another.
use diffusers_dynamic_offloa.Prelude.{
  ◌+◌, ◌≤◌, ◌≡◌, refl, true, false, none, some, List, [], ◌∷◌, ◌++◌, sum_of, arith,
}
use diffusers_dynamic_offloa.Outcome.{Post}
use diffusers_dynamic_offloa.StagingPool.{Pool, Entry, init, slice_bytes, stage_file_slices}
use diffusers_dynamic_offloa.StagingPool.Coalescing.{moved, requested}
use diffusers_dynamic_offloa.StagingPool.Staging.{layout, Failed, Same, stage_file_slices-Post}
use diffusers_dynamic_offloa.StagingPool.RingSafety.{
  begins, stages_slices, marks, IsRing, run, run-IsRing,
}
use diffusers_dynamic_offloa.Tests.Memory.{shard, tensor_at, slice_at}

abbrev fresh : Pool
fresh = record {
  size_bytes = 32;
  slots = 2;
  ready_events = none ∷ none ∷ [];
  stats = record { slot_reuse_waits = 0; source_copy_bytes = 0; shard_read_bytes = 0 };
  next_slot = 0;
  active_slot = none;
  offset = 0;
  checkpoint_maps = [];
  windows_file_reader = false;
  syncs = [];
  reads = [];
}

abbrev writing : Pool
writing = record fresh { active_slot = some 0; next_slot = 1 }

abbrev entries : List Entry
entries = (tensor_at 64, slice_at 0) ∷ (tensor_at 128, slice_at 8) ∷ []

started : init 32 2 4 false ≡ some fresh
unfolding init
started = refl

ring_example : IsRing (
    run shard
      (begins true
        ∷ stages_slices entries
        ∷ marks 7
        ∷ begins true
        ∷ marks 8
        ∷ begins false
        ∷ begins true
        ∷ [])
      fresh)
ring_example =
    run-IsRing shard 32 2 4 false
      (begins true
        ∷ stages_slices entries
        ∷ marks 7
        ∷ begins true
        ∷ marks 8
        ∷ begins false
        ∷ begins true
        ∷ [])
      started

stage_file_slices_example :
    Post
      (λ views t.
        (moved t.reads ≡ moved writing.reads ++ requested 0 0 entries)
        × (views ≡ layout 0 0 entries)
        × (t.offset ≡ 0 + sum_of slice_bytes entries)
        × (t.offset ≤ t.size_bytes)
        × Same writing t)
      (Failed writing)
      (stage_file_slices shard entries writing)
stage_file_slices_example = stage_file_slices-Post shard entries 0 writing refl (omega arith)
