-- ===== src/StagingPool/RingSafety.antt =====
-- The ring of `PinnedStagingPool`: a slot is written to only after the upload that last read from it.
use mathlib.Core.Option.{some-injective}
use native.Mathlib.Nat.{mod-lt}
use diffusers_dynamic_offloa.Prelude.{
  ℕ, zero, suc, ◌+◌, ◌%◌, ◌<◌, ◌≤◌, ◌≡◌, ◌≢◌, not, refl, sym, ◌∙◌, ap, subst, Bool, ◌||◌, Option,
  none, some, List, [], ◌∷◌, eqb, replicate, length, length-set, length-replicate, Bool-cases, inl,
  inr, ◌⊎◌, arith,
}
use diffusers_dynamic_offloa.Tensors.{Tensor}
use diffusers_dynamic_offloa.FileSlices.{FileSlice}
use diffusers_dynamic_offloa.Outcome.{
  left_by, runtime_error, or_raise, continue, Post-or_raise, left_by-Post, left_by-raise_if,
}
use diffusers_dynamic_offloa.StagingPool.Staging.{Ring, Same}
use diffusers_dynamic_offloa.StagingPool.Bounds.{
  stage-Bounded, stage_file_slice-Bounded, stage_file_slices-Bounded,
  stage_file_slices_async-Bounded,
}
use diffusers_dynamic_offloa.StagingPool.{
  Sync, recorded, waited, stage_file_slices_async, Pool, Files, Entry, init, begin_upload,
  mark_upload, stage, stage_file_slice, stage_file_slices, event_of, start_slot,
}

-- The event was waited for, and has not been recorded since.
abbrev pub Waited : ℕ → List Sync → Type 0
Waited event [] = ⊥
Waited event (recorded x ∷ syncs) = (event ≢ x) × Waited event syncs
Waited event (waited x ∷ syncs) = (event ≡ x) ⊎ Waited event syncs

pub record IsRing (p : Pool) : Type 0 where
  pub sized : length p.ready_events ≡ p.slots
  pub next : p.next_slot < p.slots
  pub active : (slot : ℕ) → p.active_slot ≡ some slot → slot < p.slots
  pub fits : p.offset ≤ p.size_bytes
  -- What is staged now goes to a slot whose last upload has ended.
  pub waited :
      (slot event : ℕ)
      → p.active_slot ≡ some slot
      → event_of p.ready_events slot ≡ some event
      → Waited event p.syncs

event_of-replicate : (n slot : ℕ) → event_of (replicate n none) slot ≡ none
event_of-replicate zero slot = refl
event_of-replicate (suc n) zero = refl
event_of-replicate (suc n) (suc slot) = event_of-replicate n slot

pub init-IsRing :
    (size slots chunk : ℕ) (windows : Bool) {p : Pool}
    → init size slots chunk windows ≡ some p
    → IsRing p
unfolding init
init-IsRing size slots chunk windows {p} h =
    elim (Bool-cases (eqb size 0 || eqb slots 0 || eqb chunk 0)) [
      | inl bad ↦ absurd (ground arith)
      | inr good ↦ subst IsRing (some-injective fresh p (rw good at h)) (record {
        sized = length-replicate slots none;
        next = ground arith;
        active = λ slot e. cc;
        fits = omega arith;
        waited = λ slot event e. cc;
      })
    ]
  where
    fresh : Pool
    fresh = record {
      size_bytes = size;
      slots = slots;
      ready_events = replicate slots none;
      stats = record { slot_reuse_waits = 0; source_copy_bytes = 0; shard_read_bytes = 0 };
      next_slot = 0;
      active_slot = none;
      offset = 0;
      checkpoint_maps = [];
      windows_file_reader = windows;
      syncs = [];
      reads = [];
    }

start_slot-IsRing :
    (synchronizes : Bool) (p : Pool) (slot : ℕ) (event : Option ℕ)
    → IsRing p
    → slot < p.slots
    → event_of p.ready_events slot ≡ event
    → IsRing (left_by (start_slot synchronizes slot event p))
unfolding start_slot
start_slot-IsRing synchronizes p slot none v h e = record {
  sized = v.sized;
  next = v.next;
  active = λ k q. ground arith;
  fits = omega arith;
  waited = λ k x q r.
      let same : k ≡ slot = ground arith in absurd (cc (e, r, ap (event_of p.ready_events) same));
}
start_slot-IsRing synchronizes p slot (some event) v h e =
    left_by-raise_if IsRing (not synchronizes) runtime_error p _ v λ _. record {
      sized = v.sized;
      next = v.next;
      active = λ k q. ground arith;
      fits = omega arith;
      waited = λ k x q r.
          let same : k ≡ slot = ground arith in inl (cc (e, r, ap (event_of p.ready_events) same));
    }

pub begin_upload-IsRing :
    (synchronizes : Bool) (p : Pool) → IsRing p → IsRing (left_by (begin_upload synchronizes p))
unfolding begin_upload
begin_upload-IsRing synchronizes p v =
    start_slot-IsRing synchronizes (record p { next_slot = (p.next_slot + 1) % p.slots })
      p.next_slot _
      (record {
        sized = v.sized;
        next = mod-lt (p.next_slot + 1) (omega (arith, v.next));
        active = v.active;
        fits = v.fits;
        waited = v.waited;
      })
      v.next refl

pub mark_upload-IsRing : (event : ℕ) (p : Pool) → IsRing p → IsRing (left_by (mark_upload event p))
unfolding mark_upload
mark_upload-IsRing event p v =
    left_by-Post IsRing _ _ (continue (or_raise p.active_slot runtime_error p) _)
      (Post-or_raise (λ _ t. IsRing t) (λ _ t. IsRing t) p.active_slot runtime_error p _ v
        λ slot e. record {
          sized = length-set p.ready_events slot (some event) ∙ v.sized;
          next = v.next;
          active = λ k q. cc;
          fits = v.fits;
          waited = λ k x q. cc;
        })
      (λ _ t h. h) (λ _ t h. h)

-- Staging moves the offset alone.
staged-IsRing : (p t : Pool) → Same p t → t.offset ≤ t.size_bytes → IsRing p → IsRing t
staged-IsRing p t same fits v =
    let facts = subst RingFacts (sym same) (v.sized, v.next, v.active, v.waited) in
    record { sized = facts.0; next = facts.1; active = facts.2; fits = fits; waited = facts.3 }
  where
    RingFacts : Ring → Type 0
    RingFacts r =
        (length r.ready_events ≡ r.slots)
        × (r.next_slot < r.slots)
        × ((slot : ℕ) → r.active_slot ≡ some slot → slot < r.slots)
        × ((slot event : ℕ)
            → r.active_slot ≡ some slot
            → event_of r.ready_events slot ≡ some event
            → Waited event r.syncs)

-- The calls that a client of the pool makes; `begins` says whether a wait for an event returns.
pub data Command : Type 0 where
  begins : (synchronizes : Bool) → Command
  stages : Tensor → Command
  stages_slice : Tensor → FileSlice → Command
  stages_slices : List Entry → Command
  stages_slices_async : List Entry → Command
  marks : ℕ → Command

module _ (files : Files) where
  -- The state after a call, whether it returns or raises.
  pub step : Command → Pool → Pool
  step (begins synchronizes) p = left_by (begin_upload synchronizes p)
  step (stages source) p = left_by (stage source p)
  step (stages_slice source slice) p = left_by (stage_file_slice files source slice p)
  step (stages_slices entries) p = left_by (stage_file_slices files entries p)
  step (stages_slices_async entries) p = left_by (stage_file_slices_async files entries p)
  step (marks event) p = left_by (mark_upload event p)

  pub run : List Command → Pool → Pool
  run [] p = p
  run (c ∷ cs) p = run cs (step c p)

  step-IsRing : (c : Command) (p : Pool) → IsRing p → IsRing (step c p)
  unfolding step
  step-IsRing (begins synchronizes) p v = begin_upload-IsRing synchronizes p v
  step-IsRing (stages source) p v =
      let b = stage-Bounded source p v.fits in staged-IsRing p _ b.0 b.1 v
  step-IsRing (stages_slice source slice) p v =
      let b = stage_file_slice-Bounded files source slice p v.fits in staged-IsRing p _ b.0 b.1 v
  step-IsRing (stages_slices entries) p v =
      let b = stage_file_slices-Bounded files entries p v.fits in staged-IsRing p _ b.0 b.1 v
  step-IsRing (stages_slices_async entries) p v =
      let b = stage_file_slices_async-Bounded files entries p v.fits in staged-IsRing p _ b.0 b.1 v
  step-IsRing (marks event) p v = mark_upload-IsRing event p v

  from-IsRing : (cs : List Command) (p : Pool) → IsRing p → IsRing (run cs p)
  unfolding run
  from-IsRing [] p v = v
  from-IsRing (c ∷ cs) p v = from-IsRing cs (step c p) (step-IsRing c p v)

  -- From a pool that the constructor makes, after any sequence of `begin_upload`, `stage`, `stage_file_slice`,
  -- `stage_file_slices`, `stage_file_slices_async` and `mark_upload`, whether they return or raise: the event of
  -- the slot that is being written, if it has one, was waited for and has not been recorded since, and nothing
  -- is staged past the slot's end.
  pub run-IsRing :
      (size slots chunk : ℕ) (windows : Bool) (cs : List Command) {p : Pool}
      → init size slots chunk windows ≡ some p
      → IsRing (run cs p)
  run-IsRing size slots chunk windows cs {p} h =
      from-IsRing cs p (init-IsRing size slots chunk windows h)
