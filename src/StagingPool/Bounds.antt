-- ===== src/StagingPool/Bounds.antt =====
-- Every method that stages moves the offset of `PinnedStagingPool` alone, and within the slot.
use diffusers_dynamic_offloa.Prelude.{
  ◌+◌, ◌-◌, ◌≤◌, ◌≡◌, refl, ◌∙◌, string_eq, true, not, none, List, [], ◌∷◌, ltb, eqb, sum_of,
  if_rule, false, Option-cases, inl, inr, arith,
}
use mathlib.Core.List.{reverse}
use diffusers_dynamic_offloa.Tensors.{Tensor, size_bytes}
use diffusers_dynamic_offloa.FileSlices.{FileSlice}
use diffusers_dynamic_offloa.Outcome.{
  Outcome, done, raise, pure, left_by, left_by-Post, continue, assertion_error, value_error,
  runtime_error, Post, Post-continue, Post-raise_if, Post-or_raise, Post-weaken,
}
use diffusers_dynamic_offloa.StagingPool.{
  Run, Entry, View, Pool, Files, gather_entry, gather, slice_bytes, not_staged_from,
  read_file_slice, stage_file_slices_async, stage_file_slices, stage_file_slice, stage,
}
use diffusers_dynamic_offloa.StagingPool.Staging.{
  size_kept, Failed, failed, Bounded, read_file_slice-Post, stage_file_slices-Post,
}

module _ (files : Files) where
  stage_file_slices-inactive :
      (entries : List Entry) (p : Pool)
      → p.active_slot ≡ none
      → Post (λ views t. t ≡ p) (Failed p) (stage_file_slices files entries p)
  unfolding stage_file_slices gather gather_entry
  stage_file_slices-inactive [] p idle = refl
  stage_file_slices-inactive ((source, slice) ∷ entries) p idle =
      Post-continue (λ _ _. ⊥) _ (Failed p) (gather true ((source, slice) ∷ entries) [] p) _
        (Post-continue (λ _ _. ⊥) _ (Failed p) (gather_entry true (source, slice) [] p) _
          (Post-raise_if _ (Failed p) (not_staged_from source) value_error p _
            (λ _. failed p (λ h. cc))
            λ _.
              Post-raise_if _ (Failed p) (not (eqb (size_bytes source) slice.size_bytes))
                value_error p _ (λ _. failed p (λ h. cc))
                λ _.
                  Post-raise_if _ (Failed p) (ltb p.size_bytes (p.offset + size_bytes source))
                    runtime_error p _ (λ _. failed p (λ h. cc))
                    λ _.
                      Post-or_raise _ (Failed p) p.active_slot runtime_error p _
                        (failed p (λ h. cc)) λ k found. cc)
          (λ r t h. absurd h))
        (λ r t h. absurd h)

  -- Staging a list of slices, with a slot or without one, moves the offset alone, and within bounds.
  pub stage_file_slices-Bounded :
      (entries : List Entry) (p : Pool)
      → p.offset ≤ p.size_bytes
      → Bounded p (left_by (stage_file_slices files entries p))
  stage_file_slices-Bounded entries p fits = elim (Option-cases p.active_slot) [
    | inl idle ↦
        left_by-Post (Bounded p) _ _ (stage_file_slices files entries p)
          (stage_file_slices-inactive entries p idle) (λ a t h. rw h (refl, fits))
          (λ e t h. (h.1, h.2 fits))
    | inr (slot, active) ↦
        left_by-Post (Bounded p) _ _ (stage_file_slices files entries p)
          (stage_file_slices-Post files entries slot p active fits) (λ a t h. (h.4, h.3))
          (λ e t h. (h.1, h.2 fits))
  ]

  views_alone :
      (entries : List Entry) (p : Pool)
      → Bounded p (left_by (stage_file_slices files entries p))
      → Bounded p (
          left_by (
            continue
              (stage_file_slices files entries p)
              λ views. pure {A = List View × List Run} (views, [])))
  views_alone entries p h = from (stage_file_slices files entries p) h
    where
      from :
          (o : Outcome Pool (List View))
          → Bounded p (left_by o)
          → Bounded p (left_by (continue o λ views. pure {A = List View × List Run} (views, [])))
      from (done views q) h = h
      from (raise e q) h = h

  gather_entry-Bounded :
      (source : Tensor) (slice : FileSlice) (runs : List Run) (p : Pool)
      → p.offset ≤ p.size_bytes
      → Post (λ _ t. Bounded p t) (λ _ t. Bounded p t) (gather_entry false (source, slice) runs p)
  unfolding gather_entry
  gather_entry-Bounded source slice runs p fits =
      Post-raise_if (λ _ t. Bounded p t) (λ _ t. Bounded p t)
        (not (eqb (size_bytes source) slice.size_bytes)) value_error p _ (λ _. (refl, fits))
        λ _.
          Post-raise_if (λ _ t. Bounded p t) (λ _ t. Bounded p t)
            (ltb p.size_bytes (p.offset + size_bytes source)) runtime_error p _ (λ _. (refl, fits))
            λ room.
              Post-or_raise (λ _ t. Bounded p t) (λ _ t. Bounded p t) p.active_slot runtime_error p
                _ (refl, fits) λ slot found. (refl, ground arith)

  gather-Bounded :
      (entries : List Entry) (runs : List Run) (p : Pool)
      → p.offset ≤ p.size_bytes
      → Post (λ _ t. Bounded p t) (λ _ t. Bounded p t) (gather false entries runs p)
  unfolding gather
  gather-Bounded [] runs p fits = (refl, fits)
  gather-Bounded ((source, slice) ∷ entries) runs p fits =
      Post-continue (λ _ t. Bounded p t) (λ _ t. Bounded p t) (λ _ t. Bounded p t)
        (gather_entry false (source, slice) runs p) _
        (gather_entry-Bounded source slice runs p fits)
        λ r q (same, in_q).
          Post-continue (λ _ t. Bounded p t) (λ _ t. Bounded p t) (λ _ t. Bounded p t)
            (gather false entries r.0 q) _
            (Post-weaken (λ _ t. Bounded q t) (λ _ t. Bounded p t) (λ _ t. Bounded q t)
              (λ _ t. Bounded p t) (gather false entries r.0 q) (gather-Bounded entries r.0 q in_q)
              (λ _ t h. (h.0 ∙ same, h.1)) (λ _ t h. (h.0 ∙ same, h.1)))
            λ _ t h. h

  -- So does staging them without waiting for the reads.
  pub stage_file_slices_async-Bounded :
      (entries : List Entry) (p : Pool)
      → p.offset ≤ p.size_bytes
      → Bounded p (left_by (stage_file_slices_async files entries p))
  unfolding stage_file_slices_async
  stage_file_slices_async-Bounded [] p fits = (refl, fits)
  stage_file_slices_async-Bounded (entry ∷ entries) p fits =
      if_rule {A = Outcome Pool (List View × List Run)} (λ o. Bounded p (left_by o))
        p.windows_file_reader _ _
        (λ _.
          left_by-Post {A = List View × List Run} (Bounded p) (λ _ t. Bounded p t)
            (λ _ t. Bounded p t) _
            (Post-continue (λ _ t. Bounded p t) (λ _ t. Bounded p t) (λ _ t. Bounded p t)
              (gather false (entry ∷ entries) [] p) _ (gather-Bounded (entry ∷ entries) [] p fits)
              λ r q h.
                Post-raise_if (λ _ t. Bounded p t) (λ _ t. Bounded p t)
                  (not (eqb (q.offset - p.offset) (sum_of slice_bytes (entry ∷ entries))))
                  assertion_error q (λ _. pure (r.1, reverse r.0)) (λ _. h) λ _. h)
            (λ _ t h. h) (λ _ t h. h))
        (λ _. views_alone (entry ∷ entries) p (stage_file_slices-Bounded (entry ∷ entries) p fits))

  pub stage_file_slice-Bounded :
      (source : Tensor) (slice : FileSlice) (p : Pool)
      → p.offset ≤ p.size_bytes
      → Bounded p (left_by (stage_file_slice files source slice p))
  unfolding stage_file_slice
  stage_file_slice-Bounded source slice p fits =
      left_by-Post (Bounded p) _ _ (stage_file_slice files source slice p)
        (Post-raise_if (λ _ t. Bounded p t) (Failed p) (not_staged_from source) value_error p _
          (λ _. failed p (λ h. cc))
          λ _.
            Post-raise_if _ (Failed p) (not (eqb (size_bytes source) slice.size_bytes)) value_error
              p _ (λ _. failed p (λ h. cc))
              λ _.
                Post-raise_if _ (Failed p) (ltb p.size_bytes (p.offset + size_bytes source))
                  runtime_error p _ (λ _. failed p (λ h. cc))
                  λ room.
                    Post-or_raise _ (Failed p) p.active_slot runtime_error p _ (failed p (λ h. cc))
                      λ k found.
                        Post-continue _ _ (Failed p) (read_file_slice files _ p) _
                          (read_file_slice-Post files _ p)
                          λ u t q. (q.0, ground (arith, size_kept p t q.0)))
        (λ a t h. h) (λ e t h. (h.1, h.2 fits))

-- The same of a copy from memory.
pub stage-Bounded :
    (source : Tensor) (p : Pool) → p.offset ≤ p.size_bytes → Bounded p (left_by (stage source p))
unfolding stage
stage-Bounded source p fits =
    left_by-Post (Bounded p) _ _ (stage source p)
      (Post-raise_if (λ _ t. Bounded p t) (Failed p) (not_staged_from source) value_error p _
        (λ _. failed p (λ h. cc))
        λ _.
          Post-raise_if _ (Failed p) (ltb p.size_bytes (p.offset + size_bytes source)) runtime_error
            p _ (λ _. failed p (λ h. cc))
            λ room.
              Post-or_raise _ (Failed p) p.active_slot runtime_error p _ (failed p (λ h. cc))
                λ k found. (refl, ground arith))
      (λ a t h. h) (λ e t h. (h.1, h.2 fits))
