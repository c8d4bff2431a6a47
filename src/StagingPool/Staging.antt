-- ===== src/StagingPool/Staging.antt =====
-- What `stage_file_slices` does on all its paths.
use mathlib.Core.List.{append_assoc, append-nil}
use diffusers_dynamic_offloa.Prelude.{
  ℕ, ◌+◌, ◌-◌, ◌≤◌, ◌≡◌, ◌≢◌, refl, sym, ◌∙◌, ap, String, string_eq, Bool, true, not, ◌&&◌, Option,
  none, some, List, [], ◌∷◌, ◌++◌, ltb, eqb, sum_of, arith,
}
use diffusers_dynamic_offloa.Tensors.{Tensor, size_bytes}
use diffusers_dynamic_offloa.FileSlices.{FileSlice}
use diffusers_dynamic_offloa.Dict.{get}
use diffusers_dynamic_offloa.Outcome.{
  Error, Exec, Outcome, continue, assertion_error, value_error, runtime_error, os_error, Post,
  Post-if, Post-continue, Post-raise_if, Post-or_raise, Post-weaken,
}
use diffusers_dynamic_offloa.StagingPool.{
  Sync, Run, Entry, View, Pool, Files, gather_entry, gather, slice_bytes, not_staged_from,
  read_file_slice, read_runs, mapped_shard, open_shard, stage_file_slices,
}
use diffusers_dynamic_offloa.StagingPool.Coalescing.{
  moved, requested, moves, InSlot, add_run-InSlot, add_run-moved, moved-append,
}

-- The tensors that the entries are given: one behind the other, without gaps.
abbrev pub layout : ℕ → ℕ → List Entry → List View
layout slot start [] = []
layout slot start ((source, slice) ∷ entries) =
    record { slot = slot; start = start; bytes = slice.size_bytes }
    ∷ layout slot (start + slice.size_bytes) entries

-- The ring of a pool: what staging reads and never changes.
pub record Ring : Type 0 where
  pub size_bytes : ℕ
  pub slots : ℕ
  pub ready_events : List (Option ℕ)
  pub next_slot : ℕ
  pub active_slot : Option ℕ
  pub syncs : List Sync

abbrev pub ring : Pool → Ring
ring p = record {
  size_bytes = p.size_bytes;
  slots = p.slots;
  ready_events = p.ready_events;
  next_slot = p.next_slot;
  active_slot = p.active_slot;
  syncs = p.syncs;
}

abbrev pub Same : Pool → Pool → Type 0
Same p t = ring t ≡ ring p

active_kept : (p t : Pool) → Same p t → t.active_slot ≡ p.active_slot
active_kept p t h = ap (λ (r : Ring). r.active_slot) h

pub size_kept : (p t : Pool) → Same p t → t.size_bytes ≡ p.size_bytes
size_kept p t h = ap (λ (r : Ring). r.size_bytes) h

-- Where a method raises: never the closing assertion, and nothing but the offset has moved.
abbrev pub Failed : Pool → Error → Pool → Type 0
Failed p e t =
    (e ≢ assertion_error) × Same p t × (p.offset ≤ p.size_bytes → t.offset ≤ t.size_bytes)

pub failed : (p : Pool) {e : Error} → e ≢ assertion_error → Failed p e p
failed p h = (h, refl, λ fits. fits)

Failed-trans :
    (p t u : Pool) (e : Error)
    → Same p t
    → (p.offset ≤ p.size_bytes → t.offset ≤ t.size_bytes)
    → Failed t e u
    → Failed p e u
Failed-trans p t u e same fits f = (f.0, f.1 ∙ same, λ h. f.2 (fits h))

-- A second step after one that has left the ring alone.
Post-then :
    {A B : Type 0} (R : A → Pool → Type 0) (Q : B → Pool → Type 0) (p : Pool) (o : Outcome Pool A)
    (f : A → Exec Pool B)
    → Post R (Failed p) o
    → ((a : A) (t : Pool) → R a t → Same p t × (p.offset ≤ p.size_bytes → t.offset ≤ t.size_bytes))
    → ((a : A) (t : Pool) → R a t → Post Q (Failed t) (f a t))
    → Post Q (Failed p) (continue o f)
Post-then R Q p o f h same k = Post-continue R Q (Failed p) o f h λ a t r.
    Post-weaken Q Q (Failed t) (Failed p) (f a t) (k a t r) (λ b u q. q)
      (λ e u q. Failed-trans p t u e (same a t r).0 (same a t r).1 q)

pub record Gathered (slot : ℕ) (entries : List Entry) (runs : List Run) (p : Pool)
    (r : List Run × List View) (t : Pool) : Type 0 where
  pub same : Same p t
  pub same_reads : t.reads ≡ p.reads
  pub in_slot : InSlot slot r.0
  pub bytes : moved r.0 ≡ moved runs ++ requested slot p.offset entries
  pub views : r.1 ≡ layout slot p.offset entries
  pub advanced : t.offset ≡ p.offset + sum_of slice_bytes entries
  pub bounded : p.offset ≤ p.size_bytes → t.offset ≤ t.size_bytes

-- One entry.
gather_entry-Post :
    (checked : Bool) (source : Tensor) (slice : FileSlice) (runs : List Run) (slot : ℕ) (p : Pool)
    → p.active_slot ≡ some slot
    → InSlot slot runs
    → Post
        (λ r t.
          Same p t
          × (t.reads ≡ p.reads)
          × InSlot slot r.0
          × (moved r.0
              ≡ moved runs ++ moves slice.path slice.offset_bytes slot p.offset slice.size_bytes)
          × (r.1 ≡ record { slot = slot; start = p.offset; bytes = slice.size_bytes })
          × (t.offset ≡ p.offset + slice.size_bytes)
          × (t.offset ≤ t.size_bytes))
        (Failed p)
        (gather_entry checked (source, slice) runs p)
unfolding gather_entry
gather_entry-Post checked source slice runs slot p active in_slot =
    Post-raise_if _ (Failed p) (checked && not_staged_from source) value_error p _
      (λ _. failed p (λ h. cc))
      λ ok.
        Post-raise_if _ (Failed p) (not (eqb (size_bytes source) slice.size_bytes)) value_error p _
          (λ _. failed p (λ h. cc))
          λ same.
            Post-raise_if _ (Failed p) (ltb p.size_bytes (p.offset + size_bytes source))
              runtime_error p _ (λ _. failed p (λ h. cc))
              λ fits.
                let size : size_bytes source ≡ slice.size_bytes = ground arith in
                Post-or_raise _ (Failed p) p.active_slot runtime_error p _ (failed p (λ h. cc))
                  λ k found.
                    let here : k ≡ slot = ground arith in
                    rw (here, size)
                      (
                        refl,
                        refl,
                        add_run-InSlot slot slice p.offset slice.size_bytes runs in_slot,
                        add_run-moved slot slice p.offset slice.size_bytes runs in_slot,
                        refl,
                        refl,
                        ground arith,
                      )

gather-Post :
    (checked : Bool) (entries : List Entry) (runs : List Run) (slot : ℕ) (p : Pool)
    → p.active_slot ≡ some slot
    → InSlot slot runs
    → Post (Gathered slot entries runs p) (Failed p) (gather checked entries runs p)
unfolding gather
gather-Post checked [] runs slot p active in_slot = record {
  same = refl;
  same_reads = refl;
  in_slot = in_slot;
  bytes = sym (append-nil (moved runs));
  views = refl;
  advanced = omega arith;
  bounded = λ h. h;
}
gather-Post checked ((source, slice) ∷ entries) runs slot p active in_slot =
    Post-then _ _ p (gather_entry checked (source, slice) runs p) _
      (gather_entry-Post checked source slice runs slot p active in_slot) (λ r t q. (q.0, λ _. q.6))
      λ r t q.
        Post-continue _ _ (Failed t) (gather checked entries r.0 t) _
          (gather-Post checked entries r.0 slot t (active_kept p t q.0 ∙ active) q.2)
          λ s u g. record {
            same = g.same ∙ q.0;
            same_reads = g.same_reads ∙ q.1;
            in_slot = g.in_slot;
            bytes =
                rw (g.bytes, q.3, q.5)
                  (append_assoc (moved runs)
                    (moves slice.path slice.offset_bytes slot p.offset slice.size_bytes)
                    (requested slot (p.offset + slice.size_bytes) entries));
            views = rw (q.4, g.views, q.5);
            advanced = omega (arith, g.advanced, q.5);
            bounded = λ h. g.bounded q.6;
          }

abbrev pub Bounded : Pool → Pool → Type 0
Bounded p t = Same p t × (t.offset ≤ t.size_bytes)

module _ (files : Files) where
  open_shard-Post :
      (path : String) (found : Option ℕ) (p : Pool)
      → Post
          (λ _ t. Same p t × (t.reads ≡ p.reads) × (t.offset ≡ p.offset))
          (Failed p)
          (open_shard files path found p)
  unfolding open_shard
  open_shard-Post path (some size) p = (refl, refl, refl)
  open_shard-Post path none p =
      Post-if _ (Failed p) (files.readable path) _ _ (λ _. (refl, refl, refl))
        (λ _. failed p (λ h. cc))

  keeps_fitting :
      (p t : Pool)
      → Same p t
      → t.offset ≡ p.offset
      → p.offset ≤ p.size_bytes
      → t.offset ≤ t.size_bytes
  keeps_fitting p t same e h = omega (arith, size_kept p t same)

  pub read_file_slice-Post :
      (run : Run) (p : Pool)
      → Post
          (λ _ t. Same p t × (t.reads ≡ run ∷ p.reads) × (t.offset ≡ p.offset))
          (Failed p)
          (read_file_slice files run p)
  unfolding read_file_slice mapped_shard
  read_file_slice-Post run p =
      Post-if _ (Failed p) p.windows_file_reader _ _
        (λ windows.
          Post-if _ (Failed p) (files.read_at run.path run.offset_bytes run.bytes) _ _
            (λ _. (refl, refl, refl)) (λ _. failed p (λ h. cc)))
        (λ mapped.
          Post-then _ _ p (open_shard files run.path (get run.path p.checkpoint_maps) p) _
            (open_shard-Post run.path (get run.path p.checkpoint_maps) p)
            (λ size t q. (q.0, keeps_fitting p t q.0 q.2))
            λ size t q.
              Post-raise_if _ (Failed t) (ltb size (run.offset_bytes + run.bytes)) os_error t _
                (λ _. failed t (λ h. cc)) λ _. (q.0, ap (◌∷◌ run) q.1, q.2))

  read_runs-Post :
      (runs : List Run) (p : Pool)
      → Post
          (λ _ t. Same p t × (t.reads ≡ runs ++ p.reads) × (t.offset ≡ p.offset))
          (Failed p)
          (read_runs files runs p)
  unfolding read_runs
  read_runs-Post [] p = (refl, refl, refl)
  read_runs-Post (run ∷ older) p =
      Post-then _ _ p (read_runs files older p) _ (read_runs-Post older p)
        (λ u t q. (q.0, keeps_fitting p t q.0 q.2))
        λ u t q.
          Post-weaken _ _ (Failed t) (Failed t) (read_file_slice files run t)
            (read_file_slice-Post run t) (λ v w r. (r.0 ∙ q.0, r.1 ∙ ap (◌∷◌ run) q.1, r.2 ∙ q.2))
            (λ e w h. h)

  -- With an active slot, `stage_file_slices` never fails its closing assertion. Where it returns, the
  -- reads have moved exactly the bytes of the slices, in their order, to places that follow one another
  -- from the offset on; the views are those places, and they end within the buffer. Where it raises,
  -- the ring is as it was and the offset within the buffer.
  pub stage_file_slices-Post :
      (entries : List Entry) (slot : ℕ) (p : Pool)
      → p.active_slot ≡ some slot
      → p.offset ≤ p.size_bytes
      → Post
          (λ views t.
            (moved t.reads ≡ moved p.reads ++ requested slot p.offset entries)
            × (views ≡ layout slot p.offset entries)
            × (t.offset ≡ p.offset + sum_of slice_bytes entries)
            × (t.offset ≤ t.size_bytes)
            × Same p t)
          (Failed p)
          (stage_file_slices files entries p)
  unfolding stage_file_slices
  stage_file_slices-Post [] slot p active fits =
      (sym (append-nil (moved p.reads)), refl, omega arith, fits, refl)
  stage_file_slices-Post (entry ∷ entries) slot p active fits =
      Post-then _ _ p (gather true (entry ∷ entries) [] p) _
        (gather-Post true (entry ∷ entries) [] slot p active tt) (λ r t g. (g.same, g.bounded))
        λ r t g.
          Post-then _ _ t (read_runs files r.0 t) _ (read_runs-Post r.0 t)
            (λ u w q. (q.0, keeps_fitting t w q.0 q.2))
            λ u w q.
              Post-raise_if _ (Failed w)
                (not (eqb (w.offset - p.offset) (sum_of slice_bytes (entry ∷ entries))))
                assertion_error w _ (λ wrong. absurd (ground (arith, q.2, g.advanced)))
                λ _. (
                  rw (q.1, moved-append r.0 t.reads, g.bytes, g.same_reads) refl,
                  g.views,
                  q.2 ∙ g.advanced,
                  omega (arith, g.bounded fits, q.2, size_kept t w q.0),
                  q.0 ∙ g.same,
                )
