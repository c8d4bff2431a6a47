-- ===== src/AuxiliarySources/Transaction.antt =====
-- The detachment of CPU sources is done as a whole or not at all.
use mathlib.Core.Option.{some-injective}
use diffusers_dynamic_offloa.Prelude.{
  ℕ, ◌+◌, ◌≤◌, ◌≡◌, refl, sym, ap, subst, ◌∙◌, ◌⊎◌, string_eq, product_eq, nat_eq, false, some,
  List, [], ◌∷◌, ◌==◌, ltb, any, map, arith, All, Bool-cases, if_rule, inl, inr,
}
use diffusers_dynamic_offloa.Tensors.{Tensor}
use diffusers_dynamic_offloa.Dict.{get, put, put-put}
use diffusers_dynamic_offloa.Sorting.{sorted}
use diffusers_dynamic_offloa.Outcome.{
  Error, Outcome, Post, Post-continue, Post-steady, Post-raise_if, left_by, left_by-continue,
  left_by-or_raise, done, raise, value_error, key_error, continue, tidied,
}
use diffusers_dynamic_offloa.SliceRegistry.{Registry, Key, rebind_many}
use diffusers_dynamic_offloa.SliceRegistry.Relocation.{Moved, Spared, rebind_many-Post}
use diffusers_dynamic_offloa.AuxiliarySources.{
  Heap, Memory, Torch, Module, Groups, Copy, Work, Report, collect, overlaps, key_le, selected,
  clashes, total_bytes, check_groups, prepare, assign, assign_owners, assign_copies, on_memory,
  restore, restored, replacements, change, memory_of, report_of, copy_selected, detach_cpu_sources,
}
use diffusers_dynamic_offloa.AuxiliarySources.Steady.{
  neither, collect-IsSteady, check_groups-IsSteady,
}

put_same :
    (id : ℕ) (tensor : Tensor) (heap : Heap) → get id heap ≡ some tensor → put id tensor heap ≡ heap
unfolding put get
put_same id tensor [] h = cc
put_same id tensor ((j, other) ∷ heap) h = elim (Bool-cases (j == id)) [
  | inl same ↦
      let here = rw same at h in
      rw same (ap (λ t. (j, t) ∷ heap) (sym (some-injective other tensor here)))
  | inr differ ↦
      let there = rw differ at h in
      rw differ (ap (λ rest. (j, other) ∷ rest) (put_same id tensor heap there))
]

same_memory :
    {s : Memory} {heap : Heap} {registry : Registry}
    → heap ≡ s.heap
    → registry ≡ s.registry
    → record { heap = heap; registry = registry } ≡ s
same_memory {s} {registry} p q =
    ap (λ x. record { heap = x; registry = registry }) p
    ∙ ap (λ y. record { heap = s.heap; registry = y }) q

-- To undo what is noted gives the memory back.
abbrev CanUndo : Memory → Work → Type 0
CanUndo s w = (restore w.changed w.memory.heap ≡ s.heap) × (w.memory.registry ≡ s.registry)

module _ (torch : Torch) (s : Memory) where
  assign-CanUndo :
      (new : Tensor) (id : ℕ) (w : Work) → CanUndo s w → CanUndo s (left_by (assign torch new id w))
  unfolding assign
  assign-CanUndo new id w h =
      left_by-or_raise (CanUndo s) (get id w.memory.heap) key_error w _ h λ old found.
        if_rule {A = Outcome Work (Unit {0})} (λ o. CanUndo s (left_by o)) (torch.assigns id) _ _
          (λ _. (
            ap (restore w.changed)
                  (put-put id new old w.memory.heap ∙ put_same id old w.memory.heap found)
                ∙ h.0,
            h.1,
          ))
          (λ _. h)

  owners-CanUndo :
      (new : Tensor) (owners : List ℕ) (w : Work)
      → CanUndo s w
      → CanUndo s (left_by (assign_owners torch new owners w))
  unfolding assign_owners
  owners-CanUndo new [] w h = h
  owners-CanUndo new (id ∷ owners) w h =
      left_by-continue (CanUndo s) (assign torch new id w) (λ _. assign_owners torch new owners)
        (assign-CanUndo new id w h)
        λ _ v e.
          owners-CanUndo new owners v
            (subst (λ o. CanUndo s (left_by o)) e (assign-CanUndo new id w h))

  copies-CanUndo :
      (copies : List Copy) (w : Work)
      → CanUndo s w
      → CanUndo s (left_by (assign_copies torch copies w))
  unfolding assign_copies
  copies-CanUndo [] w h = h
  copies-CanUndo (copy ∷ copies) w h =
      left_by-continue (CanUndo s) (assign_owners torch copy.new copy.owners w)
        (λ _. assign_copies torch copies) (owners-CanUndo copy.new copy.owners w h)
        λ _ v e.
          copies-CanUndo copies v
            (subst (λ o. CanUndo s (left_by o)) e (owners-CanUndo copy.new copy.owners w h))

  -- The descriptors have followed the copies, and others have stayed.
  abbrev Followed : List Copy → Memory → Type 0
  Followed copies t =
      Moved s.registry.slices t.registry.slices (replacements copies)
      × Spared (replacements copies) s.registry.slices t.registry.slices

  change-Post :
      (copies : List Copy)
      → Post
          (λ _ t. Followed copies t)
          (λ _ t. t ≡ s)
          (memory_of (change torch copies (record { memory = s; changed = [] })))
  unfolding change
  change-Post copies =
      assigned (assign_copies torch copies start) (copies-CanUndo copies start (refl, refl))
    where
      start : Work
      start = record { memory = s; changed = [] }

      relocated :
          (w : Work)
          → CanUndo s w
          → (o : Outcome Registry (Unit {0}))
          → Post
              (λ _ r.
                Moved w.memory.registry.slices r.slices (replacements copies)
                × Spared (replacements copies) w.memory.registry.slices r.slices
                × (r.closed ≡ w.memory.registry.closed))
              (λ _ r. r ≡ w.memory.registry)
              o
          → Post
              (λ _ t. Followed copies t)
              (λ _ t. t ≡ s)
              (memory_of (tidied (on_memory w o) restored))
      relocated w h (done a r) moved = (
        subst (λ x. Moved x.slices r.slices (replacements copies)) h.1 moved.0,
        subst (λ x. Spared (replacements copies) x.slices r.slices) h.1 moved.1,
      )
      relocated w h (raise e r) same = same_memory h.0 (same ∙ h.1)

      assigned :
          (o : Outcome Work (Unit {0}))
          → CanUndo s (left_by o)
          → Post
              (λ _ t. Followed copies t)
              (λ _ t. t ≡ s)
              (memory_of (
                tidied
                  (continue o
                    (λ _ v. on_memory v (rebind_many (replacements copies) v.memory.registry)))
                  restored))
      assigned (done a w) h =
          relocated w h (rebind_many (replacements copies) w.memory.registry)
            (rebind_many-Post (replacements copies) w.memory.registry)
      assigned (raise e w) h = same_memory h.0 h.1

-- The two intervals have no byte in common.
abbrev pub Apart : Key → Key → Type 0
Apart (start, bytes) (other, other_bytes) = (other + other_bytes ≤ start) ⊎ (start + bytes ≤ other)

disjoint : (key other : Key) → overlaps key other ≡ false → Apart key other
disjoint (start, bytes) (other, other_bytes) h = ground arith

key-Apart :
    (key : Key) (protected : List Key)
    → any (overlaps key) protected ≡ false
    → All (Apart key) protected
key-Apart key [] h = tt
key-Apart key (other ∷ protected) h =
    (disjoint key other (neither h).0, key-Apart key protected (neither h).1)

groups-Apart :
    (protected : List Key) (groups : Groups)
    → any (λ entry. any (overlaps entry.0) protected) groups ≡ false
    → All (λ entry. All (Apart entry.0) protected) groups
groups-Apart protected [] h = tt
groups-Apart protected ((key, group) ∷ groups) h =
    (key-Apart key protected (neither h).0, groups-Apart protected groups (neither h).1)

-- What a copy of the sources of these groups has done.
abbrev pub Detached : Torch → ℕ → List Key → Memory → Groups → Report → Memory → Type 0
Detached torch max_copy_bytes protected s groups report t =
    (report ≡ report_of groups)
    × (report.copied_bytes ≤ max_copy_bytes)
    × All (λ entry. All (Apart entry.0) protected) (selected groups)
    × Followed torch s (prepare torch (selected groups)) t

-- Where the call returns, it has copied no more bytes than it may, no storage that it has copied has a byte in
-- common with a protected interval, every copy's descriptor is that of the storage copied, and the other
-- descriptors have stayed. Where it raises, whether before, between or after the assignments, every tensor
-- holds what it held and the registry is as it was.
pub detach_cpu_sources-Post :
    (torch : Torch) (module_ : Module) (max_copy_bytes : ℕ) (protected : List Key) (s : Memory)
    → Post
        (λ report t.
          (groups : Groups) × (collect module_.references [] s ≡ done groups s)
          × Detached torch max_copy_bytes protected s groups report t)
        (λ _ t. t ≡ s)
        (detach_cpu_sources torch module_ max_copy_bytes protected s)
unfolding detach_cpu_sources copy_selected
detach_cpu_sources-Post torch module_ max_copy_bytes protected s =
    Post-raise_if Q E module_.training value_error s _ (λ _. refl)
      λ _.
        Post-steady Q E (collect module_.references [] s)
          (λ groups. copy_selected torch groups max_copy_bytes protected) s
          (collect-IsSteady module_.references [] s) (λ _. refl)
          λ groups collected.
            Post-raise_if Q E (any (λ entry. any (overlaps entry.0) protected) (selected groups))
              value_error s _ (λ _. refl)
              λ apart.
                Post-raise_if Q E
                  (clashes (selected groups) (sorted key_le (map (λ entry. entry.0) groups)))
                  value_error s _ (λ _. refl)
                  λ _.
                    Post-raise_if Q E (ltb max_copy_bytes (total_bytes (selected groups)))
                      value_error s _ (λ _. refl)
                      λ bounded.
                        Post-steady Q E (check_groups torch (selected groups) s) _ s
                          (check_groups-IsSteady torch (selected groups) s) (λ _. refl)
                          λ _ _.
                            Post-continue
                              (λ _ t. Followed torch s (prepare torch (selected groups)) t) Q E
                              (memory_of (
                                change torch (prepare torch (selected groups))
                                  (record { memory = s; changed = [] })))
                              _ (change-Post torch s (prepare torch (selected groups)))
                              λ _ t followed. (
                                groups,
                                collected,
                                (
                                  refl,
                                  within groups bounded,
                                  groups-Apart protected (selected groups) apart,
                                  followed,
                                ),
                              )
  where
    Q : Report → Memory → Type 0
    Q report t =
        (groups : Groups) × (collect module_.references [] s ≡ done groups s)
        × Detached torch max_copy_bytes protected s groups report t

    E : Error → Memory → Type 0
    E e t = t ≡ s

    within :
        (groups : Groups)
        → ltb max_copy_bytes (total_bytes (selected groups)) ≡ false
        → total_bytes (selected groups) ≤ max_copy_bytes
    within groups h = ground arith
