-- ===== src/WeightStore/Recency.antt =====
-- Which slot `_ensure_capacity` evicts first.
use diffusers_dynamic_offloa.Prelude.{
  ◌≤◌, ◌≡◌, ◌==◌, subst, String, string_eq, Bool, true, some, arith, leb, List, [], ◌∷◌, Bool-cases,
  inl, inr, All, keep, map,
}
use mathlib.Core.Option.{some-injective}
use diffusers_dynamic_offloa.Sorting.{sorted, sorted-IsSorted, All-sorted}
use diffusers_dynamic_offloa.Dict.{Dict, get}
use diffusers_dynamic_offloa.WeightStore.{Store, Slot, candidates, evictable}
use diffusers_dynamic_offloa.WeightStore.Invariant.{IsConsistent}
use diffusers_dynamic_offloa.WeightStore.Eviction.{candidates-All, Candidate}

abbrev older : Slot → Slot → Bool
older a b = leb a.last_used b.last_used

-- The first of the sorted slots is no later than any of them.
head-least :
    (slots : List Slot) {slot : Slot} {rest : List Slot}
    → sorted older slots ≡ slot ∷ rest
    → All (λ other. slot.last_used ≤ other.last_used) slots
head-least slots {slot} {rest} e =
    All-sorted older (λ other. slot.last_used ≤ other.last_used) slots
      (rw e (
        omega arith,
        later rest
            (rw e at
              (sorted-IsSorted older (λ a b c p q. ground arith) (λ a b p. ground arith) slots)).0,
      ))
  where
    later :
        (xs : List Slot)
        → All (λ other. older slot other ≡ true) xs
        → All (λ other. slot.last_used ≤ other.last_used) xs
    later [] h = tt
    later (x ∷ xs) h = (ground (arith, h.0), later xs h.1)

kept-entry :
    (P : Slot → Type 0) (k : String) (other : Slot) (entries : Dict String Slot)
    → All P (keep evictable (map (λ entry. entry.1) entries))
    → get k entries ≡ some other
    → evictable other ≡ true
    → P other
unfolding get
kept-entry P k other [] h e idle = cc
kept-entry P k other ((j, slot) ∷ entries) h e idle = elim (Bool-cases (evictable slot)) [
  | inl free ↦
      let g = rw free at h in
      elim (Bool-cases (j == k)) [
        | inl same ↦ subst P (some-injective slot other (rw same at e)) g.0
        | inr differ ↦ kept-entry P k other entries g.1 (rw differ at e) idle
      ]
  | inr busy ↦ elim (Bool-cases (j == k)) [
    | inl same ↦ absurd (ground arith)
    | inr differ ↦ kept-entry P k other entries (rw busy at h) (rw differ at e) idle
  ]
]

-- In a consistent store, the first of the candidates for eviction is in the store, holds memory, is not
-- leased, and was used no later than any other slot that could be evicted.
pub candidates-least :
    (s : Store) {slot : Slot} {rest : List Slot}
    → IsConsistent s
    → candidates s ≡ slot ∷ rest
    → Candidate s slot
      × ((k : String) (other : Slot)
          → get k s.slots ≡ some other
          → evictable other ≡ true
          → slot.last_used ≤ other.last_used)
unfolding candidates
candidates-least s {slot} v e = (
  (rw e at (candidates-All s v)).0,
  λ k other found idle.
      kept-entry (λ x. slot.last_used ≤ x.last_used) k other s.slots (head-least _ e) found idle,
)
