-- ===== src/Planner/Orders/SpreadPerm.antt =====
-- `_spread_order` neither loses an item nor adds one, and stays within the list.
use mathlib.Core.List.{Perm, append-nil}
use mathlib.Core.List.Perm
use mathlib.Core.Option.{bind, some-injective}
use native.Mathlib.Nat.{mul_comm, div-lt_self, mul-le-mul_right, div-le_of_le-mul, div-add-mod'}
use diffusers_dynamic_offloa.Prelude.{
  ℕ, zero, suc, ◌+◌, ◌-◌, ◌*◌, ◌/◌, ◌%◌, ◌<◌, ◌≤◌, ◌≡◌, ◌≢◌, refl, sym, ◌∙◌, ap, subst, Bool, true,
  false, ◌||◌, some, List, [], ◌∷◌, ◌++◌, leb, eqb, length, get_elem?, arith, Bool-cases, inl, inr,
  All,
}
use diffusers_dynamic_offloa.Planner.Orders.{
  Item, round_quotient, spread_from, spread_indices, target_count, seen_in, distinct_from, items_at,
  others_from, spread_order,
}

-- Rounding stays within a whole bound.
round_quotient-le : (a b k : ℕ) → 0 < b → a ≤ k * b → round_quotient a b ≤ k
unfolding round_quotient
round_quotient-le a b k pos h = ground (arith, below, inexact)
  where
    whole : (a / b) * b + a % b ≡ a
    whole = div-add-mod' a b

    below : a / b ≤ k
    below = div-le_of_le-mul b (subst (λ n. a ≤ n) (mul_comm k b) h)

    inexact : 0 < a % b → a / b ≢ k
    inexact r exact = absurd (omega (arith, whole', h))
      where
        whole' : k * b + a % b ≡ a
        whole' = subst (λ q. q * b + a % b ≡ a) exact whole

abbrev Within : ℕ → List ℕ → Type 0
Within n = All (λ i. i < n)

distinct_from-Within :
    (n : ℕ) (seen indices : List ℕ) → Within n indices → Within n (distinct_from seen indices)
unfolding distinct_from
distinct_from-Within n seen [] h = tt
distinct_from-Within n seen (i ∷ is) h = elim (Bool-cases (seen_in i seen)) [
  | inl old ↦ rw old (distinct_from-Within n seen is h.1)
  | inr new ↦ rw new (h.0, distinct_from-Within n (i ∷ seen) is h.1)
]

seen_in-append : (i : ℕ) (xs ys : List ℕ) → seen_in i (xs ++ ys) ≡ seen_in i xs || seen_in i ys
seen_in-append i [] ys = refl
seen_in-append i (x ∷ xs) ys = ground (arith, seen_in-append i xs ys)

-- Only which positions were seen matters.
others_from-ext :
    (k : ℕ) (s t : List ℕ) (items : List Item)
    → ((i : ℕ) → seen_in i s ≡ seen_in i t)
    → others_from k s items ≡ others_from k t items
unfolding others_from
others_from-ext k s t [] h = refl
others_from-ext k s t (item ∷ items) h = rw (h k, others_from-ext (k + 1) s t items h)

-- A position before the list's first changes nothing.
others_from-below :
    (k i : ℕ) (seen : List ℕ) (items : List Item)
    → i < k
    → others_from k (i ∷ seen) items ≡ others_from k seen items
unfolding others_from
others_from-below k i seen [] h = refl
others_from-below k i seen (x ∷ xs) h =
    let other : eqb i k ≡ false = ground arith in
    rw (other, others_from-below (k + 1) i seen xs (omega arith)) refl

others_from-none : (k : ℕ) (items : List Item) → others_from k [] items ≡ items
unfolding others_from
others_from-none k [] = refl
others_from-none k (x ∷ xs) = ap (λ rest. x ∷ rest) (others_from-none (k + 1) xs)

-- To see one more position takes out the item that stands there.
others_from-perm :
    (k i j : ℕ) (seen : List ℕ) (items : List Item) {item : Item}
    → get_elem? items j ≡ some item
    → k + j ≡ i
    → seen_in i seen ≡ false
    → Perm (item ∷ others_from k (i ∷ seen) items) (others_from k seen items)
unfolding others_from
others_from-perm k i j seen [] e at new = absurd (cc)
others_from-perm k i zero seen (x ∷ xs) {item} e at new =
    subst (λ n. Perm (item ∷ others_from k (n ∷ seen) (x ∷ xs)) (others_from k seen (x ∷ xs)))
      same_position here
  where
    same_position : k ≡ i
    same_position = omega arith

    same : eqb k k ≡ true
    same = ground arith

    fresh : seen_in k seen ≡ false
    fresh = ap (λ n. seen_in n seen) same_position ∙ new

    here : Perm (item ∷ others_from k (k ∷ seen) (x ∷ xs)) (others_from k seen (x ∷ xs))
    here =
        rw
          (
            same,
            fresh,
            others_from-below (k + 1) k seen xs (omega arith),
            sym (some-injective x item e),
          )
          (Perm.refl (x ∷ others_from (k + 1) seen xs))
others_from-perm k i (suc j) seen (x ∷ xs) {item} e at new =
    let ih = others_from-perm (k + 1) i j seen xs e (omega arith) new in
    elim (Bool-cases (seen_in k seen)) [
      | inl old ↦ rw (other, old) ih
      | inr fresh ↦
          rw (other, fresh)
            (Perm.trans (Perm.swap x item (others_from (k + 1) (i ∷ seen) xs)) (Perm.cons x ih))
    ]
  where
    other : eqb i k ≡ false
    other = ground arith

get_elem?-Within :
    (items : List Item) (i : ℕ) → i < length items → (item : Item) × (get_elem? items i ≡ some item)
get_elem?-Within [] i h = absurd (omega arith)
get_elem?-Within (x ∷ xs) zero h = (x, refl)
get_elem?-Within (x ∷ xs) (suc i) h = get_elem?-Within xs i (omega arith)

-- The picked items and those at no seen position are the items at no earlier position.
items_at-perm :
    (items : List Item) (seen indices : List ℕ)
    → Within (length items) indices
    → (first : List Item) × (items_at items (distinct_from seen indices) ≡ some first)
      × Perm
          (first ++ others_from 0 (distinct_from seen indices ++ seen) items)
          (others_from 0 seen items)
unfolding distinct_from items_at bind
items_at-perm items seen [] h = ([], refl, Perm.refl (others_from 0 seen items))
items_at-perm items seen (i ∷ is) h = elim (Bool-cases (seen_in i seen)) [
  | inl old ↦ rw old (items_at-perm items seen is h.1)
  | inr new ↦ rw new (
      let (item, at) = get_elem?-Within items i h.0 in
      let (first, picked, perm) = items_at-perm items (i ∷ seen) is h.1 in
      rw (at, picked)
        (
          item ∷ first,
          refl,
          Perm.trans
              (Perm.cons item (
                subst (λ rest. Perm (first ++ rest) (others_from 0 (i ∷ seen) items)) (same is)
                  perm))
              (others_from-perm 0 i i seen items at (omega arith) new),
        ))
]
  where
    shuffle : (a b c : Bool) → a || (b || c) ≡ b || (a || c)
    shuffle true true c = refl
    shuffle true false c = refl
    shuffle false true c = refl
    shuffle false false c = refl

    picked_of : List ℕ → List ℕ
    picked_of is = distinct_from (i ∷ seen) is

    moved :
        (k : ℕ) (picked : List ℕ) → seen_in k (picked ++ i ∷ seen) ≡ seen_in k (i ∷ picked ++ seen)
    moved k picked =
        seen_in-append k picked (i ∷ seen)
        ∙ shuffle (seen_in k picked) (eqb i k) (seen_in k seen)
        ∙ ap (λ b. eqb i k || b) (sym (seen_in-append k picked seen))

    same :
        (is : List ℕ)
        → others_from 0 (picked_of is ++ i ∷ seen) items
          ≡ others_from 0 (i ∷ picked_of is ++ seen) items
    same is =
        others_from-ext 0 (picked_of is ++ i ∷ seen) (i ∷ picked_of is ++ seen) items
          (λ k. moved k (picked_of is))

spread_from-Within :
    (rounds position size count : ℕ)
    → 0 < size
    → 1 < count
    → position + rounds ≤ count
    → Within size (spread_from rounds position size count)
unfolding spread_from
spread_from-Within zero position size count pos many h = tt
spread_from-Within (suc rounds) position size count pos many h = (
  omega (arith, nearest),
  spread_from-Within rounds (position + 1) size count pos many (omega arith),
)
  where
    scaled : position * (size - 1) ≤ (size - 1) * (count - 1)
    scaled =
        subst (λ n. position * (size - 1) ≤ n) (mul_comm (count - 1) (size - 1))
          (mul-le-mul_right (size - 1) (omega arith))

    nearest : round_quotient (position * (size - 1)) (count - 1) ≤ size - 1
    nearest = round_quotient-le (position * (size - 1)) (count - 1) (size - 1) (omega arith) scaled

spread_indices-Within :
    (size count : ℕ) → 0 < size → 0 < count → Within size (spread_indices size count)
unfolding spread_indices
spread_indices-Within size count pos some_count = elim (Bool-cases (eqb count 1)) [
  | inl one ↦ rw one (div-lt_self pos (omega arith), tt)
  | inr many ↦ rw many (spread_from-Within count 0 size count pos (ground arith) (omega arith))
]

target_count-pos : (items : List Item) (budget : ℕ) → 0 < target_count items budget
unfolding target_count
target_count-pos items budget = omega arith

-- Whatever the items and the budget, the spread order exists (no position it picks falls outside the
-- list), and it is a permutation of the items.
pub spread_order-Perm :
    (items : List Item) (budget : ℕ)
    → (out : List Item) × (spread_order items budget ≡ some out) × Perm out items
unfolding spread_order bind
spread_order-Perm items budget = elim (Bool-cases (leb (length items) 2)) [
  | inl few ↦ rw few (items, refl, Perm.refl items)
  | inr many ↦ rw many (
      let (first, picked, perm) = items_at-perm items [] indices (within many) in
      rw picked (
        first ++ others_from 0 (distinct_from [] indices) items,
        refl,
        subst (λ seen. Perm (first ++ others_from 0 seen items) items)
            (append-nil (distinct_from [] indices))
            (subst (λ all. Perm (first ++ others_from 0 (distinct_from [] indices ++ []) items) all)
              (others_from-none 0 items) perm),
      ))
]
  where
    indices : List ℕ
    indices = spread_indices (length items) (target_count items budget)

    target : 0 < target_count items budget
    target = target_count-pos items budget

    within : leb (length items) 2 ≡ false → Within (length items) indices
    within many =
        spread_indices-Within (length items) (target_count items budget) (ground arith) target
