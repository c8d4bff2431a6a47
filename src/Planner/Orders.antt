-- ===== src/Planner/Orders.antt =====
-- `_spread_order` and `_largest_first_order`.
pub mod SpreadPerm
use mathlib.Core.Option.{bind}
use diffusers_dynamic_offloa.Prelude.{
  ℕ, zero, suc, ◌+◌, ◌-◌, ◌*◌, ◌/◌, ◌%◌, ◌<◌, ◌≤◌, ◌≡◌, refl, sym, ◌∙◌, ap, Bool, true, false,
  Option, none, some, List, [], ◌∷◌, ◌++◌, String, min, max, leb, ltb, eqb, if◌then◌else◌, length,
  get_elem?, sum_of, any, arith, Bool-cases, inl, inr,
}
use diffusers_dynamic_offloa.Sorting.{sorted}

-- A module or a parameter with its name and size; `object` is its identity.
pub record Item : Type 0 where
  pub name : String
  pub object : ℕ
  pub bytes : ℕ

abbrev pub bytes_of : List Item → ℕ
bytes_of = sum_of (λ item. item.bytes)

unfoldable pub largest_first_order : List Item → List Item
largest_first_order = sorted (λ a b. leb b.bytes a.bytes)

-- Python's `round` of a quotient: to the nearest whole number, and to the even one at a half.
unfoldable pub round_quotient : ℕ → ℕ → ℕ
round_quotient a b =
    let down = a / b in
    let twice = 2 * (a % b) in
    if ltb twice b
    then down
    else if ltb b twice
    then down + 1
    else if eqb (down % 2) 0
    then down
    else down + 1

-- The positions `0 … count - 1`, spread over `size` places, from a position on.
unfoldable pub spread_from : ℕ → ℕ → ℕ → ℕ → List ℕ
spread_from zero position size count = []
spread_from (suc rounds) position size count =
    round_quotient (position * (size - 1)) (count - 1)
    ∷ spread_from rounds (position + 1) size count

unfoldable pub target_count : List Item → ℕ → ℕ
target_count items budget =
    let average = max 1 (bytes_of items / length items) in
    max 1 (min (length items) (budget / average))

unfoldable pub spread_indices : ℕ → ℕ → List ℕ
spread_indices size count = if eqb count 1 then size / 2 ∷ [] else spread_from count 0 size count

-- The first loop: the items at the spread positions, each position once.
abbrev pub seen_in : ℕ → List ℕ → Bool
seen_in index seen = any (λ i. eqb i index) seen

unfoldable pub distinct_from : List ℕ → List ℕ → List ℕ
distinct_from seen [] = []
distinct_from seen (index ∷ indices) =
    let new = index ∷ distinct_from (index ∷ seen) indices in
    if seen_in index seen then distinct_from seen indices else new

-- `items[index]` for each index; `none` stands for `IndexError`.
unfoldable pub items_at : List Item → List ℕ → Option (List Item)
items_at items [] = some []
items_at items (index ∷ indices) =
    bind (get_elem? items index) λ item. bind (items_at items indices) λ rest. some (item ∷ rest)

-- The second loop: the items at the positions that were not seen.
unfoldable pub others_from : ℕ → List ℕ → List Item → List Item
others_from index seen [] = []
others_from index seen (item ∷ items) =
    let rest = others_from (index + 1) seen items in
    if seen_in index seen then rest else item ∷ rest

unfoldable pub spread_order : List Item → ℕ → Option (List Item)
spread_order items budget =
    let picked = distinct_from [] (spread_indices (length items) (target_count items budget)) in
    if leb (length items) 2
    then some items
    else bind (items_at items picked) λ first. some (first ++ others_from 0 picked items)
