-- ===== src/ModelArena/Grouping.antt =====
-- The views of a group lie one behind another in its payload.
use diffusers_dynamic_offloa.Prelude.{
  ℕ, ◌+◌, ◌≤◌, ◌≡◌, refl, sym, ◌∙◌, ap, subst, String, string_eq, none, some, [], ◌∷◌, sum_of,
  arith, Bool-cases, inl, inr, ◌⊎◌, ◌==◌, ==_iff, false,
}
use mathlib.Core.Option.{some-injective}
use diffusers_dynamic_offloa.Tensors.{size_bytes}
use diffusers_dynamic_offloa.Dict.{Dict, get, put, get-put, contains}
use diffusers_dynamic_offloa.ModelArena.{View, Weights, place_weights}

-- Each view lies within the payload.
abbrev pub Within : ℕ → Dict String View → Type 0
Within payload views =
    (name : String) (view : View) → get name views ≡ some view → view.offset + view.bytes ≤ payload

-- Views of different names share no byte.
abbrev pub Apart : Dict String View → Type 0
Apart views =
    (a b : String) (v w : View)
    → (a == b) ≡ false
    → get a views ≡ some v
    → get b views ≡ some w
    → (v.offset + v.bytes ≤ w.offset) ⊎ (w.offset + w.bytes ≤ v.offset)

abbrev pub total_bytes : Weights → ℕ
total_bytes = sum_of (λ entry. size_bytes entry.1)

grow : (p q : ℕ) (views : Dict String View) → p ≤ q → Within p views → Within q views
grow p q views h k name view e = omega (arith, k name view e)

placed-Within :
    (offset bytes : ℕ) (name : String) (views : Dict String View)
    → Within offset views
    → Within
        (offset + bytes)
        (put name (record { name = name; offset = offset; bytes = bytes }) views)
placed-Within offset bytes name views h other view e = elim (Bool-cases (name == other)) [
  | inl same ↦
      (let stored : some (placed_view) ≡ some view =
          sym (rw (get-put name other placed_view views, same) refl) ∙ e in
        let eq = some-injective placed_view view stored in
        subst (λ v. v.offset + v.bytes ≤ offset + bytes) eq (omega arith))
  | inr new ↦
      grow offset (offset + bytes) views (omega arith) h other view
        (sym (rw (get-put name other placed_view views, new) refl) ∙ e)
]
  where
    placed_view : View
    placed_view = record { name = name; offset = offset; bytes = bytes }

-- What a lookup finds after `put`: the new view under its name, or the old one.
found_view :
    (name other : String) (placed view : View) (views : Dict String View)
    → get other (put name placed views) ≡ some view
    → (placed ≡ view) × (name ≡ other) ⊎ (get other views ≡ some view)
found_view name other placed view views e = elim (Bool-cases (name == other)) [
  | inl same ↦ inl (
    some-injective placed view (sym (rw (get-put name other placed views, same) refl) ∙ e),
    (==_iff name other).0 same,
  )
  | inr new ↦ inr (sym (rw (get-put name other placed views, new) refl) ∙ e)
]

placed-Apart :
    (offset bytes : ℕ) (name : String) (views : Dict String View)
    → Within offset views
    → Apart views
    → Apart (put name (record { name = name; offset = offset; bytes = bytes }) views)
placed-Apart offset bytes name views within apart a b v w differ found_a found_b =
    elim (found_view name a placed v views found_a) [
      | inl (here, same) ↦ elim (found_view name b placed w views found_b) [
        | inl (there, also) ↦ absurd (let equal = (==_iff a b).1 (sym same ∙ also) in cc)
        | inr old ↦ inr (subst (λ u. w.offset + w.bytes ≤ u.offset) here (within b w old))
      ]
      | inr old ↦ elim (found_view name b placed w views found_b) [
        | inl (there, also) ↦
            inl (subst (λ u. v.offset + v.bytes ≤ u.offset) there (within a v old))
        | inr older ↦ apart a b v w differ old older
      ]
    ]
  where
    placed : View
    placed = record { name = name; offset = offset; bytes = bytes }

-- Where the weights of a group can be placed from an offset that the views already placed stay within, apart
-- from one another, the payload is the offset and the bytes of all the weights, every view lies within the
-- payload, and views of different names share no byte.
pub place_weights-Within :
    (taken : Dict String String) (weights : Weights) (offset : ℕ) (views : Dict String View)
    (payload : ℕ) (out : Dict String View)
    → Within offset views
    → Apart views
    → place_weights taken weights offset views ≡ some (payload, out)
    → (payload ≡ offset + total_bytes weights) × Within payload out × Apart out
unfolding place_weights
place_weights-Within taken [] offset views payload out h apart e =
    let same : (offset, views) ≡ (payload, out) = some-injective (offset, views) (payload, out) e in
    (
      omega (arith, sym (ap (λ p. p.0) same)),
      subst (λ p. Within p.0 p.1) same h,
      subst (λ p. Apart p.1) same apart,
    )
place_weights-Within taken ((name, tensor) ∷ weights) offset views payload out h apart e =
    elim (Bool-cases (contains name taken)) [
      | inl old ↦ absurd (let bad : none ≡ some (payload, out) = rw old at e in cc)
      | inr new ↦
          (let rest = rw new at e in
            let view : View = record { name = name; offset = offset; bytes = size_bytes tensor } in
            let placed = placed-Within offset (size_bytes tensor) name views h in
            let (sums, within, all_apart) =
              place_weights-Within taken weights (offset + size_bytes tensor) (put name view views)
                payload out placed (placed-Apart offset (size_bytes tensor) name views h apart)
                rest in
            (omega (arith, sums), within, all_apart))
    ]
