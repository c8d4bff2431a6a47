-- ===== src/Dict.antt =====
-- Python's `dict`: an association list in insertion order. An assignment to a present key keeps the
-- key's place.
use diffusers_dynamic_offloa.Prelude.{
  ℕ, ◌+◌, ◌≤◌, ◌≡◌, refl, ap, Bool, Bool-cases, inl, inr, Option, none, some, List, [], ◌∷◌, arith,
  Eq, ◌==◌, ==_iff, ==_refl, if◌then◌else◌, is_some, All, length,
}

abbrev pub Dict : Type 0 → Type 0 → Type 0
Dict K V = List (K × V)

abbrev pub weight : {V : Type 0} → (V → ℕ) → Option V → ℕ
weight f none = 0
weight f (some v) = f v

module _ {K V : Type 0} where
  -- The sum of a measure over the values.
  unfoldable pub total : (V → ℕ) → Dict K V → ℕ
  total f [] = 0
  total f ((j, v) ∷ d) = f v + total f d

module _ {K V : Type 0} ⦃e : Eq K⦄ where
  -- `d.get(k)`
  unfoldable pub get : K → Dict K V → Option V
  get k [] = none
  get k ((j, v) ∷ d) = if j == k then some v else get k d

  -- `d[k] = v`
  unfoldable pub put : K → V → Dict K V → Dict K V
  put k v [] = (k, v) ∷ []
  put k v ((j, w) ∷ d) = if j == k then (j, v) ∷ d else (j, w) ∷ put k v d

  -- `d.pop(k, None)`: the dict without the key
  unfoldable pub remove : K → Dict K V → Dict K V
  remove k [] = []
  remove k ((j, v) ∷ d) = let rest = remove k d in if j == k then rest else (j, v) ∷ rest

  -- `k in d`
  abbrev pub contains : K → Dict K V → Bool
  contains k d = is_some (get k d)

  pub get-put :
      (k j : K) (v : V) (d : Dict K V) → get j (put k v d) ≡ (if k == j then some v else get j d)
  unfolding get put
  get-put k j v [] = refl
  get-put k j v ((i, w) ∷ d) = ground (arith, ==_iff k j, ==_iff i k, ==_iff i j, get-put k j v d)

  pub put-put : (k : K) (v w : V) (d : Dict K V) → put k w (put k v d) ≡ put k w d
  unfolding put
  put-put k v w [] = let same = ==_refl k in ground arith
  put-put k v w ((i, u) ∷ d) = elim (Bool-cases (i == k)) [
    | inl here ↦ rw (here, here) refl
    | inr other ↦ rw (other, other) (ap (λ rest. (i, u) ∷ rest) (put-put k v w d))
  ]

  pub get-remove :
      (k j : K) (d : Dict K V) → get j (remove k d) ≡ (if k == j then none else get j d)
  unfolding get remove
  get-remove k j [] = ground arith
  get-remove k j ((i, w) ∷ d) = ground (arith, ==_iff k j, ==_iff i k, ==_iff i j, get-remove k j d)

  pub total-put :
      (f : V → ℕ) (k : K) (v : V) (d : Dict K V)
      → total f (put k v d) + weight f (get k d) ≡ total f d + f v
  unfolding total put get
  total-put f k v [] = omega arith
  total-put f k v ((i, w) ∷ d) = ground (arith, total-put f k v d)

  pub weight-le-total : (f : V → ℕ) (k : K) (d : Dict K V) → weight f (get k d) ≤ total f d
  unfolding total get
  weight-le-total f k [] = omega arith
  weight-le-total f k ((i, w) ∷ d) = ground (arith, weight-le-total f k d)

module _ {K V : Type 0} ⦃e : Eq K⦄ where
  -- No key stands twice.
  abbrev pub Distinct : Dict K V → Type 0
  Distinct [] = Unit
  Distinct ((j, v) ∷ d) = (get j d ≡ none) × Distinct d

  pub put-Distinct : (k : K) (v : V) (d : Dict K V) → Distinct d → Distinct (put k v d)
  unfolding put get
  put-Distinct k v [] h = (refl, tt)
  put-Distinct k v ((j, w) ∷ d) h =
      ground (arith, ==_iff j k, ==_iff k j, get-put k j v d, put-Distinct k v d h.1)

  pub remove-Distinct : (k : K) (d : Dict K V) → Distinct d → Distinct (remove k d)
  unfolding remove
  remove-Distinct k [] h = tt
  remove-Distinct k ((j, w) ∷ d) h = ground (arith, get-remove k j d, remove-Distinct k d h.1)

module _ {K V : Type 0} ⦃e : Eq K⦄ where
  below-get :
      (j : K) (w : V) (d xs : Dict K V)
      → get j d ≡ none
      → All (λ entry. get entry.0 d ≡ some entry.1) xs
      → All (λ entry. get entry.0 ((j, w) ∷ d) ≡ some entry.1) xs
  unfolding get
  below-get j w d [] h a = tt
  below-get j w d ((k, v) ∷ xs) h a = (ground (arith, ==_iff j k, a.0), below-get j w d xs h a.1)

  -- In a dict each entry is what a lookup of its key finds.
  pub entries-get : (d : Dict K V) → Distinct d → All (λ entry. get entry.0 d ≡ some entry.1) d
  unfolding get
  entries-get [] h = tt
  entries-get ((j, v) ∷ d) h =
      (ground (arith, ==_iff j j), below-get j v d d h.0 (entries-get d h.1))

module _ {K V : Type 0} where
  pub total-le : (f : V → ℕ) (d : Dict K V) → ((v : V) → f v ≤ 1) → total f d ≤ length d
  unfolding total
  total-le f [] h = omega arith
  total-le f ((j, v) ∷ d) h = omega (arith, total-le f d h, h v)
