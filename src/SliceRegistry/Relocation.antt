-- ===== src/SliceRegistry/Relocation.antt =====
-- `rebind_many` of `SafetensorSliceRegistry`: all associations move, or none.
use mathlib.Core.Option.{some-injective}
use diffusers_dynamic_offloa.Prelude.{
  ◌≡◌, refl, sym, ap, subst, product_eq, nat_eq, Bool, false, Option, none, some, List, [], ◌∷◌,
  arith, ◌==◌, ==_refl, Bool-cases, inl, inr, All, any,
}
use diffusers_dynamic_offloa.Tensors.{Tensor}
use diffusers_dynamic_offloa.FileSlices.{FileSlice}
use diffusers_dynamic_offloa.Dict.{get, put, remove, get-put, get-remove}
use diffusers_dynamic_offloa.Outcome.{
  Exec, continue, or_raise, runtime_error, value_error, Post, Post-raise_if, Post-continue,
}
use diffusers_dynamic_offloa.SliceRegistry.{
  Registry, Key, Slices, Replacement, key_of, accepts, lookup, collect, rebind, rebind_many,
  replace_slices,
}
use diffusers_dynamic_offloa.SliceRegistry.Binding.{Extends, accepted-Extends}

-- The pending tensors are the new ones, with the slices of the old ones.
abbrev Carried : Slices → List Replacement → List (Tensor × FileSlice) → Type 0
Carried slices [] [] = Unit {0}
Carried slices [] (p ∷ ps) = ⊥
Carried slices (r ∷ rs) [] = ⊥
Carried slices ((old, new) ∷ rs) ((tensor, slice) ∷ ps) =
    (tensor ≡ new) × (get (key_of old) slices ≡ some slice) × Carried slices rs ps

abbrev pub is_old : Key → List Replacement → Bool
is_old k replacements = any (λ r. key_of r.0 == k) replacements

-- The keys that no replacement moves away from.
abbrev pub Spared : List Replacement → Slices → Slices → Type 0
Spared replacements before after =
    (k : Key) (slice : FileSlice)
    → is_old k replacements ≡ false
    → get k before ≡ some slice
    → get k after ≡ some slice

lookup-rule :
    {B : Type 0} (Q : B → Registry → Type 0) (tensor : Tensor) (r : Registry)
    (f : FileSlice → Exec Registry B)
    → ((slice : FileSlice)
        → get (key_of tensor) r.slices ≡ some slice
        → Post Q (λ e t. t ≡ r) (f slice r))
    → Post Q
        (λ e t. t ≡ r)
        (continue (continue (lookup tensor r) (λ found. or_raise found value_error)) f)
unfolding lookup
lookup-rule Q tensor r f k =
    Post-continue (λ slice t. (get (key_of tensor) r.slices ≡ some slice) × (t ≡ r)) Q
      (λ e t. t ≡ r) (continue (lookup tensor r) (λ found. or_raise found value_error)) f
      (Post-continue (λ found t. (found ≡ get (key_of tensor) r.slices) × (t ≡ r)) _ (λ e t. t ≡ r)
        (lookup tensor r) _
        (Post-raise_if _ (λ e t. t ≡ r) r.closed runtime_error r _ (λ _. refl) (λ _. (refl, refl)))
        (λ found t q. found-rule found t q.0 q.1))
      (λ slice t q. rw q.1 (k slice q.0))
  where
    found-rule :
        (found : Option FileSlice) (t : Registry)
        → found ≡ get (key_of tensor) r.slices
        → t ≡ r
        → Post
            (λ slice u. (get (key_of tensor) r.slices ≡ some slice) × (u ≡ r))
            (λ e u. u ≡ r)
            (or_raise found value_error t)
    found-rule none t e same = same
    found-rule (some slice) t e same = (sym e, same)

collect-Post :
    (replacements : List Replacement) (candidate : Slices) (r : Registry)
    → Post
        (λ s t.
          (t ≡ r)
          × Carried r.slices replacements s.0
          × Extends s.1 candidate
          × Spared replacements candidate s.1)
        (λ e t. t ≡ r)
        (collect replacements candidate r)
unfolding collect
collect-Post [] candidate r = (refl, tt, (λ k s h. h), (λ k s n h. h))
collect-Post ((old, new) ∷ replacements) candidate r = lookup-rule _ old r _ λ slice found.
    Post-continue _ _ (λ e t. t ≡ r) (collect replacements (remove (key_of old) candidate) r) _
      (collect-Post replacements (remove (key_of old) candidate) r)
      λ s t q. (
        q.0,
        (refl, found, q.1),
        (λ k x h. ground (arith, q.2 k x h, get-remove (key_of old) k candidate)),
        (λ k x n h. ground (arith, q.3 k x, get-remove (key_of old) k candidate)),
      )

-- The pending tensors find their slices.
abbrev Bound : Slices → List (Tensor × FileSlice) → Type 0
Bound slices = All (λ p. get (key_of p.0) slices ≡ some p.1)

rebind-lem :
    (pending : List (Tensor × FileSlice)) (candidate final : Slices)
    → rebind pending candidate ≡ some final
    → Extends candidate final × Bound final pending
unfolding rebind
rebind-lem [] candidate final e =
    ((λ k x h. subst (λ c. get k c ≡ some x) (some-injective candidate final e) h), tt)
rebind-lem ((new, slice) ∷ pending) candidate final e =
    elim (Bool-cases (accepts candidate new slice)) [
      | inl yes' ↦
          let (extended, bound) =
            rebind-lem pending (put (key_of new) slice candidate) final (rw yes' at e) in
          (
            (λ k x h. extended k x (accepted-Extends candidate new slice yes' k x h)),
            (
              extended (key_of new) slice (
                  rw (get-put (key_of new) (key_of new) slice candidate, ==_refl (key_of new))
                    refl),
              bound,
            ),
          )
      | inr no' ↦ (let bad : ◌≡◌ {A = Option Slices} none (some final) = rw no' at e in absurd (cc))
    ]

-- Each new tensor finds what the old one found.
abbrev pub Moved : Slices → Slices → List Replacement → Type 0
Moved before after = All (λ r. get (key_of r.1) after ≡ get (key_of r.0) before)

Carried-Moved :
    (before after : Slices) (replacements : List Replacement) (pending : List (Tensor × FileSlice))
    → Carried before replacements pending
    → Bound after pending
    → Moved before after replacements
Carried-Moved before after [] [] c b = tt
Carried-Moved before after [] (p ∷ ps) c b = absurd c
Carried-Moved before after (r ∷ rs) [] c b = absurd c
Carried-Moved before after ((old, new) ∷ rs) ((tensor, slice) ∷ ps) c b =
    ((rw (← c.0, c.1) b.0), Carried-Moved before after rs ps c.2 b.1)

-- Where `rebind_many` returns, every new tensor finds what the old one found, and every association
-- that no replacement moves away from is still there. Where it raises, the registry is as it was.
pub rebind_many-Post :
    (replacements : List Replacement) (r : Registry)
    → Post
        (λ _ t.
          Moved r.slices t.slices replacements
          × Spared replacements r.slices t.slices
          × (t.closed ≡ r.closed))
        (λ e t. t ≡ r)
        (rebind_many replacements r)
unfolding rebind_many
rebind_many-Post replacements r =
    Post-raise_if _ (λ e t. t ≡ r) r.closed runtime_error r _ (λ _. refl)
      λ _.
        Post-continue _ _ (λ e t. t ≡ r) (collect replacements r.slices r) _
          (collect-Post replacements r.slices r)
          λ s t q. finish s.0 s.1 t (rebind s.0 s.1) refl q.0 q.1 q.3
  where
    finish :
        (pending : List (Tensor × FileSlice)) (candidate : Slices) (t : Registry)
        (final : Option Slices)
        → rebind pending candidate ≡ final
        → t ≡ r
        → Carried r.slices replacements pending
        → Spared replacements r.slices candidate
        → Post
            (λ _ u.
              Moved r.slices u.slices replacements
              × Spared replacements r.slices u.slices
              × (u.closed ≡ r.closed))
            (λ e u. u ≡ r)
            (replace_slices final t)
    finish pending candidate t none e same c k = same
    finish pending candidate t (some final) e same c spared =
        let (extended, bound) = rebind-lem pending candidate final e in
        (
          Carried-Moved r.slices final replacements pending c bound,
          (λ j x n h. extended j x (spared j x n h)),
          ap (λ (u : Registry). u.closed) same,
        )
