-- ===== src/SourceMetadata/Settling.antt =====
-- One group of parameters: what is probed, and what is bound.
use diffusers_dynamic_offloa.Prelude.{
  ℕ, ◌+◌, ◌≡◌, refl, ◌⊎◌, string_eq, product_eq, nat_eq, Bool, true, false, ◌&&◌, none, List, [],
  ◌∷◌, if◌then◌else◌, arith, All, if_rule, inl, inr,
}
use diffusers_dynamic_offloa.Tensors.{Tensor}
use diffusers_dynamic_offloa.FileSlices.{FileSlice}
use diffusers_dynamic_offloa.Dict.{get, put}
use diffusers_dynamic_offloa.Outcome.{
  Error, Outcome, Post, Post-weaken, done, raise, pure, continue,
}
use diffusers_dynamic_offloa.SliceRegistry.{
  Registry, Key, Slices, key_of, bind, describes, accepts, empty,
}
use diffusers_dynamic_offloa.SourceMetadata.{Summary, bind_all, probed, associate_group}

-- It does not raise.
abbrev pub Never : {S : Type 0} → Error → S → Type 0
Never e s = true ≡ false

abbrev pub opened : Slices → Registry
opened slices = record { slices = slices; closed = false }

abbrev pub AllDescribed : FileSlice → List Tensor → Type 0
AllDescribed slice = All (λ tensor. describes slice tensor ≡ true)

abbrev pub lost : Summary → ℕ
lost summary = summary.rejected_storage_groups + summary.missing_storage_groups

and_left : (a b : Bool) → (a && b) ≡ true → a ≡ true
and_left true b h = refl
and_left false b h = h

bind_all-Described :
    (slice : FileSlice) (tensors : List Tensor) (slices : Slices)
    → Post
        (λ b _. b ≡ true → AllDescribed slice tensors)
        Never
        (bind_all slice tensors (opened slices))
unfolding bind_all bind
bind_all-Described slice [] slices = λ _. tt
bind_all-Described slice (tensor ∷ tensors) slices =
    if_rule
      (λ o.
        Post (λ b _. b ≡ true → AllDescribed slice (tensor ∷ tensors)) Never
          (continue o (λ accepted. if accepted then bind_all slice tensors else pure false)))
      (accepts slices tensor slice) _ _
      (λ yes'.
        Post-weaken (λ b _. b ≡ true → AllDescribed slice tensors)
          (λ b _. b ≡ true → AllDescribed slice (tensor ∷ tensors)) Never Never
          (bind_all slice tensors (opened (put (key_of tensor) slice slices)))
          (bind_all-Described slice tensors (put (key_of tensor) slice slices))
          (λ b _ all_others e. (and_left (describes slice tensor) _ yes', all_others e))
          (λ _ _ h. h))
      λ _ e. absurd (cc)

-- What one group does to the slices and the counts.
abbrev pub Settled : Key → List Tensor → Slices → Summary → Summary → Registry → Type 0
Settled key tensors slices before after r =
    (slices' : Slices) × (r ≡ opened slices')
    × (after.ineligible_parameter_aliases ≡ before.ineligible_parameter_aliases)
    × (((slices' ≡ slices) × (lost after ≡ lost before + 1))
        ⊎ ((slice : FileSlice) × (slices' ≡ put key slice slices)
            × AllDescribed slice tensors
            × (lost after ≡ lost before)))

first_bound :
    (slice : FileSlice) (head : Tensor) (tail : List Tensor) (slices : Slices) (summary : Summary)
    → get (key_of head) slices ≡ none
    → AllDescribed slice (head ∷ tail)
    → Post
        (Settled (key_of head) (head ∷ tail) slices summary)
        Never
        (continue (bind head slice (opened slices)) (λ _. pure summary))
unfolding bind
first_bound slice head tail slices summary fresh h =
    rw (h.0, fresh) (put (key_of head) slice slices, refl, refl, inr (slice, refl, h, refl))

pub group-Settled :
    (found : List FileSlice) (head : Tensor) (tail : List Tensor) (slices : Slices)
    (summary : Summary)
    → get (key_of head) slices ≡ none
    → Post
        (Settled (key_of head) (head ∷ tail) slices summary)
        Never
        (associate_group found (head ∷ tail) summary (opened slices))
unfolding associate_group
group-Settled [] head tail slices summary fresh = (slices, refl, refl, inl (refl, omega arith))
group-Settled (slice ∷ another ∷ others) head tail slices summary fresh =
    (slices, refl, refl, inl (refl, omega arith))
group-Settled (slice ∷ []) head tail slices summary fresh =
    from (bind_all slice (head ∷ tail) empty) (bind_all-Described slice (head ∷ tail) [])
  where
    from :
        (o : Outcome Registry Bool)
        → Post (λ b _. b ≡ true → AllDescribed slice (head ∷ tail)) Never o
        → Post
            (Settled (key_of head) (head ∷ tail) slices summary)
            Never
            (probed o slice (head ∷ tail) summary (opened slices))
    from (raise e probe) h = absurd (cc)
    from (done false probe) h = (slices, refl, refl, inl (refl, omega arith))
    from (done true probe) h = first_bound slice head tail slices summary fresh (h refl)
