-- ===== src/SourceMetadata/Association.antt =====
-- What the association binds, and what it counts.
use mathlib.Core.Option.{some-injective}
use diffusers_dynamic_offloa.Prelude.{
  ℕ, suc, ◌+◌, ◌≡◌, refl, sym, ap, subst, ◌∙◌, String, string_eq, product_eq, nat_eq, Bool, true,
  false, Option, none, some, List, [], ◌∷◌, ◌++◌, ◌==◌, ==_iff, length, arith, All, Bool-cases,
  if_rule, inl, inr,
}
use diffusers_dynamic_offloa.Tensors.{Tensor}
use diffusers_dynamic_offloa.FileSlices.{FileSlice}
use diffusers_dynamic_offloa.Dict.{Dict, total, get, put, get-put, Distinct, entries-get}
use diffusers_dynamic_offloa.Outcome.{Post, Post-continue}
use diffusers_dynamic_offloa.SliceRegistry.{Registry, Key, Slices, key_of, describes, empty}
use diffusers_dynamic_offloa.SourceMetadata.{
  Group, Groups, Summary, or_no_group, or_no_slices, joined, add_parameter, is_eligible,
  group_parameters, distinct, associate_group, associate_groups, associate_resolved, map_names,
  Module, new_summary, resolver_of, associate_with, associate_source_metadata,
}
use diffusers_dynamic_offloa.SourceMetadata.Grouping.{
  owners, parameters_at, size, group_parameters-owners, group_parameters-size,
  group_parameters-Distinct,
}
use diffusers_dynamic_offloa.SourceMetadata.Settling.{
  Never, opened, AllDescribed, lost, Settled, group-Settled,
}

-- The group's parameters have the group's key, and there is one.
abbrev IsHeaded : Key × Group → Type 0
IsHeaded entry =
    (head : Tensor) × (tail : List Tensor) × (entry.1.parameters ≡ head ∷ tail)
    × (key_of head ≡ entry.0)

put-All :
    (P : Key × Group → Type 0) (key : Key) (group : Group) (d : Groups)
    → P (key, group)
    → All P d
    → All P (put key group d)
unfolding put
put-All P key group [] p h = (p, tt)
put-All P key group ((j, other) ∷ d) p h =
    if_rule (All P) (j == key) ((j, group) ∷ d) ((j, other) ∷ put key group d)
      (λ same. (subst (λ k. P (k, group)) (sym ((==_iff j key).0 same)) p, h.1))
      λ _. (h.0, put-All P key group d p h.1)

joined-IsHeaded :
    (tensor : Tensor) (slices : List FileSlice) (groups : Groups)
    → All IsHeaded groups
    → IsHeaded (key_of tensor, joined (or_no_group (get (key_of tensor) groups)) tensor slices)
unfolding get
joined-IsHeaded tensor slices [] h = (tensor, [], refl, refl)
joined-IsHeaded tensor slices ((j, group) ∷ groups) h =
    if_rule (λ o. IsHeaded (key_of tensor, joined (or_no_group o) tensor slices))
      (j == key_of tensor) (some group) (get (key_of tensor) groups)
      (λ same. (
        h.0.0,
        h.0.1 ++ tensor ∷ [],
        ap (λ l. l ++ tensor ∷ []) h.0.2,
        h.0.3 ∙ (==_iff j (key_of tensor)).0 same,
      ))
      λ _. joined-IsHeaded tensor slices groups h.1

group_parameters-IsHeaded :
    (mapped : Dict String (List FileSlice)) (parameters : List (String × Tensor)) (groups : Groups)
    (ineligible : ℕ)
    → All IsHeaded groups
    → All IsHeaded (group_parameters mapped parameters (groups, ineligible)).0
unfolding group_parameters add_parameter
group_parameters-IsHeaded mapped [] groups ineligible h = h
group_parameters-IsHeaded mapped ((name, tensor) ∷ parameters) groups ineligible h =
    if_rule (λ found. All IsHeaded (group_parameters mapped parameters found).0)
      (is_eligible tensor) (add_parameter mapped name tensor groups, ineligible)
      (groups, ineligible + 1)
      (λ _.
        group_parameters-IsHeaded mapped parameters (add_parameter mapped name tensor groups)
          ineligible
          (put-All IsHeaded (key_of tensor) _ groups
            (joined-IsHeaded tensor (or_no_slices (get name mapped)) groups h) h))
      λ _. group_parameters-IsHeaded mapped parameters groups (ineligible + 1) h

length-put :
    (key : Key) (slice : FileSlice) (d : Slices)
    → get key d ≡ none
    → length (put key slice d) ≡ length d + 1
unfolding put get
length-put key slice [] h = omega arith
length-put key slice ((j, old) ∷ d) h = elim (Bool-cases (j == key)) [
  | inl same ↦ absurd (let found : some old ≡ none = rw same at h in cc)
  | inr differ ↦
      let missing = rw differ at h in rw differ (omega (arith, length-put key slice d missing))
]

-- None of the groups has a slice yet, and still none after another storage gets one.
abbrev Unbound : Groups → Slices → Type 0
Unbound groups slices = All (λ entry. get entry.0 slices ≡ none) groups

put-Unbound :
    (key : Key) (slice : FileSlice) (slices : Slices) (groups : Groups)
    → get key groups ≡ none
    → Unbound groups slices
    → Unbound groups (put key slice slices)
unfolding get
put-Unbound key slice slices [] e h = tt
put-Unbound key slice slices ((j, group) ∷ groups) e h = elim (Bool-cases (j == key)) [
  | inl same ↦ absurd (let found : some group ≡ none = rw same at e in cc)
  | inr differ ↦
      let missing = rw differ at e in
      (
        rw (get-put key j slice slices, other_way key j differ) h.0,
        put-Unbound key slice slices groups missing h.1,
      )
]
  where
    other_way : (k l : Key) → (l == k) ≡ false → (k == l) ≡ false
    other_way k l differ = elim (Bool-cases (k == l)) [
      | inl same ↦
          absurd (let equal = sym ((==_iff k l).0 same) in let again = (==_iff l k).1 equal in cc)
      | inr e ↦ e
    ]

headed-Settled :
    (found : List FileSlice) (key : Key) (group : Group) (slices : Slices) (before : Summary)
    → IsHeaded (key, group)
    → get key slices ≡ none
    → Post
        (Settled key group.parameters slices before)
        Never
        (associate_group found group.parameters before (opened slices))
headed-Settled found key group slices before (head, tail, same, of_key) fresh =
    subst
      (λ k.
        Post (Settled k group.parameters slices before) Never
          (associate_group found group.parameters before (opened slices)))
      of_key
      (subst
        (λ l.
          Post (Settled (key_of head) l slices before) Never
            (associate_group found l before (opened slices)))
        (sym same) (group-Settled found head tail slices before (rw of_key fresh)))

module _ (all : Groups) where
  -- A slice is bound where it describes each parameter of the storage.
  abbrev Sound : Slices → Type 0
  Sound slices =
      (key : Key) (slice : FileSlice)
      → get key slices ≡ some slice
      → AllDescribed slice (parameters_at key all)

  abbrev Associated : ℕ → ℕ → Summary → Registry → Type 0
  Associated settled ineligible after r =
      (slices : Slices) × (r ≡ opened slices)
      × Sound slices
      × (length slices + lost after ≡ settled)
      × (after.ineligible_parameter_aliases ≡ ineligible)

  put-Sound :
      (key : Key) (slice : FileSlice) (slices : Slices)
      → AllDescribed slice (parameters_at key all)
      → Sound slices
      → Sound (put key slice slices)
  put-Sound key slice slices h sound other found e = elim (Bool-cases (key == other)) [
    | inl same ↦
        let here : some slice ≡ some found =
          sym (rw (get-put key other slice slices, same) refl) ∙ e in
        subst (λ k. AllDescribed found (parameters_at k all)) ((==_iff key other).0 same)
          (subst (λ (x : FileSlice). AllDescribed x (parameters_at key all))
            (some-injective slice found here) h)
    | inr differ ↦ sound other found (sym (rw (get-put key other slice slices, differ) refl) ∙ e)
  ]

  groups-Associated :
      (rest : Groups) (slices : Slices) (before : Summary)
      → Distinct rest
      → All IsHeaded rest
      → All (λ entry. get entry.0 all ≡ some entry.1) rest
      → Unbound rest slices
      → Sound slices
      → Post
          (Associated
            (length slices + lost before + length rest)
            before.ineligible_parameter_aliases)
          Never
          (associate_groups rest before (opened slices))
  unfolding associate_groups
  groups-Associated [] slices before d heads here fresh sound =
      (slices, refl, sound, omega arith, refl)
  groups-Associated ((key, group) ∷ rest) slices before d heads here fresh sound =
      let settled = length slices + lost before + suc (length rest) in
      let goal = Associated settled before.ineligible_parameter_aliases in
      Post-continue (Settled key group.parameters slices before) goal Never
        (associate_group (distinct group.descriptors) group.parameters before (opened slices))
        (associate_groups rest)
        (headed-Settled (distinct group.descriptors) key group slices before heads.0 fresh.0)
        λ after r (slices', same, aliases, which).
          subst (λ x. Post goal Never (associate_groups rest after x)) (sym same)
            (subst
              (λ n.
                Post (Associated settled n) Never (associate_groups rest after (opened slices')))
              aliases
              (elim which [
                | inl (kept, one_lost) ↦
                    subst
                      (λ x.
                        Post (Associated settled after.ineligible_parameter_aliases) Never
                          (associate_groups rest after (opened x)))
                      (sym kept)
                      (subst
                        (λ n.
                          Post (Associated n after.ineligible_parameter_aliases) Never
                            (associate_groups rest after (opened slices)))
                        (omega (arith, one_lost))
                        (groups-Associated rest slices after d.1 heads.1 here.1 fresh.1 sound))
                | inr (slice, put_there, described, none_lost) ↦
                    subst
                      (λ x.
                        Post (Associated settled after.ineligible_parameter_aliases) Never
                          (associate_groups rest after (opened x)))
                      (sym put_there)
                      (subst
                        (λ n.
                          Post (Associated n after.ineligible_parameter_aliases) Never
                            (associate_groups rest after (opened (put key slice slices))))
                        (omega (arith, none_lost, length-put key slice slices fresh.0))
                        (groups-Associated rest (put key slice slices) after d.1 heads.1 here.1
                          (put-Unbound key slice slices rest d.0 fresh.1)
                          (put-Sound key slice slices
                            (subst (λ o. AllDescribed slice (or_no_group o).parameters) (sym here.0)
                              described)
                            sound)))
              ]))

-- What the association answers to names that it can resolve, and to others.
abbrev pub Accounted :
    Option (String → String)
    → Dict String FileSlice
    → List (String × Tensor)
    → Summary
    → Registry
    → Type 0
Accounted none available parameters after r = (r.slices ≡ []) × (after.bound ≡ 0)
Accounted (some resolve) available parameters after r =
    let groups = (group_parameters (map_names resolve available []) parameters ([], 0)).0 in
    ((key : Key) (slice : FileSlice)
      → get key r.slices ≡ some slice
      → All (λ tensor. describes slice tensor ≡ true) (owners key parameters))
    × (after.bound + after.rejected_storage_groups + after.missing_storage_groups ≡ length groups)
    × (size groups + after.ineligible_parameter_aliases ≡ length parameters)

associate_resolved-Post :
    (resolve : String → String) (available : Dict String FileSlice)
    (parameters : List (String × Tensor)) (before : Summary)
    → lost before ≡ 0
    → Post
        (Accounted (some resolve) available parameters)
        Never
        (associate_resolved resolve available parameters before empty)
unfolding associate_resolved get total
associate_resolved-Post resolve available parameters before nothing =
    Post-continue (Associated groups (0 + lost start + length groups) found.1) _ Never
      (associate_groups groups start empty) _
      (groups-Associated groups groups [] start
        (group_parameters-Distinct mapped parameters [] 0 tt)
        (group_parameters-IsHeaded mapped parameters [] 0 tt)
        (entries-get groups (group_parameters-Distinct mapped parameters [] 0 tt))
        (none_bound groups) (λ key slice e. absurd (cc)))
      λ after r (slices, same, sound, counted, aliases). (
        (λ key slice e.
            subst (AllDescribed slice) (group_parameters-owners mapped parameters [] 0 key)
              (sound key slice (ap (λ (x : Registry). get key x.slices) (sym same) ∙ e))),
        subst
            (λ (x : Registry).
              length x.slices + after.rejected_storage_groups + after.missing_storage_groups
              ≡ length groups)
            (sym same) (omega (arith, counted, nothing)),
        omega (arith, aliases, group_parameters-size mapped parameters [] 0),
      )
  where
    mapped : Dict String (List FileSlice)
    mapped = map_names resolve available []

    found : Groups × ℕ
    found = group_parameters mapped parameters ([], 0)

    groups : Groups
    groups = found.0

    start : Summary
    start = record before { ineligible_parameter_aliases = found.1 }

    none_bound : (rest : Groups) → Unbound rest []
    none_bound [] = tt
    none_bound (entry ∷ rest) = (refl, none_bound rest)

-- The association returns for any module and checkpoint. With names that it can resolve, each slice in the new
-- registry describes every eligible parameter of its storage; the bound, the rejected and the missing storages
-- together are those that eligible parameters have; and each parameter is of one of them or counted as not
-- eligible. With other names nothing is bound.
pub associate_source_metadata-Post :
    (module_ : Module) (available : Dict String FileSlice) (has_key_mapping : Bool)
    → Post
        (Accounted (resolver_of module_ has_key_mapping).1 available module_.parameters)
        (λ _ _. true ≡ false)
        (associate_source_metadata module_ available has_key_mapping)
unfolding associate_source_metadata
associate_source_metadata-Post module_ available has_key_mapping =
    from (resolver_of module_ has_key_mapping)
  where
    from :
        (found : String × Option (String → String))
        → Post
            (Accounted found.1 available module_.parameters)
            (λ _ _. true ≡ false)
            (associate_with found.1 available module_.parameters
              (record (new_summary (length available)) { resolver = found.0 })
              empty)
    from (name, none) = (refl, refl)
    from (name, some resolve) =
        associate_resolved-Post resolve available module_.parameters
          (record (new_summary (length available)) { resolver = name }) (omega arith)
