-- ===== src/SourceMetadata/Grouping.antt =====
-- The groups hold the eligible parameters, by their storage.
use diffusers_dynamic_offloa.Prelude.{
  ℕ, ◌+◌, ◌≡◌, refl, sym, ap, ◌∙◌, String, string_eq, product_eq, nat_eq, Bool, true, false, ◌&&◌,
  List, [], ◌∷◌, ◌++◌, ◌==◌, ==_iff, if◌then◌else◌, length, length-append, arith, if_rule, suc,
  Option, none, some,
}
use diffusers_dynamic_offloa.Tensors.{Tensor}
use diffusers_dynamic_offloa.FileSlices.{FileSlice}
use diffusers_dynamic_offloa.Dict.{
  Dict, get, get-put, total, total-put, weight, Distinct, put-Distinct,
}
use diffusers_dynamic_offloa.SliceRegistry.{Key, key_of}
use diffusers_dynamic_offloa.SourceMetadata.{
  Group, Groups, or_no_group, or_no_slices, joined, is_eligible, add_parameter, group_parameters,
}

-- The eligible parameters of one storage.
abbrev pub owners : Key → List (String × Tensor) → List Tensor
owners key [] = []
owners key ((name, tensor) ∷ parameters) =
    let rest = owners key parameters in
    if is_eligible tensor && key_of tensor == key then tensor ∷ rest else rest

abbrev pub parameters_at : Key → Groups → List Tensor
parameters_at key groups = (or_no_group (get key groups)).parameters

abbrev pub size : Groups → ℕ
size = total (λ group. length group.parameters)

append_assoc : {A : Type 0} (xs ys zs : List A) → (xs ++ ys) ++ zs ≡ xs ++ (ys ++ zs)
append_assoc [] ys zs = refl
append_assoc (x ∷ xs) ys zs = ap (λ l. x ∷ l) (append_assoc xs ys zs)

append_nil : {A : Type 0} (xs : List A) → xs ++ [] ≡ xs
append_nil [] = refl
append_nil (x ∷ xs) = ap (λ l. x ∷ l) (append_nil xs)

module _ (mapped : Dict String (List FileSlice)) where
  abbrev added : String → Tensor → Groups → Group
  added name tensor groups =
      joined (or_no_group (get (key_of tensor) groups)) tensor (or_no_slices (get name mapped))

  added_at :
      (name : String) (tensor : Tensor) (groups : Groups) (key : Key) (others : List Tensor)
      → parameters_at key (add_parameter mapped name tensor groups) ++ others
        ≡ parameters_at key groups ++ (if key_of tensor == key then tensor ∷ others else others)
  unfolding add_parameter
  added_at name tensor groups key others =
      ap (λ o. (or_no_group o).parameters ++ others)
        (get-put (key_of tensor) key (added name tensor groups) groups)
      ∙ pick (key_of tensor == key) refl
    where
      pick :
          (b : Bool)
          → (key_of tensor == key) ≡ b
          → (or_no_group (if b then some (added name tensor groups) else get key groups)).parameters
              ++ others
            ≡ parameters_at key groups ++ (if b then tensor ∷ others else others)
      pick true same =
          append_assoc (parameters_at (key_of tensor) groups) (tensor ∷ []) others
          ∙ ap (λ k. parameters_at k groups ++ tensor ∷ others)
              ((==_iff (key_of tensor) key).0 same)
      pick false differ = refl

  size-add_parameter :
      (name : String) (tensor : Tensor) (groups : Groups)
      → size (add_parameter mapped name tensor groups) ≡ size groups + 1
  unfolding add_parameter
  size-add_parameter name tensor groups =
      let old = or_no_group (get (key_of tensor) groups) in
      omega (
        arith,
        total-put (λ group. length group.parameters) (key_of tensor) (added name tensor groups)
            groups,
        weighs (get (key_of tensor) groups),
        length-append old.parameters (tensor ∷ []),
      )
    where
      weighs :
          (o : Option Group)
          → weight (λ group. length group.parameters) o ≡ length (or_no_group o).parameters
      weighs none = refl
      weighs (some group) = refl

  -- Each eligible parameter stands in the group of its storage.
  pub group_parameters-owners :
      (parameters : List (String × Tensor)) (groups : Groups) (ineligible : ℕ) (key : Key)
      → parameters_at key (group_parameters mapped parameters (groups, ineligible)).0
        ≡ parameters_at key groups ++ owners key parameters
  unfolding group_parameters
  group_parameters-owners [] groups ineligible key = sym (append_nil (parameters_at key groups))
  group_parameters-owners ((name, tensor) ∷ parameters) groups ineligible key =
      step
        (group_parameters-owners parameters (add_parameter mapped name tensor groups) ineligible
          key)
        (group_parameters-owners parameters groups (ineligible + 1) key) (is_eligible tensor)
    where
      step :
          parameters_at key
              (group_parameters mapped parameters
                (add_parameter mapped name tensor groups, ineligible)).0
            ≡ parameters_at key (add_parameter mapped name tensor groups) ++ owners key parameters
          → parameters_at key (group_parameters mapped parameters (groups, ineligible + 1)).0
            ≡ parameters_at key groups ++ owners key parameters
          → (eligible : Bool)
          → parameters_at key
              (group_parameters mapped parameters (
                if eligible
                then (add_parameter mapped name tensor groups, ineligible)
                else (groups, ineligible + 1))).0
            ≡ parameters_at key groups
              ++ (if eligible && key_of tensor == key
                  then tensor ∷ owners key parameters
                  else owners key parameters)
      step joins stays true = joins ∙ added_at name tensor groups key (owners key parameters)
      step joins stays false = stays

  -- Each parameter is in a group or counted as not eligible.
  pub group_parameters-size :
      (parameters : List (String × Tensor)) (groups : Groups) (ineligible : ℕ)
      → let found = group_parameters mapped parameters (groups, ineligible) in
        size found.0 + found.1 ≡ size groups + ineligible + length parameters
  unfolding group_parameters
  group_parameters-size [] groups ineligible = omega arith
  group_parameters-size ((name, tensor) ∷ parameters) groups ineligible =
      if_rule
        (λ found.
          size (group_parameters mapped parameters found).0
            + (group_parameters mapped parameters found).1
          ≡ size groups + ineligible + suc (length parameters))
        (is_eligible tensor) (add_parameter mapped name tensor groups, ineligible)
        (groups, ineligible + 1)
        (λ _. omega (
          arith,
          group_parameters-size parameters (add_parameter mapped name tensor groups) ineligible,
          size-add_parameter name tensor groups,
        ))
        λ _. omega (arith, group_parameters-size parameters groups (ineligible + 1))

  pub group_parameters-Distinct :
      (parameters : List (String × Tensor)) (groups : Groups) (ineligible : ℕ)
      → Distinct groups
      → Distinct (group_parameters mapped parameters (groups, ineligible)).0
  unfolding group_parameters add_parameter
  group_parameters-Distinct [] groups ineligible h = h
  group_parameters-Distinct ((name, tensor) ∷ parameters) groups ineligible h =
      if_rule (λ found. Distinct (group_parameters mapped parameters found).0) (is_eligible tensor)
        (add_parameter mapped name tensor groups, ineligible) (groups, ineligible + 1)
        (λ _.
          group_parameters-Distinct parameters (add_parameter mapped name tensor groups) ineligible
            (put-Distinct (key_of tensor) (added name tensor groups) groups h))
        λ _. group_parameters-Distinct parameters groups (ineligible + 1) h
