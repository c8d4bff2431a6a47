-- ===== src/AuxiliarySources.antt =====
-- src/diffusers_dynamic_offloader/auxiliary_sources.py: `_detach_cpu_sources`. A tensor object is a number, and
-- the heap says what it holds. Which objects are plain ones, whether an assignment of `tensor.data` succeeds, and
-- the address of a copy are torch's, and functions. A copy that fails, before anything has changed, is left out.
pub mod Steady
pub mod Transaction
use diffusers_dynamic_offloa.Prelude.{
  ℕ, ◌+◌, ◌-◌, String, string_eq, product_eq, nat_eq, Bool, true, false, ◌&&◌, ◌||◌, not, Option,
  none, some, List, [], ◌∷◌, ◌++◌, eqb, ltb, leb, any, keep, map, sum_of, if◌then◌else◌, ◌==◌,
  length, is_some,
}
use diffusers_dynamic_offloa.Tensors.{Tensor, size_bytes}
use diffusers_dynamic_offloa.FileSlices.{FileSlice, slice_beq}
use diffusers_dynamic_offloa.Dict.{Dict, get, put, contains}
use diffusers_dynamic_offloa.Sorting.{sorted}
use diffusers_dynamic_offloa.Outcome.{
  Exec, Outcome, done, raise, value_error, type_error, key_error, ◌>>=◌, ◌>>◌, pure, throw,
  raise_if, or_raise, continue, tidied,
}
use diffusers_dynamic_offloa.SliceRegistry.{
  Registry, Key, Replacement, key_of, empty, bind, lookup, rebind_many,
}

abbrev pub Heap : Type 0
Heap = Dict ℕ Tensor

pub record Memory : Type 0 where
  pub heap : Heap
  pub registry : Registry

-- `is_plain`: a tensor or a parameter, strided and not pinned. `address` is that of the copy of a storage.
pub record Torch : Type 0 where
  pub is_plain : ℕ → Bool
  pub assigns : ℕ → Bool
  pub address : Key → ℕ

-- `references` are the parameters' and then the buffers' names, with their objects.
pub record Module : Type 0 where
  pub training : Bool
  pub references : List (String × ℕ)

pub record Group : Type 0 where
  pub owners : Dict ℕ Tensor
  pub names : List String
  pub descriptor : Option FileSlice

abbrev pub Groups : Type 0
Groups = Dict Key Group

abbrev pub or_new_group : Option Group → Group
or_new_group none = record { owners = []; names = []; descriptor = none }
or_new_group (some group) = group

abbrev pub on_registry : {A : Type 0} → Memory → Outcome Registry A → Outcome Memory A
on_registry s (done a r) = done a (record s { registry = r })
on_registry s (raise e r) = raise e (record s { registry = r })

-- The group's descriptor, which all its tensors have that have one.
abbrev pub conflicts : Option FileSlice → FileSlice → Bool
conflicts none slice = false
conflicts (some old) slice = not (slice_beq old slice)

unfoldable pub described : Option FileSlice → Group → Exec Memory Group
described none group = pure group
described (some slice) group =
    raise_if (conflicts group.descriptor slice) value_error
    >> pure (record group { descriptor = some slice })

abbrev pub joined : Group → String → ℕ → Tensor → Group
joined group label id tensor = record group {
  owners = put id tensor group.owners;
  names = group.names ++ label ∷ [];
}

unfoldable pub add_reference : String → ℕ → Tensor → Groups → Exec Memory Groups
add_reference label id tensor groups = do
  found ← λ s. on_registry s (lookup tensor s.registry)
  group ← described found (joined (or_new_group (get (key_of tensor) groups)) label id tensor)
  pure (put (key_of tensor) group groups)

unfoldable pub collect_one : String → ℕ → Groups → Exec Memory Groups
collect_one label id groups = do
  tensor ← λ s. or_raise (get id s.heap) key_error s
  if not tensor.on_cpu || eqb tensor.numel 0
      then pure groups
      else add_reference label id tensor groups

unfoldable pub collect : List (String × ℕ) → Groups → Exec Memory Groups
collect [] groups = pure groups
collect ((label, id) ∷ references) groups = collect_one label id groups >>= collect references

abbrev pub overlaps : Key → Key → Bool
overlaps (start, bytes) (other, other_bytes) =
    ltb start (other + other_bytes) && ltb other (start + bytes)

abbrev pub key_le : Key → Key → Bool
key_le (start, bytes) (other, other_bytes) =
    ltb start other || (eqb start other && leb bytes other_bytes)

abbrev pub selected : Groups → Groups
selected = keep (λ entry. is_some entry.1.descriptor)

-- An interval and the later ones that begin in it, where one of the two is selected.
abbrev clashes_with : Groups → Key → List Key → Bool
clashes_with chosen key [] = false
clashes_with chosen key (other ∷ others) =
    let rest = clashes_with chosen key others in
    if leb (key.0 + key.1) other.0
    then false
    else contains key chosen || (contains other chosen || rest)

unfoldable pub clashes : Groups → List Key → Bool
clashes chosen [] = false
clashes chosen (key ∷ keys) = clashes_with chosen key keys || clashes chosen keys

abbrev pub total_bytes : Groups → ℕ
total_bytes = sum_of (λ entry. entry.0.1)

-- Each owner is plain and contiguous, and the group's descriptor describes it.
abbrev accepted : Option FileSlice → Tensor → Outcome Registry Bool
accepted none tensor = done false empty
accepted (some slice) tensor = bind tensor slice empty

abbrev is_accepted : Outcome Registry Bool → Bool
is_accepted (done b r) = b
is_accepted (raise e r) = false

unfoldable pub check_owners : Torch → Option FileSlice → Dict ℕ Tensor → Exec Memory (Unit {0})
check_owners torch descriptor [] = pure tt
check_owners torch descriptor ((id, tensor) ∷ owners) =
    raise_if (not (torch.is_plain id && tensor.contiguous)) value_error >>= λ _.
    raise_if (not (is_accepted (accepted descriptor tensor))) value_error >>= λ _.
    check_owners torch descriptor owners

unfoldable pub check_groups : Torch → Groups → Exec Memory (Unit {0})
check_groups torch [] = pure tt
check_groups torch ((key, group) ∷ groups) =
    check_owners torch group.descriptor group.owners >> check_groups torch groups

-- The owners of a group, the tensor that its first one holds, and the copy.
pub record Copy : Type 0 where
  pub owners : List ℕ
  pub old : Tensor
  pub new : Tensor

abbrev copy_of : Torch → Key → Dict ℕ Tensor → List Copy
copy_of torch key [] = []
copy_of torch key ((id, old) ∷ owners) =
    record {
      owners = id ∷ map (λ owner. owner.0) owners;
      old = old;
      new = record old { data_ptr = torch.address key };
    }
    ∷ []

unfoldable pub prepare : Torch → Groups → List Copy
prepare torch [] = []
prepare torch ((key, group) ∷ groups) = copy_of torch key group.owners ++ prepare torch groups

-- The memory, and the assignments to undo, newest first.
pub record Work : Type 0 where
  pub memory : Memory
  pub changed : List (ℕ × Tensor)

unfoldable pub assign : Torch → Tensor → ℕ → Exec Work (Unit {0})
assign torch new id = do
  old ← λ w. or_raise (get id w.memory.heap) key_error w
  λ w.
      if torch.assigns id
      then done tt (record {
        memory = record (w.memory) { heap = put id new w.memory.heap };
        changed = (id, old) ∷ w.changed;
      })
      else raise type_error w

unfoldable pub assign_owners : Torch → Tensor → List ℕ → Exec Work (Unit {0})
assign_owners torch new [] = pure tt
assign_owners torch new (id ∷ owners) = assign torch new id >> assign_owners torch new owners

unfoldable pub assign_copies : Torch → List Copy → Exec Work (Unit {0})
assign_copies torch [] = pure tt
assign_copies torch (copy ∷ copies) =
    assign_owners torch copy.new copy.owners >> assign_copies torch copies

abbrev pub on_memory : {A : Type 0} → Work → Outcome Registry A → Outcome Work A
on_memory w (done a r) = done a (record w { memory = record (w.memory) { registry = r } })
on_memory w (raise e r) = raise e (record w { memory = record (w.memory) { registry = r } })

abbrev pub restore : List (ℕ × Tensor) → Heap → Heap
restore [] heap = heap
restore ((id, old) ∷ changed) heap = restore changed (put id old heap)

abbrev pub restored : Work → Work
restored w = record w { memory = record (w.memory) { heap = restore w.changed w.memory.heap } }

abbrev pub replacements : List Copy → List Replacement
replacements = map (λ copy. (copy.old, copy.new))

-- The assignments and the relocation of the descriptors, undone where one of them raises.
unfoldable pub change : Torch → List Copy → Exec Work (Unit {0})
change torch copies w =
    tidied
      ((do
        assign_copies torch copies
        λ v. on_memory v (rebind_many (replacements copies) v.memory.registry))
        w)
      restored

abbrev pub memory_of : {A : Type 0} → Outcome Work A → Outcome Memory A
memory_of (done a w) = done a w.memory
memory_of (raise e w) = raise e w.memory

pub record Report : Type 0 where
  pub copied_bytes : ℕ
  pub copied_storage_groups : ℕ
  pub copied_tensor_owners : ℕ
  pub copied_named_references : ℕ
  pub unbound_cpu_storage_groups : ℕ

abbrev pub report_of : Groups → Report
report_of groups = record {
  copied_bytes = total_bytes (selected groups);
  copied_storage_groups = length (selected groups);
  copied_tensor_owners = sum_of (λ entry. length entry.1.owners) (selected groups);
  copied_named_references = sum_of (λ entry. length entry.1.names) (selected groups);
  unbound_cpu_storage_groups = length groups - length (selected groups);
}

unfoldable pub copy_selected : Torch → Groups → ℕ → List Key → Exec Memory Report
copy_selected torch groups max_copy_bytes protected = do
  raise_if (any (λ entry. any (overlaps entry.0) protected) (selected groups)) value_error
  raise_if (clashes (selected groups) (sorted key_le (map (λ entry. entry.0) groups))) value_error
  raise_if (ltb max_copy_bytes (total_bytes (selected groups))) value_error
  check_groups torch (selected groups)
  λ s.
      memory_of
        (change torch (prepare torch (selected groups)) (record { memory = s; changed = [] }))
  pure (report_of groups)

unfoldable pub detach_cpu_sources : Torch → Module → ℕ → List Key → Exec Memory Report
detach_cpu_sources torch module_ max_copy_bytes protected = do
  raise_if module_.training value_error
  groups ← collect module_.references []
  copy_selected torch groups max_copy_bytes protected
