-- ===== src/HostRegistry.antt =====
-- src/diffusers_dynamic_offloader/vmm_weight_store.py: `RegisteredHostWeightRegistry`.
pub mod Budget
use diffusers_dynamic_offloa.Prelude.{
  ℕ, ◌+◌, product_eq, nat_eq, Bool, true, false, not, ◌||◌, List, [], ◌∷◌, ltb, eqb, if◌then◌else◌,
  ◌==◌, any, Option, none, some,
}
use diffusers_dynamic_offloa.Tensors.{Tensor, size_bytes}
use diffusers_dynamic_offloa.Dict.{Dict, get, put, contains}
use diffusers_dynamic_offloa.Outcome.{Exec, done, raise, runtime_error, value_error, continue}
use diffusers_dynamic_offloa.CudaDriver.{Driver, Call, host_register, host_unregister}

-- The tensor that is kept alive, and whether this registry has to unregister it.
pub record Registration : Type 0 where
  pub source : Tensor
  pub owned : Bool

pub record Registry : Type 0 where
  pub max_bytes : ℕ
  pub registered_bytes : ℕ
  pub skipped_bytes : ℕ
  pub registrations : Dict (ℕ × ℕ) Registration
  pub budget_skips : List (ℕ × ℕ)
  pub trace : List Call

abbrev pub key_of : Tensor → ℕ × ℕ
key_of source = (source.data_ptr, size_bytes source)

-- The constructor; `none` stands for its `ValueError`.
unfoldable pub init : ℕ → Option Registry
init max_bytes =
    if eqb max_bytes 0
    then none
    else some (record {
      max_bytes = max_bytes;
      registered_bytes = 0;
      skipped_bytes = 0;
      registrations = [];
      budget_skips = [];
      trace = [];
    })

abbrev pub is_skipped : ℕ × ℕ → List (ℕ × ℕ) → Bool
is_skipped key skips = any (λ k. k == key) skips

-- The budget is spent: the bytes are counted once for a range.
unfoldable pub skip : ℕ × ℕ → Registry → Registry
skip key r =
    if is_skipped key r.budget_skips
    then r
    else record r { budget_skips = key ∷ r.budget_skips; skipped_bytes = r.skipped_bytes + key.1 }

abbrev pub add : ℕ × ℕ → Tensor → Bool → Registry → Registry
add key source owned r = record r {
  registrations = put key (record { source = source; owned = owned }) r.registrations;
  registered_bytes = r.registered_bytes + key.1;
}

abbrev pub contains_source : Tensor → Registry → Bool
contains_source source r = contains (key_of source) r.registrations

module _ (driver : Driver) where
  -- `cuMemHostRegister` and its three answers.
  unfoldable pub register_range : ℕ × ℕ → Tensor → Exec Registry Bool
  register_range key source r =
      let c = host_register source.data_ptr key.1 in
      let called = record r { trace = c ∷ r.trace } in
      if driver.already_registered r.trace c
      then done true (add key source false called)
      else if driver.succeeds r.trace c
      then done true (add key source true called)
      else done false called

  unfoldable pub register : Tensor → Exec Registry Bool
  register source r =
      let key = key_of source in
      if not source.on_cpu || not source.contiguous
      then done false r
      else if eqb (size_bytes source) 0
      then done true r
      else if contains key r.registrations
      then done true r
      else if ltb r.max_bytes (r.registered_bytes + size_bytes source)
      then done false (skip key r)
      else register_range key source r

  unfoldable pub unregister : List ((ℕ × ℕ) × Registration) → Exec Registry (Unit {0})
  unregister [] r = done tt r
  unregister ((key, entry) ∷ entries) r =
      let c = host_unregister key.0 in
      let called = record r { trace = c ∷ r.trace } in
      let rest = λ (s : Registry). unregister entries s in
      if entry.owned
      then (if driver.succeeds r.trace c then rest called else raise runtime_error called)
      else rest r

  unfoldable pub close : Exec Registry (Unit {0})
  close r = continue (unregister r.registrations r) λ u s.
      done tt (record s {
        registrations = [];
        budget_skips = [];
        registered_bytes = 0;
        skipped_bytes = 0;
      })
