-- ===== src/HostRegistry/Budget.antt =====
-- The budget of `RegisteredHostWeightRegistry`, and what its `close` gives back.
use diffusers_dynamic_offloa.Prelude.{
  ℕ, ◌+◌, ◌≤◌, ◌≡◌, refl, sym, ap, ◌∙◌, product_eq, nat_eq, Bool, true, false, not, ◌||◌, Option,
  none, some, List, [], ◌∷◌, ◌++◌, arith, if◌then◌else◌, ==_refl, Bool-cases, inl, inr, ◌⊎◌,
  is_some, ltb, eqb, sum_of,
}
use mathlib.Core.List.{append_assoc, append-nil}
use diffusers_dynamic_offloa.Tensors.{Tensor, size_bytes}
use diffusers_dynamic_offloa.Dict.{get, put, total, total-put, get-put, contains}
use diffusers_dynamic_offloa.Outcome.{Post, Post-if, Post-weaken, Post-continue}
use diffusers_dynamic_offloa.CudaDriver.{Driver, Call, host_unregister}
use diffusers_dynamic_offloa.HostRegistry.{
  Registry, Registration, key_of, is_skipped, skip, add, register_range, register, unregister,
  close,
}

-- The bytes of a registration, and of a list of skipped ranges.
abbrev pub registered_size : Registration → ℕ
registered_size entry = size_bytes entry.source

abbrev pub skipped_size : ℕ × ℕ → ℕ
skipped_size key = key.1

pub record IsBudgeted (r : Registry) : Type 0 where
  pub counted : total registered_size r.registrations ≡ r.registered_bytes
  pub bounded : r.registered_bytes ≤ r.max_bytes
  pub skips_counted : sum_of skipped_size r.budget_skips ≡ r.skipped_bytes

added-IsBudgeted :
    (source : Tensor) (owned : Bool) (calls : List Call) (r : Registry)
    → IsBudgeted r
    → get (key_of source) r.registrations ≡ none
    → r.registered_bytes + size_bytes source ≤ r.max_bytes
    → IsBudgeted (add (key_of source) source owned (record r { trace = calls }))
added-IsBudgeted source owned calls r v missing fits = record {
  counted = ground (
    arith,
    total-put registered_size (key_of source) (record { source = source; owned = owned })
        r.registrations,
    v.counted,
  );
  bounded = fits;
  skips_counted = v.skips_counted;
}

skip-IsBudgeted : (key : ℕ × ℕ) (r : Registry) → IsBudgeted r → IsBudgeted (skip key r)
unfolding skip
skip-IsBudgeted key r v = elim (Bool-cases (is_skipped key r.budget_skips)) [
  | inl old ↦ rw old v
  | inr new ↦ rw new (record {
    counted = v.counted;
    bounded = v.bounded;
    skips_counted = omega (arith, v.skips_counted);
  })
]

-- What `register` answers: after a yes the range is registered, unless it is empty; after a no the
-- registrations and the bytes that they count are as they were.
abbrev pub Answered : Tensor → Registry → Bool → Registry → Type 0
Answered source r true t =
    (size_bytes source ≡ 0) ⊎ (contains (key_of source) t.registrations ≡ true)
Answered source r false t =
    (t.registrations ≡ r.registrations) × (t.registered_bytes ≡ r.registered_bytes)

skip-same :
    (key : ℕ × ℕ) (r : Registry)
    → ((skip key r).registrations ≡ r.registrations)
      × ((skip key r).registered_bytes ≡ r.registered_bytes)
unfolding skip
skip-same key r = elim (Bool-cases (is_skipped key r.budget_skips)) [
  | inl old ↦ rw old (refl, refl)
  | inr new ↦ rw new (refl, refl)
]

missing_of : (o : Option Registration) → is_some o ≡ false → o ≡ none
missing_of none h = refl
missing_of (some x) h = cc

contains-added :
    (source : Tensor) (owned : Bool) (r : Registry)
    → contains
        (key_of source)
        (put (key_of source) (record { source = source; owned = owned }) r.registrations)
      ≡ true
contains-added source owned r =
    rw
      (
        get-put (key_of source) (key_of source) (record { source = source; owned = owned })
            r.registrations,
        ==_refl (key_of source),
      )
      refl

module _ (driver : Driver) where
  abbrev Answers : Tensor → Registry → Bool → Registry → Type 0
  Answers source r b t = IsBudgeted t × Answered source r b t

  register_range-Post :
      (source : Tensor) (r : Registry)
      → IsBudgeted r
      → get (key_of source) r.registrations ≡ none
      → r.registered_bytes + size_bytes source ≤ r.max_bytes
      → Post (Answers source r) (λ e t. ⊥) (register_range driver (key_of source) source r)
  unfolding register_range
  register_range-Post source r v missing fits =
      Post-if _ _ (driver.already_registered r.trace _) _ _
        (λ _.
          (added-IsBudgeted source false _ r v missing fits, inr (contains-added source false r)))
        (λ _.
          Post-if _ _ (driver.succeeds r.trace _) _ _
            (λ _.
              (added-IsBudgeted source true _ r v missing fits, inr (contains-added source true r)))
            (λ _. (
              record { counted = v.counted; bounded = v.bounded; skips_counted = v.skips_counted },
              (refl, refl),
            )))

  -- In a registry whose counters are exact and within the budget, `register` does not raise and leaves them
  -- exact and within the budget. If it answers yes, the source is empty or is registered; if no, the
  -- registrations and their bytes are as they were.
  pub register-Post :
      (source : Tensor) (r : Registry)
      → IsBudgeted r
      → Post (λ b t. IsBudgeted t × Answered source r b t) (λ e t. ⊥) (register driver source r)
  unfolding register
  register-Post source r v =
      Post-if _ _ (not source.on_cpu || not source.contiguous) _ _ (λ _. (v, (refl, refl)))
        λ _.
          Post-if _ _ (eqb (size_bytes source) 0) _ _ (λ z. (v, inl (ground arith)))
            λ _.
              Post-if _ _ (contains (key_of source) r.registrations) _ _ (λ old. (v, inr old))
                λ new.
                  Post-if _ _ (ltb r.max_bytes (r.registered_bytes + size_bytes source)) _ _
                    (λ _. (skip-IsBudgeted (key_of source) r v, skip-same (key_of source) r))
                    λ fits.
                      register_range-Post source r v
                        (missing_of (get (key_of source) r.registrations) new) (ground arith)

  -- The calls of `close`, newest first: one for each range that the registry owns.
  abbrev pub released : List ((ℕ × ℕ) × Registration) → List Call
  released [] = []
  released ((key, entry) ∷ entries) =
      released entries ++ (if entry.owned then host_unregister key.0 ∷ [] else [])

  abbrev Untraced : Registry → Registry → Type 0
  Untraced r t = (trace : List Call) × (t ≡ record r { trace = trace })

  unregister-Post :
      (entries : List ((ℕ × ℕ) × Registration)) (r : Registry)
      → Post
          (λ _ t. t ≡ record r { trace = released entries ++ r.trace })
          (λ e t. Untraced r t)
          (unregister driver entries r)
  unfolding unregister
  unregister-Post [] r = refl
  unregister-Post ((key, entry) ∷ entries) r =
      Post-if _ _ entry.owned _ _
        (λ mine.
          Post-if _ _ (driver.succeeds r.trace (host_unregister key.0)) _ _
            (λ _.
              Post-weaken _ _ _ _
                (unregister driver entries (record r { trace = host_unregister key.0 ∷ r.trace }))
                (unregister-Post entries (record r { trace = host_unregister key.0 ∷ r.trace }))
                (λ u t h.
                  h ∙ ap (λ (calls : List Call). record r { trace = calls }) (owned_calls mine))
                (λ e t h. (h.0, h.1)))
            (λ _. (_, refl)))
        (λ theirs.
          Post-weaken _ _ _ _ (unregister driver entries r) (unregister-Post entries r)
            (λ u t h.
              h ∙ ap (λ (calls : List Call). record r { trace = calls }) (other_calls theirs))
            (λ e t h. h))
    where
      owned_calls :
          entry.owned ≡ true
          → released entries ++ host_unregister key.0 ∷ r.trace
            ≡ released ((key, entry) ∷ entries) ++ r.trace
      owned_calls mine =
          simp mine (sym (append_assoc (released entries) (host_unregister key.0 ∷ []) r.trace))

      other_calls :
          entry.owned ≡ false
          → released entries ++ r.trace ≡ released ((key, entry) ∷ entries) ++ r.trace
      other_calls theirs = simp (theirs, append-nil)

  -- Where `close` returns, it has unregistered each owned range once, in the order of registration, and leaves
  -- nothing registered and no byte counted. Where it raises, every range is still listed.
  pub close-released :
      (r : Registry)
      → Post
          (λ _ t.
            (t.trace ≡ released r.registrations ++ r.trace)
            × (t.registrations ≡ [])
            × (t.registered_bytes ≡ 0)
            × (t.skipped_bytes ≡ 0))
          (λ e t. t.registrations ≡ r.registrations)
          (close driver r)
  unfolding close
  close-released r =
      Post-continue _ _ _ (unregister driver r.registrations r) _
        (Post-weaken _ _ _ _ (unregister driver r.registrations r)
          (unregister-Post r.registrations r) (λ u t h. h)
          (λ e t h. ap (λ (q : Registry). q.registrations) h.1))
        λ u t h. (ap (λ (q : Registry). q.trace) h, refl, refl, refl)
