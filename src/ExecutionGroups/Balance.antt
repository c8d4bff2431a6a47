-- ===== src/ExecutionGroups/Balance.antt =====
-- The arena counts as many leases of a group as the runtime holds: one if the group is pending, one if it
-- is active.
use mathlib.Core.Option.{some-injective}
use diffusers_dynamic_offloa.Prelude.{
  ℕ, ◌+◌, ◌-◌, ◌≡◌, refl, sym, subst, ap, ◌∙◌, String, string_eq, Bool, true, false, none, some,
  List, [], ◌∷◌, if◌then◌else◌, ◌==◌, ==_iff, is_some, arith, Bool-cases, inl, inr,
}
use diffusers_dynamic_offloa.Dict.{Dict, get, put, remove, contains, get-put, get-remove}
use diffusers_dynamic_offloa.Outcome.{
  runtime_error, key_error, left_by, left_by-raise_if, left_by-or_raise, or_raise-there,
  raise_if-false,
}
use diffusers_dynamic_offloa.ModelArena.{Arena}
use diffusers_dynamic_offloa.ModelArena.Counts.{held, Counts}
use diffusers_dynamic_offloa.ExecutionGroups.{
  Groups, Cuda, is_taken, with_arena, mark_pending, activate,
}
use diffusers_dynamic_offloa.ExecutionGroups.Exclusion.{
  IsPaired, event_of, contains-put, contains-remove,
}

abbrev pub one_if : Bool → ℕ
one_if b = if b then 1 else 0

-- The leases of a group that the runtime holds.
abbrev pub holds : String → Groups → ℕ
holds name s = one_if (contains name s.pending_leases) + one_if (contains name s.active_leases)

-- A group that is held is held by the one lease on it.
abbrev pub IsOwn : Dict String (List String) → Type 0
IsOwn d = (name : String) (leases : List String) → get name d ≡ some leases → leases ≡ name ∷ []

pub record IsBalanced (s : Groups) : Type 0 where
  pub arena : Arena
  pub has_arena : s.arena ≡ some arena
  pub opened : arena.closed ≡ false
  pub counted : (name : String) → held name arena ≡ holds name s
  pub own_pending : IsOwn s.pending_leases
  pub own_active : IsOwn s.active_leases

pub put-IsOwn :
    (name : String) (leases : List String) (d : Dict String (List String))
    → leases ≡ name ∷ []
    → IsOwn d
    → IsOwn (put name leases d)
put-IsOwn name leases d own h other found e = elim (Bool-cases (name == other)) [
  | inl same ↦
      let taken : some leases ≡ some found =
        sym (rw (get-put name other leases d, same) refl) ∙ e in
      sym (some-injective leases found taken) ∙ own ∙ ap (λ n. n ∷ []) ((==_iff name other).0 same)
  | inr differ ↦ h other found (sym (rw (get-put name other leases d, differ) refl) ∙ e)
]

pub remove-IsOwn : (name : String) (d : Dict String (List String)) → IsOwn d → IsOwn (remove name d)
remove-IsOwn name d h other found e = elim (Bool-cases (name == other)) [
  | inl same ↦
      absurd
        (let gone : none ≡ some found = sym (rw (get-remove name other d, same) refl) ∙ e in cc)
  | inr differ ↦ h other found (sym (rw (get-remove name other d, differ) refl) ∙ e)
]

-- To remove a key that is not there changes no answer.
pub missing_kept :
    {V : Type 0} (name other : String) (d : Dict String V)
    → contains name d ≡ false
    → contains other d ≡ contains other (remove name d)
missing_kept name other d missing = elim (Bool-cases (name == other)) [
  | inl same ↦
      rw (contains-remove name other d, same)
        (ap (λ k. contains k d) (sym ((==_iff name other).0 same)) ∙ missing)
  | inr differ ↦ rw (contains-remove name other d, differ) refl
]

-- A key that is there counts for one, and after its removal no longer.
pub removed_count :
    {V W : Type 0} (name other : String) (d : Dict String V) (rest : Dict String W)
    → contains name d ≡ true
    → one_if (contains other rest) + one_if (contains other (remove name d)) ≡ (
        if name == other
        then one_if (contains name rest) + one_if (contains name d) - 1
        else one_if (contains other rest) + one_if (contains other d))
removed_count name other d rest there = elim (Bool-cases (name == other)) [
  | inl same ↦
      rw (contains-remove name other d, same, there)
        (subst (λ k. one_if (contains k rest) + 0 ≡ one_if (contains name rest) + 1 - 1)
          ((==_iff name other).0 same) (omega arith))
  | inr differ ↦ rw (contains-remove name other d, differ) refl
]

pub removed_count_first :
    {V W : Type 0} (name other : String) (d : Dict String V) (rest : Dict String W)
    → contains name d ≡ true
    → one_if (contains other (remove name d)) + one_if (contains other rest) ≡ (
        if name == other
        then one_if (contains name d) + one_if (contains name rest) - 1
        else one_if (contains other d) + one_if (contains other rest))
removed_count_first name other d rest there = elim (Bool-cases (name == other)) [
  | inl same ↦
      let counted = rw same at (removed_count name other d rest there) in
      rw same (omega (arith, counted))
  | inr differ ↦
      let counted = rw differ at (removed_count name other d rest there) in
      rw differ (omega (arith, counted))
]

marked_count :
    (name other lease : String) (s : Groups) (m n : ℕ)
    → is_taken name s ≡ false
    → m ≡ holds name s
    → n ≡ holds other s
    → (if name == other then m + 1 else n)
      ≡ one_if (contains other (put name (lease ∷ []) s.pending_leases))
        + one_if (contains other s.active_leases)
marked_count name other lease s m n free here there = elim (Bool-cases (name == other)) [
  | inl same ↦
      let idle_here : contains other s.active_leases ≡ false = moved s.active_leases same ∙ idle in
      rw (contains-put name other (lease ∷ []) s.pending_leases, same, idle_here) none_held
  | inr differ ↦ rw (contains-put name other (lease ∷ []) s.pending_leases, differ) there
]
  where
    moved :
        {V : Type 0} (d : Dict String V)
        → (name == other) ≡ true
        → contains other d ≡ contains name d
    moved d same = ap (λ k. contains k d) (sym ((==_iff name other).0 same))

    fresh : contains name s.pending_leases ≡ false
    fresh = ground arith

    idle : contains name s.active_leases ≡ false
    idle = ground arith

    none_held : m + 1 ≡ 1
    none_held = omega (arith, here, nothing)
      where
        nothing : holds name s ≡ 0
        nothing = rw (fresh, idle) refl

activated_count :
    (name other : String) (leases : List String) (s : Groups)
    → contains name s.active_leases ≡ false
    → contains name s.pending_leases ≡ true
    → holds other s
      ≡ one_if (contains other (remove name s.pending_leases))
        + one_if (contains other (put name leases s.active_leases))
activated_count name other leases s idle found = elim (Bool-cases (name == other)) [
  | inl same ↦
      let found_here : contains other s.pending_leases ≡ true =
        moved s.pending_leases same ∙ found in
      let idle_here : contains other s.active_leases ≡ false = moved s.active_leases same ∙ idle in
      rw
        (
          contains-put name other leases s.active_leases,
          contains-remove name other s.pending_leases,
          same,
          found_here,
          idle_here,
        )
        refl
  | inr differ ↦
      rw
        (
          contains-put name other leases s.active_leases,
          contains-remove name other s.pending_leases,
          differ,
        )
        refl
]
  where
    moved :
        {V : Type 0} (d : Dict String V)
        → (name == other) ≡ true
        → contains other d ≡ contains name d
    moved d same = ap (λ k. contains k d) (sym ((==_iff name other).0 same))

pub marked-IsBalanced :
    (name lease : String) (s : Groups) (h : IsBalanced s) (arena : Arena)
    → is_taken name s ≡ false
    → lease ≡ name
    → Counts name (held name h.arena + 1) h.arena arena
    → IsBalanced (mark_pending name lease (with_arena arena s))
unfolding mark_pending
marked-IsBalanced name lease s h arena free same counts = record {
  arena = arena;
  has_arena = refl;
  opened = counts.0 ∙ h.opened;
  counted = λ other.
      counts.1 other
      ∙ marked_count name other lease s (held name h.arena) (held other h.arena) free
          (h.counted name) (h.counted other);
  own_pending = put-IsOwn name (lease ∷ []) s.pending_leases (ap (λ l. l ∷ []) same) h.own_pending;
  own_active = h.own_active;
}

activated-IsBalanced :
    (name : String) (leases : List String) (s : Groups)
    → IsBalanced s
    → contains name s.active_leases ≡ false
    → get name s.pending_leases ≡ some leases
    → IsBalanced (record s {
      pending_leases = remove name s.pending_leases;
      pending_events = remove name s.pending_events;
      active_leases = put name leases s.active_leases;
    })
activated-IsBalanced name leases s h idle found = record {
  arena = h.arena;
  has_arena = h.has_arena;
  opened = h.opened;
  counted = λ other. h.counted other ∙ activated_count name other leases s idle (ap is_some found);
  own_pending = remove-IsOwn name s.pending_leases h.own_pending;
  own_active = put-IsOwn name leases s.active_leases (h.own_pending name leases found) h.own_active;
}

pub activate-IsBalanced :
    (cuda : Cuda) (name : String) (s : Groups)
    → ((n : ℕ) → cuda.waits n ≡ true)
    → IsPaired s
    → IsBalanced s
    → IsBalanced (left_by (activate cuda name s))
unfolding activate
activate-IsBalanced cuda name s waits x h =
    left_by-raise_if IsBalanced (contains name s.active_leases) runtime_error s _ h λ idle.
      left_by-or_raise IsBalanced (get name s.pending_leases) key_error s _ h λ leases found.
        or_raise-there IsBalanced (get name s.pending_events) key_error
          (record s { pending_leases = remove name s.pending_leases }) _
          (event_of name s x (ap is_some found))
          λ event.
            subst (λ o. IsBalanced (left_by o))
              (sym (
                raise_if-false (if cuda.waits event then false else true) runtime_error
                  (record s {
                    pending_leases = remove name s.pending_leases;
                    pending_events = remove name s.pending_events;
                  })
                  _ (rw (waits event) refl)))
              (activated-IsBalanced name leases s h idle found)
