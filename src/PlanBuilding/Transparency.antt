-- ===== src/PlanBuilding/Transparency.antt =====
-- Whatever the cache answers, `build_dynamic_offload_plan` returns the plan that it would build anew, but for
-- the resident patterns.
use mathlib.Core.Option
use mathlib.Core.Option.{some-injective}
use diffusers_dynamic_offloa.Prelude.{
  ℕ, ◌≡◌, refl, sym, ap, subst, ◌∙◌, String, Option, none, some, List, [], ◌∷◌, ◌==◌, ==_iff, map,
  Bool, true, false, Bool-cases, if◌then◌else◌, if_rule, inl, inr,
}
use diffusers_dynamic_offloa.Dict.{Dict, get, put, get-put}
use diffusers_dynamic_offloa.PlanBuilding.{
  Python, Root, Config, Entry, State, Key, Cache, key_eq, clone_for_runtime, decided,
  build_uncached, plan_cache_key, from_cache, build_plan,
}
use diffusers_dynamic_offloa.PlanBuilding.Keyed.{
  counters, plan_of_key, plan_of_key-counters, build_uncached-plan_of_key,
}

pub record Request : Type 0 where
  pub config : Config
  pub root : Root
  pub patterns : List String

-- Builds one after another on the one cache.
abbrev pub builds : Python → List Request → Cache → List State
builds python [] cache = []
builds python (r ∷ rs) cache =
    let built = build_plan python r.config r.root r.patterns cache in
    built.0 ∷ builds python rs built.1

-- What a plan says, without the counters of its runs and the outcome of the cache.
abbrev plan : State → List Entry × ℕ × ℕ × Dict String ℕ
plan s = (s.entries, s.module_count, s.total_bytes, s.bytes_by_placement)

-- The plan and the counts of its runs.
abbrev pub said :
    State → (List Entry × ℕ × ℕ × Dict String ℕ) × (Dict String ℕ × Dict String ℕ × Dict String ℕ)
said s = (plan s, counters s)

-- The patterns that were resolved for each key when a plan was first built for it.
abbrev pub Seen : Type 0
Seen = Dict Key (List String)

abbrev pub first_seen : Key → List String → Option (List String) → Seen → List String × Seen
first_seen key patterns (some first) seen = (first, seen)
first_seen key patterns none seen = (patterns, put key patterns seen)

-- The resident patterns that a request's plan is to have: with the cache those of the first such request with
-- its key, whatever its own are.
abbrev pub next : Python → Request → Seen → List String × Seen
next python r seen =
    if r.config.cache_plan
    then first_seen (plan_cache_key python r.config r.root) r.patterns
        (get (plan_cache_key python r.config r.root) seen) seen
    else ((build_uncached python r.config r.root).resolved_patterns, seen)

abbrev pub expected : Python → List Request → Seen → List (List String)
expected python [] seen = []
expected python (r ∷ rs) seen =
    let found = next python r seen in found.0 ∷ expected python rs found.1

-- The cache's plans have the patterns seen first.
abbrev pub Remembers : Cache → Seen → Type 0
Remembers cache seen =
    (key : Key) → Option.map (λ (s : State). s.resolved_patterns) (get key cache) ≡ get key seen

cons_path : {A : Type 0} {x y : A} {xs ys : List A} → x ≡ y → xs ≡ ys → x ∷ xs ≡ y ∷ ys
cons_path p q = cc

-- Two tests of the same condition take the same branch.
alike :
    {A B : Type 0} (b : Bool) (P : A → B → Type 0) (x y : A) (u v : B)
    → P x u
    → P y v
    → P (if b then x else y) (if b then u else v)
alike true P x y u v h k = h
alike false P x y u v h k = k

said_path : (s t : State) → plan s ≡ plan t → counters s ≡ counters t → said s ≡ said t
said_path s t p q = ap (λ x. (x, counters s)) p ∙ ap (λ y. (plan t, y)) q

module _ (python : Python) where
  abbrev IsFresh : State → State → Type 0
  IsFresh s t = (plan s ≡ plan t) × (counters s ≡ ([], [], []))

  -- Under each key lies the plan that the key describes.
  abbrev pub IsTrue : Cache → Type 0
  IsTrue cache =
      (key : Key) (s : State) → get key cache ≡ some s → IsFresh s (plan_of_key python key)

  miss-IsFresh :
      (config : Config) (root : Root)
      → IsFresh
          (build_uncached python config root)
          (plan_of_key python (plan_cache_key python config root))
  miss-IsFresh config root =
      rw (build_uncached-plan_of_key python config root)
        (refl, plan_of_key-counters python (plan_cache_key python config root))

  from_cache-IsFresh :
      (config : Config) (root : Root) (patterns : List String) (found : Option State)
      (cache : Cache)
      → IsTrue cache
      → get (plan_cache_key python config root) cache ≡ found
      → let built = from_cache python config root patterns found cache in
        IsFresh built.0 (build_uncached python config root) × IsTrue built.1
  unfolding from_cache clone_for_runtime
  from_cache-IsFresh config root patterns (some s) cache h e =
      (((h (plan_cache_key python config root) s e).0 ∙ sym (miss-IsFresh config root).0, refl), h)
  from_cache-IsFresh config root patterns none cache h e =
      ((refl, (miss-IsFresh config root).1), stored)
    where
      key : Key
      key = plan_cache_key python config root

      entry : State
      entry = clone_for_runtime (
          decided "miss"
            (record (build_uncached python config root) { resolved_patterns = patterns }))

      stored : IsTrue (put key entry cache)
      stored other s f = elim (Bool-cases (key == other)) [
        | inl same ↦
            subst (λ k. IsFresh s (plan_of_key python k)) ((==_iff key other).0 same)
              (subst (λ t. IsFresh t (plan_of_key python key))
                (some-injective entry s (sym (rw (get-put key other entry cache, same) refl) ∙ f))
                ((miss-IsFresh config root).0, refl))
        | inr differ ↦ h other s (sym (rw (get-put key other entry cache, differ) refl) ∙ f)
      ]

  build_plan-IsFresh :
      (r : Request) (cache : Cache)
      → IsTrue cache
      → let built = build_plan python r.config r.root r.patterns cache in
        IsFresh built.0 (build_uncached python r.config r.root) × IsTrue built.1
  unfolding build_plan
  build_plan-IsFresh r cache h =
      if_rule {A = State × Cache}
        (λ built. IsFresh built.0 (build_uncached python r.config r.root) × IsTrue built.1)
        r.config.cache_plan _ _
        (λ _.
          from_cache-IsFresh r.config r.root r.patterns
            (get (plan_cache_key python r.config r.root) cache) cache h refl)
        λ _. ((refl, (miss-IsFresh r.config r.root).1), h)

  new_counters : (r : Request) → counters (build_uncached python r.config r.root) ≡ ([], [], [])
  new_counters r = (miss-IsFresh r.config r.root).1

  from_cache-Remembers :
      (config : Config) (root : Root) (patterns : List String) (found : Option State)
      (first : Option (List String)) (cache : Cache) (seen : Seen)
      → Remembers cache seen
      → Option.map (λ (s : State). s.resolved_patterns) found ≡ first
      → let built = from_cache python config root patterns found cache in
        let expected = first_seen (plan_cache_key python config root) patterns first seen in
        (built.0.resolved_patterns ≡ expected.0) × Remembers built.1 expected.1
  unfolding from_cache clone_for_runtime
  from_cache-Remembers config root patterns (some s) (some first) cache seen h e =
      (some-injective s.resolved_patterns first e, h)
  from_cache-Remembers config root patterns (some s) none cache seen h e = absurd (cc)
  from_cache-Remembers config root patterns none (some first) cache seen h e = absurd (cc)
  from_cache-Remembers config root patterns none none cache seen h e = (refl, stored)
    where
      key : Key
      key = plan_cache_key python config root

      entry : State
      entry = clone_for_runtime (
          decided "miss"
            (record (build_uncached python config root) { resolved_patterns = patterns }))

      stored : Remembers (put key entry cache) (put key patterns seen)
      stored other = elim (Bool-cases (key == other)) [
        | inl same ↦ rw (get-put key other entry cache, get-put key other patterns seen, same) refl
        | inr differ ↦
            rw (get-put key other entry cache, get-put key other patterns seen, differ) (h other)
      ]

  build_plan-Remembers :
      (r : Request) (cache : Cache) (seen : Seen)
      → Remembers cache seen
      → let built = build_plan python r.config r.root r.patterns cache in
        (built.0.resolved_patterns ≡ (next python r seen).0)
        × Remembers built.1 (next python r seen).1
  unfolding build_plan
  build_plan-Remembers r cache seen h =
      alike r.config.cache_plan
        (λ (built : State × Cache) (found : List String × Seen).
          (built.0.resolved_patterns ≡ found.0) × Remembers built.1 found.1)
        _ _ _ _
        (from_cache-Remembers r.config r.root r.patterns
          (get (plan_cache_key python r.config r.root) cache)
          (get (plan_cache_key python r.config r.root) seen) cache seen h
          (h (plan_cache_key python r.config r.root)))
        (refl, h)

  builds-expected :
      (requests : List Request) (cache : Cache) (seen : Seen)
      → Remembers cache seen
      → map (λ (s : State). s.resolved_patterns) (builds python requests cache)
        ≡ expected python requests seen
  builds-expected [] cache seen h = refl
  builds-expected (r ∷ rs) cache seen h =
      let built = build_plan-Remembers r cache seen h in
      cons_path built.0 (
        builds-expected rs (build_plan python r.config r.root r.patterns cache).1
          (next python r seen).1 built.1)

  said-uncached :
      (requests : List Request) (cache : Cache)
      → IsTrue cache
      → map said (builds python requests cache)
        ≡ map (λ r. said (build_uncached python r.config r.root)) requests
  said-uncached [] cache h = refl
  said-uncached (r ∷ rs) cache h =
      let built = build_plan-IsFresh r cache h in
      cons_path
        (said_path (build_plan python r.config r.root r.patterns cache).0
          (build_uncached python r.config r.root) built.0.0 (built.0.1 ∙ sym (new_counters r)))
        (said-uncached rs (build_plan python r.config r.root r.patterns cache).1 built.1)

  -- From a cache whose plans are those of their keys, as the empty one is: any sequence of builds, with and
  -- without the cache, returns for each request the entries, totals and placements of the plan that is built
  -- without it, and no counts of an earlier run. Its resident patterns are not so: with the cache they are
  -- those of the first request with the same key, even where the request's own differ.
  pub builds-uncached :
      (requests : List Request) (cache : Cache) (seen : Seen)
      → IsTrue cache
      → Remembers cache seen
      → (map said (builds python requests cache)
          ≡ map (λ r. said (build_uncached python r.config r.root)) requests)
        × (map (λ (s : State). s.resolved_patterns) (builds python requests cache)
            ≡ expected python requests seen)
  builds-uncached requests cache seen h remembers =
      (said-uncached requests cache h, builds-expected requests cache seen remembers)
