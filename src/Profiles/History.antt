-- ===== src/Profiles/History.antt =====
-- A history of trials, recorded one by one, and the limits that are read afterwards.
use mathlib.Core.Option.{some-injective}
use diffusers_dynamic_offloa.Prelude.{
  ℕ, ◌≡◌, refl, sym, subst, ◌∙◌, ◌⊎◌, String, string_eq, Bool, true, false, Option, none, some,
  List, [], ◌∷◌, ◌++◌, ◌==◌, All, if_rule, inl, inr,
}
use diffusers_dynamic_offloa.Dict.{Dict, get}
use diffusers_dynamic_offloa.Outcome.{Exec, Post-done, done, ◌>>◌, pure}
use diffusers_dynamic_offloa.Sorting.{insert, sorted}
use diffusers_dynamic_offloa.Json.{
  Value, number, text, object, array_of, values, object_of, value_get, value_beq, json_value,
  json_fields, is_object, number_of, sorted_object,
}
use diffusers_dynamic_offloa.Profiles.{
  Files, Python, is_undecodable, temporary, replaced, or_null, or_empty, both, metric_name,
  measured, merge_capacity_limits, list_of, load_profile, read_profile, recommended, json_option,
  write_profile, profile_record, record_observation, record_profile, get_profile_capacity, or_none,
  dict_of,
}
use diffusers_dynamic_offloa.Profiles.Trials.{
  Trial, Tracks, observation_of, status_of, side_of, best,
}
use diffusers_dynamic_offloa.Profiles.Limits.{
  Reports, merge-Tracks, get_profile_capacity-Tracks, get_profile_capacity-missing,
}
use diffusers_dynamic_offloa.Profiles.Reading.{
  IsNormalOf, normalize_known, normal_again, key_of, path_of, key_known, path_known, load_known,
  loaded_text,
}
use diffusers_dynamic_offloa.Profiles.Storing.{Stored, Kept, record_profile-Stored}

-- The history after the trials, newest first.
abbrev pub behind : List Trial → List Trial → List Trial
behind [] history = history
behind (t ∷ trials) history = behind trials (t ∷ history)

module _ (python : Python) where
  -- The normal form of a trial's observation, in whichever order it has its keys, reports the trial.
  observation-Reports :
      (t : Trial)
      → (t.metric == "") ≡ false
      → (o : Value) × (json_value python.string_le (observation_of t) ≡ some o)
        × (is_object o ≡ true)
        × Reports t o
  unfolding json_value json_fields sorted insert get measured
  observation-Reports t named = (
    sorted_object python.string_le
        (("status", text (status_of t.succeeded)) ∷ ("capacity", inner) ∷ []),
    refl,
    refl,
    both_orders,
  )
    where
      inner : Value
      inner =
          sorted_object python.string_le
            (("metric", text t.metric) ∷ ("value", number t.value) ∷ [])

      inner_read :
          both
            (metric_name (or_null (value_get "metric" inner)))
            (number_of (or_null (value_get "value" inner)))
          ≡ some (t.metric, t.value)
      inner_read =
          if_rule
            (λ d.
              both (metric_name (or_null (value_get "metric" (object (object_of d)))))
                (number_of (or_null (value_get "value" (object (object_of d)))))
              ≡ some (t.metric, t.value))
            (python.string_le "metric" "value") _ _ (λ _. rw named refl) (λ _. rw named refl)

      both_orders : Reports t (
          sorted_object python.string_le
            (("status", text (status_of t.succeeded)) ∷ ("capacity", inner) ∷ []))
      both_orders =
          if_rule (λ d. Reports t (object (object_of d))) (python.string_le "status" "capacity") _ _
            (λ _. (refl, inner_read)) λ _. (refl, inner_read)

  same_result : {A : Type 0} {a b : A} {s : Files} → done a s ≡ done b s → a ≡ b
  same_result e = cc

  -- The profile of the context, if there is one, has a list of observations and the limits of the history.
  record Holds (profile_dir : Option String) (context : Value) (history : List Trial) (s : Files)
      : Type 0 where
    prior : Option Value
    limits : Dict String Value
    loads : load_profile python context profile_dir s ≡ done prior s
    list :
        (o : List Value) × (list_of python
            (or_null (value_get "observations" (or_empty python prior)))
            s
          ≡ done o s)
    has_limits :
        (value_get "capacity_limits" (or_empty python prior) ≡ some (object (object_of limits)))
        ⊎ ((value_get "capacity_limits" (or_empty python prior) ≡ none) × (limits ≡ []))
    tracks : Tracks history limits

  -- One trial after another is recorded, newest last.
  abbrev pub record_trials : String → Option String → Value → List Trial → Exec Files (Unit {0})
  record_trials now profile_dir context [] = pure tt
  record_trials now profile_dir context (t ∷ trials) =
      record_profile python now profile_dir context (observation_of t) none
      >> record_trials now profile_dir context trials

  merged_limits :
      (profile_dir : Option String) (context : Value) (history : List Trial) (s : Files)
      (h : Holds profile_dir context history s) (t : Trial) (o : Value)
      → Reports t o
      → (d : Dict String Value) × (merge_capacity_limits
            (value_get "capacity_limits" (or_empty python h.prior))
            o
            s
          ≡ done d s)
        × Tracks (t ∷ history) d
  unfolding merge_capacity_limits dict_of
  merged_limits profile_dir context history s h t o reports = elim h.has_limits [
    | inl e ↦
        let (d, merged, tracks) = merge-Tracks t history h.limits o s reports h.tracks in
        (d, rw e merged, tracks)
    | inr e ↦
        let (d, merged, tracks) =
          merge-Tracks t history [] o s reports (subst (Tracks history) e.1 h.tracks) in
        (d, rw e.0 merged, tracks)
  ]

  nothing :
      {profile_dir : Option String} {context : Value} (s : Files)
      → load_profile python context profile_dir s ≡ done none s
      → Holds profile_dir context [] s
  unfolding list_of get
  nothing s missing = record {
    prior = none;
    limits = [];
    loads = missing;
    list = ([], refl);
    has_limits = inr (refl, refl);
    tracks = λ metric. record {
      limits = [];
      stands = inr (refl, refl);
      sides = tt;
      bests = λ side. unheld side;
    };
  }
    where
      unheld : (side : Bool) → none ≡ best side "" []
      unheld side = refl

  module _
      (trans : (a b c : String)
        → python.string_le a b ≡ true
        → python.string_le b c ≡ true
        → python.string_le a c ≡ true)
      (total : (a b : String) → python.string_le a b ≡ false → python.string_le b a ≡ true)
      (now : String) (profile_dir : Option String) (context normalized : Value)
      (normal : IsNormalOf python trans total normalized context)
      (equal : value_beq normalized normalized ≡ true)
      (written : (s : Files)
        → python.writes (temporary python (path_of python trans total profile_dir normalized) s)
          ≡ true)
      (renamed : python.replaces (path_of python trans total profile_dir normalized) ≡ true) where
    recorded :
        (history : List Trial) (s : Files) (h : Holds profile_dir context history s) (t : Trial)
        → (t.metric == "") ≡ false
        → (path : String) × (s' : Files) × (record_profile python now profile_dir context
              (observation_of t)
              none
              s
            ≡ done path s')
          × Holds profile_dir context (t ∷ history) s'
    unfolding record_profile record_observation json_option write_profile list_of
    recorded history s h t named = (path, replaced python path content s, returns, kept)
      where
        path : String
        path = path_of python trans total profile_dir normalized

        key : String
        key = key_of python trans total normalized

        again : IsNormalOf python trans total normalized normalized
        again = normal_again python trans total normalized context normal

        report :
            (o : Value) × (json_value python.string_le (observation_of t) ≡ some o)
            × (is_object o ≡ true)
            × Reports t o
        report = observation-Reports t named

        o : Value
        o = report.0

        merged :
            (d : Dict String Value) × (merge_capacity_limits
                (value_get "capacity_limits" (or_empty python h.prior))
                o
                s
              ≡ done d s)
            × Tracks (t ∷ history) d
        merged = merged_limits profile_dir context history s h t o report.3

        readable : is_undecodable (get path s) ≡ false
        readable =
            loaded_text python trans total normalized context normal profile_dir s h.prior h.loads

        prior_is : read_profile python normalized key (get path s) ≡ h.prior
        prior_is = same_result (
            sym (load_known python trans total normalized context normal profile_dir s readable)
            ∙ h.loads)

        content : Value
        content =
            profile_record python key now normalized merged.0 (h.list.0 ++ o ∷ [])
              (recommended python none (value_get "recommendation" (or_empty python h.prior)))

        returns :
            record_profile python now profile_dir context (observation_of t) none s
            ≡ done path (replaced python path content s)
        returns =
            rw
              (
                normalize_known python trans total normalized context normal s,
                report.1,
                report.2,
                path_known python trans total normalized normalized again profile_dir s,
                load_known python trans total normalized normalized again profile_dir s readable,
                prior_is,
                h.list.1,
                key_known python trans total normalized normalized again profile_dir s,
                merged.1,
                written s,
                renamed,
              )
              refl

        itself : (n : Value) → json_value python.string_le context ≡ some n → value_beq n n ≡ true
        itself n e =
            subst (λ v. value_beq v v ≡ true) (some-injective normalized n (sym normal.1 ∙ e)) equal

        stored :
            Stored python trans total profile_dir context
              (observation_of t)
              s
              path
              (replaced python path content s)
        stored =
            Post-done (Stored python trans total profile_dir context (observation_of t) s)
              (Kept python trans total profile_dir context s)
              (record_profile-Stored python trans total now profile_dir context (observation_of t) s
                itself none)
              returns

        same_limits :
            (prior : Option Value) (seen : Value) (limits : Dict String Value)
            → load_profile python context profile_dir s ≡ done prior s
            → json_value python.string_le (observation_of t) ≡ some seen
            → merge_capacity_limits (value_get "capacity_limits" (or_empty python prior)) seen s
              ≡ done limits s
            → merged.0 ≡ limits
        same_limits prior seen limits loads saw e =
            let same_prior : h.prior ≡ prior = same_result (sym h.loads ∙ loads) in
            let same_seen : o ≡ seen = some-injective o seen (sym report.1 ∙ saw) in
            same_result (sym merged.1 ∙ rw (same_prior, same_seen) e)

        kept : Holds profile_dir context (t ∷ history) (replaced python path content s)
        kept = record {
          prior = some stored.found;
          limits = stored.limits;
          loads = stored.loads;
          list = (
            values (array_of (stored.kept ++ stored.observed ∷ [])),
            rw stored.has_observations refl,
          );
          has_limits = inl stored.has_limits;
          tracks =
              subst (Tracks (t ∷ history))
                (same_limits stored.prior stored.observed stored.limits stored.before
                  stored.observes stored.merged)
                merged.2;
        }

    run :
        (trials history : List Trial) (s : Files)
        → Holds profile_dir context history s
        → All (λ t. (t.metric == "") ≡ false) trials
        → (s' : Files) × (record_trials now profile_dir context trials s ≡ done tt s')
          × Holds profile_dir context (behind trials history) s'
    run [] history s h named = (s, refl, h)
    run (t ∷ trials) history s h named =
        let (path, s1, returns, h1) = recorded history s h t named.0 in
        let (s2, all_return, h2) = run trials (t ∷ history) s1 h1 named.1 in
        (s2, rw returns all_return, h2)

    -- In a total order of strings, for a context with a normal form that equals itself, whose temporary files can
    -- be written and renamed, and which has no profile: to record any trials of it, whose metrics have names, one
    -- after another returns, and then for each metric the profile's capacity is found, with the largest value that succeeded
    -- and the smallest that failed of the whole history, though it keeps twenty observations at most.
    pub record_trials-best :
        (trials : List Trial) (s : Files)
        → All (λ t. (t.metric == "") ≡ false) trials
        → load_profile python context profile_dir s ≡ done none s
        → (s' : Files) × (record_trials now profile_dir context trials s ≡ done tt s')
          × (found : Option Value) × (load_profile python context profile_dir s' ≡ done found s')
          × ((metric : String)
              → (c : Dict String ℕ) × (get_profile_capacity (or_empty python found) metric s'
                  ≡ done (or_none c) s')
                × ((side : Bool) → get (side_of side) c ≡ best side metric (behind trials [])))
    record_trials-best trials s named missing =
        let (s', returns, h) = run trials [] s (nothing s missing) named in
        (
          s',
          returns,
          h.prior,
          h.loads,
          λ metric. elim h.has_limits [
            | inl e ↦
                get_profile_capacity-Tracks (behind trials []) h.limits (or_empty python h.prior)
                  metric s' e h.tracks
            | inr e ↦
                get_profile_capacity-missing (behind trials []) (or_empty python h.prior) metric s'
                  e.0 (subst (Tracks (behind trials [])) e.1 h.tracks)
          ],
        )
