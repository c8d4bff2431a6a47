-- ===== src/Profiles/Limits.antt =====
-- The capacity limits of a profile against the whole history of its trials.
use diffusers_dynamic_offloa.Prelude.{
  ℕ, ◌≡◌, refl, sym, subst, ◌∙◌, String, string_eq, Bool, true, false, none, some, List, [], ◌∷◌,
  ◌==◌, ==_iff, All, Bool-cases, inl, inr,
}
use diffusers_dynamic_offloa.Dict.{Dict, get, put, get-put}
use diffusers_dynamic_offloa.Outcome.{done}
use diffusers_dynamic_offloa.Json.{Value, text, object, object_of, value_get, value_beq}
use diffusers_dynamic_offloa.Profiles.{
  Files, dict_of, measured, keep_best, merge_into, merge_measured, merge_capacity_limits, limits_in,
  or_none, get_profile_capacity,
}
use diffusers_dynamic_offloa.Profiles.Trials.{
  Trial, status_of, side_of, choose, or_value, best, numbered, entries-object_of, IsSide,
  put-IsSide, Tracked, Tracks, dict_known, known_best,
}

-- The limits of a metric with one more trial.
abbrev tried : Trial → Dict String ℕ → Dict String ℕ
tried t c =
    put (side_of t.succeeded)
      (choose t.succeeded t.value (or_value t.value (get (side_of t.succeeded) c))) c

side_of-IsSide : (side : Bool) → IsSide (side_of side)
side_of-IsSide true = inl refl
side_of-IsSide false = inr refl

tried-best :
    (t : Trial) (history : List Trial) (c : Dict String ℕ)
    → ((side : Bool) → get (side_of side) c ≡ best side t.metric history)
    → (side : Bool) → get (side_of side) (tried t c) ≡ best side t.metric (t ∷ history)
tried-best t history c h side = from t.succeeded side refl
  where
    n : Bool → ℕ
    n other = choose other t.value (or_value t.value (get (side_of other) c))

    itself : (t.metric == t.metric) ≡ true
    itself = (==_iff t.metric t.metric).1 refl

    from :
        (succeeded side : Bool)
        → t.succeeded ≡ succeeded
        → get (side_of side) (put (side_of succeeded) (n succeeded) c)
          ≡ best side t.metric (t ∷ history)
    from true true e = rw (get-put "max_success" "max_success" (n true) c, e, itself, h true) refl
    from true false e = rw (get-put "max_success" "min_failure" (n true) c, e) (h false)
    from false true e = rw (get-put "min_failure" "max_success" (n false) c, e) (h true)
    from false false e =
        rw (get-put "min_failure" "min_failure" (n false) c, e, itself, h false) refl

other-best :
    (t : Trial) (history : List Trial) (metric : String)
    → (t.metric == metric) ≡ false
    → (side : Bool) → best side metric (t ∷ history) ≡ best side metric history
other-best t history metric differ side = from side t.succeeded refl
  where
    from :
        (side succeeded : Bool)
        → t.succeeded ≡ succeeded
        → best side metric (t ∷ history) ≡ best side metric history
    from true true e = rw (e, differ) refl
    from true false e = rw e refl
    from false true e = rw e refl
    from false false e = rw (e, differ) refl

tried-Tracks :
    (t : Trial) (history : List Trial) (d : Dict String Value) (h : Tracks history d)
    → Tracks
        (t ∷ history)
        (put t.metric (object (object_of (numbered (tried t (h t.metric).limits)))) d)
tried-Tracks t history d h metric = elim (Bool-cases (t.metric == metric)) [
  | inl same ↦ subst (Tracked (t ∷ history) d') ((==_iff t.metric metric).0 same) here
  | inr differ ↦ record {
    limits = (h metric).limits;
    stands = rw (get-put t.metric metric v d, differ) (h metric).stands;
    sides = (h metric).sides;
    bests = λ side. (h metric).bests side ∙ sym (other-best t history metric differ side);
  }
]
  where
    c : Dict String ℕ
    c = (h t.metric).limits

    v : Value
    v = object (object_of (numbered (tried t c)))

    d' : Dict String Value
    d' = put t.metric v d

    itself : (t.metric == t.metric) ≡ true
    itself = (==_iff t.metric t.metric).1 refl

    here : Tracked (t ∷ history) d' t.metric
    here = record {
      limits = tried t c;
      stands = inl (rw (get-put t.metric t.metric v d, itself) refl);
      sides = put-IsSide (side_of t.succeeded) _ c (side_of-IsSide t.succeeded) (h t.metric).sides;
      bests = tried-best t history c (h t.metric).bests;
    }

merge_into_known :
    (succeeded : Bool) (metric : String) (n : ℕ) (d previous : Dict String Value) (s : Files)
    → merge_into (text (status_of succeeded)) metric n d previous s
      ≡ keep_best (side_of succeeded) (choose succeeded) metric n d previous s
unfolding merge_into value_beq
merge_into_known true metric n d previous s = refl
merge_into_known false metric n d previous s = refl

-- The observation says how the trial went.
abbrev pub Reports : Trial → Value → Type 0
Reports t observation =
    (value_get "status" observation ≡ some (text (status_of t.succeeded)))
    × (measured observation ≡ some (t.metric, t.value))

-- The limits that a profile keeps after one more trial are those of the longer history.
pub merge-Tracks :
    (t : Trial) (history : List Trial) (d : Dict String Value) (observation : Value) (s : Files)
    → Reports t observation
    → Tracks history d
    → (d' : Dict String Value) × (merge_capacity_limits (some (object (object_of d))) observation s
        ≡ done d' s)
      × Tracks (t ∷ history) d'
unfolding merge_capacity_limits merge_measured dict_of
merge-Tracks t history d observation s reports h = (
  put t.metric (object (object_of (numbered (tried t (h t.metric).limits)))) d,
  rw (reports.0, reports.1, entries-object_of d, dict_known history d t.metric (h t.metric) s)
      (merge_into_known t.succeeded t.metric t.value d (numbered (h t.metric).limits) s
        ∙ known_best t.succeeded t.value (h t.metric).limits t.metric d s),
  tried-Tracks t history d h,
)

limits_in-numbered :
    (c : Dict String ℕ) (s : Files)
    → All (λ entry. IsSide entry.0) c
    → limits_in (numbered c) s ≡ done c s
unfolding limits_in
limits_in-numbered [] s h = refl
limits_in-numbered ((key, n) ∷ c) s h = elim h.0 [
  | inl e ↦ rw (e, limits_in-numbered c s h.1) refl
  | inr e ↦ rw (e, limits_in-numbered c s h.1) refl
]

-- What is read of the limits is what they track.
pub get_profile_capacity-Tracks :
    (history : List Trial) (d : Dict String Value) (profile : Value) (metric : String) (s : Files)
    → value_get "capacity_limits" profile ≡ some (object (object_of d))
    → Tracks history d
    → (c : Dict String ℕ) × (get_profile_capacity profile metric s ≡ done (or_none c) s)
      × ((side : Bool) → get (side_of side) c ≡ best side metric history)
unfolding get_profile_capacity
get_profile_capacity-Tracks history d profile metric s has h = (
  c,
  rw (has, entries-object_of d)
      (elim (h metric).stands [
        | inl e ↦
            rw (e, entries-object_of (numbered c), limits_in-numbered c s (h metric).sides) refl
        | inr e ↦ rw (e.0, e.1) refl
      ]),
  (h metric).bests,
)
  where
    c : Dict String ℕ
    c = (h metric).limits

pub get_profile_capacity-missing :
    (history : List Trial) (profile : Value) (metric : String) (s : Files)
    → value_get "capacity_limits" profile ≡ none
    → Tracks history []
    → (c : Dict String ℕ) × (get_profile_capacity profile metric s ≡ done (or_none c) s)
      × ((side : Bool) → get (side_of side) c ≡ best side metric history)
unfolding get_profile_capacity get
get_profile_capacity-missing history profile metric s missing h = (
  (h metric).limits,
  elim (h metric).stands [ inl e ↦ absurd (cc) | inr e ↦ rw (missing, e.1) refl ],
  (h metric).bests,
)
