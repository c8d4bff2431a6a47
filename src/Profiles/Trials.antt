-- ===== src/Profiles/Trials.antt =====
-- Trials of a workload, and limits that track a history of them.
use mathlib.Core.Option
use diffusers_dynamic_offloa.Prelude.{
  ℕ, ◌≡◌, refl, ap, ◌⊎◌, String, string_eq, Bool, true, false, ◌&&◌, Option, none, some, List, [],
  ◌∷◌, map, max, min, if◌then◌else◌, ◌==◌, All, Bool-cases, inl, inr,
}
use diffusers_dynamic_offloa.Dict.{Dict, get, put}
use diffusers_dynamic_offloa.Outcome.{done}
use diffusers_dynamic_offloa.Json.{Value, number, text, object, entries, object_of}
use diffusers_dynamic_offloa.Profiles.{Files, dict_of, keep_best}

-- A run of a workload at a capacity of a metric.
pub record Trial : Type 0 where
  pub succeeded : Bool
  pub metric : String
  pub value : ℕ

abbrev pub status_of : Bool → String
status_of true = "success"
status_of false = "failure"

-- The observation that reports it.
abbrev pub observation_of : Trial → Value
observation_of t = object (
    object_of (
      ("status", text (status_of t.succeeded))
      ∷ (
        "capacity",
        object (object_of (("metric", text t.metric) ∷ ("value", number t.value) ∷ [])),
      )
      ∷ []))

abbrev pub side_of : Bool → String
side_of true = "max_success"
side_of false = "min_failure"

abbrev pub choose : Bool → ℕ → ℕ → ℕ
choose true = max
choose false = min

abbrev pub or_value : ℕ → Option ℕ → ℕ
or_value n none = n
or_value n (some m) = m

abbrev is_trial_of : Bool → String → Trial → Bool
is_trial_of true metric t = t.succeeded && t.metric == metric
is_trial_of false metric t = if t.succeeded then false else t.metric == metric

-- The largest success or the smallest failure of a metric in a history, newest first.
abbrev pub best : Bool → String → List Trial → Option ℕ
best side metric [] = none
best side metric (t ∷ history) =
    let before = best side metric history in
    if is_trial_of side metric t
    then some (choose side t.value (or_value t.value before))
    else before

abbrev pub numbered : Dict String ℕ → Dict String Value
numbered = map (λ entry. (entry.0, number entry.1))

get-numbered :
    (key : String) (c : Dict String ℕ) → get key (numbered c) ≡ Option.map number (get key c)
unfolding get
get-numbered key [] = refl
get-numbered key ((k, n) ∷ c) = elim (Bool-cases (k == key)) [
  | inl same ↦ rw same refl
  | inr differ ↦ rw differ (get-numbered key c)
]

put-numbered :
    (key : String) (n : ℕ) (c : Dict String ℕ)
    → put key (number n) (numbered c) ≡ numbered (put key n c)
unfolding put
put-numbered key n [] = refl
put-numbered key n ((k, m) ∷ c) = elim (Bool-cases (k == key)) [
  | inl same ↦ rw same refl
  | inr differ ↦ rw differ (ap (λ rest. (k, number m) ∷ rest) (put-numbered key n c))
]

pub entries-object_of : (d : Dict String Value) → entries (object_of d) ≡ d
entries-object_of [] = refl
entries-object_of ((key, v) ∷ d) = ap (λ rest. (key, v) ∷ rest) (entries-object_of d)

abbrev pub IsSide : String → Type 0
IsSide key = (key ≡ "max_success") ⊎ (key ≡ "min_failure")

pub put-IsSide :
    (key : String) (n : ℕ) (c : Dict String ℕ)
    → IsSide key
    → All (λ entry. IsSide entry.0) c
    → All (λ entry. IsSide entry.0) (put key n c)
unfolding put
put-IsSide key n [] side h = (side, tt)
put-IsSide key n ((k, m) ∷ c) side h = elim (Bool-cases (k == key)) [
  | inl same ↦ rw same h
  | inr differ ↦ rw differ (h.0, put-IsSide key n c side h.1)
]

-- The limits of a metric are those of the history.
pub record Tracked (history : List Trial) (d : Dict String Value) (metric : String) : Type 0 where
  pub limits : Dict String ℕ
  pub stands :
      (get metric d ≡ some (object (object_of (numbered limits))))
      ⊎ ((get metric d ≡ none) × (limits ≡ []))
  pub sides : All (λ entry. IsSide entry.0) limits
  pub bests : (side : Bool) → get (side_of side) limits ≡ best side metric history

abbrev pub Tracks : List Trial → Dict String Value → Type 0
Tracks history d = (metric : String) → Tracked history d metric

pub dict_known :
    (history : List Trial) (d : Dict String Value) (metric : String) (h : Tracked history d metric)
    (s : Files)
    → dict_of (get metric d) s ≡ done (numbered h.limits) s
unfolding dict_of
dict_known history d metric h s = elim h.stands [
  | inl e ↦ rw (e, entries-object_of (numbered h.limits)) refl
  | inr e ↦ rw (e.0, e.1) refl
]

pub known_best :
    (side : Bool) (n : ℕ) (c : Dict String ℕ) (metric : String) (d : Dict String Value) (s : Files)
    → keep_best (side_of side) (choose side) metric n d (numbered c) s
      ≡ done
          (put metric
            (object (
              object_of (
                numbered
                  (put (side_of side) (choose side n (or_value n (get (side_of side) c))) c))))
            d)
          s
unfolding keep_best
known_best side n c metric d s = from (get (side_of side) c) refl
  where
    from :
        (o : Option ℕ)
        → get (side_of side) c ≡ o
        → keep_best (side_of side) (choose side) metric n d (numbered c) s
          ≡ done
              (put metric
                (object
                  (object_of (numbered (put (side_of side) (choose side n (or_value n o)) c))))
                d)
              s
    from none e =
        rw (get-numbered (side_of side) c, e, put-numbered (side_of side) (choose side n n) c) refl
    from (some m) e =
        rw (get-numbered (side_of side) c, e, put-numbered (side_of side) (choose side n m) c) refl
