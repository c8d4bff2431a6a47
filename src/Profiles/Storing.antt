-- ===== src/Profiles/Storing.antt =====
-- What `record_dynamic_offload_profile` writes is what `load_dynamic_offload_profile` finds.
use diffusers_dynamic_offloa.Prelude.{
  ℕ, ◌+◌, ◌-◌, ◌≤◌, zero, suc, ◌≡◌, refl, sym, ap, subst, ◌∙◌, String, string_eq, Bool, true, false,
  ◌&&◌, not, Option, none, some, ◌⊎◌, inl, inr, Bool-cases, List, [], ◌∷◌, ◌++◌, ◌==◌, ==_refl,
  length, arith,
}
use diffusers_dynamic_offloa.Dict.{Dict, get, put, remove, get-put, get-remove}
use diffusers_dynamic_offloa.Outcome.{
  Error, type_error, value_error, os_error, Post-refused, Post-weaken, pure, Exec, done, raise_if,
  or_raise, Post, Post-steady, Post-known, Post-if, Post-continue, ◌>>=◌, Post-raise_if,
  Post-or_raise,
}
use diffusers_dynamic_offloa.Json.{
  Value, array, object, array_of, object_of, value_get, is_object, is_truthy, value_beq, json_value,
}
use diffusers_dynamic_offloa.Profiles.Steady.{
  list_of-IsSteady, merge-IsSteady, json_option-IsSteady,
}
use diffusers_dynamic_offloa.Profiles.{
  Files, Content, parsed, Python, is_undecodable, temporary, left_of, or_null, or_empty,
  merge_capacity_limits, list_of, drop, last_twenty, normalize_context, profile_key, profile_path,
  is_profile_of, read_profile, load_profile, recommended, json_option, profile_record,
  write_profile, record_observation, record_profile, is_no_object,
}
use diffusers_dynamic_offloa.Profiles.Reading.{
  IsNormalOf, normal_again, key_of, path_of, key_known, path_known, load_known, load_refused,
}

not-true : (b : Bool) → not b ≡ false → b ≡ true
not-true true h = refl
not-true false h = cc

drop_last :
    {A : Type 0} (n : ℕ) (xs : List A) (x : A)
    → n ≤ length xs
    → drop n (xs ++ x ∷ []) ≡ drop n xs ++ x ∷ []
drop_last zero xs x h = refl
drop_last (suc n) [] x h = absurd (omega arith)
drop_last (suc n) (y ∷ xs) x h = drop_last n xs x (omega arith)

length-drop : {A : Type 0} (n : ℕ) (xs : List A) → length (drop n xs) ≡ length xs - n
length-drop zero xs = omega arith
length-drop (suc n) [] = omega arith
length-drop (suc n) (x ∷ xs) = omega (arith, length-drop n xs)

length-last : {A : Type 0} (xs : List A) (x : A) → length (xs ++ x ∷ []) ≡ length xs + 1
length-last [] x = refl
length-last (y ∷ xs) x = omega (arith, length-last xs x)

-- The last of the observations stays, and at most nineteen before it.
last_twenty-last :
    (xs : List Value) (x : Value)
    → (kept : List Value) × (last_twenty (xs ++ x ∷ []) ≡ kept ++ x ∷ []) × (length kept ≤ 19)
unfolding last_twenty
last_twenty-last xs x =
    let n = length xs + 1 - 20 in
    (
      drop n xs,
      rw (length-last xs x) (drop_last n xs x (omega arith)),
      omega (arith, length-drop n xs),
    )

module _ (python : Python)
    (trans : (a b c : String)
      → python.string_le a b ≡ true
      → python.string_le b c ≡ true
      → python.string_le a c ≡ true)
    (total : (a b : String) → python.string_le a b ≡ false → python.string_le b a ≡ true) where
  normalized-Post :
      (context : Value) (s : Files)
      → Post
          (λ n t. (t ≡ s) × IsNormalOf python trans total n context)
          (λ _ t. t ≡ s)
          (normalize_context python context s)
  unfolding normalize_context
  normalized-Post context s =
      let Q : Value → Files → Type 0 = λ n t. (t ≡ s) × IsNormalOf python trans total n context in
      Post-raise_if Q (λ _ t. t ≡ s) (not (is_object context && is_truthy context)) _ s _
        (λ _. refl)
        λ mapping.
          Post-or_raise Q (λ _ t. t ≡ s) (json_value python.string_le context) _ s _ refl
            λ n found.
              Post-raise_if Q (λ _ t. t ≡ s) (not (is_object n)) type_error s (λ _. pure n)
                (λ _. refl)
                λ is. (
                  refl,
                  (
                    not-true (is_object context && is_truthy context) mapping,
                    found,
                    not-true (is_object n) is,
                  ),
                )

  -- What a call has written, for the file that it replaces.
  pub record Stored (profile_dir : Option String) (context observation : Value) (s : Files)
      (path : String) (t : Files) : Type 0 where
    pub normalized : Value
    pub observed : Value
    pub prior : Option Value
    pub found : Value
    pub kept : List Value
    pub limits : Dict String Value
    pub normalizes : json_value python.string_le context ≡ some normalized
    pub observes : json_value python.string_le observation ≡ some observed
    pub before : load_profile python context profile_dir s ≡ done prior s
    pub loads : load_profile python context profile_dir t ≡ done (some found) t
    pub has_context : value_get "context" found ≡ some normalized
    pub has_observations :
        value_get "observations" found ≡ some (array (array_of (kept ++ observed ∷ [])))
    pub few : length kept ≤ 19
    pub merged :
        merge_capacity_limits (value_get "capacity_limits" (or_empty python prior)) observed s
        ≡ done limits s
    pub has_limits : value_get "capacity_limits" found ≡ some (object (object_of limits))
    pub others_stay :
        (name : String)
        → (path == name) ≡ false
        → (temporary python path s == name) ≡ false
        → get name t ≡ get name s
    pub no_temporary :
        (path == temporary python path s) ≡ false → get (temporary python path s) t ≡ none

  -- Where a call raises: no file has changed but a temporary one beside the profile's.
  abbrev pub Kept : Option String → Value → Files → Error → Files → Type 0
  Kept profile_dir context s e t =
      (t ≡ s)
      ⊎ ((normalized : Value) × (json_value python.string_le context ≡ some normalized)
          × ((name : String)
              → (temporary python (path_of python trans total profile_dir normalized) s == name)
                ≡ false
              → get name t ≡ get name s))

  found_again :
      (normalized : Value) (key now : String) (limits : Dict String Value)
      (observations : List Value) (last : Dict String Value)
      → value_beq normalized normalized ≡ true
      → let r = profile_record python key now normalized limits observations last in
        read_profile python normalized key (some (parsed r)) ≡ some r
  unfolding read_profile is_profile_of value_beq get
  found_again normalized key now limits observations last equal = rw (==_refl key, equal) refl

  module _ (now : String) (profile_dir : Option String) (context observation : Value) (s : Files)
      (equal : (n : Value)
        → json_value python.string_le context ≡ some n
        → value_beq n n ≡ true) where
    abbrev Unharmed : Error → Files → Type 0
    Unharmed = Kept profile_dir context s

    -- Whatever a failed write leaves, it is the temporary file.
    left_behind :
        (normalized : Value) (o : Option Content)
        → json_value python.string_le context ≡ some normalized
        → let path = path_of python trans total profile_dir normalized in
          Unharmed os_error (left_of python (temporary python path s) o s)
    left_behind normalized none known = inl refl
    left_behind normalized (some content) known = inr (
      normalized,
      known,
      λ name differ.
          rw
            (
              get-put (temporary python (path_of python trans total profile_dir normalized) s) name
                  content s,
              differ,
            )
            refl,
    )

    written-Stored :
        (normalized observed : Value)
        → IsNormalOf python trans total normalized context
        → json_value python.string_le observation ≡ some observed
        → (observations : List Value) (limits last : Dict String Value)
        → is_undecodable (get (path_of python trans total profile_dir normalized) s) ≡ false
        → merge_capacity_limits
            (value_get "capacity_limits" (
              or_empty python (
                read_profile python normalized
                  (key_of python trans total normalized)
                  (get (path_of python trans total profile_dir normalized) s))))
            observed
            s
          ≡ done limits s
        → Post (Stored profile_dir context observation s) Unharmed (
            write_profile python
              (path_of python trans total profile_dir normalized)
              (profile_record python
                (key_of python trans total normalized)
                now
                normalized
                limits
                (observations ++ observed ∷ [])
                last)
              s)
    unfolding write_profile get
    written-Stored normalized observed h saw observations limits last readable merged =
        Post-if (Stored profile_dir context observation s) Unharmed
          (python.writes (temporary python path s)) _ _
          (λ _.
            Post-if (Stored profile_dir context observation s) Unharmed (python.replaces path) _ _
              (λ _. record {
                normalized = normalized;
                observed = observed;
                prior = read_profile python normalized key (get path s);
                found = content;
                kept = (last_twenty-last observations observed).0;
                limits = limits;
                normalizes = h.1;
                observes = saw;
                before = load_known python trans total normalized context h profile_dir s readable;
                loads =
                    load_known python trans total normalized context h profile_dir t
                      (ap is_undecodable written)
                    ∙ ap (λ o. done (read_profile python normalized key o) t) written
                    ∙ ap (λ o. done o t)
                        (found_again normalized key now limits (observations ++ observed ∷ []) last
                          (equal normalized h.1));
                has_context = refl;
                has_observations =
                    ap (λ l. some (array (array_of l))) (last_twenty-last observations observed).1;
                few = (last_twenty-last observations observed).2;
                merged = merged;
                has_limits = refl;
                others_stay = untouched;
                no_temporary = λ apart. gone apart;
              })
              (λ _. left_behind normalized (some (parsed content)) h.1))
          (λ _. left_behind normalized (python.leaves (temporary python path s)) h.1)
      where
        path : String
        path = path_of python trans total profile_dir normalized

        key : String
        key = key_of python trans total normalized

        content : Value
        content =
            profile_record python key now normalized limits (observations ++ observed ∷ []) last

        temp : String
        temp = temporary python path s

        moved : Files
        moved = remove temp (put temp (parsed content) s)

        t : Files
        t = put path (parsed content) moved

        written : get path t ≡ some (parsed content)
        written = rw (get-put path path (parsed content) moved, ==_refl path) refl

        untouched :
            (name : String)
            → (path == name) ≡ false
            → (temp == name) ≡ false
            → get name t ≡ get name s
        untouched name differ other =
            rw
              (
                get-put path name (parsed content) moved,
                differ,
                get-remove temp name (put temp (parsed content) s),
                other,
                get-put temp name (parsed content) s,
                other,
              )
              refl

        gone : (path == temp) ≡ false → get temp t ≡ none
        gone apart =
            rw
              (
                get-put path temp (parsed content) moved,
                apart,
                get-remove temp temp (put temp (parsed content) s),
                ==_refl temp,
              )
              refl

    observed-Stored :
        (normalized observed : Value) (advice : Option Value)
        → IsNormalOf python trans total normalized context
        → json_value python.string_le observation ≡ some observed
        → Post
            (Stored profile_dir context observation s)
            Unharmed
            (record_observation python now profile_dir normalized observed advice s)
    unfolding record_observation
    observed-Stored normalized observed advice h saw =
        let again = normal_again python trans total normalized context h in
        let path = path_of python trans total profile_dir normalized in
        let key = key_of python trans total normalized in
        let prior = read_profile python normalized key (get path s) in
        let Q = Stored profile_dir context observation s in
        Post-known Q Unharmed (profile_path python normalized profile_dir s) _ path s
          (path_known python trans total normalized normalized again profile_dir s)
          (elim (Bool-cases (is_undecodable (get path s))) [
            | inl bad ↦
                Post-refused Q Unharmed (load_profile python normalized profile_dir s) _ value_error
                  s (load_refused python trans total normalized normalized again profile_dir s bad)
                  (inl refl)
            | inr readable ↦
                Post-known Q Unharmed (load_profile python normalized profile_dir s) _ prior s
                  (load_known python trans total normalized normalized again profile_dir s readable)
                  (Post-steady Q Unharmed
                    (list_of python (or_null (value_get "observations" (or_empty python prior))) s)
                    _ s
                    (list_of-IsSteady python
                      (or_null (value_get "observations" (or_empty python prior))) s)
                    (λ _. inl refl)
                    λ observations _.
                      Post-known Q Unharmed (profile_key python normalized s) _ key s
                        (key_known python trans total normalized normalized again profile_dir s)
                        (Post-steady Q Unharmed
                          (merge_capacity_limits
                            (value_get "capacity_limits" (or_empty python prior)) observed s)
                          _ s
                          (merge-IsSteady (value_get "capacity_limits" (or_empty python prior))
                            observed s)
                          (λ _. inl refl)
                          λ limits merged.
                            written-Stored normalized observed h saw observations limits
                              (recommended python advice
                                (value_get "recommendation" (or_empty python prior)))
                              readable merged))
          ])

    -- In a total order of strings, for a context that in its normal form, if it has one, equals itself: where the
    -- call returns, the context's profile that is loaded next is the new one, which has the context and the
    -- observation in their normal form, the latter as the last of at most twenty, and as its limits those that
    -- the profile before gives with the observation; the temporary file is gone and the other files stay. Where it
    -- raises, no file has changed but, if the write or the renaming failed, that temporary file.
    pub record_profile-Stored :
        (recommendation : Option Value)
        → Post
            (Stored profile_dir context observation s)
            (Kept profile_dir context s)
            (record_profile python now profile_dir context observation recommendation s)
    unfolding record_profile
    record_profile-Stored recommendation =
        let Q = Stored profile_dir context observation s in
        Post-continue (λ n t. (t ≡ s) × IsNormalOf python trans total n context) Q Unharmed
          (normalize_context python context s) _
          (Post-weaken (λ n t. (t ≡ s) × IsNormalOf python trans total n context)
            (λ n t. (t ≡ s) × IsNormalOf python trans total n context) (λ _ t. t ≡ s) Unharmed
            (normalize_context python context s) (normalized-Post context s) (λ n t h. h)
            (λ e t same. inl same))
          λ n t (same, h).
            subst (λ u. Post Q Unharmed (checked n u)) (sym same)
              (Post-or_raise Q Unharmed (json_value python.string_le observation) type_error s _
                (inl refl)
                λ o saw.
                  Post-steady Q Unharmed (json_option python recommendation s) _ s
                    (json_option-IsSteady python recommendation s) (λ _. inl refl)
                    λ advice _.
                      Post-raise_if Q Unharmed (not (is_object o)) type_error s _ (λ _. inl refl)
                        λ _.
                          Post-raise_if Q Unharmed (is_no_object python advice) type_error s _
                            (λ _. inl refl) λ _. observed-Stored n o advice h saw)
      where
        checked : Value → Exec Files String
        checked n = do
          observed ← or_raise (json_value python.string_le observation) type_error
          advised ← json_option python recommendation
          _ ← raise_if (not (is_object observed)) type_error
          _ ← raise_if (is_no_object python advised) type_error
          record_observation python now profile_dir n observed advised
