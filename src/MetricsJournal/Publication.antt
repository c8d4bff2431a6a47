-- ===== src/MetricsJournal/Publication.antt =====
-- What a record that returns a path has published under it.
use Prim.Native.String.{◌++◌ as ◌<>◌}
use diffusers_dynamic_offloa.Prelude.{
  ◌+◌, ◌≡◌, refl, sym, ap, subst, String, string_eq, true, false, not, Option, none, some, is_some,
  ◌==◌, ==_iff, ==_refl, Bool-cases, inl, inr,
}
use diffusers_dynamic_offloa.Dict.{get, put, remove, contains, get-put, get-remove}
use diffusers_dynamic_offloa.Outcome.{
  Error, runtime_error, value_error, os_error, Post, Post-raise_if, Post-or_raise, Post-if,
  Post-continue, Post-weaken,
}
use diffusers_dynamic_offloa.MetricsJournal.{
  Files, StepIndex, Journal, World, file_name, with_files, add_new, publish, write_temporary,
  write_report, report_to, record_report,
}
use diffusers_dynamic_offloa.MetricsJournal.Immutable.{missing}

abbrev Any : Error → Journal → Type 0
Any e s = Unit

-- A name that is there and one that is not are two.
two_names :
    (name other : String) (files : Files)
    → is_some (get name files) ≡ true
    → contains other files ≡ false
    → (name == other) ≡ false
two_names name other files there gone = elim (Bool-cases (name == other)) [
  | inl same ↦ absurd (let equal = ap (λ k. contains k files) ((==_iff name other).0 same) in cc)
  | inr differ ↦ differ
]

module _ (world : World) where
  -- The file has the content.
  abbrev Holds : String → String → Option String → Journal → Type 0
  Holds target content path t = (path ≡ some target) × (get target t.files ≡ some content)

  publish-Holds :
      (target temporary content : String) (s : Journal)
      → is_some (get temporary s.files) ≡ true
      → Post (Holds target content) Any (publish world target temporary content s)
  unfolding publish
  publish-Holds target temporary content s there =
      Post-raise_if (Holds target content) Any (contains target s.files) os_error s _ (λ _. tt)
        λ free.
          Post-raise_if (Holds target content) Any (not (world.links s.calls)) os_error s _
            (λ _. tt)
            λ _.
              Post-raise_if (Holds target content) Any (not (world.unlinks s.calls)) os_error
                (with_files (put target content s.files) s) _ (λ _. tt) λ _. (refl, kept free)
    where
      kept :
          contains target s.files ≡ false
          → get target (remove temporary (put target content s.files)) ≡ some content
      kept free =
          rw
            (
              get-remove temporary target (put target content s.files),
              two_names temporary target s.files there free,
              get-put target target content s.files,
              ==_refl target,
            )
            refl

  write_report-Holds :
      (target content : String) (s : Journal)
      → Post (Holds target content) Any (write_report world target content s)
  unfolding write_report write_temporary
  write_report-Holds target content s =
      Post-raise_if (Holds target content) Any (not (world.makes_directory s.calls)) os_error s _
        (λ _. tt)
        λ _.
          Post-continue (λ _ t. is_some (get temporary t.files) ≡ true) (Holds target content) Any
            (write_temporary world temporary content s) _ written
            λ _ t there. publish-Holds target temporary content t there
    where
      temporary : String
      temporary = target <> "." <> world.unique s.calls <> ".tmp"

      itself : is_some (get temporary (put temporary content s.files)) ≡ true
      itself = rw (get-put temporary temporary content s.files, ==_refl temporary) refl

      written :
          Post
            (λ _ t. is_some (get temporary t.files) ≡ true)
            Any
            (write_temporary world temporary content s)
      written =
          Post-raise_if (λ _ t. is_some (get temporary t.files) ≡ true) Any
            (contains temporary s.files) os_error s _ (λ _. tt)
            λ _.
              Post-if (λ _ t. is_some (get temporary t.files) ≡ true) Any (world.writes s.calls) _ _
                (λ _. itself) (λ _. tt)

  -- The report of the call, whole, under a name that was free.
  abbrev pub Published : StepIndex → Journal → Option String → Journal → Type 0
  Published index s none t = (world.enabled ≡ false) × (t.files ≡ s.files)
  Published index s (some target) t =
      (world.enabled ≡ true)
      × (file_name world index ≡ some target)
      × (get target s.files ≡ none)
      × (content : String) × (world.serialized (s.calls + 1) index ≡ some content)
      × (get target t.files ≡ some content)

  -- Where a record returns a path, the journal is enabled, the path is that of the step, nothing was there
  -- before, and it holds the whole report of this call; where it returns none, the journal is disabled and no
  -- file has changed; on a closed journal it only raises.
  pub record_report-Published :
      (index : StepIndex) (s : Journal)
      → Post
          (λ path t. (s.closed ≡ false) × Published index s path t)
          (λ _ _. Unit)
          (record_report world index s)
  unfolding record_report report_to
  record_report-Published index s0 =
      Post-raise_if Q Any s.closed runtime_error s _ (λ _. tt)
        λ opened.
          Post-if Q Any world.enabled _ _
            (λ enabled.
              Post-or_raise Q Any (file_name world index) value_error s _ tt λ target named.
                Post-raise_if Q Any (contains target s.files) os_error s _ (λ _. tt)
                  λ free.
                    Post-or_raise Q Any (world.serialized s.calls index) value_error s _ tt
                      λ content serialized.
                        let later = with_files (add_new (world.published s.calls) s.files) s in
                        Post-weaken (Holds target content) Q Any Any
                          (write_report world target content later)
                          (write_report-Holds target content later)
                          (λ path t (returned, there). (
                            opened,
                            subst (λ p. Published index s0 p t) (sym returned)
                                (
                                  enabled,
                                  named,
                                  missing target s.files free,
                                  content,
                                  serialized,
                                  there,
                                ),
                          ))
                          (λ _ _ h. h))
            (λ disabled. (opened, (disabled, refl)))
    where
      s : Journal
      s = record s0 { calls = s0.calls + 1 }

      Q : Option String → Journal → Type 0
      Q path t = (s0.closed ≡ false) × Published index s0 path t
