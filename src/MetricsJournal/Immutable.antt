-- ===== src/MetricsJournal/Immutable.antt =====
-- A published report is never replaced, changed or removed.
use Prim.Native.String.{◌++◌ as ◌<>◌}
use diffusers_dynamic_offloa.Prelude.{
  ◌+◌, ◌≡◌, refl, sym, ap, ◌∙◌, String, string_eq, Bool, true, false, not, Option, none, some,
  is_some, List, [], ◌∷◌, if◌then◌else◌, ◌==◌, ==_iff, Bool-cases, if_rule, inl, inr,
}
use diffusers_dynamic_offloa.Dict.{get, put, remove, contains, get-put, get-remove}
use diffusers_dynamic_offloa.Outcome.{
  Outcome, done, raise, runtime_error, value_error, os_error, raise_if, continue, left_by,
  left_by-raise_if, left_by-or_raise,
}
use diffusers_dynamic_offloa.MetricsJournal.{
  Files, StepIndex, Journal, World, add_new, file_name, with_files, enter, exit, publish,
  write_temporary, write_report, report_to, record_report,
}

-- Each file of the first is there in the second, with the same content.
abbrev pub Keeps : Files → Files → Type 0
Keeps files files' =
    (name content : String) → get name files ≡ some content → get name files' ≡ some content

pub missing : (name : String) (files : Files) → contains name files ≡ false → get name files ≡ none
missing name files h = from (get name files) h
  where
    from : (o : Option String) → is_some o ≡ false → o ≡ none
    from none h = refl
    from (some v) h = cc

put-Keeps :
    (name content : String) (old files : Files)
    → contains name files ≡ false
    → Keeps old files
    → Keeps old (put name content files)
put-Keeps name content old files fresh h other found e = elim (Bool-cases (name == other)) [
  | inl same ↦ absurd (
      let there = h other found e in
      let gone = missing name files fresh in
      let equal = (==_iff name other).0 same in
      let clash : none ≡ some found = sym gone ∙ ap (λ k. get k files) equal ∙ there in cc)
  | inr differ ↦ rw (get-put name other content files, differ) (h other found e)
]

remove-Keeps :
    (name : String) (old before files : Files)
    → contains name before ≡ false
    → Keeps old before
    → Keeps old files
    → Keeps old (remove name files)
remove-Keeps name old before files fresh h k other found e = elim (Bool-cases (name == other)) [
  | inl same ↦ absurd (
      let there = h other found e in
      let gone = missing name before fresh in
      let equal = (==_iff name other).0 same in
      let clash : none ≡ some found = sym gone ∙ ap (λ k. get k before) equal ∙ there in cc)
  | inr differ ↦ rw (get-remove name other files, differ) (k other found e)
]

add_new-Keeps : (others old files : Files) → Keeps old files → Keeps old (add_new others files)
unfolding add_new
add_new-Keeps [] old files h = h
add_new-Keeps ((name, content) ∷ others) old files h =
    add_new-Keeps others old (if contains name files then files else put name content files) (
      if_rule (Keeps old) (contains name files) files (put name content files) (λ _. h)
        (λ fresh. put-Keeps name content old files fresh h))

module _ (world : World) (old : Files) where
  abbrev Kept : Journal → Type 0
  Kept s = Keeps old s.files

  -- `before` is the directory in which the temporary file was not there.
  publish-Keeps :
      (target temporary content : String) (before : Files) (s : Journal)
      → contains temporary before ≡ false
      → Keeps old before
      → Kept s
      → Kept (left_by (publish world target temporary content s))
  unfolding publish
  publish-Keeps target temporary content before s fresh was h =
      left_by-raise_if Kept (contains target s.files) os_error s _ h λ free.
        left_by-raise_if Kept (not (world.links s.calls)) os_error s _ h λ _.
          let linked = put-Keeps target content old s.files free h in
          left_by-raise_if Kept (not (world.unlinks s.calls)) os_error
            (with_files (put target content s.files) s) _ linked
            λ _. remove-Keeps temporary old before (put target content s.files) fresh was linked

  write_report-Keeps :
      (target content : String) (s : Journal)
      → Kept s
      → Kept (left_by (write_report world target content s))
  unfolding write_report write_temporary
  write_report-Keeps target content s h =
      left_by-raise_if Kept (not (world.makes_directory s.calls)) os_error s _ h
        λ _. written (contains temporary s.files) refl
    where
      temporary : String
      temporary = target <> "." <> world.unique s.calls <> ".tmp"

      written :
          (there : Bool)
          → contains temporary s.files ≡ there
          → Kept (
              left_by (
                continue
                  (continue (raise_if there os_error s) λ _ s1.
                    if world.writes s1.calls
                    then done tt (with_files (put temporary content s1.files) s1)
                    else raise os_error
                        (with_files (put temporary (world.partial s1.calls) s1.files) s1))
                  (λ _. publish world target temporary content)))
      written true e = h
      written false e =
          if_rule {A = Outcome Journal (Unit {0})}
            (λ o. Kept (left_by (continue o (λ _. publish world target temporary content))))
            (world.writes s.calls) _ _
            (λ _.
              publish-Keeps target temporary content s.files
                (with_files (put temporary content s.files) s) e h
                (put-Keeps temporary content old s.files e h))
            (λ _. put-Keeps temporary (world.partial s.calls) old s.files e h)

  record_report-Keeps :
      (index : StepIndex) (s : Journal) → Kept s → Kept (left_by (record_report world index s))
  unfolding record_report report_to
  record_report-Keeps index s0 h =
      let s = record s0 { calls = s0.calls + 1 } in
      left_by-raise_if Kept s.closed runtime_error s _ h λ _.
        if_rule {A = Outcome Journal (Option String)} (λ o. Kept (left_by o)) world.enabled _ _
          (λ _. left_by-or_raise Kept (file_name world index) value_error s _ h λ target _.
            left_by-raise_if Kept (contains target s.files) os_error s _ h λ _.
              left_by-or_raise Kept (world.serialized s.calls index) value_error s _ h λ content _.
                write_report-Keeps target content
                  (with_files (add_new (world.published s.calls) s.files) s)
                  (add_new-Keeps (world.published s.calls) old s.files h))
          (λ _. h)

pub data Command : Type 0 where
  enter_journal exit_journal : Command
  record_step : StepIndex → Command

abbrev pub run_command : World → Command → Journal → Journal
run_command world enter_journal s = left_by (enter s)
run_command world exit_journal s = exit s
run_command world (record_step index) s = left_by (record_report world index s)

abbrev pub run : World → List Command → Journal → Journal
run world [] s = s
run world (command ∷ commands) s = run world commands (run_command world command s)

kept_by_run :
    (world : World) (old : Files) (commands : List Command) (s : Journal)
    → Keeps old s.files
    → Keeps old (run world commands s).files
unfolding enter exit
kept_by_run world old [] s h = h
kept_by_run world old (enter_journal ∷ commands) s h =
    kept_by_run world old commands (left_by (enter s)) (stays s.closed)
  where
    stays : (closed : Bool) → Keeps old (left_by (raise_if closed runtime_error s)).files
    stays true = h
    stays false = h
kept_by_run world old (exit_journal ∷ commands) s h = kept_by_run world old commands (exit s) h
kept_by_run world old (record_step index ∷ commands) s h =
    kept_by_run world old commands (left_by (record_report world index s))
      (record_report-Keeps world old index s h)

-- After any sequence of entries, exits and records, whichever of the system calls fail and whatever other
-- processes publish meanwhile under new names, each file that was in the directory is still there with the
-- content that it had.
pub run-Keeps :
    (world : World) (commands : List Command) (s : Journal)
    → Keeps s.files (run world commands s).files
run-Keeps world commands s = kept_by_run world s.files commands s (λ name content e. e)
