-- ===== src/Tests/Journal.antt =====
-- A journal whose first step is there already, and a step that another process publishes meanwhile.
use diffusers_dynamic_offloa.Prelude.{◌≡◌, refl, string_eq, true, false, some, List, [], ◌∷◌}
use diffusers_dynamic_offloa.Dict.{get, put, remove}
use diffusers_dynamic_offloa.Outcome.{Post, done}
use diffusers_dynamic_offloa.MetricsJournal.{
  Journal, World, before_denoise, step, no_index, new_journal, record_report, report_to,
  write_report, write_temporary, publish, add_new,
}
use diffusers_dynamic_offloa.MetricsJournal.Immutable.{
  Keeps, Command, enter_journal, exit_journal, record_step, run, run_command, run-Keeps,
}
use diffusers_dynamic_offloa.MetricsJournal.Publication.{Published, record_report-Published}

abbrev world : World
world = record {
  enabled = true;
  padded = λ n. "0001";
  unique = λ call. "7f";
  serialized = λ call index. some "{}";
  makes_directory = λ call. true;
  writes = λ call. true;
  partial = λ call. "";
  links = λ call. true;
  unlinks = λ call. true;
  published = λ call. ("step_0002.json", "{}") ∷ [];
}

abbrev journal : Journal
journal = new_journal world (("step_0001.json", "{\"schema_version\": 1}") ∷ [])

abbrev commands : List Command
commands =
    enter_journal
    ∷ record_step before_denoise
    ∷ record_step (step 1)
    ∷ record_step no_index
    ∷ exit_journal
    ∷ []

journal_example : Keeps journal.files (run world commands journal).files
journal_example = run-Keeps world commands journal

record_example :
    Post
      (λ path t. (journal.closed ≡ false) × Published world before_denoise journal path t)
      (λ _ _. Unit)
      (record_report world before_denoise journal)
record_example = record_report-Published world before_denoise journal

recorded :
    record_report world before_denoise journal
    ≡ done (some "before_denoise.json") (run_command world (record_step before_denoise) journal)
unfolding record_report report_to write_report write_temporary publish add_new get put remove
recorded = refl
