-- ===== src/MetricsJournal.antt =====
-- src/diffusers_dynamic_offloader/metrics_journal.py: `DynamicOffloadMetricsJournal`. The directory is a dict of
-- texts. What the n-th call finds around it is a function of n: the report that it serializes, the name of its
-- temporary file, which of its system calls succeed, what a failed write leaves, and what other processes
-- publish meanwhile, always under new names.
pub mod Immutable
pub mod Publication
use Prim.Native.String.{◌++◌ as ◌<>◌}
use diffusers_dynamic_offloa.Prelude.{
  ℕ, ◌+◌, String, string_eq, Bool, true, false, not, Option, none, some, List, [], ◌∷◌,
  if◌then◌else◌, ◌==◌,
}
use diffusers_dynamic_offloa.Dict.{Dict, get, put, remove, contains}
use diffusers_dynamic_offloa.Outcome.{
  Exec, Outcome, done, raise, value_error, runtime_error, os_error, ◌>>=◌, ◌>>◌, pure, throw,
  raise_if, or_raise, continue, left_by,
}

abbrev pub Files : Type 0
Files = Dict String String

pub data StepIndex : Type 0 where
  before_denoise : StepIndex
  step : ℕ → StepIndex
  no_index : StepIndex

pub record Journal : Type 0 where
  pub files : Files
  pub has_result : Bool
  pub closed : Bool
  pub calls : ℕ

pub record World : Type 0 where
  pub enabled : Bool
  pub padded : ℕ → String
  pub unique : ℕ → String
  pub serialized : ℕ → StepIndex → Option String
  pub makes_directory : ℕ → Bool
  pub writes : ℕ → Bool
  pub partial : ℕ → String
  pub links : ℕ → Bool
  pub unlinks : ℕ → Bool
  pub published : ℕ → Files

abbrev pub new_journal : World → Files → Journal
new_journal world files = record {
  files = files;
  has_result = world.enabled;
  closed = false;
  calls = 0;
}

-- Files of others, which replace none.
unfoldable pub add_new : Files → Files → Files
add_new [] files = files
add_new ((name, content) ∷ others) files =
    add_new others (if contains name files then files else put name content files)

abbrev pub file_name : World → StepIndex → Option String
file_name world before_denoise = some "before_denoise.json"
file_name world (step n) = some ("step_" <> world.padded n <> ".json")
file_name world no_index = none

abbrev pub with_files : Files → Journal → Journal
with_files files s = record s { files = files }

unfoldable pub enter : Exec Journal (Unit {0})
enter s = raise_if s.closed runtime_error s

unfoldable pub exit : Journal → Journal
exit s = record s { has_result = false; closed = true }

-- The link to the temporary file, which refuses a name that is there, and the temporary file's removal.
unfoldable pub publish : World → String → String → String → Exec Journal (Option String)
publish world target temporary content s =
    continue (raise_if (contains target s.files) os_error s) λ _ s1.
      continue (raise_if (not (world.links s1.calls)) os_error s1) λ _ s2.
        continue
          (raise_if (not (world.unlinks s2.calls)) os_error
            (with_files (put target content s2.files) s2))
          λ _ s3. done (some target) (with_files (remove temporary s3.files) s3)

-- The temporary file, opened with 'x'.
unfoldable pub write_temporary : World → String → String → Exec Journal (Unit {0})
write_temporary world temporary content s =
    continue (raise_if (contains temporary s.files) os_error s) λ _ s1.
      if world.writes s1.calls
      then done tt (with_files (put temporary content s1.files) s1)
      else raise os_error (with_files (put temporary (world.partial s1.calls) s1.files) s1)

unfoldable pub write_report : World → String → String → Exec Journal (Option String)
write_report world target content s =
    let temporary = target <> "." <> world.unique s.calls <> ".tmp" in
    continue (raise_if (not (world.makes_directory s.calls)) os_error s) λ _ s1.
      continue (write_temporary world temporary content s1)
        λ _. publish world target temporary content

unfoldable pub report_to : World → StepIndex → String → Exec Journal (Option String)
report_to world index target s = continue (raise_if (contains target s.files) os_error s) λ _ s1.
    continue (or_raise (world.serialized s1.calls index) value_error s1) λ content s2.
      write_report world target content
        (with_files (add_new (world.published s2.calls) s2.files) s2)

-- `record`. The counter of the calls is the model's own.
unfoldable pub record_report : World → StepIndex → Exec Journal (Option String)
record_report world index s0 =
    let s = record s0 { calls = s0.calls + 1 } in
    continue (raise_if s.closed runtime_error s) λ _ s1.
      if world.enabled
      then continue (or_raise (file_name world index) value_error s1) (report_to world index)
      else done none s1
