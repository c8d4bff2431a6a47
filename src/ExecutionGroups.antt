-- ===== src/ExecutionGroups.antt =====
-- src/diffusers_dynamic_offloader/dynamic_offload.py: the execution groups of the VMM runtime, which upload
-- the next group's weights while the current one computes. A worker's upload is one step, `run_worker`,
-- which the methods wait for where the source waits for the future. Whether an event can be recorded, waited
-- for by the stream and synchronized with is any function of its number; timing is left out.
pub mod Keeping
pub mod Exclusion
pub mod Balance
pub mod Sequences
pub mod Returns
pub mod Draining
use diffusers_dynamic_offloa.Prelude.{
  ℕ, ◌+◌, String, string_eq, Bool, true, false, ◌||◌, Option, none, some, List, [], ◌∷◌, leb,
  if◌then◌else◌, ◌==◌, get_elem?, length, is_some, ◌++◌,
}
use diffusers_dynamic_offloa.Dict.{Dict, get, put, remove, contains}
use diffusers_dynamic_offloa.Outcome.{
  Error, Outcome, Exec, done, raise, runtime_error, key_error, index_error, attribute_error,
  raise_if, or_raise, continue, left_by,
}
use diffusers_dynamic_offloa.ModelArena
use diffusers_dynamic_offloa.ModelArena.{Arena, Native}

-- A submitted upload: still to run, or finished with the exception it raised, if any.
pub data Future : Type 0 where
  submitted : (index : ℕ) → Future
  finished : (error : Option Error) → Future

-- `resources` tells whether the staging pool and the upload stream are there, `executor` whether the
-- prefetch thread is. `detached` are the uploads that the thread has still to run and whose futures nobody
-- holds.
pub record Groups : Type 0 where
  pub names : List String
  pub arena : Option Arena
  pub resources : Bool
  pub executor : Bool
  pub futures : Dict String Future
  pub detached : List ℕ
  pub pending_leases : Dict String (List String)
  pub pending_events : Dict String ℕ
  pub active_leases : Dict String (List String)
  pub events : ℕ

-- Torch's events, of which each is recorded once and then waited for at most once.
pub record Cuda : Type 0 where
  pub records : ℕ → Bool
  pub waits : ℕ → Bool
  pub synchronizes : ℕ → Bool

abbrev pub is_taken : String → Groups → Bool
is_taken name s = contains name s.pending_leases || contains name s.active_leases

abbrev pub with_arena : Arena → Groups → Groups
with_arena arena s = record s { arena = some arena }

-- A call of the arena's, on the arena that the groups hold.
unfoldable pub on_arena : {A : Type 0} → Outcome Arena A → Groups → Outcome Groups A
on_arena (done a arena) s = done a (with_arena arena s)
on_arena (raise e arena) s = raise e (with_arena arena s)

unfoldable pub get_arena : Exec Groups Arena
get_arena s = or_raise s.arena runtime_error s

-- `mark_upload`: an event of its own for the upload.
unfoldable pub mark_pending : String → String → Groups → Groups
mark_pending name lease s = record s {
  pending_leases = put name (lease ∷ []) s.pending_leases;
  pending_events = put name s.events s.pending_events;
  events = s.events + 1;
}

-- What a worker leaves in its future, unless the future was taken meanwhile.
unfoldable pub finish : String → Outcome Groups (Unit {0}) → Groups
finish name (done _ s) = record s { futures = put name (finished none) s.futures }
finish name (raise e s) = record s { futures = put name (finished (some e)) s.futures }

unfoldable pub raise_error : Option Error → Exec Groups (Unit {0})
raise_error none s = done tt s
raise_error (some e) s = raise e s

unfoldable pub activate : Cuda → String → Exec Groups (Unit {0})
activate cuda name s = continue (raise_if (contains name s.active_leases) runtime_error s) λ _ s1.
    continue (or_raise (get name s1.pending_leases) key_error s1) λ leases s2.
      let popped = record s2 { pending_leases = remove name s2.pending_leases } in
      continue (or_raise (get name popped.pending_events) key_error popped) λ event s3.
        let taken = record s3 { pending_events = remove name s3.pending_events } in
        continue (raise_if (if cuda.waits event then false else true) runtime_error taken)
          λ _ s4. done tt (record s4 { active_leases = put name leases s4.active_leases })

-- `event.synchronize()`, where there is an event.
unfoldable pub synchronize_with : Cuda → Option ℕ → Exec Groups (Unit {0})
synchronize_with cuda none s = done tt s
synchronize_with cuda (some event) s =
    raise_if (if cuda.synchronizes event then false else true) runtime_error s

unfoldable pub leases_in : Option (List String) → List String
leases_in none = []
leases_in (some leases) = leases

unfoldable pub leave_each :
    (String → Exec Groups (Unit {0})) → List (String × List String) → Exec Groups (Unit {0})
leave_each leave_one [] s = done tt s
leave_each leave_one ((name, leases) ∷ entries) s =
    continue (leave_one name s) λ _ s1. leave_each leave_one entries s1

unfoldable pub indices : List (String × Future) → List ℕ
indices [] = []
indices ((name, submitted index) ∷ futures) = index ∷ indices futures
indices ((name, finished error) ∷ futures) = indices futures

-- The uploads that are submitted stay the thread's when nobody waits for them any longer.
unfoldable pub or_detach :
    List (String × Future) → Outcome Groups (Unit {0}) → Outcome Groups (Unit {0})
or_detach futures (done _ s) = done tt s
or_detach futures (raise e s) = raise e (record s { detached = s.detached ++ indices futures })

module _ (native : Native) (cuda : Cuda) where
  unfoldable pub upload : String → Exec Groups (Unit {0})
  upload name s = continue (raise_if (if s.resources then false else true) runtime_error s) λ _ s1.
      continue (get_arena s1) λ arena s2.
        continue (on_arena (ModelArena.acquire native name arena) s2) λ lease s3.
          continue (raise_if (if cuda.records s3.events then false else true) runtime_error s3)
            λ _ s4. done tt (mark_pending name lease s4)

  unfoldable pub schedule_named : Option String → Exec Groups (Unit {0})
  schedule_named none s = done tt s
  schedule_named (some name) s = if is_taken name s then done tt s else upload name s

  -- `_schedule_vmm_execution_group`
  unfoldable pub schedule : ℕ → Exec Groups (Unit {0})
  schedule index s = schedule_named (get_elem? s.names index) s

  unfoldable pub submit_named : ℕ → Option String → Exec Groups (Unit {0})
  submit_named index none s = schedule index s
  submit_named index (some name) s =
      if contains name s.futures || is_taken name s
      then done tt s
      else done tt (record s { futures = put name (submitted index) s.futures })

  -- `_submit_vmm_file_prefetch`
  unfoldable pub submit : ℕ → Exec Groups (Unit {0})
  submit index s =
      if s.executor then submit_named index (get_elem? s.names index) s else schedule index s

  unfoldable pub worked : String → Option Future → Groups → Groups
  worked name none s = s
  worked name (some (finished error)) s = s
  worked name (some (submitted index)) s = finish name (schedule index s)

  unfoldable pub run_worker : String → Groups → Groups
  run_worker name s = worked name (get name s.futures) s

  -- `future.result()`, which waits for a worker that has not run.
  unfoldable pub result : Future → Exec Groups (Unit {0})
  result (submitted index) s = schedule index s
  result (finished error) s = raise_error error s

  unfoldable pub await_or_schedule : ℕ → Option Future → Exec Groups (Unit {0})
  await_or_schedule index none s = schedule index s
  await_or_schedule index (some future) s = result future s

  -- `_enter_vmm_execution_group`
  unfoldable pub enter : ℕ → Exec Groups (Unit {0})
  enter index s = continue (or_raise (get_elem? s.names index) index_error s) λ name s1.
      let taken = record s1 { futures = remove name s1.futures } in
      continue (await_or_schedule index (get name s1.futures) taken)
        λ _ s2. continue (activate cuda name s2) λ _ s3. submit (index + 1) s3

  unfoldable pub exit_lease : String → Exec Groups (Unit {0})
  exit_lease lease s =
      continue (get_arena s) λ arena s1. on_arena (ModelArena.release native lease arena) s1

  -- The leases of a group, the last first; a group holds one.
  unfoldable pub exit_leases : List String → Exec Groups (Unit {0})
  exit_leases [] s = done tt s
  exit_leases (lease ∷ leases) s = continue (exit_leases leases s) λ _ s1. exit_lease lease s1

  -- `_leave_vmm_execution_group`
  unfoldable pub leave : String → Exec Groups (Unit {0})
  leave name s =
      exit_leases (leases_in (get name s.active_leases))
        (record s { active_leases = remove name s.active_leases })

  -- `_leave_vmm_pending_group`
  unfoldable pub leave_pending : String → Exec Groups (Unit {0})
  leave_pending name s =
      let taken = record s { pending_events = remove name s.pending_events } in
      continue (synchronize_with cuda (get name s.pending_events) taken) λ _ s1.
        exit_leases (leases_in (get name s1.pending_leases))
          (record s1 { pending_leases = remove name s1.pending_leases })

  -- One of the detached uploads runs; nobody learns whether it raised.
  unfoldable pub worked_detached : List ℕ → Groups → Groups
  worked_detached [] s = s
  worked_detached (index ∷ rest) s = left_by (schedule index (record s { detached = rest }))

  unfoldable pub run_detached : Groups → Groups
  run_detached s = worked_detached s.detached s

  -- `executor.shutdown(wait=True)`: all of them have run.
  unfoldable pub shutdown : List ℕ → Groups → Groups
  shutdown [] s = record s { executor = false; detached = [] }
  shutdown (index ∷ rest) s = shutdown rest (left_by (schedule index s))

  -- Futures of which every one is waited for, in order, up to the first that raises.
  unfoldable pub results : List (String × Future) → Exec Groups (Unit {0})
  results [] s = done tt s
  results ((name, future) ∷ futures) s =
      continue (or_detach futures (result future s)) λ _ s1. results futures s1

  unfoldable pub stop_executor : Exec Groups (Unit {0})
  stop_executor s =
      if s.executor
      then continue (results s.futures (record s { futures = [] }))
          (λ _ s1. done tt (shutdown s1.detached s1))
      else done tt s

  -- `_clear_vmm_execution_groups`; the hooks are torch's.
  unfoldable pub clear : Exec Groups (Unit {0})
  clear s = continue (stop_executor s) λ _ s1.
      continue (leave_each leave s1.active_leases s1) λ _ s2.
        continue (leave_each leave_pending s2.pending_leases s2)
          λ _ s3. done tt (record s3 { names = [] })
