-- ===== src/ExecutionGroups/Keeping.antt =====
-- What every call on execution groups keeps, if the uploads, activations and exits keep it.
use diffusers_dynamic_offloa.Prelude.{
  ℕ, ◌+◌, ◌≡◌, String, string_eq, false, ◌||◌, Option, none, some, List, [], ◌∷◌, get_elem?, ◌++◌,
  if_rule,
}
use diffusers_dynamic_offloa.Dict.{Dict, get, put, remove, contains}
use diffusers_dynamic_offloa.Outcome.{
  index_error, Outcome, done, raise, left_by, left_by-continue, left_by-or_raise, Exec,
}
use diffusers_dynamic_offloa.ModelArena.{Native}
use diffusers_dynamic_offloa.ExecutionGroups.{
  Groups, Cuda, or_detach, indices, worked_detached, run_detached, shutdown, Future, submitted,
  finished, is_taken, upload, schedule_named, schedule, submit_named, submit, finish, worked,
  run_worker, raise_error, result, await_or_schedule, activate, enter, leave, leave_pending,
  results, leave_each, stop_executor, clear,
}

-- Where a call leaves a good state, the state it returns with is good.
pub after :
    (P : Groups → Type 0) {A : Type 0} {o : Outcome Groups A} {a : A} {s : Groups}
    → P (left_by o)
    → o ≡ done a s
    → P s
after P h e = rw e at h

pub data Command : Type 0 where
  schedule_group : (index : ℕ) → Command
  submit_group : (index : ℕ) → Command
  work : (name : String) → Command
  work_detached : Command
  enter_group : (index : ℕ) → Command
  leave_group : (name : String) → Command
  clear_groups : Command

module _ (native : Native) (cuda : Cuda) where
  unfoldable pub step : Command → Groups → Groups
  step (schedule_group index) s = left_by (schedule native cuda index s)
  step (submit_group index) s = left_by (submit native cuda index s)
  step (work name) s = run_worker native cuda name s
  step work_detached s = run_detached native cuda s
  step (enter_group index) s = left_by (enter native cuda index s)
  step (leave_group name) s = left_by (leave native cuda name s)
  step clear_groups s = left_by (clear native cuda s)

  unfoldable pub run : List Command → Groups → Groups
  run [] s = s
  run (command ∷ commands) s = run commands (step command s)

  -- A property of the groups that the basic calls keep, and that neither the futures, nor the executor, nor
  -- the names matter to.
  pub record Keeps (P : Groups → Type 0) : Type 0 where
    pub futures_free :
        (futures : Dict String Future) (s : Groups) → P s → P (record s { futures = futures })
    pub detached_free :
        (detached : List ℕ) (s : Groups) → P s → P (record s { detached = detached })
    pub executor_free : (s : Groups) → P s → P (record s { executor = false; detached = [] })
    pub names_free : (s : Groups) → P s → P (record s { names = [] })
    pub upload_keeps :
        (name : String) (s : Groups)
        → is_taken name s ≡ false
        → P s
        → P (left_by (upload native cuda name s))
    pub activate_keeps : (name : String) (s : Groups) → P s → P (left_by (activate cuda name s))
    pub leave_keeps : (name : String) (s : Groups) → P s → P (left_by (leave native cuda name s))
    pub leave_pending_keeps :
        (name : String) (s : Groups) → P s → P (left_by (leave_pending native cuda name s))

module _ (native : Native) (cuda : Cuda) (P : Groups → Type 0) (k : Keeps native cuda P) where
  leave_each_keeps :
      (leave_one : String → Exec Groups (Unit {0}))
      → ((name : String) (s : Groups) → P s → P (left_by (leave_one name s)))
      → (entries : List (String × List String)) (s : Groups) → P s
      → P (left_by (leave_each leave_one entries s))
  unfolding leave_each
  leave_each_keeps leave_one keeps [] s h = h
  leave_each_keeps leave_one keeps ((name, leases) ∷ entries) s h =
      left_by-continue P (leave_one name s) _ (keeps name s h)
        λ _ s1 e. leave_each_keeps leave_one keeps entries s1 (after P (keeps name s h) e)

  schedule_named_keeps :
      (o : Option String) (s : Groups) → P s → P (left_by (schedule_named native cuda o s))
  unfolding schedule_named
  schedule_named_keeps none s h = h
  schedule_named_keeps (some name) s h =
      if_rule (λ o. P (left_by o)) (is_taken name s) (done tt s) (upload native cuda name s)
        (λ _. h) λ free. k.upload_keeps name s free h

  schedule_keeps : (index : ℕ) (s : Groups) → P s → P (left_by (schedule native cuda index s))
  unfolding schedule
  schedule_keeps index s h = schedule_named_keeps (get_elem? s.names index) s h

  submit_named_keeps :
      (index : ℕ) (o : Option String) (s : Groups)
      → P s
      → P (left_by (submit_named native cuda index o s))
  unfolding submit_named
  submit_named_keeps index none s h = schedule_keeps index s h
  submit_named_keeps index (some name) s h =
      if_rule (λ o. P (left_by o)) (contains name s.futures || is_taken name s) (done tt s)
        (done tt (record s { futures = put name (submitted index) s.futures })) (λ _. h)
        (λ _. k.futures_free (put name (submitted index) s.futures) s h)

  submit_keeps : (index : ℕ) (s : Groups) → P s → P (left_by (submit native cuda index s))
  unfolding submit
  submit_keeps index s h =
      if_rule (λ o. P (left_by o)) s.executor
        (submit_named native cuda index (get_elem? s.names index) s) (schedule native cuda index s)
        (λ _. submit_named_keeps index (get_elem? s.names index) s h)
        (λ _. schedule_keeps index s h)

  finish_keeps : (name : String) (o : Outcome Groups (Unit {0})) → P (left_by o) → P (finish name o)
  unfolding finish
  finish_keeps name (done _ s) h = k.futures_free (put name (finished none) s.futures) s h
  finish_keeps name (raise e s) h = k.futures_free (put name (finished (some e)) s.futures) s h

  worked_keeps :
      (name : String) (o : Option Future) (s : Groups) → P s → P (worked native cuda name o s)
  unfolding worked
  worked_keeps name none s h = h
  worked_keeps name (some (finished error)) s h = h
  worked_keeps name (some (submitted index)) s h =
      finish_keeps name (schedule native cuda index s) (schedule_keeps index s h)

  run_worker_keeps : (name : String) (s : Groups) → P s → P (run_worker native cuda name s)
  unfolding run_worker
  run_worker_keeps name s h = worked_keeps name (get name s.futures) s h

  result_keeps : (future : Future) (s : Groups) → P s → P (left_by (result native cuda future s))
  unfolding result raise_error
  result_keeps (submitted index) s h = schedule_keeps index s h
  result_keeps (finished none) s h = h
  result_keeps (finished (some e)) s h = h

  await_keeps :
      (index : ℕ) (o : Option Future) (s : Groups)
      → P s
      → P (left_by (await_or_schedule native cuda index o s))
  unfolding await_or_schedule
  await_keeps index none s h = schedule_keeps index s h
  await_keeps index (some future) s h = result_keeps future s h

  enter_keeps : (index : ℕ) (s : Groups) → P s → P (left_by (enter native cuda index s))
  unfolding enter
  enter_keeps index s h =
      left_by-or_raise P (get_elem? s.names index) index_error s _ h λ name found.
        let taken : Groups = record s { futures = remove name s.futures } in
        left_by-continue P (await_or_schedule native cuda index (get name s.futures) taken) _
          (await_keeps index (get name s.futures) taken
            (k.futures_free (remove name s.futures) s h))
          λ _ s2 waited.
            let h2 =
              after P
                (await_keeps index (get name s.futures) taken
                  (k.futures_free (remove name s.futures) s h))
                waited in
            left_by-continue P (activate cuda name s2) _ (k.activate_keeps name s2 h2)
              λ _ s3 entered.
                submit_keeps (index + 1) s3 (after P (k.activate_keeps name s2 h2) entered)

  or_detach_keeps :
      (futures : List (String × Future)) (o : Outcome Groups (Unit {0}))
      → P (left_by o)
      → P (left_by (or_detach futures o))
  unfolding or_detach
  or_detach_keeps futures (done _ s) h = h
  or_detach_keeps futures (raise e s) h = k.detached_free (s.detached ++ indices futures) s h

  worked_detached_keeps :
      (waiting : List ℕ) (s : Groups) → P s → P (worked_detached native cuda waiting s)
  unfolding worked_detached
  worked_detached_keeps [] s h = h
  worked_detached_keeps (index ∷ rest) s h =
      schedule_keeps index (record s { detached = rest }) (k.detached_free rest s h)

  run_detached_keeps : (s : Groups) → P s → P (run_detached native cuda s)
  unfolding run_detached
  run_detached_keeps s h = worked_detached_keeps s.detached s h

  shutdown_keeps : (waiting : List ℕ) (s : Groups) → P s → P (shutdown native cuda waiting s)
  unfolding shutdown
  shutdown_keeps [] s h = k.executor_free s h
  shutdown_keeps (index ∷ rest) s h =
      shutdown_keeps rest (left_by (schedule native cuda index s)) (schedule_keeps index s h)

  results_keeps :
      (futures : List (String × Future)) (s : Groups)
      → P s
      → P (left_by (results native cuda futures s))
  unfolding results
  results_keeps [] s h = h
  results_keeps ((name, future) ∷ futures) s h =
      let first = or_detach_keeps futures (result native cuda future s) (result_keeps future s h) in
      left_by-continue P (or_detach futures (result native cuda future s)) _ first
        λ _ s1 e. results_keeps futures s1 (after P first e)

  pub stop_executor_keeps : (s : Groups) → P s → P (left_by (stop_executor native cuda s))
  unfolding stop_executor
  stop_executor_keeps s h =
      if_rule (λ o. P (left_by o)) s.executor _ (done tt s)
        (λ _.
          let waited =
            results_keeps s.futures (record s { futures = [] }) (k.futures_free [] s h) in
          left_by-continue P (results native cuda s.futures (record s { futures = [] })) _ waited
            λ _ s1 e. shutdown_keeps s1.detached s1 (after P waited e))
        (λ _. h)

  pub clear_keeps : (s : Groups) → P s → P (left_by (clear native cuda s))
  unfolding clear
  clear_keeps s h =
      let stopped = stop_executor_keeps s h in
      left_by-continue P (stop_executor native cuda s) _ stopped λ _ s1 e1.
        let left =
          leave_each_keeps (leave native cuda) k.leave_keeps s1.active_leases s1
            (after P stopped e1) in
        left_by-continue P (leave_each (leave native cuda) s1.active_leases s1) _ left λ _ s2 e2.
          let pending =
            leave_each_keeps (leave_pending native cuda) k.leave_pending_keeps s2.pending_leases s2
              (after P left e2) in
          left_by-continue P (leave_each (leave_pending native cuda) s2.pending_leases s2) _ pending
            λ _ s3 e3. k.names_free s3 (after P pending e3)

  step_keeps : (command : Command) (s : Groups) → P s → P (step native cuda command s)
  unfolding step
  step_keeps (schedule_group index) s h = schedule_keeps index s h
  step_keeps (submit_group index) s h = submit_keeps index s h
  step_keeps (work name) s h = run_worker_keeps name s h
  step_keeps work_detached s h = run_detached_keeps s h
  step_keeps (enter_group index) s h = enter_keeps index s h
  step_keeps (leave_group name) s h = k.leave_keeps name s h
  step_keeps clear_groups s h = clear_keeps s h

  pub run_keeps : (commands : List Command) (s : Groups) → P s → P (run native cuda commands s)
  unfolding run
  run_keeps [] s h = h
  run_keeps (command ∷ commands) s h =
      run_keeps commands (step native cuda command s) (step_keeps command s h)
