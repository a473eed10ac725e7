-- ===== src/Core/Job/Outcome.antt =====
-- What one run of `_execute` does to the table of jobs, for any handlers that leave the table alone.
use getupnet.Prelude.{ℕ, ◌+◌, ◌≡◌, ◌≢◌, false, none, some, List, ◌∷◌, leb, if◌then◌else◌, arith}
use getupnet.Prelude.Effects.{Action, Result, ok, err, Exception, message, for_each}
use getupnet.Prelude.Rows.{browse, assign, browse-assign}
use getupnet.Database.{Database}
use getupnet.Database.Core.{Job, JobState}
use getupnet.Platform.{Platform}
use getupnet.Core.Job.{read, write, is_queued, attempt, run, execute, cron_run_pending_jobs}

-- The row of a job that runs: one attempt more, at this time, and no message.
abbrev pub begun : ℕ → Job → Job
begun now job = record job {
  state = JobState.running;
  attempts = job.attempts + 1;
  executed_at = some now;
  error_message = none;
}

-- The row that a run leaves, by how the handler ended.
abbrev pub ended : Result (Unit {0}) → Job → Job
ended (ok _) job = record job { state = JobState.success }
ended (err e) job = record job { state = JobState.failed; error_message = some (message e) }

-- The row of a job whose attempts are used up.
abbrev pub exhausted : Job → Job
exhausted job = record job { state = JobState.failed; error_message = some "Max attempts reached" }

-- The state that a handler is called in.
abbrev pub started : ℕ → Database → Database
started i db = record db { jobs = assign i (begun db.now) db.jobs }

abbrev pub KeepsJobs : (ℕ → Action Database (Unit {0})) → Type 0
KeepsJobs dispatch = (i : ℕ) (db : Database) → (dispatch i db).1.jobs ≡ db.jobs

module _ (dispatch : ℕ → Action Database (Unit {0})) where
  -- What `_execute` does with the row of the job, by the row and by how the handler ends.
  abbrev pub outcome : ℕ → Database → Job → Job
  outcome i db job =
      if is_queued job.state
      then (if leb job.max_attempts job.attempts
          then exhausted job
          else ended (dispatch i (started i db)).0 (begun db.now job))
      else job

  -- The exception of the handler comes back where the handler was called, and nowhere else.
  abbrev pub answer : ℕ → Database → Job → Result (Unit {0})
  answer i db job =
      if is_queued job.state
      then (if leb job.max_attempts job.attempts then ok tt else (dispatch i (started i db)).0)
      else ok tt

module _ (dispatch : ℕ → Action Database (Unit {0})) (keeps : KeepsJobs dispatch) where
  pub attempt_lem :
      (i : ℕ) (db : Database)
      → ((attempt dispatch i db).0 ≡ (dispatch i db).0)
        × ((attempt dispatch i db).1.jobs ≡ assign i (ended (dispatch i db).0) db.jobs)
  unfolding attempt write
  attempt_lem i db = ground (arith, keeps i db)

  -- Whatever the job is and however its handler ends, only its own row changes.
  pub execute_others :
      (i j : ℕ) (db : Database) → j ≢ i → browse j (execute dispatch i db).1.jobs ≡ browse j db.jobs
  unfolding execute read write run attempt
  execute_others i j db ne = ground (
    arith,
    keeps i (started i db),
    browse-assign i j (begun db.now) db.jobs,
    browse-assign i j exhausted db.jobs,
    browse-assign i j (ended (dispatch i (started i db)).0) (started i db).jobs,
  )

  pub execute_lem :
      (i : ℕ) (db : Database) {job : Job}
      → browse i db.jobs ≡ some job
      → ((execute dispatch i db).0 ≡ answer dispatch i db job)
        × (browse i (execute dispatch i db).1.jobs ≡ some (outcome dispatch i db job))
  unfolding execute read write run attempt
  execute_lem i db {job} found = (
    ground (arith, found),
    ground (
      arith,
      found,
      keeps i (started i db),
      browse-assign i i (begun db.now) db.jobs,
      browse-assign i i exhausted db.jobs,
      browse-assign i i (ended (dispatch i (started i db)).0) (started i db).jobs,
    ),
  )

  -- A job that is not queued is left alone, and so is all else.
  pub execute_idle :
      (i : ℕ) (db : Database) {job : Job}
      → browse i db.jobs ≡ some job
      → is_queued job.state ≡ false
      → execute dispatch i db ≡ (ok tt, db)
  unfolding execute read write run attempt
  execute_idle i db found done = ground (arith, found)

  pub execute_missing :
      (i : ℕ) (db : Database) → browse i db.jobs ≡ none → (execute dispatch i db).1 ≡ db
  unfolding execute read write run attempt
  execute_missing i db gone = ground (arith, gone)

-- A first pending job that raises is the end of the cron job.
pub cron-first_fails :
    ⦃platform : Platform⦄ (dispatch : ℕ → Action Database (Unit {0})) (db : Database) {i : ℕ}
    {rest : List ℕ} {e : Exception}
    → platform.search Job (λ _ job. is_queued job.state) db.jobs ≡ i ∷ rest
    → (execute dispatch i db).0 ≡ err e
    → (cron_run_pending_jobs dispatch db).0 ≡ err e
unfolding cron_run_pending_jobs for_each
cron-first_fails dispatch db first fails = ground (arith, first, fails)
