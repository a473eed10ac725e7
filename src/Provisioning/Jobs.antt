-- ===== src/Provisioning/Jobs.antt =====
-- The life of a provisioning job with every addon installed.
use native.Mathlib.Decide.{ℕ_discrete}
use getupnet.Prelude.{ℕ, ◌≡◌, some, List, ◌∷◌, take, All, ◌==◌, ◌∙◌, if◌then◌else◌, arith}
use getupnet.Prelude.Effects.{Exception, ok, err}
use getupnet.Prelude.Rows.{browse}
use getupnet.Database.{Database}
use getupnet.Database.Core.{Job}
use getupnet.Platform.{Platform, Transaction}
use getupnet.Core.Job.{is_queued}
use getupnet.Core.Job.Outcome.{
  KeepsJobs, outcome, answer, execute_lem, execute_others, cron-first_fails,
}
use getupnet.Core.Job.Drained.{AllRest, EndedAt, cron-EndedAt}
use getupnet.Provisioning.{dispatch, execute, cron_run_pending_jobs}
use getupnet.Provisioning.Handlers.{dispatch-Keeps}

module _ ⦃platform : Platform⦄ where
  dispatch-KeepsJobs : KeepsJobs dispatch
  dispatch-KeepsJobs i = (dispatch-Keeps i).at

  -- For a job that is in the table, `_execute` gives its row the state by its branch: untouched if
  -- it was not queued, failed with the fixed message if its attempts are used up, and otherwise one
  -- attempt more and success or failure, with the exception's text, as the handler ended. The
  -- exception of the handler is raised again, and no other row of the table changes.
  pub execute-outcome :
      (i j : ℕ) (db : Database) {job : Job}
      → browse i db.jobs ≡ some job
      → ((execute i db).0 ≡ answer dispatch i db job)
        × (browse j (execute i db).1.jobs
            ≡ (if j == i then some (outcome dispatch i db job) else browse j db.jobs))
  unfolding execute
  execute-outcome i j db found =
      let (back, row) = execute_lem dispatch dispatch-KeepsJobs i db found in
      elim (ℕ_discrete j i) [
        | yes same ↦ (back, rw same (row ∙ ground arith))
        | no ne ↦ (back, execute_others dispatch dispatch-KeepsJobs i j db ne ∙ ground arith)
      ]

  -- The queue as the cron job takes it up.
  abbrev pub pending : Database → List ℕ
  pending db = platform.search Job (λ _ job. is_queued job.state) db.jobs

  -- Where no job is running and a run of the cron job goes through, every job that it took up, which
  -- are the first twenty pending ones, has ended afterwards: none is left queued or running.
  pub cron_run-drains :
      (db : Database)
      → AllRest db
      → (cron_run_pending_jobs db).0 ≡ ok tt
      → All (λ i. EndedAt i (cron_run_pending_jobs db).1) (take 20 (pending db))
  unfolding cron_run_pending_jobs
  cron_run-drains db = cron-EndedAt dispatch dispatch-KeepsJobs db

  -- Where the cron job runs in a transaction, a first pending job that raises undoes all of the run:
  -- the database is the one before, so no job at all has left the queue.
  pub cron_run-rolled_back :
      (t : Transaction) (db : Database) (i : ℕ) (rest : List ℕ) {e : Exception}
      → pending db ≡ i ∷ rest
      → (execute i db).0 ≡ err e
      → (t.run cron_run_pending_jobs db).1 ≡ db
  unfolding cron_run_pending_jobs execute
  cron_run-rolled_back t db i rest first fails =
      t.rolls_back cron_run_pending_jobs db (cron-first_fails dispatch db first fails)
