-- ===== src/Core/Job.antt =====
-- addons/isp_core/models/provisioning_job.py. The handlers, which other addons add to the class,
-- are the parameter `dispatch`; Provisioning.antt puts them in.
pub mod Outcome
pub mod Drained
use getupnet.Prelude.{
  ℕ, ◌+◌, Bool, true, false, Option, none, some, List, String, leb, take, if◌then◌else◌,
}
use getupnet.Prelude.Effects.{
  Action, message, missing_error, skip, gets, modify, raise, or_raise, try_except, for_each, ◌>>=◌,
  ◌>>◌,
}
use getupnet.Prelude.Rows.{browse, assign}
use getupnet.Database.{Database}
use getupnet.Database.Core.{Job, JobState}
use getupnet.Platform.{Platform}

unfoldable pub read : ℕ → Action Database Job
read i db = or_raise (browse i db.jobs) (missing_error "isp.provisioning_job") db

unfoldable pub write : ℕ → (Job → Job) → Action Database (Unit {0})
write i f = modify λ db. record db { jobs = assign i f db.jobs }

-- `self.state == "queued"`
abbrev pub is_queued : JobState → Bool
is_queued JobState.queued = true
is_queued _ = false

-- The fields that each `self.write` of `_execute` sets.
abbrev pub give_up : Job → Job
give_up job = record job { state = JobState.failed; error_message = some "Max attempts reached" }

abbrev pub start : ℕ → Job → Job
start now job = record job {
  state = JobState.running;
  attempts = job.attempts + 1;
  executed_at = some now;
  error_message = none;
}

abbrev pub succeed : Job → Job
succeed job = record job { state = JobState.success }

abbrev pub fail : String → Job → Job
fail text job = record job { state = JobState.failed; error_message = some text }

module _ (dispatch : ℕ → Action Database (Unit {0})) where
  -- The `try` statement of `_execute`.
  unfoldable pub attempt : ℕ → Action Database (Unit {0})
  attempt i =
      try_except (do dispatch i; write i succeed)
        (λ exc. do write i (fail (message exc)); raise exc)

  unfoldable pub run : ℕ → Action Database (Unit {0})
  run i = do now ← gets (λ db. db.now); write i (start now); attempt i

  unfoldable pub execute : ℕ → Action Database (Unit {0})
  execute i = do
    job ← read i
    if is_queued job.state
        then (if leb job.max_attempts job.attempts then write i give_up else run i)
        else skip

  unfoldable pub action_run : List ℕ → Action Database (Unit {0})
  action_run self = for_each self execute

  module _ ⦃platform : Platform⦄ where
    unfoldable pub cron_run_pending_jobs : Action Database (Unit {0})
    cron_run_pending_jobs = do
      jobs ← gets (λ db. take 20 (platform.search Job (λ _ job. is_queued job.state) db.jobs))
      for_each jobs execute
