-- ===== src/Core/Subscription/Queue.antt =====
-- What `_queue_job` leaves behind.
use getupnet.Prelude.{ℕ, ◌≡◌, none, some, [], ◌∷◌, ◌++◌, String, ◌⧺◌, or_text, ◌+◌, arith}
use getupnet.Prelude.Effects.{ok}
use getupnet.Prelude.Rows.{browse, browse_fresh, ids}
use getupnet.Database.{Database}
use getupnet.Database.Core.{Subscription, Job, JobType, JobState, Payload}
use getupnet.Platform.{Platform}
use getupnet.Core.Audit.{log_action}
use getupnet.Core.Subscription.{queue_job, read, create_job, job_name, next_name, job_type_key}

module _ ⦃platform : Platform⦄ where
  -- The job that `_queue_job` makes for a subscription.
  abbrev pub queued_job : JobType → ℕ → Subscription → String → Job
  queued_job job_type i rec name = record {
    name = name;
    job_type = job_type;
    subscription_id = some i;
    device_id = none;
    sector_id = some rec.sector_id;
    state = JobState.queued;
    attempts = 0;
    max_attempts = 3;
    error_message = none;
    executed_at = none;
    payload_json = Payload.nothing;
  }

  abbrev pub job_title : Database → String
  job_title db = or_text (platform.next_by_code "isp.provisioning.job" db.sequence_calls) "JOB"

  -- The state after `_queue_job`: one more job, one more audit entry, one more use of the sequence.
  abbrev pub with_job : JobType → ℕ → Subscription → Database → Database
  with_job job_type i rec db = record db {
    sequence_calls = db.sequence_calls + 1;
    jobs =
        db.jobs ++ (platform.new_id (ids db.jobs), queued_job job_type i rec (job_title db)) ∷ [];
    audit_log =
        db.audit_log
        ++ record {
          action = job_type_key job_type;
          record_model = "isp.subscription";
          record_id = i;
          user_id = db.user;
          timestamp = db.now;
          details = "Queued job " ⧺ job_title db;
        }
          ∷ [];
  }

  -- For a line that is there, queueing a job of any type goes through and gives the id of the new job.
  -- The job stands at the end of the queue, for the line and its sector, queued and without attempts;
  -- one entry in the log tells of it, and the sequence of names was used once. Nothing else changes.
  pub queue_job_lem :
      (job_type : JobType) (i : ℕ) {rec : Subscription} (db : Database)
      → browse i db.subscriptions ≡ some rec
      → queue_job job_type i db ≡ (ok (platform.new_id (ids db.jobs)), with_job job_type i rec db)
  unfolding queue_job read create_job job_name next_name log_action
  queue_job_lem job_type i {rec} db found =
      let new = platform.new_id (ids db.jobs) in
      let fresh =
        browse_fresh new (queued_job job_type i rec (job_title db)) db.jobs
          (platform.new_id_fresh (ids db.jobs)) in
      ground (arith, found, fresh)
