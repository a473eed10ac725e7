-- ===== src/Tests/Core.antt =====
-- The theorems on the core and on provisioning, at the sample database.
use getupnet.Prelude.{◌≡◌, refl, some, [], ◌∷◌, arith, All, take}
use getupnet.Prelude.Effects.{ok, err, user_error, validation_error, for_each}
use getupnet.Prelude.Frame.{Keeps}
use getupnet.Prelude.Rows.{browse, assign, matching}
use getupnet.Database.{Database}
use getupnet.Database.Core.{AuthMethod, DhcpMode}
use getupnet.Samples.{savepoint, office, db, pppoe_line, blank_line, basic_plan, queued_job}
use getupnet.Core.Job
use getupnet.Core.Job.{attempt, run, is_queued}
use getupnet.Core.Job.Outcome.{answer, outcome}
use getupnet.Core.Job.Drained.{AllRest, EndedAt}
use getupnet.Core.Subscription
use getupnet.Core.Subscription.{
  ensure_pppoe_credentials, queue_job, update, check_pppoe_credentials, check_dhcp_static_ip,
  check_unique_static_ip, lacks_credentials,
}
use getupnet.Core.Subscription.Credentials.{ensure-completed, ensure-blank_raises, completed}
use getupnet.Core.Subscription.Forms.{write_access}
use getupnet.Core.Subscription.Address.{UniqueAddresses, write_access-UniqueAddresses}
use getupnet.Provisioning.{dispatch, execute, cron_run_pending_jobs, handler}
use getupnet.Provisioning.Handlers.{dispatch-Keeps}
use getupnet.Provisioning.Jobs.{execute-outcome, cron_run-drains, cron_run-rolled_back, pending}

execute-outcome_example :
    ((execute 1 db).0 ≡ answer dispatch 1 db queued_job)
    × (browse 1 (execute 1 db).1.jobs ≡ some (outcome dispatch 1 db queued_job))
unfolding browse
execute-outcome_example = execute-outcome 1 1 db {job = queued_job} refl

-- The job has used up its attempts.
abbrev db_tried : Database
db_tried = record db { jobs = (1, record queued_job { attempts = 3 }) ∷ [] }

tried-AllRest : AllRest db_tried
unfolding browse
tried-AllRest i job found = ground (arith, found)

tried-goes : (cron_run_pending_jobs db_tried).0 ≡ ok tt
unfolding cron_run_pending_jobs Job.cron_run_pending_jobs for_each Job.execute Job.read Job.write
    browse assign matching
tried-goes = refl

cron_run-drains_example :
    All (λ i. EndedAt i (cron_run_pending_jobs db_tried).1) (take 20 (pending db_tried))
cron_run-drains_example = cron_run-drains db_tried tried-AllRest tried-goes

execute-raises :
    (execute 1 db).0 ≡ err (user_error "No handler for job type: export_config_snapshot")
unfolding execute Job.execute Job.read Job.write run attempt dispatch handler browse assign
execute-raises = refl

pending-one : pending db ≡ 1 ∷ []
unfolding matching
pending-one = refl

cron_run-rolled_back_example : (savepoint.run cron_run_pending_jobs db).1 ≡ db
cron_run-rolled_back_example = cron_run-rolled_back savepoint db 1 [] pending-one execute-raises

dispatch-Keeps_example : Keeps (λ (d : Database). d.jobs) (dispatch 1)
dispatch-Keeps_example = dispatch-Keeps 1

ensure-completed_example :
    ((ensure_pppoe_credentials 1 db).0 ≡ ok tt)
    × (browse 1 (ensure_pppoe_credentials 1 db).1.subscriptions
        ≡ some (completed basic_plan db pppoe_line))
unfolding browse
ensure-completed_example =
    ensure-completed 1 db {rec = pppoe_line} {plan = basic_plan} refl refl refl refl refl

ensure-blank_raises_example :
    (ensure_pppoe_credentials 2 db).0
    ≡ err (validation_error "PPPoE username and password are required.")
unfolding browse
ensure-blank_raises_example = ensure-blank_raises 2 db {rec = blank_line} refl refl refl refl

sample_lines-distinct : UniqueAddresses db
unfolding browse
sample_lines-distinct i j a b at_i at_j ne sa sb has same = ground arith

access-saved : (write_access 3 AuthMethod.dhcp DhcpMode.static (some "10.0.0.9") db).0 ≡ ok tt
unfolding write_access Subscription.read update check_pppoe_credentials check_dhcp_static_ip
    check_unique_static_ip lacks_credentials browse assign matching
access-saved = refl

write_access-UniqueAddresses_example :
    UniqueAddresses (write_access 3 AuthMethod.dhcp DhcpMode.static (some "10.0.0.9") db).1
write_access-UniqueAddresses_example =
    write_access-UniqueAddresses 3 AuthMethod.dhcp DhcpMode.static (some "10.0.0.9") db
      (λ sector. refl) sample_lines-distinct access-saved
