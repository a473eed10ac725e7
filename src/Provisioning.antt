-- ===== src/Provisioning.antt =====
-- The class isp.provisioning_job as it stands with all addons installed: `_dispatch` of isp_core
-- finds the handlers of isp_mikrotik and isp_captive_portal by the name of the job type.
pub mod Frame
pub mod Handlers
pub mod Jobs
use getupnet.Prelude.{ℕ, List, ◌⧺◌}
use getupnet.Prelude.Effects.{Action, user_error, raise, ◌>>=◌}
use getupnet.Database.{Database}
use getupnet.Database.Core.{Job, JobType}
use getupnet.Platform.{Platform}
use getupnet.Core.Job
use getupnet.Core.Subscription.{job_type_key}
use getupnet.Mikrotik.Handlers.{
  handle_mikrotik_healthcheck, handle_activate_subscription, handle_suspend_subscription,
  handle_reconnect_subscription, handle_terminate_subscription, handle_change_plan,
  handle_disconnect_session, handle_activate_pppoe, handle_activate_dhcp, handle_ensure_queue,
}
use getupnet.Captive.{
  handle_captive_user_create, handle_captive_user_disable, handle_walled_garden_apply,
}

module _ ⦃platform : Platform⦄ where
  unfoldable pub handler : JobType → Job → Action Database (Unit {0})
  handler JobType.activate_subscription = handle_activate_subscription
  handler JobType.suspend_subscription = handle_suspend_subscription
  handler JobType.reconnect_subscription = handle_reconnect_subscription
  handler JobType.terminate_subscription = handle_terminate_subscription
  handler JobType.change_plan = handle_change_plan
  handler JobType.disconnect_session = handle_disconnect_session
  handler JobType.mikrotik_healthcheck = handle_mikrotik_healthcheck
  handler JobType.captive_user_create = handle_captive_user_create
  handler JobType.captive_user_disable = handle_captive_user_disable
  handler JobType.walled_garden_apply = handle_walled_garden_apply
  handler JobType.export_config_snapshot = λ job.
      raise (user_error ("No handler for job type: " ⧺ job_type_key JobType.export_config_snapshot))
  handler JobType.activate_pppoe = handle_activate_pppoe
  handler JobType.activate_dhcp = handle_activate_dhcp
  handler JobType.ensure_queue = handle_ensure_queue

  unfoldable pub dispatch : ℕ → Action Database (Unit {0})
  dispatch i = do job ← Job.read i; handler job.job_type job

  unfoldable pub execute : ℕ → Action Database (Unit {0})
  execute = Job.execute dispatch

  unfoldable pub cron_run_pending_jobs : Action Database (Unit {0})
  cron_run_pending_jobs = Job.cron_run_pending_jobs dispatch
