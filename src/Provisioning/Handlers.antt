-- ===== src/Provisioning/Handlers.antt =====
-- The frame of the router client and of each handler.
use getupnet.Prelude.{ℕ, refl, Option, String, arith}
use getupnet.Prelude.Frame.{Keeps, Keeps-read, Keeps-bind, frame_rules}
use getupnet.Database.Core.{Job, JobType, Subscription, ServicePlan}
use getupnet.Database.Network.{Command, Attributes}
use getupnet.Platform.{Platform}
use getupnet.Core.Job
use getupnet.Provisioning.{handler, dispatch}
use getupnet.Provisioning.Frame.{
  jobs_of, row_rules, set_state-Keeps, set_active_since-Keeps, required-Keeps,
  ensure_pppoe_credentials-Keeps,
}
use getupnet.Mikrotik.Client.{
  Client, dummy, adapter, open_connection, get_connection_info, make_adapter, get_routeros_client,
  cmd,
}
use getupnet.Mikrotik.Commands.{
  send, pppoe_ensure_secret, pppoe_disable, pppoe_enable, dhcp_ensure_lease, queue_ensure,
  queue_disable, queue_remove,
}
use getupnet.Mikrotik.Handlers.{
  get_router, connect_router, probe, handle_mikrotik_healthcheck, handle_activate_subscription,
  handle_suspend_subscription, handle_reconnect_subscription, handle_terminate_subscription,
  handle_change_plan, handle_disconnect_session, handle_activate_pppoe, handle_activate_dhcp,
  handle_ensure_queue,
}
use getupnet.Captive.{
  get_router_for_captive, handle_captive_user_create, handle_captive_user_disable,
  handle_walled_garden_apply,
}

module _ ⦃platform : Platform⦄ where
  open_connection-Keeps : (i : ℕ) → Keeps jobs_of (open_connection i)
  unfolding open_connection
  open_connection-Keeps i = record { at = λ db. ground arith }

  get_connection_info-Keeps : (i : ℕ) → Keeps jobs_of (get_connection_info i)
  unfolding get_connection_info
  get_connection_info-Keeps i = search row_rules

  make_adapter-Keeps : (i : ℕ) → Keeps jobs_of (make_adapter i)
  unfolding make_adapter
  make_adapter-Keeps i =
      search (row_rules, open_connection-Keeps, get_connection_info-Keeps) depth 8

  get_routeros_client-Keeps : (i : ℕ) → Keeps jobs_of (get_routeros_client i)
  unfolding get_routeros_client
  get_routeros_client-Keeps i = search (row_rules, make_adapter-Keeps)

  cmd-Keeps : (client : Client) (command : Command) → Keeps jobs_of (cmd client command)
  unfolding cmd
  cmd-Keeps (dummy i) command = search row_rules
  cmd-Keeps (adapter i) command = record { at = λ db. refl }

  send-Keeps :
      (client : Client) (path : String) (attributes : Attributes)
      → Keeps jobs_of (send client path attributes)
  unfolding send
  send-Keeps client path attributes = search (row_rules, cmd-Keeps)

  ruleset send_rules = (row_rules, send-Keeps)

  pppoe_ensure_secret-Keeps :
      (client : Client) (sub : Subscription) (plan : ServicePlan)
      → Keeps jobs_of (pppoe_ensure_secret client sub plan)
  unfolding pppoe_ensure_secret
  pppoe_ensure_secret-Keeps client sub plan = search send_rules

  pppoe_disable-Keeps :
      (client : Client) (sub : Subscription) → Keeps jobs_of (pppoe_disable client sub)
  unfolding pppoe_disable
  pppoe_disable-Keeps client sub = search send_rules

  pppoe_enable-Keeps :
      (client : Client) (sub : Subscription) → Keeps jobs_of (pppoe_enable client sub)
  unfolding pppoe_enable
  pppoe_enable-Keeps client sub = search send_rules

  dhcp_ensure_lease-Keeps :
      (client : Client) (sub : Subscription) → Keeps jobs_of (dhcp_ensure_lease client sub)
  unfolding dhcp_ensure_lease
  dhcp_ensure_lease-Keeps client sub = search send_rules

  queue_ensure-Keeps :
      (client : Client) (sub : Subscription) (plan : ServicePlan)
      → Keeps jobs_of (queue_ensure client sub plan)
  unfolding queue_ensure
  queue_ensure-Keeps client sub plan = search send_rules

  queue_disable-Keeps :
      (client : Client) (sub : Subscription) → Keeps jobs_of (queue_disable client sub)
  unfolding queue_disable
  queue_disable-Keeps client sub = search send_rules

  queue_remove-Keeps :
      (client : Client) (sub : Subscription) → Keeps jobs_of (queue_remove client sub)
  unfolding queue_remove
  queue_remove-Keeps client sub = search send_rules

  get_router-Keeps : (job : Job) → Keeps jobs_of (get_router job)
  unfolding get_router
  get_router-Keeps job = Keeps-read _ _

  connect_router-Keeps : (job : Job) → Keeps jobs_of (connect_router job)
  unfolding connect_router
  connect_router-Keeps job = search (row_rules, get_router-Keeps, get_routeros_client-Keeps)

  get_router_for_captive-Keeps : (i : Option ℕ) → Keeps jobs_of (get_router_for_captive i)
  unfolding get_router_for_captive
  get_router_for_captive-Keeps i = Keeps-read _ _

  ruleset step_rules = (
    row_rules, required-Keeps, connect_router-Keeps, get_router-Keeps, get_routeros_client-Keeps,
    get_router_for_captive-Keeps, set_state-Keeps, set_active_since-Keeps,
    ensure_pppoe_credentials-Keeps, cmd-Keeps, send-Keeps, pppoe_ensure_secret-Keeps,
    pppoe_disable-Keeps, pppoe_enable-Keeps, dhcp_ensure_lease-Keeps, queue_ensure-Keeps,
    queue_disable-Keeps, queue_remove-Keeps,
  )

  probe-Keeps : (i : ℕ) (client : Client) → Keeps jobs_of (probe i client)
  unfolding probe
  probe-Keeps i client = search step_rules depth 12

  healthcheck-Keeps : (job : Job) → Keeps jobs_of (handle_mikrotik_healthcheck job)
  unfolding handle_mikrotik_healthcheck
  healthcheck-Keeps job = search (step_rules, probe-Keeps) depth 12

  activate-Keeps : (job : Job) → Keeps jobs_of (handle_activate_subscription job)
  unfolding handle_activate_subscription
  activate-Keeps job = search step_rules depth 14

  suspend-Keeps : (job : Job) → Keeps jobs_of (handle_suspend_subscription job)
  unfolding handle_suspend_subscription
  suspend-Keeps job = search step_rules depth 14

  reconnect-Keeps : (job : Job) → Keeps jobs_of (handle_reconnect_subscription job)
  unfolding handle_reconnect_subscription
  reconnect-Keeps job = search step_rules depth 14

  terminate-Keeps : (job : Job) → Keeps jobs_of (handle_terminate_subscription job)
  unfolding handle_terminate_subscription
  terminate-Keeps job = search step_rules depth 14

  change_plan-Keeps : (job : Job) → Keeps jobs_of (handle_change_plan job)
  unfolding handle_change_plan
  change_plan-Keeps job = search step_rules depth 14

  disconnect_session-Keeps : (job : Job) → Keeps jobs_of (handle_disconnect_session job)
  unfolding handle_disconnect_session
  disconnect_session-Keeps job = search step_rules depth 14

  activate_pppoe-Keeps : (job : Job) → Keeps jobs_of (handle_activate_pppoe job)
  unfolding handle_activate_pppoe
  activate_pppoe-Keeps job = search step_rules depth 14

  activate_dhcp-Keeps : (job : Job) → Keeps jobs_of (handle_activate_dhcp job)
  unfolding handle_activate_dhcp
  activate_dhcp-Keeps job = search step_rules depth 14

  ensure_queue-Keeps : (job : Job) → Keeps jobs_of (handle_ensure_queue job)
  unfolding handle_ensure_queue
  ensure_queue-Keeps job = search step_rules depth 14

  captive_create-Keeps : (job : Job) → Keeps jobs_of (handle_captive_user_create job)
  unfolding handle_captive_user_create
  captive_create-Keeps job = search step_rules depth 14

  captive_disable-Keeps : (job : Job) → Keeps jobs_of (handle_captive_user_disable job)
  unfolding handle_captive_user_disable
  captive_disable-Keeps job = search step_rules depth 14

  walled_garden-Keeps : (job : Job) → Keeps jobs_of (handle_walled_garden_apply job)
  unfolding handle_walled_garden_apply
  walled_garden-Keeps job = search step_rules depth 14

  pub handler-Keeps : (job_type : JobType) (job : Job) → Keeps jobs_of (handler job_type job)
  unfolding handler
  handler-Keeps JobType.activate_subscription job = activate-Keeps job
  handler-Keeps JobType.suspend_subscription job = suspend-Keeps job
  handler-Keeps JobType.reconnect_subscription job = reconnect-Keeps job
  handler-Keeps JobType.terminate_subscription job = terminate-Keeps job
  handler-Keeps JobType.change_plan job = change_plan-Keeps job
  handler-Keeps JobType.disconnect_session job = disconnect_session-Keeps job
  handler-Keeps JobType.mikrotik_healthcheck job = healthcheck-Keeps job
  handler-Keeps JobType.captive_user_create job = captive_create-Keeps job
  handler-Keeps JobType.captive_user_disable job = captive_disable-Keeps job
  handler-Keeps JobType.walled_garden_apply job = walled_garden-Keeps job
  handler-Keeps JobType.export_config_snapshot job = search frame_rules
  handler-Keeps JobType.activate_pppoe job = activate_pppoe-Keeps job
  handler-Keeps JobType.activate_dhcp job = activate_dhcp-Keeps job
  handler-Keeps JobType.ensure_queue job = ensure_queue-Keeps job

  read_job-Keeps : (i : ℕ) → Keeps jobs_of (Job.read i)
  unfolding Job.read
  read_job-Keeps i = Keeps-read _ _

  -- A handler, whichever it is and however it ends, leaves every job as it was.
  pub dispatch-Keeps : (i : ℕ) → Keeps jobs_of (dispatch i)
  unfolding dispatch
  dispatch-Keeps i = search (read_job-Keeps, handler-Keeps, Keeps-bind)
