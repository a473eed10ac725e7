-- ===== src/Tests/Lifecycle.antt =====
-- The theorems on the life of a line, at the sample database, whose router runs dry.
use getupnet.Prelude.{◌≡◌, refl, some, if◌then◌else◌}
use getupnet.Prelude.Effects.{ok, is_ok}
use getupnet.Prelude.Rows.{browse, assign, matching}
use getupnet.Database.Core.{SubscriptionState}
use getupnet.Samples.{office, db, queued_job, pppoe_line}
use getupnet.Core.Audit.{log_action}
use getupnet.Core.Subscription
use getupnet.Core.Subscription.{read_plan, update, check_gps_required_for_active}
use getupnet.Mikrotik.Client
use getupnet.Mikrotik.Client.{get_routeros_client, cmd}
use getupnet.Mikrotik.Commands.{send, pppoe_disable, queue_disable}
use getupnet.Mikrotik.Handlers.{
  required, set_state, get_router, connect_router, router_of_device, router_of_subscription,
  handle_suspend_subscription,
}
use getupnet.Mikrotik.Lifecycle.{in_state, handle_suspend-state}

suspends : (handle_suspend_subscription queued_job db).0 ≡ ok tt
unfolding handle_suspend_subscription required Subscription.read connect_router get_router
    router_of_device router_of_subscription get_routeros_client read_plan pppoe_disable
    queue_disable send cmd Client.read log_action set_state update check_gps_required_for_active
    browse assign matching
suspends = refl

handle_suspend-state_example :
    browse 1 (handle_suspend_subscription queued_job db).1.subscriptions
    ≡ some (
        if is_ok (handle_suspend_subscription queued_job db).0
        then in_state SubscriptionState.suspended pppoe_line
        else pppoe_line)
unfolding browse
handle_suspend-state_example =
    handle_suspend-state queued_job 1 db {sub = pppoe_line} refl refl refl
