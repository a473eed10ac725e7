-- ===== src/Mikrotik/Handlers.antt =====
-- The job handlers of addons/isp_mikrotik/models/provisioning_job.py.
use getupnet.Prelude.{
  ℕ, ◌==◌, Bool, true, false, Option, none, some, List, [], ◌∷◌, String, has_text, text_eq, or_text,
  or_value, head?, if◌then◌else◌,
}
use getupnet.Prelude.Effects.{
  Action, user_error, skip, gets, modify, when, raise, pure, or_raise, try_except, ◌>>=◌, ◌>>◌,
}
use getupnet.Prelude.Rows.{browse, assign}
use getupnet.Database.{Database}
use getupnet.Database.Core.{Subscription, SubscriptionState, ServicePlan, ServiceType, Job}
use getupnet.Database.Network.{Router, Health, Attributes}
use getupnet.Platform.{Platform}
use getupnet.Core.Subscription.{
  update, read_plan, check_gps_required_for_active, ensure_pppoe_credentials,
}
use getupnet.Core.Subscription
use getupnet.Mikrotik.Client
use getupnet.Mikrotik.Client.{Client, router_sector, cmd, get_routeros_client}
use getupnet.Mikrotik.Commands.{
  command, send, pppoe_ensure_secret, pppoe_disable, pppoe_enable, dhcp_ensure_lease, queue_ensure,
  queue_disable, queue_remove,
}

-- Equality of optional ids, as in a search domain.
abbrev pub same_id : Option ℕ → ℕ → Bool
same_id none j = false
same_id (some i) j = i == j

-- `x or y` of two optional records.
abbrev pub or_else : Option ℕ → Option ℕ → Option ℕ
or_else none b = b
or_else (some a) b = some a

abbrev pub is_type_pppoe : ServicePlan → Bool
is_type_pppoe plan = elim plan.service_type [ ServiceType.pppoe ↦ true | _ ↦ false ]

abbrev pub is_type_dhcp : ServicePlan → Bool
is_type_dhcp plan = elim plan.service_type [ ServiceType.dhcp ↦ true | _ ↦ false ]

-- The subscription of a job: its id, and its fields.
unfoldable pub required : Job → Action Database (ℕ × Subscription)
required job = elim job.subscription_id [
  | none ↦ raise (user_error "Subscription is required.")
  | some i ↦ do sub ← Subscription.read i; pure (i, sub)
]

-- `sub.write({"state": state})`
unfoldable pub set_state : ℕ → SubscriptionState → Action Database (Unit {0})
set_state i state = do
  update i (λ sub. record sub { state = state })
  check_gps_required_for_active i

-- `sub.write({"state": "active", "start_date": sub.start_date or today})`
unfoldable pub set_active_since : ℕ → Action Database (Unit {0})
set_active_since i = do
  today ← gets (λ db. db.today)
  update i (λ sub. record sub {
    state = SubscriptionState.active;
    start_date = some (or_value sub.start_date today);
  })
  check_gps_required_for_active i

-- The field `name` of the first sentence of a reply, and the field `version`.
abbrev pub attribute : String → Attributes → Option String
attribute key [] = none
attribute key ((k, v) ∷ rest) = if text_eq k key then v else attribute key rest

abbrev pub first_attribute : String → List Attributes → Option String
first_attribute key [] = none
first_attribute key (row ∷ rows) = attribute key row

unfoldable pub write_router : ℕ → (Router → Router) → Action Database (Unit {0})
write_router i f = modify λ db. record db { routers = assign i f db.routers }

unfoldable pub rename_device : ℕ → String → Action Database (Unit {0})
rename_device i name =
    modify
      λ db. record db { devices = assign i (λ device. record device { name = name }) db.devices }

module _ ⦃platform : Platform⦄ where
  -- `Router.search([("device_id", "=", ...)], limit=1)`
  unfoldable pub router_of_device : Option ℕ → Database → Option ℕ
  router_of_device none db = none
  router_of_device (some device) db =
      head? (platform.search Router (λ _ router. router.device_id == device) db.routers)

  unfoldable pub router_of_sector : ℕ → Database → Option ℕ
  router_of_sector sector db =
      head?
        (platform.search Router (λ _ router. same_id (router_sector router db) sector) db.routers)

  -- The second and third choice of `_get_router`.
  unfoldable pub router_of_subscription : Option Subscription → Database → Option ℕ
  router_of_subscription none db = none
  router_of_subscription (some sub) db = or_else sub.router_id (router_of_sector sub.sector_id db)

  abbrev pub subscription_of : Job → Database → Option Subscription
  subscription_of job db = elim job.subscription_id [
    | none ↦ none
    | some i ↦ browse i db.subscriptions
  ]

  unfoldable pub get_router : Job → Action Database ℕ
  get_router job db =
      or_raise
        (or_else (router_of_device job.device_id db)
          (router_of_subscription (subscription_of job db) db))
        (user_error "No MikroTik router found for this job.") db

  -- The opening lines of each handler that talks about a subscription.
  unfoldable pub connect_router : Job → Action Database Client
  connect_router job = do get_routeros_client (← get_router job)

  -- The `try` body of the health check.
  unfoldable pub probe : ℕ → Client → Action Database (Unit {0})
  probe i client = do
    resource ← cmd client (command "/system/resource/print" [])
    identity ← cmd client (command "/system/identity/print" [])
    router ← Client.read i
    when (has_text (first_attribute "name" identity))
        (rename_device router.device_id (or_text (first_attribute "name" identity) ""))
    now ← gets (λ db. db.now)
    write_router i λ row. record row {
      routeros_version = first_attribute "version" resource;
      last_healthcheck_at = some now;
      last_healthcheck_status = some Health.healthy;
    }

  unfoldable pub handle_mikrotik_healthcheck : Job → Action Database (Unit {0})
  handle_mikrotik_healthcheck job = do
    i ← get_router job
    client ← get_routeros_client i
    try_except (probe i client) λ exc. do
      now ← gets (λ db. db.now)
      write_router i λ row. record row {
        last_healthcheck_at = some now;
        last_healthcheck_status = some Health.failed;
      }
      raise exc

  unfoldable pub handle_activate_subscription : Job → Action Database (Unit {0})
  handle_activate_subscription job = do
    (i, _) ← required job
    ensure_pppoe_credentials i
    client ← connect_router job
    sub ← Subscription.read i
    plan ← read_plan sub.plan_id
    if is_type_pppoe plan
        then pppoe_ensure_secret client sub plan
        else if is_type_dhcp plan
        then dhcp_ensure_lease client sub
        else skip
    queue_ensure client sub plan
    set_active_since i

  unfoldable pub handle_suspend_subscription : Job → Action Database (Unit {0})
  handle_suspend_subscription job = do
    (i, sub) ← required job
    client ← connect_router job
    plan ← read_plan sub.plan_id
    when (is_type_pppoe plan) (pppoe_disable client sub)
    queue_disable client sub
    set_state i SubscriptionState.suspended

  unfoldable pub handle_reconnect_subscription : Job → Action Database (Unit {0})
  handle_reconnect_subscription job = do
    (i, sub) ← required job
    client ← connect_router job
    plan ← read_plan sub.plan_id
    when (is_type_pppoe plan) (pppoe_enable client sub)
    queue_ensure client sub plan
    set_state i SubscriptionState.active

  unfoldable pub handle_terminate_subscription : Job → Action Database (Unit {0})
  handle_terminate_subscription job = do
    (i, sub) ← required job
    client ← connect_router job
    plan ← read_plan sub.plan_id
    when (is_type_pppoe plan) (pppoe_disable client sub)
    queue_remove client sub
    set_state i SubscriptionState.terminated

  unfoldable pub handle_change_plan : Job → Action Database (Unit {0})
  handle_change_plan job = do
    (i, sub) ← required job
    client ← connect_router job
    plan ← read_plan sub.plan_id
    when (is_type_pppoe plan) (pppoe_ensure_secret client sub plan)
    queue_ensure client sub plan

  unfoldable pub handle_disconnect_session : Job → Action Database (Unit {0})
  handle_disconnect_session job = do
    (i, sub) ← required job
    client ← connect_router job
    plan ← read_plan sub.plan_id
    send client (if is_type_pppoe plan then "/ppp/active/remove" else "/ip/hotspot/active/remove")
        (("numbers", sub.pppoe_username) ∷ [])

  unfoldable pub handle_activate_pppoe : Job → Action Database (Unit {0})
  handle_activate_pppoe job = do
    (i, _) ← required job
    ensure_pppoe_credentials i
    client ← connect_router job
    sub ← Subscription.read i
    plan ← read_plan sub.plan_id
    pppoe_ensure_secret client sub plan

  unfoldable pub handle_activate_dhcp : Job → Action Database (Unit {0})
  handle_activate_dhcp job = do
    (i, sub) ← required job
    client ← connect_router job
    dhcp_ensure_lease client sub

  unfoldable pub handle_ensure_queue : Job → Action Database (Unit {0})
  handle_ensure_queue job = do
    (i, sub) ← required job
    client ← connect_router job
    plan ← read_plan sub.plan_id
    queue_ensure client sub plan
