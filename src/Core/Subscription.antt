-- ===== src/Core/Subscription.antt =====
-- addons/isp_core/models/subscription.py. A write runs the methods that `@api.constrains` declares
-- on the written fields at once, as Odoo does, so an assignment is the write and then its checks.
pub mod Queue
pub mod Forms
pub mod Credentials
pub mod Address
use getupnet.Prelude.{
  ℕ, ◌+◌, Bool, true, false, not, ◌&&◌, ◌||◌, Option, none, some, List, [], ◌∷◌, ◌++◌, String,
  text_eq, ◌⧺◌, has_text, or_text, is_set, ◌==◌, length, if◌then◌else◌,
}
use getupnet.Prelude.Int.{ℤ, is_zero}
use getupnet.Prelude.Effects.{
  Action, ok, err, validation_error, missing_error, skip, gets, when, modify, raise, pure, or_raise,
  for_each, ◌>>=◌, ◌>>◌,
}
use getupnet.Prelude.Rows.{Table, browse, assign, ids, matching}
use getupnet.Database.{Database}
use getupnet.Database.Core.{
  Subscription, SubscriptionState, AuthMethod, DhcpMode, ServicePlan, ServiceType, Job, JobType,
  JobState, Payload,
}
use getupnet.Platform.{Platform}
use getupnet.Core.Audit.{log_action}

abbrev pub is_pppoe : AuthMethod → Bool
is_pppoe AuthMethod.pppoe = true
is_pppoe AuthMethod.dhcp = false

abbrev pub is_static : DhcpMode → Bool
is_static DhcpMode.static = true
is_static DhcpMode.dynamic = false

-- `rec.state in ("active", "suspended")`
abbrev pub is_installed : SubscriptionState → Bool
is_installed SubscriptionState.active = true
is_installed SubscriptionState.suspended = true
is_installed _ = false

-- The fields of a record that a method holds; Odoo raises on a record that is gone.
unfoldable pub read : ℕ → Action Database Subscription
read i db = or_raise (browse i db.subscriptions) (missing_error "isp.subscription") db

unfoldable pub read_plan : ℕ → Action Database ServicePlan
read_plan i db = or_raise (browse i db.plans) (missing_error "isp.service_plan") db

-- Assignment to fields of a subscription, before the checks.
unfoldable pub update : ℕ → (Subscription → Subscription) → Action Database (Unit {0})
update i f = modify λ db. record db { subscriptions = assign i f db.subscriptions }

unfoldable pub lacks_credentials : Subscription → Bool
lacks_credentials rec =
    is_pppoe rec.auth_method
    && (not (has_text rec.pppoe_username) || not (has_text rec.pppoe_password))

unfoldable pub check_pppoe_credentials : ℕ → Action Database (Unit {0})
check_pppoe_credentials i = do
  rec ← read i
  when (lacks_credentials rec)
      (raise (validation_error "PPPoE username and password are required."))

-- A static DHCP line.
abbrev pub is_static_dhcp : Subscription → Bool
is_static_dhcp rec = not (is_pppoe rec.auth_method) && is_static rec.dhcp_mode

unfoldable pub check_dhcp_static_ip : ℕ → Action Database (Unit {0})
check_dhcp_static_ip i = do
  rec ← read i
  when (is_static_dhcp rec && not (has_text rec.service_ip))
      (raise (validation_error "Static DHCP requires an IP address."))

-- The domain of the search in `_check_unique_static_ip`; the search gives the lines that the user
-- sees by isp_core/security/ir_rule.xml.
abbrev pub shares_ip : ℕ → Subscription → ℕ → Subscription → Bool
shares_ip i rec j other =
    not (i == j)
    && text_eq (or_text other.service_ip "") (or_text rec.service_ip "")
    && is_static_dhcp other

unfoldable pub check_gps_required_for_active : ℕ → Action Database (Unit {0})
check_gps_required_for_active i = do
  rec ← read i
  when (is_installed rec.state && (is_zero rec.gps_lat || is_zero rec.gps_lng))
      (raise (validation_error "GPS coordinates are required for active installations."))

-- `_ensure_pppoe_credentials`, the three assignments of its loop body.
abbrev pub set_username : ℕ → String → Action Database (Unit {0})
set_username i value =
    update i (λ rec. record rec { pppoe_username = some value }) >> check_pppoe_credentials i

abbrev pub set_password : ℕ → String → Action Database (Unit {0})
set_password i value =
    update i (λ rec. record rec { pppoe_password = some value }) >> check_pppoe_credentials i

abbrev pub set_profile : ℕ → Option String → Action Database (Unit {0})
set_profile i value = update i (λ rec. record rec { pppoe_profile = value })

-- `a or b` for two texts.
abbrev pub or_else_text : Option String → Option String → Option String
or_else_text none b = b
or_else_text (some s) b = if text_eq s "" then b else some s

-- The name of a job type, which is its key in the selection.
abbrev pub job_type_key : JobType → String
job_type_key JobType.activate_subscription = "activate_subscription"
job_type_key JobType.suspend_subscription = "suspend_subscription"
job_type_key JobType.reconnect_subscription = "reconnect_subscription"
job_type_key JobType.terminate_subscription = "terminate_subscription"
job_type_key JobType.change_plan = "change_plan"
job_type_key JobType.disconnect_session = "disconnect_session"
job_type_key JobType.mikrotik_healthcheck = "mikrotik_healthcheck"
job_type_key JobType.captive_user_create = "captive_user_create"
job_type_key JobType.captive_user_disable = "captive_user_disable"
job_type_key JobType.walled_garden_apply = "walled_garden_apply"
job_type_key JobType.export_config_snapshot = "export_config_snapshot"
job_type_key JobType.activate_pppoe = "activate_pppoe"
job_type_key JobType.activate_dhcp = "activate_dhcp"
job_type_key JobType.ensure_queue = "ensure_queue"

module _ ⦃platform : Platform⦄ where
  unfoldable pub check_unique_static_ip : ℕ → Action Database (Unit {0})
  check_unique_static_ip i = do
    rec ← read i
    when (is_static_dhcp rec && has_text rec.service_ip) (do
      found ← gets (λ db.
          platform.search Subscription
            (λ j other. shares_ip i rec j other && db.sees_sector other.sector_id) db.subscriptions)
      when (not (length found == 0)) (raise (validation_error "Static IP address must be unique.")))

  -- `secrets.token_hex(n)`
  unfoldable pub token_hex : ℕ → Action Database String
  token_hex n db =
      (ok (platform.token_hex n db.token_calls), record db { token_calls = db.token_calls + 1 })

  -- `env["ir.sequence"].next_by_code(code) or fallback`
  unfoldable pub next_name : String → String → Action Database String
  next_name code fallback db = (
    ok (or_text (platform.next_by_code code db.sequence_calls) fallback),
    record db { sequence_calls = db.sequence_calls + 1 },
  )

  unfoldable pub ensure_username : ℕ → Action Database (Unit {0})
  unfolding read update check_pppoe_credentials
  ensure_username i = do
    rec ← read i
    when (not (has_text rec.pppoe_username)) (set_username i rec.name)

  unfoldable pub ensure_password : ℕ → Action Database (Unit {0})
  ensure_password i = do
    rec ← read i
    when (not (has_text rec.pppoe_password)) (do set_password i (← token_hex 6))

  unfoldable pub ensure_profile : ℕ → Action Database (Unit {0})
  ensure_profile i = do
    rec ← read i
    when (not (has_text rec.pppoe_profile)) (do
      plan ← read_plan rec.plan_id
      set_profile i (or_else_text plan.mikrotik_profile rec.pppoe_profile))

  unfoldable pub ensure_pppoe_credentials : ℕ → Action Database (Unit {0})
  ensure_pppoe_credentials i = do
    rec ← read i
    when (is_pppoe rec.auth_method) (do ensure_username i; ensure_password i; ensure_profile i)

  -- `isp.provisioning_job.create(vals)`, with the fields that callers leave at their defaults.
  unfoldable pub create_job : JobType → Option ℕ → Option ℕ → Option ℕ → Payload → Action Database ℕ
  create_job job_type subscription_id device_id sector_id payload = do
    name ← next_name "isp.provisioning.job" "JOB"
    i ← gets (λ db. platform.new_id (ids db.jobs))
    modify (λ db. record db {
      jobs =
          db.jobs
          ++ (
            i,
            record {
              name = name;
              job_type = job_type;
              subscription_id = subscription_id;
              device_id = device_id;
              sector_id = sector_id;
              state = JobState.queued;
              attempts = 0;
              max_attempts = 3;
              error_message = none;
              executed_at = none;
              payload_json = payload;
            },
          )
            ∷ [];
    })
    pure i

  unfoldable pub job_name : ℕ → Action Database String
  job_name i db = elim (browse i db.jobs) [
    | none ↦ (err (missing_error "isp.provisioning_job"), db)
    | some job ↦ (ok job.name, db)
  ]

  -- `_queue_job(job_type)`; no caller passes a payload.
  unfoldable pub queue_job : JobType → ℕ → Action Database ℕ
  queue_job job_type i = do
    rec ← read i
    job ← create_job job_type (some i) none (some rec.sector_id) Payload.nothing
    name ← job_name job
    log_action (job_type_key job_type) "isp.subscription" i ("Queued job " ⧺ name)
    pure job

  unfoldable pub action_activate : List ℕ → Action Database (Unit {0})
  action_activate self =
      for_each self
        λ i. do ensure_pppoe_credentials i; queue_job JobType.activate_subscription i; pure tt

  unfoldable pub action_suspend : List ℕ → Action Database (Unit {0})
  action_suspend self = for_each self λ i. do queue_job JobType.suspend_subscription i; pure tt

  unfoldable pub action_reconnect : List ℕ → Action Database (Unit {0})
  action_reconnect self = for_each self λ i. do queue_job JobType.reconnect_subscription i; pure tt

  unfoldable pub action_terminate : List ℕ → Action Database (Unit {0})
  action_terminate self = for_each self λ i. do queue_job JobType.terminate_subscription i; pure tt

  unfoldable pub action_change_plan : List ℕ → Action Database (Unit {0})
  action_change_plan self = for_each self λ i. do queue_job JobType.change_plan i; pure tt
