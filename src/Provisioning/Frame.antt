-- ===== src/Provisioning/Frame.antt =====
-- No handler touches the table of jobs: a job's row is written by `_execute` alone.
use getupnet.Prelude.{ℕ, refl, Option, none, some, String}
use getupnet.Prelude.Frame.{Keeps, Keeps-read, frame_rules}
use getupnet.Prelude.Rows.{Table}
use getupnet.Database.{Database}
use getupnet.Database.Core.{Job, Subscription, SubscriptionState}
use getupnet.Database.Network.{Router, CaptiveState}
use getupnet.Platform.{Platform}
use getupnet.Core.Audit.{log_action}
use getupnet.Core.Subscription
use getupnet.Core.Subscription.{
  read_plan, update, check_pppoe_credentials, check_gps_required_for_active, token_hex,
  ensure_pppoe_credentials, ensure_username, ensure_password, ensure_profile,
}
use getupnet.Mikrotik.Client
use getupnet.Mikrotik.Client.{
  Client, dummy, adapter, read_device, open_connection, get_connection_info, make_adapter,
  get_routeros_client, cmd,
}
use getupnet.Mikrotik.Handlers.{required, set_state, set_active_since, write_router, rename_device}
use getupnet.Captive.{read_user, read_garden, set_user_state}

abbrev pub jobs_of : Database → Table Job
jobs_of db = db.jobs

pub log_action-Keeps :
    (action model : String) (id : ℕ) (details : String)
    → Keeps jobs_of (log_action action model id details)
unfolding log_action
log_action-Keeps action model id details = record { at = λ db. refl }

pub read-Keeps : (i : ℕ) → Keeps jobs_of (Subscription.read i)
unfolding Subscription.read
read-Keeps i = Keeps-read _ _

pub read_plan-Keeps : (i : ℕ) → Keeps jobs_of (read_plan i)
unfolding read_plan
read_plan-Keeps i = Keeps-read _ _

pub read_router-Keeps : (i : ℕ) → Keeps jobs_of (Client.read i)
unfolding Client.read
read_router-Keeps i = Keeps-read _ _

pub read_device-Keeps : (i : ℕ) → Keeps jobs_of (read_device i)
unfolding read_device
read_device-Keeps i = Keeps-read _ _

pub read_user-Keeps : (i : ℕ) → Keeps jobs_of (read_user i)
unfolding read_user
read_user-Keeps i = Keeps-read _ _

pub read_garden-Keeps : (i : ℕ) → Keeps jobs_of (read_garden i)
unfolding read_garden
read_garden-Keeps i = Keeps-read _ _

pub update-Keeps : (i : ℕ) (f : Subscription → Subscription) → Keeps jobs_of (update i f)
unfolding update
update-Keeps i f = record { at = λ db. refl }

pub write_router-Keeps : (i : ℕ) (f : Router → Router) → Keeps jobs_of (write_router i f)
unfolding write_router
write_router-Keeps i f = record { at = λ db. refl }

pub rename_device-Keeps : (i : ℕ) (name : String) → Keeps jobs_of (rename_device i name)
unfolding rename_device
rename_device-Keeps i name = record { at = λ db. refl }

pub set_user_state-Keeps : (i : ℕ) (state : CaptiveState) → Keeps jobs_of (set_user_state i state)
unfolding set_user_state
set_user_state-Keeps i state = record { at = λ db. refl }

pub ruleset row_rules = (
  frame_rules, log_action-Keeps, read-Keeps, read_plan-Keeps, read_router-Keeps, read_device-Keeps,
  read_user-Keeps, read_garden-Keeps, update-Keeps, write_router-Keeps, rename_device-Keeps,
  set_user_state-Keeps,
)

pub check_pppoe_credentials-Keeps : (i : ℕ) → Keeps jobs_of (check_pppoe_credentials i)
unfolding check_pppoe_credentials
check_pppoe_credentials-Keeps i = search row_rules

pub check_gps-Keeps : (i : ℕ) → Keeps jobs_of (check_gps_required_for_active i)
unfolding check_gps_required_for_active
check_gps-Keeps i = search row_rules

pub set_state-Keeps : (i : ℕ) (state : SubscriptionState) → Keeps jobs_of (set_state i state)
unfolding set_state
set_state-Keeps i state = search (row_rules, check_gps-Keeps)

pub set_active_since-Keeps : (i : ℕ) → Keeps jobs_of (set_active_since i)
unfolding set_active_since
set_active_since-Keeps i = search (row_rules, check_gps-Keeps)

pub required-Keeps : (job : Job) → Keeps jobs_of (required job)
unfolding required
required-Keeps job = go job.subscription_id
  where
    go : (o : Option ℕ) → Keeps jobs_of (required (record job { subscription_id = o }))
    go none = search row_rules
    go (some i) = search row_rules

module _ ⦃platform : Platform⦄ where
  token_hex-Keeps : (n : ℕ) → Keeps jobs_of (token_hex n)
  unfolding token_hex
  token_hex-Keeps n = record { at = λ db. refl }

  ensure_username-Keeps : (i : ℕ) → Keeps jobs_of (ensure_username i)
  unfolding ensure_username
  ensure_username-Keeps i = search (row_rules, check_pppoe_credentials-Keeps) depth 7

  ensure_password-Keeps : (i : ℕ) → Keeps jobs_of (ensure_password i)
  unfolding ensure_password
  ensure_password-Keeps i =
      search (row_rules, check_pppoe_credentials-Keeps, token_hex-Keeps) depth 7

  ensure_profile-Keeps : (i : ℕ) → Keeps jobs_of (ensure_profile i)
  unfolding ensure_profile
  ensure_profile-Keeps i = search row_rules depth 7

  pub ensure_pppoe_credentials-Keeps : (i : ℕ) → Keeps jobs_of (ensure_pppoe_credentials i)
  unfolding ensure_pppoe_credentials
  ensure_pppoe_credentials-Keeps i =
      search (row_rules, ensure_username-Keeps, ensure_password-Keeps, ensure_profile-Keeps) depth 7
