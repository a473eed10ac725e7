-- ===== src/Mikrotik/Client.antt =====
-- addons/isp_mikrotik/models/router.py and routeros_client.py.
use getupnet.Prelude.{
  ℕ, Bool, false, not, ◌||◌, Option, none, some, List, [], ◌∷◌, ◌++◌, String, text_eq, ◌⧺◌,
  has_text, or_text, or_number, if◌then◌else◌,
}
use getupnet.Prelude.Effects.{
  Action, ok, err, user_error, missing_error, gets, when, raise, pure, or_raise, for_each, ◌>>=◌,
  ◌>>◌,
}
use getupnet.Prelude.Rows.{browse}
use getupnet.Database.{Database}
use getupnet.Database.Core.{Device, JobType, Payload}
use getupnet.Database.Network.{Router, Command, Attributes}
use getupnet.Platform.{Platform}
use getupnet.Core.Audit.{log_action}
use getupnet.Core.Subscription.{create_job}

unfoldable pub read : ℕ → Action Database Router
read i db = or_raise (browse i db.routers) (missing_error "isp.mikrotik.router") db

unfoldable pub read_device : ℕ → Action Database Device
read_device i db = or_raise (browse i db.devices) (missing_error "isp.device") db

-- `router.sector_id`, the sector of its device.
abbrev pub device_sector : Option Device → Option ℕ
device_sector none = none
device_sector (some device) = device.sector_id

unfoldable pub router_sector : Router → Database → Option ℕ
router_sector router db = device_sector (browse router.device_id db.devices)

pub record ConnectionInfo : Type 0 where
  pub host : Option String
  pub port : ℕ
  pub user : String
  pub password : Option String

unfoldable pub get_api_user : Router → Database → String
get_api_user router db =
    if has_text router.api_user
    then or_text router.api_user ""
    else or_text (db.text_param "isp_mikrotik.default_api_user") "odoo_noc"

-- The two clients; both keep the router that they were made for.
pub data Client : Type 0 where
  dummy adapter : ℕ → Client

-- `dry_run in ("1", "true", "True", True)`
abbrev pub is_yes : Option String → Bool
is_yes none = false
is_yes (some s) = text_eq s "1" || text_eq s "true" || text_eq s "True"

module _ ⦃platform : Platform⦄ where
  unfoldable pub get_api_password : ℕ → Database → Option String
  get_api_password i db =
      let own = db.text_param ("isp_mikrotik.router_password." ⧺ platform.show_id i) in
      if has_text own then own else db.text_param "isp_mikrotik.default_api_password"

  unfoldable pub get_connection_info : ℕ → Action Database ConnectionInfo
  get_connection_info i = do
    router ← read i
    device ← read_device router.device_id
    gets λ db. record {
      host = device.mgmt_ip;
      port = or_number device.mgmt_port 8728;
      user = get_api_user router db;
      password = get_api_password i db;
    }

  unfoldable pub open_connection : ℕ → Action Database (Unit {0})
  open_connection i db = elim (platform.connect i db.sent) [
    | none ↦ (ok tt, db)
    | some exc ↦ (err exc, db)
  ]

  -- `RouterOSAdapter.__init__`
  unfoldable pub make_adapter : ℕ → Action Database Client
  make_adapter i = do
    when (not platform.has_librouteros)
        (raise (user_error "librouteros is not installed in this Odoo environment."))
    info ← get_connection_info i
    when (not (has_text info.host)) (raise (user_error "Router management IP is missing."))
    when (not (has_text info.password)) (raise (user_error "Router API password is missing."))
    open_connection i
    pure (adapter i)

  unfoldable pub get_routeros_client : ℕ → Action Database Client
  get_routeros_client i = do
    dry_run ← gets (λ db. db.text_param "isp_mikrotik.dry_run")
    if is_yes dry_run then pure (dummy i) else make_adapter i

  -- `cmd` of the two clients.
  unfoldable pub cmd : Client → Command → Action Database (List Attributes)
  cmd (dummy i) command = do
    router ← read i
    log_action "routeros.dry_run" "isp.device" router.device_id
        (command.path ⧺ " " ⧺ platform.show_attributes command.attributes)
    pure []
  cmd (adapter i) command = λ db. (
    platform.reply i db.sent command,
    record db { sent = db.sent ++ record { router_id = i; command = command } ∷ [] },
  )

  unfoldable pub action_healthcheck : List ℕ → Action Database (Unit {0})
  action_healthcheck self = for_each self λ i. do
    router ← read i
    sector ← gets (router_sector router)
    create_job JobType.mikrotik_healthcheck none (some router.device_id) sector Payload.nothing
    pure tt
