-- ===== src/Preloader/Register.antt =====
-- `odoo_register_device` of tools/mikrotik_preloader/preloader.py, together with what its calls do on
-- the side of Odoo. Odoo's answer to a log-in with the password is a parameter; `environ` is the
-- environment of the process.
pub mod Twice
use getupnet.Prelude.{
  ℕ, ◌==◌, Bool, true, false, ◌&&◌, Option, none, some, List, [], ◌∷◌, ◌++◌, String, ◌⧺◌, text_eq,
  head?, or_value, if◌then◌else◌,
}
use getupnet.Prelude.Effects.{
  Action, Result, ok, err, runtime_error, gets, modify, or_raise, pure, ◌>>=◌, ◌>>◌,
}
use getupnet.Prelude.Rows.{ids}
use getupnet.Database.{Database}
use getupnet.Database.Core.{Device, DeviceType, DeviceStatus, Sector}
use getupnet.Database.Network.{Router}
use getupnet.Platform.{Platform}
use getupnet.Core.Device
use getupnet.Core.Device.{is_mikrotik}
use getupnet.Preconfig.Payload.{same_code}
use getupnet.Preloader.Scripts.{get_env_or_fail}

-- What `routeros_onboard` returns.
pub record Onboarded : Type 0 where
  pub identity : String
  pub ip : String
  pub api_port : ℕ

abbrev pub is_at : String → ℕ → Device → Bool
is_at ip _ device = same_code device.mgmt_ip ip && is_mikrotik device.device_type

abbrev pub is_of : ℕ → ℕ → Router → Bool
is_of device_id _ router = router.device_id == device_id

abbrev pub new_device : Onboarded → ℕ → Device
new_device onboarded sector_id = record {
  name = onboarded.identity;
  device_type = DeviceType.mikrotik;
  sector_id = some sector_id;
  mgmt_ip = some onboarded.ip;
  mgmt_port = onboarded.api_port;
  status = DeviceStatus.active;
}

abbrev pub updated : Onboarded → ℕ → Device → Device
updated onboarded sector_id device = record device {
  name = onboarded.identity;
  sector_id = some sector_id;
  mgmt_port = onboarded.api_port;
  status = DeviceStatus.active;
}

abbrev pub new_router : ℕ → Router
new_router device_id = record {
  device_id = device_id;
  api_user = none;
  routeros_version = none;
  last_healthcheck_at = none;
  last_healthcheck_status = none;
}

-- `uid = common.authenticate(...)`, where a falsy answer is refused.
unfoldable pub log_in :
    (String → Option String) → (String → Result Bool) → Option String → Result (Unit {0})
log_in environ authenticate pass_env = elim (get_env_or_fail environ pass_env) [
  | err e ↦ err e
  | ok pwd ↦ elim (authenticate pwd) [
    | err e ↦ err e
    | ok uid ↦ if uid then ok tt else err (runtime_error "Odoo authentication failed.")
  ]
]

module _ ⦃platform : Platform⦄ where
  -- The sector with the code of the configuration.
  unfoldable pub find_sector : String → Database → Option ℕ
  find_sector code db =
      head?
        (platform.search Sector (λ _ sector. sector.active && text_eq sector.code code) db.sectors)

  unfoldable pub find_device : String → Database → Option ℕ
  find_device ip db = head? (platform.search Device (is_at ip) db.devices)

  unfoldable pub find_router : ℕ → Database → Option ℕ
  find_router device_id db = head? (platform.search Router (is_of device_id) db.routers)

  unfoldable pub create_router : ℕ → Action Database ℕ
  create_router device_id = do
    i ← gets (λ db. platform.new_id (ids db.routers))
    modify (λ db. record db { routers = db.routers ++ (i, new_router device_id) ∷ [] })
    pure i

  abbrev pub write_or_create : Onboarded → ℕ → Option ℕ → Action Database ℕ
  write_or_create onboarded sector_id none = Device.create (new_device onboarded sector_id)
  write_or_create onboarded sector_id (some i) = do
    Device.write i (updated onboarded sector_id)
    pure i

  abbrev pub found_or_create : ℕ → Option ℕ → Action Database ℕ
  found_or_create device_id none = create_router device_id
  found_or_create device_id (some i) = pure i

  -- The calls after the log-in; the ids are those of the device and of the router.
  unfoldable pub register : String → Onboarded → Action Database (ℕ × ℕ)
  register sector_code onboarded = do
    sector_ids ← gets (find_sector sector_code)
    sector_id ← or_raise sector_ids (runtime_error ("Sector not found: " ⧺ sector_code))
    device_ids ← gets (find_device onboarded.ip)
    device_id ← write_or_create onboarded sector_id device_ids
    router_ids ← gets (find_router device_id)
    router_id ← found_or_create device_id router_ids
    pure (device_id, router_id)

  unfoldable pub odoo_register_device :
      (String → Option String)
      → (String → Result Bool)
      → Option String
      → String
      → Onboarded
      → Action Database (ℕ × ℕ)
  odoo_register_device environ authenticate pass_env sector_code onboarded db =
      elim (log_in environ authenticate pass_env) [
        | err e ↦ (err e, db)
        | ok _ ↦ register sector_code onboarded db
      ]
