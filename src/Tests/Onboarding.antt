-- ===== src/Tests/Onboarding.antt =====
-- The theorems on the set-up and the registration of routers, with two routers of which one refuses
-- the connection.
use getupnet.Prelude.{
  ◌+◌, ◌≡◌, refl, Bool, true, Option, none, some, List, [], ◌∷◌, String, text_eq, length, All,
  if◌then◌else◌,
}
use getupnet.Prelude.Effects.{Result, ok, other_error}
use getupnet.Prelude.Rows.{matching, browse, ids}
use getupnet.Database.{Database}
use getupnet.Samples.{office, db}
use getupnet.Preloader.{RouterApi}
use getupnet.Preloader.Scripts.{get_env_or_fail}
use getupnet.Preloader.Register.{Onboarded, log_in, find_sector, new_device, odoo_register_device}
use getupnet.Preloader.Register.Twice.{are_linked, odoo_register_device-once}
use getupnet.Preloader.Main.{Site, Field, set_up, onboard_all}
use getupnet.Preloader.Main.Reached.{registrations, onboard_all-reaches}
use getupnet.Tests.Preloader.{config}

abbrev environ : String → Option String
environ name = some "secret"

abbrev accepts : String → Result Bool
accepts password = ok true

abbrev db_sector : Database
db_sector = record db {
  sectors = (1, record { name = "North"; code = "S1"; active = true }) ∷ [];
  routers = [];
}

abbrev first_visit : Onboarded
first_visit = record { identity = "MT-1"; ip = "10.0.0.2"; api_port = 8728 }

odoo_register_device-once_example :
    let run = odoo_register_device environ accepts (some "ODOO_PASS") "S1" in
    let next = record first_visit { identity = "MT-2"; api_port = 8729 } in
    let first = run first_visit db_sector in
    let second = run next first.1 in
    (first.0 ≡ ok (1, 1))
    × (second.0 ≡ ok (1, 1))
    × (length second.1.devices ≡ 0 + 1)
    × (length second.1.routers ≡ 0 + 1)
    × (browse 1 second.1.devices ≡ some (new_device next 1))
unfolding log_in get_env_or_fail find_sector matching are_linked browse ids
odoo_register_device-once_example =
    odoo_register_device-once "S1" environ accepts (some "ODOO_PASS") first_visit "MT-2" 8729
      db_sector {s = 1} refl refl refl refl

abbrev router_at : String → RouterApi
router_at ip = record {
  answer = λ sent command. ok [];
  connect =
      λ user password sent. if text_eq ip "10.0.0.1" then some (other_error "timed out") else none;
}

abbrev site : Site
site = record {
  apis = router_at;
  environ = environ;
  authenticate = accepts;
  cfg = config;
  api_port = 8728;
  odoo = record { pass_env = some "ODOO_PASS"; register_device = none };
}

abbrev field : Field
field = record { office = db_sector; sent = λ ip. [] }

abbrev candidates : List String
candidates = "10.0.0.1" ∷ "10.0.0.2" ∷ []

onboard_all-reaches_example :
    let (r, after) = onboard_all site candidates field in
    (r ≡ ok tt)
    × All (λ ip. after.sent ip ≡ (set_up site ip []).1) candidates
    × (after.office ≡ registrations site candidates field.sent db_sector)
onboard_all-reaches_example = onboard_all-reaches site candidates field ((refl, tt), (tt, tt))
