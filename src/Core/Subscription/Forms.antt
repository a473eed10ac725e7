-- ===== src/Core/Subscription/Forms.antt =====
-- `create`, the onchange methods and the checks of addons/isp_core/models/subscription.py that a
-- form's save goes through, and `_onchange_sector_id_set_router` of addons/isp_mikrotik.
use getupnet.Prelude.{
  ℕ, ◌==◌, Bool, false, not, Option, none, some, List, [], ◌∷◌, ◌++◌, String, text_eq, has_text,
  if◌then◌else◌,
}
use getupnet.Prelude.Effects.{
  Action, validation_error, gets, modify, when, raise, pure, ◌>>=◌, ◌>>◌,
}
use getupnet.Prelude.Rows.{browse, ids}
use getupnet.Database.{Database}
use getupnet.Database.Core.{Subscription, AuthMethod, DhcpMode, ServicePlan, ServiceType, Device}
use getupnet.Platform.{Platform}
use getupnet.Core.Subscription.{
  read, read_plan, update, next_name, check_pppoe_credentials, check_dhcp_static_ip,
  check_unique_static_ip, check_gps_required_for_active, ensure_pppoe_credentials,
}

-- `rec.device_id.sector_id != rec.sector_id`, where the device has a sector.
abbrev pub sector_differs : Option Device → ℕ → Bool
sector_differs none sector = false
sector_differs (some device) sector = elim device.sector_id [
  | none ↦ false
  | some other ↦ not (other == sector)
]

abbrev pub device_of : Subscription → Database → Option Device
device_of rec db = elim rec.device_id [ none ↦ none | some i ↦ browse i db.devices ]

unfoldable pub check_device_sector_match : ℕ → Action Database (Unit {0})
check_device_sector_match i = do
  rec ← read i
  db ← gets (λ db. db)
  when (sector_differs (device_of rec db) rec.sector_id)
      (raise (validation_error "The selected device does not belong to the subscription's sector."))

-- The access method that a plan stands for; a hotspot plan stands for none.
abbrev pub plan_auth : ServiceType → Option AuthMethod
plan_auth ServiceType.pppoe = some AuthMethod.pppoe
plan_auth ServiceType.dhcp = some AuthMethod.dhcp
plan_auth ServiceType.hotspot = none

abbrev pub or_default : Option AuthMethod → Option AuthMethod → AuthMethod
or_default (some auth) other = auth
or_default none (some auth) = auth
or_default none none = AuthMethod.dhcp

-- `_onchange_plan_id_auth_method` for one record.
unfoldable pub onchange_plan : ServicePlan → Subscription → Subscription
onchange_plan plan rec = record rec {
  auth_method = elim (plan_auth plan.service_type) [ none ↦ rec.auth_method | some auth ↦ auth ];
  pppoe_profile =
      if has_text plan.mikrotik_profile then plan.mikrotik_profile else rec.pppoe_profile;
}

module _ ⦃platform : Platform⦄ where
  -- The python checks of a new record, and then `_ensure_pppoe_credentials`.
  unfoldable pub create : Option AuthMethod → Subscription → Action Database ℕ
  create auth vals = do
    name ← (if text_eq vals.name "New" then next_name "isp.subscription" "SUB" else pure vals.name)
    plan ← read_plan vals.plan_id
    i ← gets (λ db. platform.new_id (ids db.subscriptions))
    modify λ db. record db {
      subscriptions =
          db.subscriptions
          ++ (
            i,
            record vals {
              name = name;
              auth_method = or_default auth (plan_auth plan.service_type);
            },
          )
            ∷ [];
    }
    check_pppoe_credentials i
    check_dhcp_static_ip i
    check_unique_static_ip i
    check_gps_required_for_active i
    check_device_sector_match i
    ensure_pppoe_credentials i
    pure i

  -- A save that changes how a line gets its address, with the checks on the three fields.
  unfoldable pub write_access :
      ℕ → AuthMethod → DhcpMode → Option String → Action Database (Unit {0})
  write_access i auth mode ip = do
    update i (λ rec. record rec { auth_method = auth; dhcp_mode = mode; service_ip = ip })
    check_pppoe_credentials i
    check_dhcp_static_ip i
    check_unique_static_ip i

  -- `_onchange_sector_id_set_router`, by the routers that the search by sector gives.
  unfoldable pub onchange_sector : List ℕ → Subscription → Subscription
  onchange_sector (router ∷ []) rec = record rec { router_id = some router }
  onchange_sector _ rec = rec
