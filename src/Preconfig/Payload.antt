-- ===== src/Preconfig/Payload.antt =====
-- The methods of addons/isp_mikrotik/models/preconfig.py: what a profile sends to the tool that sets
-- up routers, and which profile a sector gets.
use getupnet.Prelude.{
  ℕ, Bool, false, ◌&&◌, Option, none, some, List, [], ◌∷◌, String, text_eq, has_text, is_set, head?,
  if◌then◌else◌,
}
use getupnet.Prelude.Effects.{
  Action, validation_error, missing_error, raise, skip, gets, or_raise, ◌>>=◌,
}
use getupnet.Prelude.Rows.{browse}
use getupnet.Database.{Database}
use getupnet.Database.Core.{Sector}
use getupnet.Database.Network.{Preconfig}
use getupnet.Platform.{Platform}
use getupnet.Mikrotik.Handlers.{same_id}
use getupnet.Preconfig.Text.{parse_csv_or_none, lan_ports_list}
use getupnet.Preconfig.Value.{Value, null, flag, number, text, texts, dict, Dict, empty, entry}

-- A text field: `False` if it is empty.
abbrev pub char : Option String → Value
char none = flag false
char (some s) = text s

-- `self.field or None`
abbrev pub or_none : Option String → Value
or_none none = null
or_none (some s) = if text_eq s "" then null else text s

abbrev pub list_or_none : Option (List String) → Value
list_or_none none = null
list_or_none (some l) = texts l

abbrev pub of_list : List (String × Value) → Dict
of_list [] = empty
of_list ((k, v) ∷ entries) = entry k v (of_list entries)

unfoldable pub to_routeros_config : Preconfig → Dict
to_routeros_config pc = of_list (
    ("wan_interface", char pc.wan_interface)
    ∷ ("lan_bridge", char pc.lan_bridge)
    ∷ ("lan_ports", texts (lan_ports_list pc.lan_ports))
    ∷ ("lan_address", char pc.lan_address)
    ∷ ("dhcp_pool", char pc.dhcp_pool)
    ∷ ("dhcp_range", char pc.dhcp_range)
    ∷ ("dhcp_server", char pc.dhcp_server)
    ∷ ("dhcp_lease_time", char pc.dhcp_lease_time)
    ∷ ("dhcp_network", char pc.dhcp_network)
    ∷ ("dns_server", char pc.dns_server)
    ∷ ("enable_dhcp_client_wan", flag pc.enable_dhcp_client_wan)
    ∷ ("enable_nat", flag pc.enable_nat)
    ∷ ("enable_hotspot", flag pc.enable_hotspot)
    ∷ ("hotspot_profile", char pc.hotspot_profile)
    ∷ ("hotspot_server", char pc.hotspot_server)
    ∷ ("hotspot_dns_name", char pc.hotspot_dns_name)
    ∷ ("hotspot_walled_garden", char pc.hotspot_walled_garden)
    ∷ ("hotspot_login_by", char pc.hotspot_login_by)
    ∷ ("hotspot_html_dir", char pc.hotspot_html_dir)
    ∷ [])

-- The sections of the payload.
unfoldable pub bootstrap : Preconfig → Dict
bootstrap pc =
    of_list (("user", or_none pc.bootstrap_user) ∷ ("pass", or_none pc.bootstrap_pass) ∷ [])

unfoldable pub routeros : Preconfig → Dict
routeros pc = of_list (
    ("api_port", number pc.api_port)
    ∷ ("mgmt_user", or_none pc.routeros_mgmt_user)
    ∷ ("mgmt_pass_env", or_none pc.routeros_mgmt_pass_env)
    ∷ ("mgmt_pass_value", or_none pc.routeros_mgmt_pass_value)
    ∷ ("discovery_interfaces", list_or_none (parse_csv_or_none pc.discovery_interfaces))
    ∷ ("allowed_mgmt_ips", list_or_none (parse_csv_or_none pc.allowed_mgmt_ips))
    ∷ ("apply_sector_config", flag pc.apply_sector_config)
    ∷ ("config", dict (to_routeros_config pc))
    ∷ [])

unfoldable pub call_home : Preconfig → Dict
call_home pc = of_list (
    ("enabled", flag pc.call_home_enabled)
    ∷ ("url", or_none pc.call_home_url)
    ∷ ("token_value", or_none pc.call_home_token_value)
    ∷ ("interval", or_none pc.call_home_interval)
    ∷ ("ip_lookup_url", or_none pc.call_home_ip_lookup_url)
    ∷ ("script_name", or_none pc.call_home_script_name)
    ∷ ("scheduler_name", or_none pc.call_home_scheduler_name)
    ∷ ("check_certificate", flag pc.call_home_check_certificate)
    ∷ ("mac_interface", or_none pc.call_home_mac_interface)
    ∷ [])

unfoldable pub webhook : Preconfig → Dict
webhook pc = of_list (
    ("enabled", flag pc.webhook_enabled)
    ∷ ("url", or_none pc.webhook_url)
    ∷ ("token_value", or_none pc.webhook_token_value)
    ∷ ("clear_lease_script_on_disable", flag pc.webhook_clear_lease_script_on_disable)
    ∷ [])

unfoldable pub naming : Preconfig → Dict
naming pc = of_list (
    ("identity_prefix", or_none pc.identity_prefix)
    ∷ ("identity_format", or_none pc.identity_format)
    ∷ [])

abbrev pub to_preloader_payload : Preconfig → Dict
to_preloader_payload pc = of_list (
    ("mgmt_subnet", or_none pc.mgmt_subnet)
    ∷ ("target_mac", or_none pc.target_mac)
    ∷ ("bootstrap", dict (bootstrap pc))
    ∷ ("routeros", dict (routeros pc))
    ∷ ("call_home", dict (call_home pc))
    ∷ ("webhook", dict (webhook pc))
    ∷ ("naming", dict (naming pc))
    ∷ [])

abbrev pub same_code : Option String → String → Bool
same_code none code = false
same_code (some s) code = text_eq s code

-- The payload of a profile, and the empty dictionary for none.
abbrev pub payload_of : Option Preconfig → Dict
payload_of none = empty
payload_of (some pc) = to_preloader_payload pc

-- The profile under an id that a search found.
abbrev pub found_in : Database → Option ℕ → Option Preconfig
found_in db none = none
found_in db (some i) = browse i db.preconfigs

module _ ⦃platform : Platform⦄ where
  -- The sector that a code stands for.
  unfoldable pub find_sector : Option String → Database → Option ℕ
  find_sector code db =
      if has_text code
      then head? (
          platform.search Sector (λ _ sector. sector.active && same_code code sector.code)
            db.sectors)
      else none

  unfoldable pub find_profile : Option ℕ → Database → Option ℕ
  find_profile sector_id db = elim sector_id [
    | none ↦ none
    | some s ↦
        head?
          (platform.search Preconfig (λ _ pc. pc.active && same_id pc.sector_id s) db.preconfigs)
  ]

  unfoldable pub find_default : Database → Option ℕ
  find_default db =
      head? (platform.search Preconfig (λ _ pc. pc.active && pc.is_default) db.preconfigs)

  unfoldable pub get_preconfig_for_sector : Option String → Database → Dict
  get_preconfig_for_sector sector_code db =
      let profile = find_profile (find_sector sector_code db) db in
      payload_of (found_in db (if is_set profile then profile else find_default db))

-- `_check_default`
unfoldable pub check_default : ℕ → Action Database (Unit {0})
check_default i = do
  db ← gets (λ db. db)
  pc ←
      or_raise (browse i db.preconfigs) (missing_error "Record does not exist or has been deleted.")
  if pc.is_default && is_set pc.sector_id
      then raise (validation_error "El perfil default no debe estar asociado a un sector.")
      else skip
