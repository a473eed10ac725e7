-- ===== src/Tests/Preconfig.antt =====
-- The theorems on preconfigurations, with a profile for a sector and a small local configuration.
use getupnet.Prelude.{
  ◌≡◌, refl, Bool, true, false, Option, none, some, List, [], ◌∷◌, String, arith, if◌then◌else◌,
}
use getupnet.Prelude.Effects.{Result, ok}
use getupnet.Prelude.Rows.{matching, browse}
use getupnet.Database.{Database}
use getupnet.Database.Network.{Preconfig}
use getupnet.Samples.{office, db}
use getupnet.Preconfig.Text.{split, lstrip, rstrip, is_space, strip_all, parse_csv}
use getupnet.Preconfig.Csv.{join, parse_csv-join}
use getupnet.Preloader.Scripts.{get_env_or_fail}
use getupnet.Preloader.Register.{log_in}
use getupnet.Preconfig.Value.{null, flag, number, text, dict, Dict, get}
use getupnet.Preconfig.Payload.{
  of_list, find_profile, find_sector, to_routeros_config, bootstrap, routeros, call_home, webhook,
  naming,
}
use getupnet.Preconfig.Merge.{merge_dict}
use getupnet.Preconfig.Keys.{fits}
use getupnet.Preconfig.Override.{gives, leaf, merge_dict-overrides}
use getupnet.Preconfig.Fetch.{load_preconfig, load_preconfig-overrides}

abbrev ports : List String
ports = "ether3" ∷ "wlan1" ∷ []

parse_csv-join_example : parse_csv (some (join ports)) ≡ ports
unfolding lstrip rstrip is_space
parse_csv-join_example = parse_csv-join ports (ground arith)

parse_spaces : parse_csv (some " ether3 ,, ether4") ≡ "ether3" ∷ "ether4" ∷ []
unfolding split lstrip rstrip is_space strip_all
parse_spaces = refl

abbrev local : Dict
local = of_list (("user", text "admin") ∷ ("extra", dict (of_list (("a", number 1) ∷ []))) ∷ [])

abbrev sent : Dict
sent =
    of_list
      (("user", null) ∷ ("pass", text "x") ∷ ("extra", dict (of_list (("b", number 2) ∷ []))) ∷ [])

merge_dict-overrides_example :
    ((merge_dict sent (dict local)).0 ≡ ok tt)
    × ((path : List String)
        → leaf path (merge_dict sent (dict local)).1
          ≡ (if gives path sent then leaf path (dict sent) else leaf path (dict local)))
unfolding get fits
merge_dict-overrides_example = merge_dict-overrides sent local (ground arith) refl

abbrev profile : Preconfig
profile = record {
  active = true;
  sector_id = some 1;
  is_default = false;
  mgmt_subnet = some "192.168.88.0/24";
  target_mac = none;
  bootstrap_user = some "admin";
  bootstrap_pass = none;
  api_port = 8728;
  routeros_mgmt_user = some "odoo_noc";
  routeros_mgmt_pass_env = some "MIKROTIK_MGMT_PASS";
  routeros_mgmt_pass_value = none;
  discovery_interfaces = some "ether2, ether3";
  allowed_mgmt_ips = none;
  apply_sector_config = true;
  wan_interface = some "ether2";
  lan_bridge = some "br-pon";
  lan_ports = some "ether3,ether4";
  lan_address = some "10.10.10.1/24";
  dhcp_pool = none;
  dhcp_range = none;
  dhcp_server = none;
  dhcp_lease_time = none;
  dhcp_network = none;
  dns_server = none;
  enable_dhcp_client_wan = true;
  enable_nat = true;
  enable_hotspot = false;
  hotspot_profile = none;
  hotspot_server = none;
  hotspot_dns_name = none;
  hotspot_walled_garden = none;
  hotspot_login_by = none;
  hotspot_html_dir = none;
  call_home_enabled = true;
  call_home_url = none;
  call_home_token_value = none;
  call_home_interval = none;
  call_home_ip_lookup_url = none;
  call_home_script_name = none;
  call_home_scheduler_name = none;
  call_home_check_certificate = false;
  call_home_mac_interface = none;
  webhook_enabled = false;
  webhook_url = none;
  webhook_token_value = none;
  webhook_clear_lease_script_on_disable = true;
  identity_prefix = some "MT-";
  identity_format = none;
}

abbrev db_profiles : Database
db_profiles = record db {
  sectors = (1, record { name = "North"; code = "N1"; active = true }) ∷ [];
  preconfigs = (4, profile) ∷ [];
}

abbrev access : Dict
access = of_list (
    ("url", text "http://localhost")
    ∷ ("db", text "isp")
    ∷ ("user", text "admin")
    ∷ ("pass_env", text "ODOO_PASS")
    ∷ ("fetch_preconfig", flag true)
    ∷ [])

abbrev config : Dict
config = of_list (
    ("sector_code", text "N1")
    ∷ ("odoo", dict access)
    ∷ (
      "routeros",
      dict (
          of_list (
            ("mgmt_user", text "local")
            ∷ ("config", dict (of_list (("wan_interface", text "sfp1") ∷ [])))
            ∷ [])),
    )
    ∷ [])

abbrev environ : String → Option String
environ name = some "secret"

abbrev accepts : String → Result Bool
accepts password = ok true

abbrev unchanged : Dict → Result Dict
unchanged payload = ok payload

-- The interface of the profile, in place of the local one.
load_preconfig-overrides_example :
    leaf
      ("routeros" ∷ "config" ∷ "wan_interface" ∷ [])
      (load_preconfig environ accepts unchanged db_profiles config)
    ≡ some (text "ether2")
unfolding get fits leaf gives to_routeros_config bootstrap routeros call_home webhook naming log_in
    get_env_or_fail find_profile find_sector split lstrip rstrip is_space strip_all matching browse
load_preconfig-overrides_example =
    load_preconfig-overrides environ accepts unchanged db_profiles config access
      ("routeros" ∷ "config" ∷ "wan_interface" ∷ []) 4 {pc = profile} refl refl refl refl refl refl
      refl refl
