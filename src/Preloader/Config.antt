-- ===== src/Preloader/Config.antt =====
-- The configuration that tools/mikrotik_preloader/preloader.py reads from its YAML file, with a field
-- for each key that the modelled functions read; `none` is a key that is missing.
use getupnet.Prelude.{Bool, Option, List, String}

-- `routeros.config`
pub record SectorConfig : Type 0 where
  pub wan_interface : Option String
  pub lan_bridge : Option String
  pub lan_ports : Option (List String)
  pub lan_address : Option String
  pub dhcp_pool : Option String
  pub dhcp_range : Option String
  pub dhcp_server : Option String
  pub dhcp_lease_time : Option String
  pub dhcp_network : Option String
  pub dns_server : Option String
  pub enable_dhcp_client_wan : Option Bool
  pub enable_nat : Option Bool
  pub enable_hotspot : Option Bool
  pub hotspot_profile : Option String
  pub hotspot_server : Option String
  pub hotspot_dns_name : Option String
  pub hotspot_login_by : Option String
  pub hotspot_html_dir : Option String
  pub hotspot_walled_garden : Option String

pub record Webhook : Type 0 where
  pub enabled : Option Bool
  pub token_env : Option String
  pub token_value : Option String
  pub url : Option String
  pub sector_code : Option String
  pub clear_lease_script_on_disable : Option Bool

pub record CallHome : Type 0 where
  pub enabled : Option Bool
  pub script_name : Option String
  pub scheduler_name : Option String
  pub interval : Option String
  pub token_env : Option String
  pub token_value : Option String
  pub url : Option String
  pub ip_lookup_url : Option String
  pub mac_interface : Option String
  pub check_certificate : Option Bool

-- The whole file. A missing or empty `routeros.config` is `none`; ports are texts, as they are sent;
-- `identity_of` is the name that `naming` gives to a router by its address; `allowed_mgmt_ips` has
-- the addresses of the environment at its end.
pub record Config : Type 0 where
  pub sector_code : Option String
  pub odoo_url : String
  pub api_port : String
  pub bootstrap_user : Option String
  pub bootstrap_pass : Option String
  pub bootstrap_pass_env : Option String
  pub mgmt_user : String
  pub mgmt_pass_value : Option String
  pub mgmt_pass_env : Option String
  pub allowed_mgmt_ips : List String
  pub discovery_interfaces : Option (List String)
  pub apply_sector_config : Option Bool
  pub identity_of : String → String
  pub sector : Option SectorConfig
  pub webhook : Webhook
  pub call_home : CallHome
