-- ===== src/Database/Network.antt =====
-- The rows of addons/isp_mikrotik/models, addons/isp_captive_portal/models and
-- addons/isp_onu/models, and the commands that are sent to routers.
use getupnet.Prelude.{ℕ, Bool, Option, String, List}

pub data Health : Type 0 where
  healthy failed : Health

pub record Router : Type 0 where
  pub device_id : ℕ
  pub api_user : Option String
  pub routeros_version : Option String
  pub last_healthcheck_at : Option ℕ
  pub last_healthcheck_status : Option Health

pub data CaptiveState : Type 0 where
  active disabled : CaptiveState

pub record CaptiveUser : Type 0 where
  pub username : String
  pub password : Option String
  pub profile : Option String
  pub state : CaptiveState
  pub router_id : Option ℕ

pub record WalledGarden : Type 0 where
  pub domain : String
  pub router_id : Option ℕ

pub record OnuAssignment : Type 0 where
  pub onu_id : ℕ
  pub subscription_id : ℕ
  pub active : Bool
  pub assigned_at : Option ℕ
  pub unassigned_at : Option ℕ

-- isp.mikrotik.preconfig; an empty text is `none`.
pub record Preconfig : Type 0 where
  pub active : Bool
  pub sector_id : Option ℕ
  pub is_default : Bool
  pub mgmt_subnet : Option String
  pub target_mac : Option String
  pub bootstrap_user : Option String
  pub bootstrap_pass : Option String
  pub api_port : ℕ
  pub routeros_mgmt_user : Option String
  pub routeros_mgmt_pass_env : Option String
  pub routeros_mgmt_pass_value : Option String
  pub discovery_interfaces : Option String
  pub allowed_mgmt_ips : Option String
  pub apply_sector_config : Bool
  pub wan_interface : Option String
  pub lan_bridge : Option String
  pub lan_ports : Option String
  pub lan_address : Option String
  pub dhcp_pool : Option String
  pub dhcp_range : Option String
  pub dhcp_server : Option String
  pub dhcp_lease_time : Option String
  pub dhcp_network : Option String
  pub dns_server : Option String
  pub enable_dhcp_client_wan : Bool
  pub enable_nat : Bool
  pub enable_hotspot : Bool
  pub hotspot_profile : Option String
  pub hotspot_server : Option String
  pub hotspot_dns_name : Option String
  pub hotspot_walled_garden : Option String
  pub hotspot_login_by : Option String
  pub hotspot_html_dir : Option String
  pub call_home_enabled : Bool
  pub call_home_url : Option String
  pub call_home_token_value : Option String
  pub call_home_interval : Option String
  pub call_home_ip_lookup_url : Option String
  pub call_home_script_name : Option String
  pub call_home_scheduler_name : Option String
  pub call_home_check_certificate : Bool
  pub call_home_mac_interface : Option String
  pub webhook_enabled : Bool
  pub webhook_url : Option String
  pub webhook_token_value : Option String
  pub webhook_clear_lease_script_on_disable : Bool
  pub identity_prefix : Option String
  pub identity_format : Option String

-- The attributes of a RouterOS sentence; `none` is Python's `False` or `None`.
abbrev pub Attributes : Type 0
Attributes = List (String × Option String)

pub record Command : Type 0 where
  pub path : String
  pub attributes : Attributes
