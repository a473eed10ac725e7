-- ===== src/Preloader/Sector.antt =====
-- `routeros_apply_sector_config` of tools/mikrotik_preloader/preloader.py.
use getupnet.Prelude.{
  Bool, true, false, not, ◌&&◌, Option, none, some, List, [], String, text_eq, has_text, or_text,
  or_value, if◌then◌else◌,
}
use getupnet.Prelude.Effects.{Action, runtime_error, skip, when, raise, for_each, ◌>>=◌, ◌>>◌}
use getupnet.Database.Network.{Command}
use getupnet.Preloader.{RouterApi}
use getupnet.Preloader.Paths.{before_slash}
use getupnet.Preloader.Config.{Config, SectorConfig}
use getupnet.Preloader.Ensure.{
  routeros_ensure_bridge, routeros_ensure_bridge_port, routeros_ensure_ip_address,
  routeros_ensure_ip_pool,
}
use getupnet.Preloader.Services.{
  routeros_ensure_dhcp_server, routeros_ensure_dhcp_network, routeros_ensure_dhcp_client,
  routeros_ensure_nat_masquerade, routeros_ensure_dns, routeros_ensure_hotspot_profile,
  routeros_ensure_hotspot_server, routeros_ensure_walled_garden, routeros_set_dhcp_lease_script,
}
use getupnet.Preloader.Scripts.{build_lease_script}

-- The values without which the function raises.
unfoldable pub is_complete : SectorConfig → Bool
is_complete rcfg =
    has_text rcfg.wan_interface
    && has_text rcfg.lan_bridge
    && has_text rcfg.lan_address
    && has_text rcfg.dhcp_pool
    && has_text rcfg.dhcp_range
    && has_text rcfg.dhcp_server
    && has_text rcfg.dhcp_network

-- Whether a port is the one that the connection itself runs over.
abbrev pub is_mgmt : Option String → String → Bool
is_mgmt mgmt_iface port = has_text mgmt_iface && text_eq port (or_text mgmt_iface "")

abbrev pub text : Option String → String
text s = or_text s ""

module _ ⦃api : RouterApi⦄ where
  unfoldable pub bridge_ports :
      String → Option String → List String → Action (List Command) (Unit {0})
  bridge_ports bridge mgmt_iface ports =
      for_each ports
        (λ port. if is_mgmt mgmt_iface port then skip else routeros_ensure_bridge_port bridge port)

  unfoldable pub apply_lan : SectorConfig → Option String → Action (List Command) (Unit {0})
  apply_lan rcfg mgmt_iface = do
    when (or_value rcfg.enable_dhcp_client_wan true)
        (routeros_ensure_dhcp_client (text rcfg.wan_interface) "ISP-WAN")
    routeros_ensure_bridge (text rcfg.lan_bridge)
    bridge_ports (text rcfg.lan_bridge) mgmt_iface (or_value rcfg.lan_ports [])
    routeros_ensure_ip_address (text rcfg.lan_address) (text rcfg.lan_bridge)
    routeros_ensure_ip_pool (text rcfg.dhcp_pool) (text rcfg.dhcp_range)
    routeros_ensure_dhcp_server (text rcfg.dhcp_server) (text rcfg.lan_bridge) (text rcfg.dhcp_pool)
        (or_value rcfg.dhcp_lease_time "1h")
    routeros_ensure_dhcp_network (text rcfg.dhcp_network) (before_slash (text rcfg.lan_address))
        (or_text rcfg.dns_server (before_slash (text rcfg.lan_address)))

  unfoldable pub apply_hotspot : SectorConfig → Action (List Command) (Unit {0})
  apply_hotspot rcfg = do
    when (not (has_text rcfg.hotspot_dns_name))
        (raise (runtime_error "hotspot_dns_name is required when enable_hotspot is true"))
    routeros_ensure_hotspot_profile (or_value rcfg.hotspot_profile "hs-prof")
        (text rcfg.hotspot_dns_name) (or_value rcfg.hotspot_login_by "http-chap")
        (or_value rcfg.hotspot_html_dir "hotspot")
    routeros_ensure_hotspot_server (or_value rcfg.hotspot_server "hs1") (text rcfg.lan_bridge)
        (text rcfg.dhcp_pool) (or_value rcfg.hotspot_profile "hs-prof")
    when (has_text rcfg.hotspot_walled_garden)
        (routeros_ensure_walled_garden (text rcfg.hotspot_walled_garden) "ISP-WALLED-GARDEN")

  unfoldable pub apply_config :
      (String → Option String)
      → Config
      → SectorConfig
      → Option String
      → Action (List Command) (Unit {0})
  apply_config environ cfg rcfg mgmt_iface = do
    when (not (is_complete rcfg)) (raise (runtime_error "Missing routeros.config required values"))
    apply_lan rcfg mgmt_iface
    when (has_text rcfg.dns_server) (routeros_ensure_dns (text rcfg.dns_server))
    when (or_value rcfg.enable_nat true)
        (routeros_ensure_nat_masquerade (text rcfg.wan_interface) "ISP-NAT")
    when (or_value rcfg.enable_hotspot false) (apply_hotspot rcfg)
    script ← (λ sent. (build_lease_script environ cfg, sent))
    routeros_set_dhcp_lease_script (text rcfg.dhcp_server) script
        (or_value cfg.webhook.clear_lease_script_on_disable true)

  unfoldable pub routeros_apply_sector_config :
      (String → Option String) → Config → Option String → Action (List Command) (Unit {0})
  routeros_apply_sector_config environ cfg mgmt_iface = elim cfg.sector [
    | none ↦ skip
    | some rcfg ↦ apply_config environ cfg rcfg mgmt_iface
  ]
