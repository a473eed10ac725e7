-- ===== src/Preloader/Cutoff.antt =====
-- The whole sector configuration leaves the management interface out of the bridge.
use getupnet.Prelude.{
  ◌≡◌, refl, Bool, true, false, Option, none, some, List, String, text_eq, has_text,
}
use getupnet.Prelude.Effects.{Result}
use getupnet.Prelude.Invariant.{Maintains, invariant_rules}
use getupnet.Database.Network.{Command, Attributes}
use getupnet.Preloader.{RouterApi, command, routeros_get_id, unless_found}
use getupnet.Preloader.Bridge.{
  adds_port, StaysOut, run-StaysOut, find-StaysOut, bridge_ports-StaysOut,
}
use getupnet.Preloader.Ensure.{
  routeros_ensure_bridge, routeros_ensure_ip_address, routeros_ensure_ip_pool,
}
use getupnet.Preloader.Services.{
  routeros_ensure_dhcp_server, routeros_ensure_dhcp_network, routeros_ensure_dhcp_client,
  routeros_ensure_nat_masquerade, routeros_ensure_dns, routeros_ensure_hotspot_profile,
  routeros_ensure_hotspot_server, routeros_ensure_walled_garden, routeros_set_dhcp_lease_script,
  set_or_add, set_id_or_add,
}
use getupnet.Preloader.Config.{Config, SectorConfig}
use getupnet.Preloader.Sector.{
  bridge_ports, apply_lan, apply_hotspot, apply_config, routeros_apply_sector_config,
}

module _ ⦃api : RouterApi⦄ (interface : String) where
  -- A path under which nothing is put into a bridge.
  abbrev Harmless : String → Type 0
  Harmless path = text_eq path "/interface/bridge/port/add" ≡ false

  harmless :
      (path : String) (attributes : Attributes)
      → Harmless path
      → adds_port interface (command path attributes) ≡ false
  harmless path attributes other = rw other refl

  ruleset call_rules = (invariant_rules, run-StaysOut, find-StaysOut)

  unless_found-StaysOut :
      (path field value add : String) (attributes : Attributes)
      → Harmless path
      → Harmless add
      → Maintains (StaysOut interface) (unless_found path field value add attributes)
  unfolding unless_found
  unless_found-StaysOut path field value add attributes print other =
      search (call_rules, print, harmless add attributes other) depth 8

  get_id-StaysOut :
      (path field value : String)
      → Harmless path
      → Maintains (StaysOut interface) (routeros_get_id path field value)
  unfolding routeros_get_id
  get_id-StaysOut path field value print = search (call_rules, print) depth 8

  dhcp_server-StaysOut :
      (name inside pool lease : String)
      → Maintains (StaysOut interface) (routeros_ensure_dhcp_server name inside pool lease)
  unfolding routeros_ensure_dhcp_server set_or_add
  dhcp_server-StaysOut name inside pool lease = search (call_rules, get_id-StaysOut) depth 12

  dhcp_network-StaysOut :
      (address gateway dns : String)
      → Maintains (StaysOut interface) (routeros_ensure_dhcp_network address gateway dns)
  unfolding routeros_ensure_dhcp_network set_id_or_add
  dhcp_network-StaysOut address gateway dns = search (call_rules, get_id-StaysOut) depth 12

  dhcp_client-StaysOut :
      (inside comment : String)
      → Maintains (StaysOut interface) (routeros_ensure_dhcp_client inside comment)
  unfolding routeros_ensure_dhcp_client
  dhcp_client-StaysOut inside comment = search (unless_found-StaysOut) depth 8

  ip_pool-StaysOut :
      (name ranges : String) → Maintains (StaysOut interface) (routeros_ensure_ip_pool name ranges)
  unfolding routeros_ensure_ip_pool
  ip_pool-StaysOut name ranges = search (call_rules) depth 8

  ip_address-StaysOut :
      (address inside : String)
      → Maintains (StaysOut interface) (routeros_ensure_ip_address address inside)
  unfolding routeros_ensure_ip_address
  ip_address-StaysOut address inside = search (unless_found-StaysOut) depth 8

  bridge-StaysOut : (name : String) → Maintains (StaysOut interface) (routeros_ensure_bridge name)
  unfolding routeros_ensure_bridge
  bridge-StaysOut name = search (unless_found-StaysOut) depth 8

  nat-StaysOut :
      (out comment : String)
      → Maintains (StaysOut interface) (routeros_ensure_nat_masquerade out comment)
  unfolding routeros_ensure_nat_masquerade
  nat-StaysOut out comment = search (unless_found-StaysOut) depth 8

  dns-StaysOut : (servers : String) → Maintains (StaysOut interface) (routeros_ensure_dns servers)
  unfolding routeros_ensure_dns
  dns-StaysOut servers = search (call_rules) depth 8

  hotspot_profile-StaysOut :
      (name dns login html : String)
      → Maintains (StaysOut interface) (routeros_ensure_hotspot_profile name dns login html)
  unfolding routeros_ensure_hotspot_profile set_or_add
  hotspot_profile-StaysOut name dns login html = search (call_rules, get_id-StaysOut) depth 12

  hotspot_server-StaysOut :
      (name inside pool profile : String)
      → Maintains (StaysOut interface) (routeros_ensure_hotspot_server name inside pool profile)
  unfolding routeros_ensure_hotspot_server set_or_add
  hotspot_server-StaysOut name inside pool profile = search (call_rules, get_id-StaysOut) depth 12

  walled_garden-StaysOut :
      (domain comment : String)
      → Maintains (StaysOut interface) (routeros_ensure_walled_garden domain comment)
  unfolding routeros_ensure_walled_garden
  walled_garden-StaysOut domain comment = search (unless_found-StaysOut) depth 8

  lease_script-StaysOut :
      (server : String) (script : Option String) (clear : Bool)
      → Maintains (StaysOut interface) (routeros_set_dhcp_lease_script server script clear)
  unfolding routeros_set_dhcp_lease_script
  lease_script-StaysOut server script clear = search (call_rules, get_id-StaysOut) depth 12

  module _ (named : has_text (some interface) ≡ true) where
    ports-StaysOut :
        (bridge : String) (ports : List String)
        → Maintains (StaysOut interface) (bridge_ports bridge (some interface) ports)
    ports-StaysOut bridge ports = record {
      at = λ sent. bridge_ports-StaysOut interface bridge ports sent named;
    }

    lan-StaysOut :
        (rcfg : SectorConfig) → Maintains (StaysOut interface) (apply_lan rcfg (some interface))
    unfolding apply_lan
    lan-StaysOut rcfg =
        search
          (
            invariant_rules, ports-StaysOut, dhcp_client-StaysOut, bridge-StaysOut,
            ip_address-StaysOut, ip_pool-StaysOut, dhcp_server-StaysOut, dhcp_network-StaysOut,
          )
          depth 20

    hotspot-StaysOut : (rcfg : SectorConfig) → Maintains (StaysOut interface) (apply_hotspot rcfg)
    unfolding apply_hotspot
    hotspot-StaysOut rcfg =
        search
          (
            invariant_rules, hotspot_profile-StaysOut, hotspot_server-StaysOut,
            walled_garden-StaysOut,
          )
          depth 16

    result-StaysOut :
        {A : Type 0} (r : Result A)
        → Maintains (StaysOut interface) (λ (sent : List Command). (r, sent))
    result-StaysOut r = record { at = λ sent h. h }

    config-StaysOut :
        (environ : String → Option String) (cfg : Config) (rcfg : SectorConfig)
        → Maintains (StaysOut interface) (apply_config environ cfg rcfg (some interface))
    unfolding apply_config
    config-StaysOut environ cfg rcfg =
        search
          (
            invariant_rules, lan-StaysOut, hotspot-StaysOut, dns-StaysOut, nat-StaysOut,
            result-StaysOut, lease_script-StaysOut,
          )
          depth 20

  -- Whatever the configuration says and however the router answers, at whichever step it ends, the
  -- configuration of a sector sends no command that puts the interface of the management address into
  -- a bridge, if none was sent before.
  pub sector_config-StaysOut :
      (environ : String → Option String) (cfg : Config) (sent : List Command)
      → has_text (some interface) ≡ true
      → StaysOut interface sent
      → StaysOut interface (routeros_apply_sector_config environ cfg (some interface) sent).1
  unfolding routeros_apply_sector_config
  sector_config-StaysOut environ cfg sent named h = go cfg.sector
    where
      go :
          (sector : Option SectorConfig)
          → StaysOut interface
              (routeros_apply_sector_config environ
                (record cfg { sector = sector })
                (some interface)
                sent).1
      go none = h
      go (some rcfg) =
          (config-StaysOut named environ (record cfg { sector = some rcfg }) rcfg).at sent h
