-- ===== src/Tests/Preloader.antt =====
-- The theorems on the preloader, with a router that finds what it was sent.
use getupnet.Prelude.{
  ◌≡◌, refl, Bool, true, ◌||◌, none, some, List, [], ◌∷◌, ◌++◌, text_eq, any, arith, if◌then◌else◌,
}
use getupnet.Prelude.Effects.{Result, ok}
use getupnet.Database.Network.{Command, Attributes}
use getupnet.Preloader.{RouterApi, command, api_exec, run, routeros_find, find_in_all, unless_found}
use getupnet.Preloader.Sector.{routeros_apply_sector_config}
use getupnet.Preloader.Again.{query, Finds, Remembers, unless_found-again}
use getupnet.Preloader.Config.{Config, SectorConfig}
use getupnet.Preloader.Cutoff.{sector_config-StaysOut}
use getupnet.Preloader.Bridge.{StaysOut}

abbrev is_bridge_add : Command → Bool
is_bridge_add c = text_eq c.path "/interface/bridge/add"

abbrev is_print : Command → Bool
is_print c =
    text_eq c.path "/interface/bridge/print"
    || text_eq c.path "/interface/print"
    || text_eq c.path "/ip/firewall/filter/print"

abbrev item : Attributes
item = (".id", some "*1") ∷ []

-- The router has every interface and the rule for the API, and bridges from when one was added.
abbrev reply : List Command → Command → Result (List Attributes)
reply sent c =
    if is_print c
    then ok (
        if text_eq c.path "/interface/bridge/print"
        then (if any is_bridge_add sent then item ∷ [] else [])
        else item ∷ [])
    else ok []

instance abbrev memory : RouterApi
memory = record { answer = reply; connect = λ user password sent. none }

any-append :
    (sent : List Command) (c : Command)
    → any is_bridge_add (sent ++ c ∷ []) ≡ any is_bridge_add sent || is_bridge_add c
any-append [] c = ground arith
any-append (d ∷ sent) c = ground (arith, any-append sent c)

abbrev ask : Command
ask = query "/interface/bridge/print" "name" "bridge1"

abbrev add : Command
add = command "/interface/bridge/add" (("name", some "bridge1") ∷ [])

found-added : (sent : List Command) → any is_bridge_add sent ≡ true → Finds ask sent
found-added sent added = (item ∷ [], rw added refl, refl)

asked-added : (sent : List Command) → Finds ask sent → any is_bridge_add sent ≡ true
asked-added sent (items, answered, some_found) = ground (arith, answered, some_found)

memory-Remembers : Remembers ask add
memory-Remembers = record {
  after_add = λ sent accepted. found-added (sent ++ add ∷ []) (ground (arith, any-append sent add));
  after_query = λ sent finds.
      found-added (sent ++ ask ∷ []) (ground (arith, any-append sent ask, asked-added sent finds));
}

first_run :
    (unless_found "/interface/bridge/print" "name" "bridge1" "/interface/bridge/add"
      (("name", some "bridge1") ∷ [])
      []).0
    ≡ ok tt
unfolding unless_found run api_exec routeros_find find_in_all
first_run = refl

unless_found-again_example :
    let first =
      (unless_found "/interface/bridge/print" "name" "bridge1" "/interface/bridge/add"
        (("name", some "bridge1") ∷ [])
        []).1 in
    unless_found "/interface/bridge/print" "name" "bridge1" "/interface/bridge/add"
      (("name", some "bridge1") ∷ [])
      first
    ≡ (ok tt, first ++ ask ∷ [])
unless_found-again_example =
    unless_found-again "/interface/bridge/print" "name" "bridge1" "/interface/bridge/add"
      (("name", some "bridge1") ∷ []) [] memory-Remembers refl first_run

-- A sector whose management interface stands among the ports of the bridge.
abbrev sector : SectorConfig
sector = record {
  wan_interface = some "ether5";
  lan_bridge = some "bridge1";
  lan_ports = some ("ether1" ∷ "ether2" ∷ []);
  lan_address = some "10.1.0.1/24";
  dhcp_pool = some "pool1";
  dhcp_range = some "10.1.0.10-10.1.0.99";
  dhcp_server = some "dhcp1";
  dhcp_lease_time = none;
  dhcp_network = some "10.1.0.0/24";
  dns_server = none;
  enable_dhcp_client_wan = none;
  enable_nat = none;
  enable_hotspot = none;
  hotspot_profile = none;
  hotspot_server = none;
  hotspot_dns_name = none;
  hotspot_login_by = none;
  hotspot_html_dir = none;
  hotspot_walled_garden = none;
}

abbrev pub config : Config
config = record {
  sector_code = some "S1";
  odoo_url = "http://odoo";
  api_port = "8728";
  bootstrap_user = none;
  bootstrap_pass = none;
  bootstrap_pass_env = none;
  mgmt_user = "noc";
  mgmt_pass_value = some "secret";
  mgmt_pass_env = none;
  allowed_mgmt_ips = "10.0.0.8" ∷ "10.0.0.9" ∷ [];
  discovery_interfaces = none;
  apply_sector_config = none;
  identity_of = λ ip. "S1-1";
  sector = some sector;
  webhook = record {
    enabled = none;
    token_env = none;
    token_value = none;
    url = none;
    sector_code = none;
    clear_lease_script_on_disable = none;
  };
  call_home = record {
    enabled = none;
    script_name = none;
    scheduler_name = none;
    interval = none;
    token_env = none;
    token_value = none;
    url = none;
    ip_lookup_url = none;
    mac_interface = none;
    check_certificate = none;
  };
}

sector_config-StaysOut_example :
    StaysOut "ether1" (routeros_apply_sector_config (λ name. none) config (some "ether1") []).1
sector_config-StaysOut_example = sector_config-StaysOut "ether1" (λ name. none) config [] refl tt
