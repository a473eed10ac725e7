-- ===== src/Preloader/Services.antt =====
-- The `routeros_ensure_*` functions of tools/mikrotik_preloader/preloader.py on DHCP, NAT, DNS,
-- hotspots, scripts and schedules.
use getupnet.Prelude.{
  Bool, not, ◌&&◌, Option, some, List, [], ◌∷◌, String, ◌⧺◌, has_text, or_text, if◌then◌else◌,
}
use getupnet.Prelude.Effects.{Action, skip, ◌>>=◌}
use getupnet.Database.Network.{Command, Attributes}
use getupnet.Preloader.{RouterApi, found, run, routeros_find, routeros_get_id, unless_found}

module _ ⦃api : RouterApi⦄ where
  -- Where a print finds the name, a `set` on its id, or on the name where it has none; else an `add`.
  unfoldable pub set_or_add :
      String → String → String → Attributes → Action (List Command) (Unit {0})
  set_or_add menu print name attributes = do
    items ← routeros_find print "name" name
    if found items
        then (do
          id ← routeros_get_id print "name" name
          run (menu ⧺ "/set") (("numbers", some (or_text id name)) ∷ attributes))
        else run (menu ⧺ "/add") (("name", some name) ∷ attributes)

  unfoldable pub routeros_ensure_dhcp_server :
      String → String → String → String → Action (List Command) (Unit {0})
  routeros_ensure_dhcp_server name interface pool lease_time =
      set_or_add "/ip/dhcp-server" "/ip/dhcp-server/print" name (
        ("interface", some interface)
        ∷ ("address-pool", some pool)
        ∷ ("lease-time", some lease_time)
        ∷ [])

  -- Where a print gives an id, a `set` on it; else an `add` under a key.
  unfoldable pub set_id_or_add :
      String → String → String → Attributes → Action (List Command) (Unit {0})
  set_id_or_add menu key value attributes = do
    id ← routeros_get_id (menu ⧺ "/print") key value
    if has_text id
        then run (menu ⧺ "/set") (("numbers", id) ∷ attributes)
        else run (menu ⧺ "/add") ((key, some value) ∷ attributes)

  unfoldable pub routeros_ensure_dhcp_network :
      String → String → String → Action (List Command) (Unit {0})
  routeros_ensure_dhcp_network address gateway dns_server =
      set_id_or_add "/ip/dhcp-server/network" "address" address
        (("gateway", some gateway) ∷ ("dns-server", some dns_server) ∷ [])

  unfoldable pub routeros_ensure_dhcp_client : String → String → Action (List Command) (Unit {0})
  routeros_ensure_dhcp_client interface comment =
      unless_found "/ip/dhcp-client/print" "interface" interface "/ip/dhcp-client/add" (
        ("interface", some interface)
        ∷ ("disabled", some "no")
        ∷ ("add-default-route", some "yes")
        ∷ ("use-peer-dns", some "yes")
        ∷ ("comment", some comment)
        ∷ [])

  unfoldable pub routeros_ensure_nat_masquerade : String → String → Action (List Command) (Unit {0})
  routeros_ensure_nat_masquerade out_interface comment =
      unless_found "/ip/firewall/nat/print" "comment" comment "/ip/firewall/nat/add" (
        ("chain", some "srcnat")
        ∷ ("out-interface", some out_interface)
        ∷ ("action", some "masquerade")
        ∷ ("comment", some comment)
        ∷ [])

  unfoldable pub routeros_ensure_dns : String → Action (List Command) (Unit {0})
  routeros_ensure_dns servers =
      run "/ip/dns/set" (("servers", some servers) ∷ ("allow-remote-requests", some "yes") ∷ [])

  unfoldable pub routeros_ensure_hotspot_profile :
      String → String → String → String → Action (List Command) (Unit {0})
  routeros_ensure_hotspot_profile name dns_name login_by html_dir =
      set_or_add "/ip/hotspot/profile" "/ip/hotspot/profile/print" name (
        ("dns-name", some dns_name)
        ∷ ("login-by", some login_by)
        ∷ ("html-directory", some html_dir)
        ∷ [])

  unfoldable pub routeros_ensure_hotspot_server :
      String → String → String → String → Action (List Command) (Unit {0})
  routeros_ensure_hotspot_server name interface pool profile =
      set_or_add "/ip/hotspot" "/ip/hotspot/print" name (
        ("interface", some interface)
        ∷ ("address-pool", some pool)
        ∷ ("profile", some profile)
        ∷ [])

  unfoldable pub routeros_ensure_walled_garden : String → String → Action (List Command) (Unit {0})
  routeros_ensure_walled_garden domain comment =
      unless_found "/ip/hotspot/walled-garden/print" "comment" comment
        "/ip/hotspot/walled-garden/add" (("dst-host", some domain) ∷ ("comment", some comment) ∷ [])

  unfoldable pub routeros_set_dhcp_lease_script :
      String → Option String → Bool → Action (List Command) (Unit {0})
  routeros_set_dhcp_lease_script dhcp_server script clear_if_empty =
      if not (has_text script) && not clear_if_empty then skip else (do
        id ← routeros_get_id "/ip/dhcp-server/print" "name" dhcp_server
        run "/ip/dhcp-server/set" (
            ("numbers", some (or_text id dhcp_server))
            ∷ ("lease-script", some (or_text script ""))
            ∷ []))

  unfoldable pub routeros_ensure_script :
      String → Option String → String → Action (List Command) (Unit {0})
  routeros_ensure_script name source policy =
      if has_text source
      then set_id_or_add "/system/script" "name" name
          (("source", source) ∷ ("policy", some policy) ∷ [])
      else skip

  unfoldable pub routeros_ensure_scheduler :
      String → String → String → String → Action (List Command) (Unit {0})
  routeros_ensure_scheduler name interval on_event start_time =
      set_id_or_add "/system/scheduler" "name" name (
        ("interval", some interval)
        ∷ ("on-event", some on_event)
        ∷ ("start-time", some start_time)
        ∷ ("disabled", some "no")
        ∷ [])
