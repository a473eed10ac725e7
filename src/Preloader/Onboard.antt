-- ===== src/Preloader/Onboard.antt =====
-- `routeros_onboard` of tools/mikrotik_preloader/preloader.py for a configuration without
-- `target_mac`.
use text.Mathlib.Text.{starts_with}
use getupnet.Prelude.{
  Bool, true, false, not, ◌&&◌, Option, none, some, List, [], ◌∷◌, String, ◌⧺◌, text_eq, has_text,
  or_text, or_value, if◌then◌else◌,
}
use getupnet.Prelude.Effects.{
  Action, Result, ok, err, other_error, when, raise, pure, try_except, except_routeros, ◌>>=◌, ◌>>◌,
}
use getupnet.Database.Network.{Command, Attributes}
use getupnet.Preloader.{RouterApi, get, api_exec, run}
use getupnet.Preloader.Config.{Config}
use getupnet.Preloader.Ensure.{
  routeros_ensure_group, routeros_ensure_user, routeros_ensure_neighbor_discovery,
}
use getupnet.Preloader.Firewall.{allow_all, routeros_ensure_firewall_drop}
use getupnet.Preloader.Scripts.{get_env_or_fail, routeros_apply_call_home}
use getupnet.Preloader.Sector.{routeros_apply_sector_config}

-- The interface of the first address that starts with `{ip}/`.
abbrev pub interface_of : String → List Attributes → Option String
interface_of ip [] = none
interface_of ip (addr ∷ addrs) =
    if starts_with (or_text (get "address" addr) "") (ip ⧺ "/")
    then get "interface" addr
    else interface_of ip addrs

abbrev pub is_empty : List String → Bool
is_empty [] = true
is_empty (x ∷ xs) = false

-- The one interface that is guessed, if there is a guess.
abbrev pub guessed : Option String → List String
guessed none = []
guessed (some name) = if text_eq name "" then [] else name ∷ []

abbrev pub lift : {A : Type 0} → Result A → Action (List Command) A
lift r sent = (r, sent)

module _ ⦃api : RouterApi⦄ where
  unfoldable pub routeros_get_mgmt_interface : String → Action (List Command) (Option String)
  routeros_get_mgmt_interface ip =
      except_routeros (do addrs ← api_exec "/ip/address/print" []; pure (interface_of ip addrs))
        (pure none)

  unfoldable pub connect : String → String → Action (List Command) (Unit {0})
  connect user password sent = elim (api.connect user password sent) [
    | none ↦ (ok tt, sent)
    | some exc ↦ (err exc, sent)
  ]

  -- `discovery_interfaces`, or the guess in its place.
  unfoldable pub get_discovery_interfaces : String → Config → Action (List Command) (List String)
  get_discovery_interfaces ip cfg =
      if is_empty (or_value cfg.discovery_interfaces [])
      then (do guess ← routeros_get_mgmt_interface ip; pure (guessed guess))
      else pure (or_value cfg.discovery_interfaces [])

  module _ (environ : String → Option String) where
    -- The password of the user that sets the router up.
    abbrev pub bootstrap_password : Config → String
    bootstrap_password cfg =
        if not (has_text cfg.bootstrap_pass) && has_text cfg.bootstrap_pass_env
        then or_value (environ (or_text cfg.bootstrap_pass_env "")) ""
        else or_text cfg.bootstrap_pass ""

    unfoldable pub mgmt_password : Config → Result String
    mgmt_password cfg =
        if has_text cfg.mgmt_pass_value
        then ok (or_text cfg.mgmt_pass_value "")
        else get_env_or_fail environ cfg.mgmt_pass_env

    -- One try at the sector's configuration, over the interface in use.
    unfoldable pub try_sector : String → Config → Action (List Command) (Unit {0})
    try_sector ip cfg = do
      mgmt_iface ← routeros_get_mgmt_interface ip
      routeros_apply_sector_config environ cfg mgmt_iface

    -- The handler of the first try connects again as the management user; a second failure is raised.
    unfoldable pub apply_sector : String → Config → String → Action (List Command) (Unit {0})
    apply_sector ip cfg password = do
      mgmt_iface ← routeros_get_mgmt_interface ip
      try_except (routeros_apply_sector_config environ cfg mgmt_iface)
          (λ exc. do connect cfg.mgmt_user password; try_sector ip cfg)

    -- A failure is raised again. Before that the handler reads `mgmt_iface`, which has no value if the
    -- sector's configuration was left out.
    unfoldable pub apply_call_home : Config → Action (List Command) (Unit {0})
    apply_call_home cfg = try_except (routeros_apply_call_home environ cfg.call_home) (λ exc.
        if or_value cfg.apply_sector_config true
        then raise exc
        else raise (other_error "cannot access local variable 'mgmt_iface'"))

    unfoldable pub configure : String → Config → String → Action (List Command) (Unit {0})
    configure ip cfg password = do
      run "/system/identity/set" (("name", some (cfg.identity_of ip)) ∷ [])
      run "/ip/service/set" (("numbers", some "api") ∷ ("disabled", some "no") ∷ [])
      routeros_ensure_group "odoo_noc_group"
          "read,write,api,!local,!telnet,!ssh,!ftp,!reboot,!policy,!password,!sniff,!sensitive"
      routeros_ensure_user cfg.mgmt_user password "odoo_noc_group"
      interfaces ← get_discovery_interfaces ip cfg
      routeros_ensure_neighbor_discovery interfaces
      allow_all cfg.api_port cfg.allowed_mgmt_ips
      routeros_ensure_firewall_drop cfg.api_port "DROP API OTHERS"
      when (or_value cfg.apply_sector_config true) (apply_sector ip cfg password)
      when (or_value cfg.call_home.enabled false) (apply_call_home cfg)

    -- The name that the router has afterwards.
    unfoldable pub routeros_onboard : String → Config → Action (List Command) String
    routeros_onboard ip cfg = do
      password ← lift (mgmt_password cfg)
      connect (or_text cfg.bootstrap_user "admin") (bootstrap_password cfg)
      configure ip cfg password
      pure (cfg.identity_of ip)
