-- ===== src/Scanner/Hotspot.antt =====
-- addons/mikrotik_onboard.py, which is meant to set up a hotspot on a router, over the list of
-- commands that the router was sent.
use getupnet.Prelude.{Bool, not, some, List, [], ◌∷◌, String, is_set, any, if◌then◌else◌}
use getupnet.Prelude.Effects.{Action, other_error, skip, when, or_raise, ◌>>=◌, ◌>>◌}
use getupnet.Database.Network.{Command, Attributes}
use getupnet.Preloader.{RouterApi, get, found, api_exec}
use getupnet.Scanner.{with_attribute, unread, guarded}

abbrev pub lan_interface : String
lan_interface = "ether2"

abbrev pub olt_interface : String
olt_interface = "ether3"

abbrev pub hotspot_user : String
hotspot_user = "admin@getupsoft.com"

abbrev pub hotspot_pass : String
hotspot_pass = "Admin1234"

abbrev pub creds : List (String × String)
creds = ("admin", "getupsoft") ∷ ("admin", "Getupsoft") ∷ []

-- `existing_user['.id']`
unfoldable pub id_of : Attributes → Action (List Command) String
id_of user = or_raise (get ".id" user) (other_error "'.id'")

module _ ⦃api : RouterApi⦄ where
  -- Whether some credentials open a connection; there is one port to try.
  unfoldable pub connects : List Command → Bool
  connects sent = any (λ (user, password). not (is_set (api.connect user password sent))) creds

  unfoldable pub check_olt : Action (List Command) (Unit {0})
  check_olt = do
    all_ifaces ← api_exec "/interface/print" []
    when (found (with_attribute "name" olt_interface all_ifaces)) (
        guarded (do
          api_exec "/interface/ethernet/monitor"
              (("numbers", some olt_interface) ∷ ("once", some "yes") ∷ [])
          skip))

  unfoldable pub ensure_address : Action (List Command) (Unit {0})
  ensure_address = do
    all_ips ← api_exec "/ip/address/print" []
    when (not (found (with_attribute "interface" lan_interface all_ips))) (
        unread (
          api_exec "/ip/address/add"
            (("address", some "10.5.50.1/24") ∷ ("interface", some lan_interface) ∷ [])))

  unfoldable pub ensure_pool : Action (List Command) (Unit {0})
  ensure_pool = do
    all_pools ← api_exec "/ip/pool/print" []
    when (not (found (with_attribute "name" "hs-pool-1" all_pools))) (
        unread (
          api_exec "/ip/pool/add"
            (("name", some "hs-pool-1") ∷ ("ranges", some "10.5.50.10-10.5.50.254") ∷ [])))

  unfoldable pub ensure_profile : Action (List Command) (Unit {0})
  ensure_profile = do
    all_profiles ← api_exec "/ip/hotspot/profile/print" []
    when (not (found (with_attribute "name" "hsprof1" all_profiles))) (
        unread (
          api_exec "/ip/hotspot/profile/add" (
            ("name", some "hsprof1")
            ∷ ("hotspot_address", some "10.5.50.1")
            ∷ ("dns_name", some "hotspot.getupnet.local")
            ∷ ("html_directory", some "hotspot")
            ∷ [])))

  unfoldable pub ensure_server : Action (List Command) (Unit {0})
  ensure_server = do
    all_servers ← api_exec "/ip/hotspot/print" []
    when (not (found (with_attribute "interface" lan_interface all_servers))) (
        unread (
          api_exec "/ip/hotspot/add" (
            ("name", some "hs-server1")
            ∷ ("interface", some lan_interface)
            ∷ ("address_pool", some "hs-pool-1")
            ∷ ("profile", some "hsprof1")
            ∷ [])))

  -- The first user of the name gets the password, or a new user has it.
  unfoldable pub set_or_add : List Attributes → Action (List Command) (Unit {0})
  set_or_add [] = unread (
      api_exec "/ip/hotspot/user/add" (
        ("name", some hotspot_user)
        ∷ ("password", some hotspot_pass)
        ∷ ("profile", some "default")
        ∷ []))
  set_or_add (existing_user ∷ users) = do
    user_id ← id_of existing_user
    unread (
        api_exec "/ip/hotspot/user/set"
          ((".id", some user_id) ∷ ("password", some hotspot_pass) ∷ []))

  unfoldable pub ensure_user : Action (List Command) (Unit {0})
  ensure_user = do
    all_users ← api_exec "/ip/hotspot/user/print" []
    set_or_add (with_attribute "name" hotspot_user all_users)

  unfoldable pub setup_hotspot : Action (List Command) (Unit {0})
  setup_hotspot = do ensure_address; ensure_pool; ensure_profile; ensure_server; ensure_user

  unfoldable pub hotspot_main : Action (List Command) (Unit {0})
  hotspot_main sent =
      if connects sent then (do guarded check_olt; guarded setup_hotspot) sent else skip sent
