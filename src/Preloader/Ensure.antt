-- ===== src/Preloader/Ensure.antt =====
-- The `routeros_ensure_*` functions of tools/mikrotik_preloader/preloader.py on users, interfaces,
-- bridges and addresses.
use getupnet.Prelude.{Bool, true, false, none, some, List, [], ◌∷◌, String, text_eq, if◌then◌else◌}
use getupnet.Prelude.Effects.{Action, skip, except_routeros, for_each, ◌>>=◌, ◌>>◌}
use getupnet.Database.Network.{Command, Attributes}
use getupnet.Preloader.{
  RouterApi, get, found, run, try_run, routeros_find, routeros_interface_exists, unless_found,
}

-- Whether an item has a value at a key, as in `item.get("list") == list_name`.
abbrev pub has_item : String → String → List Attributes → Bool
has_item key value [] = false
has_item key value (item ∷ items) = elim (get key item) [
  | none ↦ has_item key value items
  | some v ↦ if text_eq v value then true else has_item key value items
]

module _ ⦃api : RouterApi⦄ where
  unfoldable pub routeros_ensure_group : String → String → Action (List Command) (Unit {0})
  routeros_ensure_group name policy =
      unless_found "/user/group/print" "name" name "/user/group/add"
        (("name", some name) ∷ ("policy", some policy) ∷ [])

  unfoldable pub routeros_ensure_user : String → String → String → Action (List Command) (Unit {0})
  routeros_ensure_user name password group =
      except_routeros
        (run "/user/add"
          (("name", some name) ∷ ("password", some password) ∷ ("group", some group) ∷ []))
        (run "/user/set"
          (("numbers", some name) ∷ ("password", some password) ∷ ("group", some group) ∷ []))

  unfoldable pub routeros_ensure_interface_list : String → Action (List Command) (Unit {0})
  routeros_ensure_interface_list name =
      unless_found "/interface/list/print" "name" name "/interface/list/add"
        (("name", some name) ∷ [])

  unfoldable pub routeros_ensure_interface_list_member :
      String → String → Action (List Command) (Unit {0})
  routeros_ensure_interface_list_member list_name interface = do
    exists ← routeros_interface_exists interface
    if exists
        then (do
          existing ← routeros_find "/interface/list/member/print" "interface" interface
          if has_item "list" list_name existing
              then skip
              else run "/interface/list/member/add"
                  (("list", some list_name) ∷ ("interface", some interface) ∷ []))
        else skip

  unfoldable pub routeros_ensure_neighbor_discovery : List String → Action (List Command) (Unit {0})
  routeros_ensure_neighbor_discovery [] = skip
  routeros_ensure_neighbor_discovery (interface ∷ interfaces) = do
    routeros_ensure_interface_list "LAN"
    for_each (interface ∷ interfaces) (routeros_ensure_interface_list_member "LAN")
    try_run "/ip/neighbor/discovery-settings/set" (("discover-interface-list", some "LAN") ∷ [])
    try_run "/tool/mac-server/set" (("allowed-interface-list", some "LAN") ∷ [])
    try_run "/tool/mac-server/mac-winbox/set" (("allowed-interface-list", some "LAN") ∷ [])

  unfoldable pub routeros_ensure_bridge : String → Action (List Command) (Unit {0})
  routeros_ensure_bridge name =
      unless_found "/interface/bridge/print" "name" name "/interface/bridge/add"
        (("name", some name) ∷ [])

  unfoldable pub routeros_ensure_bridge_port : String → String → Action (List Command) (Unit {0})
  routeros_ensure_bridge_port bridge interface = do
    exists ← routeros_interface_exists interface
    if exists
        then (do
          ports ← routeros_find "/interface/bridge/port/print" "interface" interface
          if has_item "bridge" bridge ports
              then skip
              else run "/interface/bridge/port/add"
                  (("bridge", some bridge) ∷ ("interface", some interface) ∷ []))
        else skip

  unfoldable pub routeros_ensure_ip_address : String → String → Action (List Command) (Unit {0})
  routeros_ensure_ip_address address interface =
      unless_found "/ip/address/print" "address" address "/ip/address/add"
        (("address", some address) ∷ ("interface", some interface) ∷ [])

  unfoldable pub routeros_ensure_ip_pool : String → String → Action (List Command) (Unit {0})
  routeros_ensure_ip_pool name ranges = do
    items ← routeros_find "/ip/pool/print" "name" name
    if found items
        then run "/ip/pool/set" (("numbers", some name) ∷ ("ranges", some ranges) ∷ [])
        else run "/ip/pool/add" (("name", some name) ∷ ("ranges", some ranges) ∷ [])
