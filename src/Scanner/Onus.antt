-- ===== src/Scanner/Onus.antt =====
-- The part of tools/scan_onus.py that makes ONUs of the devices, and its `main`. Odoo's answers are
-- parameters: to the log-in, and to `create` on isp.onu.
use getupnet.Prelude.{
  ℕ, Bool, true, Option, none, some, List, [], ◌∷◌, ◌++◌, String, ◌⧺◌, text_eq, any, head?, is_set,
  ◌&&◌, if◌then◌else◌,
}
use getupnet.Prelude.Effects.{Action, Result, Exception, ok, err, skip, try_except, for_each}
use getupnet.Prelude.Rows.{Table, ids}
use getupnet.Database.Network.{Command, Attributes}
use getupnet.Platform.{Platform}
use getupnet.MacOnboarding.Text.{remove_colons}
use getupnet.Preloader.{RouterApi}
use getupnet.Scanner.{FoundDevice, interface, has, scan}

-- `{d['mac']: d for d in found_devices}.values()`: a key keeps its place, and the last device wins.
unfoldable pub put : FoundDevice → List FoundDevice → List FoundDevice
put dev [] = dev ∷ []
put dev (d ∷ devices) =
    let rest = put dev devices in if text_eq d.mac dev.mac then dev ∷ devices else d ∷ rest

unfoldable pub unique_devices : List FoundDevice → List FoundDevice → List FoundDevice
unique_devices seen [] = seen
unique_devices seen (dev ∷ devices) = unique_devices (put dev seen) devices

-- The fields that addons/isp_onu/models/onu.py declares, and those that Odoo gives to every model.
abbrev pub onu_fields : List String
onu_fields =
    "serial" ∷ "mac_address" ∷ "vendor" ∷ "model" ∷ "sector_id" ∷ "olt_ref" ∷ "pon_port" ∷ "vlan"
    ∷ "status" ∷ "notes" ∷ "id" ∷ "display_name" ∷ "create_uid" ∷ "create_date" ∷ "write_uid"
    ∷ "write_date" ∷ []

-- The name of every value is that of a field.
unfoldable pub are_fields : Attributes → Bool
are_fields [] = true
are_fields ((name, _) ∷ vals) = any (text_eq name) onu_fields && are_fields vals

abbrev pub onu_values : FoundDevice → Attributes
onu_values dev =
    ("name", some ("ONU " ⧺ dev.mac))
    ∷ ("serial", some ("UNK-" ⧺ remove_colons dev.mac))
    ∷ ("mac_address", some dev.mac)
    ∷ ("status", some "stock")
    ∷ ("notes", some ("Auto-detected via " ⧺ dev.source ⧺ " on " ⧺ interface))
    ∷ ("olt_ref", some "Detected on ether3")
    ∷ []

-- The domain of the search.
abbrev pub has_mac : String → ℕ → Attributes → Bool
has_mac mac _ onu = has "mac_address" mac onu

-- What `create` on isp.onu raises for some values, if it does, by the ONUs that are there.
abbrev pub Refusal : Type 0
Refusal = Table Attributes → Attributes → Option Exception

pub data End : Type 0 where
  returned exited : End

module _ ⦃platform : Platform⦄ where
  unfoldable pub exists : String → Table Attributes → Bool
  exists mac onus = is_set (head? (platform.search Attributes (has_mac mac) onus))

  unfoldable pub create_onu : Refusal → Attributes → Action (Table Attributes) (Unit {0})
  create_onu refuses vals onus = elim (refuses onus vals) [
    | some e ↦ (err e, onus)
    | none ↦ (ok tt, onus ++ (platform.new_id (ids onus), vals) ∷ [])
  ]

  unfoldable pub sync_device : Refusal → FoundDevice → Action (Table Attributes) (Unit {0})
  sync_device refuses dev onus =
      if exists dev.mac onus then (ok tt, onus) else create_onu refuses (onu_values dev) onus

  -- The loop over the devices.
  unfoldable pub sync_all : Refusal → List FoundDevice → Action (Table Attributes) (Unit {0})
  sync_all refuses devices = for_each devices (sync_device refuses)

  -- From `if not found_devices` on; the log-in may raise, and a falsy answer ends the program.
  unfoldable pub report :
      Result Bool → Refusal → List FoundDevice → Table Attributes → End × Table Attributes
  report login refuses [] onus = (returned, onus)
  report login refuses (dev ∷ devices) onus = elim login [
    | err e ↦ (returned, onus)
    | ok uid ↦
        if uid
        then (
          returned,
          (try_except (sync_all refuses (unique_devices [] (dev ∷ devices))) (λ _. skip) onus).1,
        )
        else (exited, onus)
  ]

  -- `main`, with what the router has been sent in the end.
  unfoldable pub main :
      ⦃api : RouterApi⦄
      → Result Bool
      → Refusal
      → List Command
      → Table Attributes
      → List Command × (End × Table Attributes)
  main ⦃api⦄ login refuses sent onus = elim (api.connect "admin" "getupsoft" sent) [
    | some e ↦ (sent, (exited, onus))
    | none ↦
        let s = (scan (record { sent = sent; found_devices = [] })).1 in
        (s.sent, report login refuses s.found_devices onus)
  ]
