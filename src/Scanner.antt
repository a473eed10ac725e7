-- ===== src/Scanner.antt =====
-- tools/scan_onus.py, of which addons/scan_onus.py is a copy: what it asks the router, which devices
-- it finds, and what it makes of them in Odoo. A number in a router's answer stands as its text, and
-- what `print` shows is left out.
pub mod Onus
pub mod Reading
pub mod Fields
pub mod Hotspot
pub mod Unset
use text.Mathlib.Text.{starts_with}
use getupnet.Prelude.{
  Bool, true, false, not, Option, none, some, List, [], ◌∷◌, ◌++◌, String, text_eq, has_text,
  if◌then◌else◌,
}
use getupnet.Prelude.Effects.{
  Action, Result, ok, err, other_error, skip, when, modify, try_except, for_each, ◌>>=◌, ◌>>◌,
}
use getupnet.Database.Network.{Command, Attributes}
use getupnet.Preconfig.Payload.{same_code}
use getupnet.MacOnboarding.Text.{upper}
use getupnet.Preloader.{RouterApi, get, found, api_exec}

pub record FoundDevice : Type 0 where
  pub mac : String
  pub ip : Option String
  pub source : String

-- The commands that the router was sent, and `found_devices`.
pub record Scan : Type 0 where
  pub sent : List Command
  pub found_devices : List FoundDevice

abbrev pub interface : String
interface = "ether3"

abbrev pub target_mac : String
target_mac = "48:E6:63:13:58:45"

-- `item.get(key) == value`
abbrev pub has : String → String → Attributes → Bool
has key value item = same_code (get key item) value

-- `[i for i in items if i.get(key) == value]`
abbrev pub with_attribute : String → String → List Attributes → List Attributes
with_attribute key value [] = []
with_attribute key value (item ∷ items) =
    if has key value item
    then item ∷ with_attribute key value items
    else with_attribute key value items

-- `e.get('mac-address', '')`
unfoldable pub mac_of : Attributes → Option String
mac_of [] = some ""
mac_of ((k, value) ∷ item) = if text_eq k "mac-address" then value else mac_of item

-- `any(...)` over the addresses: `startswith` needs a text.
unfoldable pub has_olt_ip : List Attributes → Result Bool
has_olt_ip [] = ok false
has_olt_ip (ip ∷ ips) =
    let rest = has_olt_ip ips in
    if has "interface" interface ip
    then elim (get "address" ip) [
      | none ↦ err (other_error "'NoneType' object has no attribute 'startswith'")
      | some address ↦ if starts_with address "192.168.1." then ok true else rest
    ]
    else rest

-- `next((e for e in all_arp if ...), None)`: `upper` needs a text.
unfoldable pub target_entry : List Attributes → Result (Option Attributes)
target_entry [] = ok none
target_entry (entry ∷ entries) =
    let rest = target_entry entries in
    elim (mac_of entry) [
      | none ↦ err (other_error "'NoneType' object has no attribute 'upper'")
      | some mac ↦ if text_eq (upper mac) target_mac then ok (some entry) else rest
    ]

unfoldable pub arp_devices : List Attributes → List FoundDevice
arp_devices [] = []
arp_devices (entry ∷ entries) =
    let rest = arp_devices entries in
    elim (get "mac-address" entry) [
      | none ↦ rest
      | some mac ↦
          if has_text (some mac)
          then record { mac = mac; ip = get "address" entry; source = "ARP" } ∷ rest
          else rest
    ]

abbrev pub of_result : {S A : Type 0} → Result A → Action S A
of_result r s = (r, s)

abbrev pub append : List FoundDevice → Action Scan (Unit {0})
append devices = modify λ s. record s { found_devices = s.found_devices ++ devices }

-- `api(...)` whose answer is not read. librouteros sends a command when its answer is consumed, as
-- `api_exec` of the preloader notes, so nothing is sent.
unfoldable pub unread : {S A : Type 0} → Action S A → Action S (Unit {0})
unread m = skip

-- `try: m  except Exception: print(...)`
abbrev pub guarded : {S : Type 0} → Action S (Unit {0}) → Action S (Unit {0})
guarded m = try_except m (λ _. skip)

module _ ⦃api : RouterApi⦄ where
  -- `list(api(cmd=path, ...))`
  unfoldable pub consume : String → Attributes → Action Scan (List Attributes)
  consume path attributes s =
      let (r, sent) = api_exec path attributes s.sent in (r, record s { sent = sent })

  unfoldable pub monitor : Action Scan (Unit {0})
  monitor = do
    all_ifaces ← consume "/interface/ethernet/print" []
    when (found (with_attribute "name" interface all_ifaces)) (
        guarded (do
          consume "/interface/ethernet/monitor"
              (("numbers", some interface) ∷ ("once", some "yes") ∷ [])
          skip))

  unfoldable pub ping : String → Action Scan (Unit {0})
  ping target = do
    ping_res ←
        consume "/ping"
          (("address", some target) ∷ ("count", some "2") ∷ ("interface", some interface) ∷ [])
    when (found (with_attribute "received" "1" ping_res))
        (append (record { mac = "Unknown (OLT)"; ip = some target; source = "Ping Probe" } ∷ []))

  abbrev pub matched : Option Attributes → Action Scan (Unit {0})
  matched none = skip
  matched (some entry) =
      append (record { mac = target_mac; ip = get "address" entry; source = "ARP Match" } ∷ [])

  unfoldable pub probe_olt : Action Scan (Unit {0})
  probe_olt = do
    all_ips ← consume "/ip/address/print" []
    there ← of_result (has_olt_ip all_ips)
    when (not there) (
        unread (
          consume "/ip/address/add"
            (("address", some "192.168.1.2/24") ∷ ("interface", some interface) ∷ [])))
    for_each ("192.168.1.1" ∷ "192.168.1.10" ∷ []) ping
    all_arp ← consume "/ip/arp/print" []
    arp_entry ← of_result (target_entry all_arp)
    matched arp_entry

  unfoldable pub check_arp : Action Scan (Unit {0})
  check_arp = do
    all_arp ← consume "/ip/arp/print" []
    append (arp_devices (with_attribute "interface" interface all_arp))

  unfoldable pub check_leases : Action Scan (Unit {0})
  check_leases = do consume "/ip/dhcp-server/lease/print" []; skip

  -- The part of `main` between the connection and `if not found_devices`.
  unfoldable pub scan : Action Scan (Unit {0})
  scan = do guarded monitor; guarded probe_olt; guarded check_arp; guarded check_leases
