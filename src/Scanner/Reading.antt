-- ===== src/Scanner/Reading.antt =====
-- What tools/scan_onus.py changes: nothing on the router. The tool for hotspots shares the lemmas.
use getupnet.Prelude.{
  ◌≡◌, Bool, true, any, List, [], ◌∷◌, ◌++◌, String, text_eq, All, Option, none, some, Option-cases,
  inl, inr,
}
use getupnet.Prelude.Effects.{Action, Result, recover, ok, err, skip}
use getupnet.Prelude.Rows.{Table}
use getupnet.Prelude.Invariant.{Maintains, Maintains-skip, invariant_rules}
use getupnet.Database.Network.{Command, Attributes}
use getupnet.Platform.{Platform}
use getupnet.Preloader.{RouterApi, command, api_exec}
use getupnet.Scanner.{
  Scan, FoundDevice, of_result, append, unread, consume, guarded, monitor, ping, matched, probe_olt,
  check_arp, check_leases, scan,
}
use getupnet.Scanner.Onus.{Refusal, main}

-- The commands of RouterOS that the tools send and that change nothing.
abbrev pub read_paths : List String
read_paths =
    "/interface/print" ∷ "/interface/ethernet/print" ∷ "/interface/ethernet/monitor"
    ∷ "/ip/address/print" ∷ "/ip/arp/print" ∷ "/ip/dhcp-server/lease/print" ∷ "/ip/pool/print"
    ∷ "/ip/hotspot/print" ∷ "/ip/hotspot/profile/print" ∷ "/ip/hotspot/user/print" ∷ "/ping" ∷ []

-- A command that shows something or pings.
abbrev pub reads : Command → Bool
reads c = any (text_eq c.path) read_paths

abbrev pub OnlyReads : List Command → Type 0
OnlyReads sent = All (λ c. reads c ≡ true) sent

abbrev ReadsOnly : Scan → Type 0
ReadsOnly s = OnlyReads s.sent

pub OnlyReads-append :
    (sent : List Command) (c : Command)
    → OnlyReads sent
    → reads c ≡ true
    → OnlyReads (sent ++ c ∷ [])
OnlyReads-append [] c h read = (read, tt)
OnlyReads-append (d ∷ sent) c (first, h) read = (first, OnlyReads-append sent c h read)

of_result-ReadsOnly : {A : Type 0} (r : Result A) → Maintains ReadsOnly (of_result r)
of_result-ReadsOnly r = record { at = λ s h. h }

append-ReadsOnly : (devices : List FoundDevice) → Maintains ReadsOnly (append devices)
append-ReadsOnly devices = record { at = λ s h. h }

module _ {S : Type 0} {P : S → Type 0} where
  pub Maintains-unread : {A : Type 0} (m : Action S A) → Maintains P (unread m)
  unfolding unread
  Maintains-unread m = Maintains-skip

  pub Maintains-guarded : (m : Action S (Unit {0})) → Maintains P m → Maintains P (guarded m)
  Maintains-guarded m keeps = record { at = λ s h. go (m s).0 (m s).1 (keeps.at s h) }
    where
      go : (r : Result (Unit {0})) (s : S) → P s → P (recover r (λ _. skip) s).1
      go (ok u) s h = h
      go (err e) s h = h

module _ ⦃api : RouterApi⦄ where
  consume-ReadsOnly :
      (path : String) (attributes : Attributes)
      → reads (command path attributes) ≡ true
      → Maintains ReadsOnly (consume path attributes)
  unfolding consume api_exec
  consume-ReadsOnly path attributes read = record {
    at = λ s h. OnlyReads-append s.sent (command path attributes) h read;
  }

  ruleset reading_rules = (
    invariant_rules, of_result-ReadsOnly, append-ReadsOnly, Maintains-unread, Maintains-guarded,
    consume-ReadsOnly,
  )

  monitor-ReadsOnly : Maintains ReadsOnly monitor
  unfolding monitor
  monitor-ReadsOnly = search reading_rules depth 12

  ping-ReadsOnly : (target : String) → Maintains ReadsOnly (ping target)
  unfolding ping
  ping-ReadsOnly target = search reading_rules depth 12

  matched-ReadsOnly : (entry : Option Attributes) → Maintains ReadsOnly (matched entry)
  matched-ReadsOnly none = Maintains-skip
  matched-ReadsOnly (some entry) = record { at = λ s h. h }

  probe_olt-ReadsOnly : Maintains ReadsOnly probe_olt
  unfolding probe_olt
  probe_olt-ReadsOnly = search (reading_rules, ping-ReadsOnly, matched-ReadsOnly) depth 16

  scan-ReadsOnly : Maintains ReadsOnly scan
  unfolding scan check_arp check_leases
  scan-ReadsOnly = search (reading_rules, monitor-ReadsOnly, probe_olt-ReadsOnly) depth 16

  -- Whatever the router and Odoo answer, every command that the program sends only shows something or
  -- pings. The address that it means to add is never sent.
  pub main-OnlyReads :
      ⦃platform : Platform⦄ (login : Result Bool) (refuses : Refusal) (sent : List Command)
      (onus : Table Attributes)
      → OnlyReads sent
      → OnlyReads (main login refuses sent onus).0
  unfolding main
  main-OnlyReads login refuses sent onus h =
      elim (Option-cases (api.connect "admin" "getupsoft" sent)) [
        | inr (e, refused) ↦ rw (main, refused) h
        | inl opened ↦
            rw (main, opened) (scan-ReadsOnly.at (record { sent = sent; found_devices = [] }) h)
      ]
