-- ===== src/Scanner/Unset.antt =====
-- What addons/mikrotik_onboard.py changes on a router: nothing.
use getupnet.Prelude.{◌≡◌, true, Bool-cases, inl, inr, List, [], ◌∷◌, String}
use getupnet.Prelude.Effects.{other_error, ◌>>◌}
use getupnet.Prelude.Invariant.{Maintains, Maintains-read, invariant_rules}
use getupnet.Database.Network.{Command, Attributes}
use getupnet.Preloader.{RouterApi, command, get, api_exec}
use getupnet.Scanner.{guarded}
use getupnet.Scanner.Reading.{
  reads, OnlyReads, OnlyReads-append, Maintains-unread, Maintains-guarded,
}
use getupnet.Scanner.Hotspot.{
  id_of, connects, check_olt, ensure_address, ensure_pool, ensure_profile, ensure_server,
  set_or_add, ensure_user, setup_hotspot, hotspot_main,
}

module _ ⦃api : RouterApi⦄ where
  api_exec-OnlyReads :
      (path : String) (attributes : Attributes)
      → reads (command path attributes) ≡ true
      → Maintains OnlyReads (api_exec path attributes)
  unfolding api_exec
  api_exec-OnlyReads path attributes read = record {
    at = λ sent h. OnlyReads-append sent (command path attributes) h read;
  }

  ruleset hotspot_rules = (invariant_rules, Maintains-unread, Maintains-guarded, api_exec-OnlyReads)

  id_of-OnlyReads : (user : Attributes) → Maintains OnlyReads (id_of user)
  unfolding id_of
  id_of-OnlyReads user = Maintains-read (λ _. get ".id" user) (other_error "'.id'")

  check_olt-OnlyReads : Maintains OnlyReads check_olt
  unfolding check_olt
  check_olt-OnlyReads = search hotspot_rules depth 12

  set_or_add-OnlyReads : (users : List Attributes) → Maintains OnlyReads (set_or_add users)
  unfolding set_or_add
  set_or_add-OnlyReads [] = search hotspot_rules depth 8
  set_or_add-OnlyReads (user ∷ users) = search (hotspot_rules, id_of-OnlyReads) depth 8

  setup_hotspot-OnlyReads : Maintains OnlyReads setup_hotspot
  unfolding setup_hotspot ensure_address ensure_pool ensure_profile ensure_server ensure_user
  setup_hotspot-OnlyReads = search (hotspot_rules, set_or_add-OnlyReads) depth 20

  both-OnlyReads : Maintains OnlyReads (guarded check_olt >> guarded setup_hotspot)
  both-OnlyReads = search (hotspot_rules, check_olt-OnlyReads, setup_hotspot-OnlyReads) depth 8

  -- Whatever the router answers, every command that the program sends only shows something: no
  -- address, pool, profile, server or user of the hotspot is made or set.
  pub hotspot_main-OnlyReads :
      (sent : List Command) → OnlyReads sent → OnlyReads (hotspot_main sent).1
  unfolding hotspot_main
  hotspot_main-OnlyReads sent h = elim (Bool-cases (connects sent)) [
    | inl opened ↦ rw opened (both-OnlyReads.at sent h)
    | inr refused ↦ rw refused h
  ]
