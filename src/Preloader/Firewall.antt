-- ===== src/Preloader/Firewall.antt =====
-- The firewall rules of tools/mikrotik_preloader/preloader.py. Ports are texts, as they are sent.
use getupnet.Prelude.{Option, some, List, [], ◌∷◌, String, has_text, if◌then◌else◌}
use getupnet.Prelude.Effects.{Action, skip, except_routeros, for_each, ◌>>=◌, ◌>>◌}
use getupnet.Database.Network.{Command}
use getupnet.Preloader.{RouterApi, first_id, found, run, routeros_find, unless_found}

module _ ⦃api : RouterApi⦄ where
  -- `if rule_id: api_exec(move)`
  unfoldable pub move_first : Option String → Action (List Command) (Unit {0})
  move_first rule_id =
      if has_text rule_id
      then run "/ip/firewall/filter/move" (("numbers", rule_id) ∷ ("destination", some "0") ∷ [])
      else skip

  unfoldable pub add_allow : String → String → String → Action (List Command) (Unit {0})
  add_allow port src_ip comment = run "/ip/firewall/filter/add" (
      ("chain", some "input")
      ∷ ("src-address", some src_ip)
      ∷ ("protocol", some "tcp")
      ∷ ("dst-port", some port)
      ∷ ("action", some "accept")
      ∷ ("comment", some comment)
      ∷ [])

  -- The last `try` statement; a `routeros_find` without result moves nothing.
  unfoldable pub move_added : String → Action (List Command) (Unit {0})
  move_added comment =
      except_routeros
        (do
          added ← routeros_find "/ip/firewall/filter/print" "comment" comment
          move_first (first_id added))
        skip

  unfoldable pub routeros_ensure_firewall_allow :
      String → String → String → Action (List Command) (Unit {0})
  routeros_ensure_firewall_allow port src_ip comment = do
    existing ← routeros_find "/ip/firewall/filter/print" "comment" comment
    if found existing
        then except_routeros (move_first (first_id existing)) skip
        else (do add_allow port src_ip comment; move_added comment)

  unfoldable pub routeros_ensure_firewall_drop : String → String → Action (List Command) (Unit {0})
  routeros_ensure_firewall_drop port comment =
      unless_found "/ip/firewall/filter/print" "comment" comment "/ip/firewall/filter/add" (
        ("chain", some "input")
        ∷ ("protocol", some "tcp")
        ∷ ("dst-port", some port)
        ∷ ("action", some "drop")
        ∷ ("comment", some comment)
        ∷ [])

  -- The step of `routeros_onboard` that admits the management addresses.
  unfoldable pub allow_all : String → List String → Action (List Command) (Unit {0})
  allow_all port allowed_ips =
      for_each allowed_ips (λ ip. routeros_ensure_firewall_allow port ip "ALLOW ODOO/NOC API")
