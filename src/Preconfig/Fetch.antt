-- ===== src/Preconfig/Fetch.antt =====
-- `odoo_fetch_preconfig` of tools/mikrotik_preloader/preloader.py and the start of its `main`. Odoo's
-- answer to a log-in and what XML-RPC makes of a payload on its way are parameters.
use getupnet.Prelude.{
  ℕ, ◌≡◌, refl, Bool, true, not, ◌&&◌, ◌||◌, Option, none, some, List, String, ◌⧺◌, is_set,
  or_value, if◌then◌else◌,
}
use getupnet.Prelude.Rows.{browse}
use getupnet.Prelude.Effects.{Result, ok, err, message, runtime_error, other_error}
use getupnet.Database.{Database}
use getupnet.Database.Network.{Preconfig}
use getupnet.Platform.{Platform}
use getupnet.Preloader.Register.{log_in}
use getupnet.Preconfig.Value.{Value, null, text, dict, Dict, get, truth, is_empty}
use getupnet.Preconfig.Merge.{merge_preconfig}
use getupnet.Preconfig.Payload.{
  find_profile, find_sector, get_preconfig_for_sector, to_preloader_payload,
}
use getupnet.Preconfig.Keys.{fits}
use getupnet.Preconfig.Override.{gives, leaf}
use getupnet.Preconfig.Applied.{is_config, merge_preconfig-overrides}

abbrev pub text_of : Option Value → Option String
text_of (some (text s)) = some s
text_of v = none

-- `odoo_cfg["url"]`, `["db"]`, `["user"]` and `["pass_env"]` are all there.
abbrev pub has_access : Dict → Bool
has_access odoo_cfg =
    is_set (get "url" odoo_cfg)
    && is_set (get "db" odoo_cfg)
    && is_set (get "user" odoo_cfg)
    && is_set (get "pass_env" odoo_cfg)

-- `except Exception as exc: raise RuntimeError(...)`
abbrev pub fetched : Result Dict → Result (Option Dict)
fetched (ok preconfig) = ok (some preconfig)
fetched (err e) = err (runtime_error ("Failed to fetch preconfig from Odoo: " ⧺ message e))

module _ ⦃platform : Platform⦄ (environ : String → Option String)
    (authenticate : String → Result Bool) (transport : Dict → Result Dict) (db : Database) where
  -- The part after `odoo_cfg` was read.
  unfoldable pub fetch_with : Option String → Dict → Result (Option Dict)
  fetch_with sector_code odoo_cfg =
      if not (truth (or_value (get "fetch_preconfig" odoo_cfg) null))
      then ok none
      else if not (has_access odoo_cfg)
      then err (other_error "KeyError")
      else elim (log_in environ authenticate (text_of (get "pass_env" odoo_cfg))) [
        | err e ↦ err e
        | ok _ ↦ fetched (transport (get_preconfig_for_sector sector_code db))
      ]

  unfoldable pub odoo_fetch_preconfig : Dict → Result (Option Dict)
  odoo_fetch_preconfig cfg = elim (get "odoo" cfg) [
    | none ↦ ok none
    | some v ↦ elim v [
      | dict odoo_cfg ↦ fetch_with (text_of (get "sector_code" cfg)) odoo_cfg
      | _ ↦ err (other_error "AttributeError")
    ]
  ]

  -- `if preconfig: merge_preconfig(cfg, preconfig)`, with any exception caught.
  abbrev pub apply_fetched : Result (Option Dict) → Value → Value
  apply_fetched (ok (some preconfig)) cfg =
      if is_empty preconfig then cfg else (merge_preconfig preconfig cfg).1
  apply_fetched (ok none) cfg = cfg
  apply_fetched (err e) cfg = cfg

  -- The configuration that `main` goes on with.
  unfoldable pub load_preconfig : Dict → Value
  load_preconfig cfg = apply_fetched (odoo_fetch_preconfig cfg) (dict cfg)

  fetch-payload :
      (cfg odoo_cfg : Dict) (i : ℕ) {pc : Preconfig}
      → get "odoo" cfg ≡ some (dict odoo_cfg)
      → truth (or_value (get "fetch_preconfig" odoo_cfg) null) ≡ true
      → has_access odoo_cfg ≡ true
      → log_in environ authenticate (text_of (get "pass_env" odoo_cfg)) ≡ ok tt
      → find_profile (find_sector (text_of (get "sector_code" cfg)) db) db ≡ some i
      → browse i db.preconfigs ≡ some pc
      → transport (to_preloader_payload pc) ≡ ok (to_preloader_payload pc)
      → odoo_fetch_preconfig cfg ≡ ok (some (to_preloader_payload pc))
  unfolding odoo_fetch_preconfig fetch_with get_preconfig_for_sector
  fetch-payload cfg odoo_cfg i {pc} section asked access login profile there sent =
      rw
        (
          odoo_fetch_preconfig, section, fetch_with, asked, access, login, get_preconfig_for_sector,
          profile, there, sent,
        )
        refl

  -- Where the local configuration asks for a profile, the log-in goes through, there is an active
  -- profile of the sector, and XML-RPC hands its payload on as it is, `main` goes on with the payload
  -- over the local configuration, if the sections of both are dictionaries: every path reads what the
  -- payload has on it, and the local value where that has nothing or `None`; but of `routeros.config`
  -- nothing local is left.
  pub load_preconfig-overrides :
      (cfg odoo_cfg : Dict) (path : List String) (i : ℕ) {pc : Preconfig}
      → get "odoo" cfg ≡ some (dict odoo_cfg)
      → truth (or_value (get "fetch_preconfig" odoo_cfg) null) ≡ true
      → has_access odoo_cfg ≡ true
      → log_in environ authenticate (text_of (get "pass_env" odoo_cfg)) ≡ ok tt
      → find_profile (find_sector (text_of (get "sector_code" cfg)) db) db ≡ some i
      → browse i db.preconfigs ≡ some pc
      → transport (to_preloader_payload pc) ≡ ok (to_preloader_payload pc)
      → fits (to_preloader_payload pc) cfg ≡ true
      → let payload = to_preloader_payload pc in
        leaf path (load_preconfig cfg) ≡ (
          if is_config path || gives path payload
          then leaf path (dict payload)
          else leaf path (dict cfg))
  unfolding load_preconfig
  load_preconfig-overrides cfg odoo_cfg path i {pc} section asked access login profile there sent
        fit =
      rw
        (
          load_preconfig,
          fetch-payload cfg odoo_cfg i {pc = pc} section asked access login profile there sent,
        )
        ((merge_preconfig-overrides pc cfg fit).1 path)
