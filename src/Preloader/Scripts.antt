-- ===== src/Preloader/Scripts.antt =====
-- The scripts that tools/mikrotik_preloader/preloader.py writes to a router: the lease script of the
-- webhook and the call-home script. `environ` is the environment of the process.
use getupnet.Prelude.{
  false, not, Option, none, some, List, [], ◌∷◌, String, ◌⧺◌, has_text, or_text, or_value,
  if◌then◌else◌,
}
use getupnet.Prelude.Effects.{Action, Result, ok, err, runtime_error, when, ◌>>=◌, ◌>>◌}
use getupnet.Database.Network.{Command}
use getupnet.Core.Subscription.{or_else_text}
use getupnet.Preloader.{RouterApi, try_run}
use getupnet.Preloader.Paths.{rstrip_slash}
use getupnet.Preloader.Config.{Config, CallHome}
use getupnet.Preloader.Services.{routeros_ensure_script, routeros_ensure_scheduler}

-- `os.environ.get(name) if name else None`, or else the value that is given.
abbrev pub token_of : (String → Option String) → Option String → Option String → Option String
token_of environ name value =
    or_else_text (if has_text name then environ (or_text name "") else none) value

unfoldable pub get_env_or_fail : (String → Option String) → Option String → Result String
get_env_or_fail environ name =
    if has_text name
    then (if has_text (environ (or_text name ""))
        then ok (or_text (environ (or_text name "")) "")
        else err (runtime_error ("Missing required env var: " ⧺ or_text name "")))
    else err (runtime_error "Missing required env var name")

module _ (environ : String → Option String) where
  unfoldable pub build_lease_script : Config → Result (Option String)
  build_lease_script cfg =
      let webhook = cfg.webhook in
      let token = token_of environ webhook.token_env webhook.token_value in
      let url = or_text webhook.url (rstrip_slash cfg.odoo_url ⧺ "/isp/mac_onboarding") in
      let sector = or_text webhook.sector_code (or_value cfg.sector_code "") in
      if not (or_value webhook.enabled false)
      then ok none
      else if not (has_text token)
      then err (runtime_error "webhook token missing: set webhook.token_env or webhook.token_value")
      else ok (
          some (
            ":local mac $leaseActMAC; :local ip $leaseActIP; :local bound $leaseBound; "
            ⧺ "/tool fetch url=\""
            ⧺ url
            ⧺ "?token="
            ⧺ or_text token ""
            ⧺ "&mac=$mac&ip=$ip&bound=$bound&sector="
            ⧺ sector
            ⧺ "\" keep-result=no"))

-- The lines of the call-home script, joined.
abbrev pub call_home_text : CallHome → String → String → String
call_home_text call_home token url =
    ":local token \""
    ⧺ token
    ⧺ "\";\n"
    ⧺ ":local url \""
    ⧺ url
    ⧺ "\";\n"
    ⧺ ":local ident [/system/identity get name];\n"
    ⧺ ":local serial \"\";\n"
    ⧺ ":do { :set serial [/system/routerboard get serial-number] } on-error={};\n"
    ⧺ ":local mac \"\";\n"
    ⧺ (if has_text call_home.mac_interface
        then ":do { :set mac [/interface get [find name=\""
          ⧺ or_text call_home.mac_interface ""
          ⧺ "\"] mac-address] } on-error={};\n"
        else ":foreach i in=[/interface/ethernet find] do={ :set mac [/interface/ethernet get $i mac-address]; :break; };\n")
    ⧺ ":local public \"\";\n"
    ⧺ ":do { :local r [/tool fetch url=\""
    ⧺ or_value call_home.ip_lookup_url "http://api.ipify.org"
    ⧺ "\" as-value output=user]; :set public ($r->\"data\") } on-error={};\n"
    ⧺ ":if ($public = \"\") do={ :do { :set public [/ip cloud get public-address] } on-error={}; };\n"
    ⧺ ":local full ($url . \"?token=\" . $token . \"&identity=\" . $ident . \"&serial=\" . $serial . \"&mac=\" . $mac . \"&public_ip=\" . $public);\n"
    ⧺ "/tool fetch url=$full keep-result=no check-certificate="
    ⧺ (if or_value call_home.check_certificate false then "yes" else "no")
    ⧺ ";"

module _ (environ : String → Option String) where
  unfoldable pub build_call_home_script : CallHome → Result (Option String)
  build_call_home_script call_home =
      let token = token_of environ call_home.token_env call_home.token_value in
      if not (or_value call_home.enabled false)
      then ok none
      else if not (has_text token)
      then err (
          runtime_error "call_home token missing: set call_home.token_env or call_home.token_value")
      else if not (has_text call_home.url)
      then err (runtime_error "call_home.url is required when call_home.enabled is true")
      else ok (some (call_home_text call_home (or_text token "") (or_text call_home.url "")))

  module _ ⦃api : RouterApi⦄ where
    unfoldable pub routeros_apply_call_home : CallHome → Action (List Command) (Unit {0})
    routeros_apply_call_home call_home =
        let script_name = or_value call_home.script_name "isp_checkin" in
        when (or_value call_home.enabled false) (do
          script ← (λ sent. (build_call_home_script call_home, sent))
          routeros_ensure_script script_name script "read,write,test"
          routeros_ensure_scheduler (or_value call_home.scheduler_name script_name)
              (or_value call_home.interval "5m") ("/system/script/run name=" ⧺ script_name)
              "startup"
          try_run "/system/script/run" (("name", some script_name) ∷ []))
