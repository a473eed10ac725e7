-- ===== src/MacOnboarding/Request.antt =====
-- The request of addons/isp_core/controllers/mac_onboarding.py, the answers that refuse it, and the rows
-- that it makes.
use getupnet.Prelude.{
  ℕ, Bool, false, not, Option, none, some, String, text_eq, has_text, or_text, if◌then◌else◌,
}
use getupnet.Prelude.Int.{pos}
use getupnet.Database.{Database}
use getupnet.Database.Core.{
  MacProfile, Presence, Subscription, SubscriptionState, AuthMethod, DhcpMode,
}
use getupnet.Database.Network.{CaptiveUser, CaptiveState}
use getupnet.Core.Subscription.{or_else_text}
use getupnet.MacOnboarding.Text.{normalize_mac, is_unbound}

-- The parameters of the request, and its header `X-ISP-TOKEN`.
pub record Visit : Type 0 where
  pub token : Option String
  pub header_token : Option String
  pub mac : Option String
  pub lease_mac : Option String
  pub ip : Option String
  pub lease_ip : Option String
  pub bound : Option String
  pub lease_bound : Option String
  pub sector : Option String
  pub hostname : Option String

pub record Response : Type 0 where
  pub body : String
  pub status : ℕ

abbrev pub same_token : Option String → Option String → Bool
same_token (some s) (some t) = text_eq s t
same_token s t = false

-- The three answers before anything is read or written, if one is due.
unfoldable pub refusal : Visit → Database → Option Response
refusal kw db =
    let expected = db.text_param "isp_core.mac_onboarding_token" in
    if not (has_text expected)
    then some (record { body = "mac_onboarding_token not configured"; status = 403 })
    else if not (same_token (or_else_text kw.token kw.header_token) expected)
    then some (record { body = "unauthorized"; status = 401 })
    else if not (has_text (or_else_text kw.mac kw.lease_mac))
    then some (record { body = "mac required"; status = 400 })
    else none

abbrev pub visited_mac : Visit → String
visited_mac kw = or_text (normalize_mac (or_else_text kw.mac kw.lease_mac)) ""

abbrev pub visited_ip : Visit → Option String
visited_ip kw = or_else_text kw.ip kw.lease_ip

abbrev pub presence : Visit → Presence
presence kw =
    if is_unbound (or_text (or_else_text kw.bound kw.lease_bound) "1")
    then Presence.offline
    else Presence.online

-- `profile.write(values)`
abbrev pub seen : Visit → Option ℕ → ℕ → MacProfile → MacProfile
seen kw sector_id now profile = record profile {
  mac_address = visited_mac kw;
  sector_id = sector_id;
  last_seen_ip = visited_ip kw;
  last_seen_at = some now;
  hostname = kw.hostname;
  state = presence kw;
}

abbrev pub new_profile : Visit → Option ℕ → ℕ → MacProfile
new_profile kw sector_id now = record {
  mac_address = visited_mac kw;
  sector_id = sector_id;
  plan_id = none;
  partner_id = none;
  subscription_id = none;
  state = presence kw;
  last_seen_ip = visited_ip kw;
  last_seen_at = some now;
  hostname = kw.hostname;
}

abbrev pub has_mac : String → ℕ → MacProfile → Bool
has_mac mac _ profile = text_eq profile.mac_address mac

abbrev pub sector_required : Response
sector_required = record { body = "sector required for auto-create"; status = 400 }

-- The values of the new line, with the defaults of the model.
abbrev pub new_line : Visit → ℕ → ℕ → ℕ → Option ℕ → Subscription
new_line kw partner_id plan_id sector_id router_id = record {
  name = "New";
  partner_id = partner_id;
  plan_id = plan_id;
  sector_id = sector_id;
  state = SubscriptionState.draft;
  start_date = none;
  gps_lat = pos 0;
  gps_lng = pos 0;
  device_id = none;
  auth_method = AuthMethod.dhcp;
  dhcp_mode = DhcpMode.dynamic;
  next_invoice_date = none;
  pppoe_username = none;
  pppoe_password = none;
  pppoe_profile = none;
  service_ip = visited_ip kw;
  service_mac = some (visited_mac kw);
  router_id = router_id;
  last_invoice_id = none;
}

-- The new line of a captive portal, for a MAC address.
abbrev pub new_captive_user : String → String → String → Option ℕ → CaptiveUser
new_captive_user username password profile router_id = record {
  username = username;
  password = some password;
  profile = some profile;
  state = CaptiveState.disabled;
  router_id = router_id;
}

abbrev pub has_username : String → ℕ → CaptiveUser → Bool
has_username username _ user = text_eq user.username username
