-- ===== src/Tests/MacOnboarding.antt =====
-- The theorems on the webhook for MAC addresses, with a device that was seen before and one that was
-- not.
use getupnet.MacOnboarding.{
  accept, note_visit, create_profile, auto_create, read_profile, auto_captive, create_captive_user,
}
use getupnet.Core.Subscription.{token_hex}
use getupnet.Preconfig.Payload.{find_sector}
use getupnet.Prelude.{◌≡◌, refl, [], ◌∷◌, none, some}
use getupnet.Prelude.Rows.{matching, ids, browse}
use getupnet.Database.{Database}
use getupnet.Database.Core.{MacProfile, Presence}
use getupnet.Samples.{savepoint, office, db}
use getupnet.Preconfig.Text.{lstrip, rstrip, is_space}
use getupnet.MacOnboarding.{find_profile, mac_onboarding}
use getupnet.MacOnboarding.Text.{normalize_mac, upper, counterpart}
use getupnet.MacOnboarding.Request.{Visit, refusal}
use getupnet.MacOnboarding.Profiles.{mac_onboarding-profiles}
use getupnet.MacOnboarding.Lines.{mac_onboarding-one_line}

abbrev visit : Visit
visit = record {
  token = some "1";
  header_token = none;
  mac = some " aa:bb ";
  lease_mac = none;
  ip = some "10.0.0.9";
  lease_ip = none;
  bound = some "no";
  lease_bound = none;
  sector = none;
  hostname = none;
}

abbrev lined : MacProfile
lined = record {
  mac_address = "AA:BB";
  sector_id = none;
  plan_id = none;
  partner_id = some 1;
  subscription_id = some 1;
  state = Presence.online;
  last_seen_ip = none;
  last_seen_at = none;
  hostname = none;
}

abbrev db_seen : Database
db_seen = record db { mac_profiles = (6, lined) ∷ [] }

mac_onboarding-profiles_example :
    ids (savepoint.run (mac_onboarding visit) db).1.mac_profiles ≡ 1 ∷ []
unfolding refusal find_profile matching ids mac_onboarding accept note_visit create_profile
    auto_create read_profile browse auto_captive create_captive_user token_hex find_sector
mac_onboarding-profiles_example = mac_onboarding-profiles savepoint visit db

mac_onboarding-one_line_example :
    ((mac_onboarding visit db_seen).1.subscriptions ≡ db.subscriptions)
    × ((mac_onboarding visit db_seen).1.partners ≡ db.partners)
unfolding find_profile matching browse normalize_mac upper counterpart lstrip rstrip is_space
mac_onboarding-one_line_example =
    mac_onboarding-one_line visit db_seen 6 {profile = lined} {line = 1} refl refl refl
