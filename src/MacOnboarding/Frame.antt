-- ===== src/MacOnboarding/Frame.antt =====
-- What the calls after `note_visit` in addons/isp_core/controllers/mac_onboarding.py leave alone: the
-- ids of the profiles.
use getupnet.Prelude.{ℕ, refl, Option, none, some, String, List}
use getupnet.Prelude.Frame.{Keeps, Keeps-read, Keeps-modify, frame_rules}
use getupnet.Prelude.Rows.{ids, ids-assign}
use getupnet.Database.{Database}
use getupnet.Database.Core.{MacProfile, Subscription, AuthMethod, JobType, Payload}
use getupnet.Platform.{Platform}
use getupnet.Core.Subscription.{
  read, read_plan, next_name, check_pppoe_credentials, check_dhcp_static_ip, check_unique_static_ip,
  check_gps_required_for_active, token_hex, ensure_pppoe_credentials, ensure_username,
  ensure_password, ensure_profile, create_job,
}
use getupnet.Core.Subscription
use getupnet.Core.Subscription.Forms
use getupnet.Core.Subscription.Forms.{check_device_sector_match}
use getupnet.MacOnboarding.{
  read_profile, update, ensure_partner, create_line, for_plan, auto_create, create_captive_user,
  auto_captive, finish,
}
use getupnet.MacOnboarding.Request.{Visit, Response}

abbrev pub profile_ids : Database → List ℕ
profile_ids db = ids db.mac_profiles

read-Keeps : (i : ℕ) → Keeps profile_ids (read i)
unfolding read
read-Keeps i = Keeps-read _ _

read_plan-Keeps : (i : ℕ) → Keeps profile_ids (read_plan i)
unfolding read_plan
read_plan-Keeps i = Keeps-read _ _

pub read_profile-Keeps : (i : ℕ) → Keeps profile_ids (read_profile i)
unfolding read_profile
read_profile-Keeps i = Keeps-read _ _

update_line-Keeps :
    (i : ℕ) (f : Subscription → Subscription) → Keeps profile_ids (Subscription.update i f)
unfolding Subscription.update
update_line-Keeps i f = record { at = λ db. refl }

pub update-Keeps : (i : ℕ) (f : MacProfile → MacProfile) → Keeps profile_ids (update i f)
unfolding update
update-Keeps i f = record { at = λ db. ids-assign i f db.mac_profiles }

ruleset line_rules = (frame_rules, read-Keeps, read_plan-Keeps, update_line-Keeps, Keeps-modify)

check_pppoe_credentials-Keeps : (i : ℕ) → Keeps profile_ids (check_pppoe_credentials i)
unfolding check_pppoe_credentials
check_pppoe_credentials-Keeps i = search line_rules

check_dhcp_static_ip-Keeps : (i : ℕ) → Keeps profile_ids (check_dhcp_static_ip i)
unfolding check_dhcp_static_ip
check_dhcp_static_ip-Keeps i = search line_rules

check_gps-Keeps : (i : ℕ) → Keeps profile_ids (check_gps_required_for_active i)
unfolding check_gps_required_for_active
check_gps-Keeps i = search line_rules

check_device-Keeps : (i : ℕ) → Keeps profile_ids (check_device_sector_match i)
unfolding check_device_sector_match
check_device-Keeps i = search line_rules depth 7

module _ ⦃platform : Platform⦄ where
  check_unique-Keeps : (i : ℕ) → Keeps profile_ids (check_unique_static_ip i)
  unfolding check_unique_static_ip
  check_unique-Keeps i = search line_rules depth 8

  token_hex-Keeps : (n : ℕ) → Keeps profile_ids (token_hex n)
  unfolding token_hex
  token_hex-Keeps n = record { at = λ db. refl }

  next_name-Keeps : (code name : String) → Keeps profile_ids (next_name code name)
  unfolding next_name
  next_name-Keeps code name = record { at = λ db. refl }

  ensure_username-Keeps : (i : ℕ) → Keeps profile_ids (ensure_username i)
  unfolding ensure_username
  ensure_username-Keeps i = search (line_rules, check_pppoe_credentials-Keeps) depth 7

  ensure_password-Keeps : (i : ℕ) → Keeps profile_ids (ensure_password i)
  unfolding ensure_password
  ensure_password-Keeps i =
      search (line_rules, check_pppoe_credentials-Keeps, token_hex-Keeps) depth 7

  ensure_profile-Keeps : (i : ℕ) → Keeps profile_ids (ensure_profile i)
  unfolding ensure_profile
  ensure_profile-Keeps i = search line_rules depth 7

  ensure_credentials-Keeps : (i : ℕ) → Keeps profile_ids (ensure_pppoe_credentials i)
  unfolding ensure_pppoe_credentials
  ensure_credentials-Keeps i =
      search (line_rules, ensure_username-Keeps, ensure_password-Keeps, ensure_profile-Keeps) depth
        7

  create-Keeps :
      (auth : Option AuthMethod) (vals : Subscription) → Keeps profile_ids (Forms.create auth vals)
  unfolding Forms.create
  create-Keeps auth vals =
      search
        (
          line_rules, next_name-Keeps, check_pppoe_credentials-Keeps, check_dhcp_static_ip-Keeps,
          check_unique-Keeps, check_gps-Keeps, check_device-Keeps, ensure_credentials-Keeps,
        )
        depth 24

  create_job-Keeps :
      (job_type : JobType) (sub device sector : Option ℕ) (payload : Payload)
      → Keeps profile_ids (create_job job_type sub device sector payload)
  unfolding create_job
  create_job-Keeps job_type sub device sector payload =
      search (line_rules, next_name-Keeps) depth 12

  ensure_partner-Keeps :
      (kw : Visit) (i : ℕ) (o : Option ℕ) → Keeps profile_ids (ensure_partner kw i o)
  unfolding ensure_partner
  ensure_partner-Keeps kw i none = search (line_rules, update-Keeps) depth 12
  ensure_partner-Keeps kw i (some partner) = search line_rules

  create_line-Keeps :
      (kw : Visit) (i plan sector : ℕ) → Keeps profile_ids (create_line kw i plan sector)
  unfolding create_line
  create_line-Keeps kw i plan sector =
      search (line_rules, read_profile-Keeps, update-Keeps, ensure_partner-Keeps, create-Keeps)
        depth 16

  for_plan-Keeps :
      (kw : Visit) (sector : Option ℕ) (i : ℕ) (plan : Option ℕ)
      → Keeps profile_ids (for_plan kw sector i plan)
  for_plan-Keeps kw sector i none = search line_rules
  for_plan-Keeps kw none i (some plan) = search line_rules
  for_plan-Keeps kw (some s) i (some plan) = create_line-Keeps kw i plan s

  pub auto_create-Keeps :
      (kw : Visit) (sector : Option ℕ) (i : ℕ) → Keeps profile_ids (auto_create kw sector i)
  unfolding auto_create
  auto_create-Keeps kw sector i = search (line_rules, read_profile-Keeps, for_plan-Keeps) depth 12

  create_captive_user-Keeps :
      (kw : Visit) (sector : Option ℕ) → Keeps profile_ids (create_captive_user kw sector)
  unfolding create_captive_user
  create_captive_user-Keeps kw sector =
      search (line_rules, token_hex-Keeps, create_job-Keeps) depth 24

  auto_captive-Keeps : (kw : Visit) (sector : Option ℕ) → Keeps profile_ids (auto_captive kw sector)
  unfolding auto_captive
  auto_captive-Keeps kw sector = search (line_rules, create_captive_user-Keeps) depth 12

  pub finish-Keeps :
      (kw : Visit) (sector : Option ℕ) (answer : Option Response)
      → Keeps profile_ids (finish kw sector answer)
  finish-Keeps kw sector (some response) = search line_rules
  finish-Keeps kw sector none = search (line_rules, auto_captive-Keeps) depth 8
