-- ===== src/MacOnboarding.antt =====
-- addons/isp_core/controllers/mac_onboarding.py: the address to which routers report the devices that
-- get a lease, with all addons of the repository installed.
pub mod Text
pub mod Request
pub mod Frame
pub mod Profiles
pub mod Lines
use getupnet.Prelude.{
  ℕ, Bool, true, false, not, ◌&&◌, Option, none, some, List, [], ◌∷◌, ◌++◌, String, text_eq, ◌⧺◌,
  has_text, or_text, is_set, head?, if◌then◌else◌,
}
use getupnet.Prelude.Int.{pos}
use getupnet.Prelude.Effects.{
  Action, ok, missing_error, skip, gets, modify, when, pure, or_raise, ◌>>=◌, ◌>>◌,
}
use getupnet.Prelude.Rows.{browse, assign, ids}
use getupnet.Database.{Database}
use getupnet.Database.Core.{
  MacProfile, Presence, Partner, Subscription, SubscriptionState, AuthMethod, DhcpMode, JobType,
  Payload,
}
use getupnet.Database.Network.{CaptiveUser, CaptiveState}
use getupnet.Platform.{Platform}
use getupnet.Core.Subscription.{or_else_text, create_job, token_hex}
use getupnet.Core.Subscription.Forms
use getupnet.Captive.{related_device}
use getupnet.Mikrotik.Handlers.{router_of_sector}
use getupnet.Preconfig.Payload.{find_sector}
use Text.{captive_username, is_on}
use Request.{
  Visit, Response, refusal, visited_mac, seen, new_profile, has_mac, sector_required, new_line,
  new_captive_user, has_username,
}

unfoldable pub read_profile : ℕ → Action Database MacProfile
read_profile i db = or_raise (browse i db.mac_profiles) (missing_error "isp.mac_profile") db

unfoldable pub update : ℕ → (MacProfile → MacProfile) → Action Database (Unit {0})
update i f = modify λ db. record db { mac_profiles = assign i f db.mac_profiles }

module _ ⦃platform : Platform⦄ where
  unfoldable pub find_profile : String → Database → Option ℕ
  find_profile mac db = head? (platform.search MacProfile (has_mac mac) db.mac_profiles)

  unfoldable pub create_profile : MacProfile → Action Database ℕ
  create_profile profile = do
    i ← gets (λ db. platform.new_id (ids db.mac_profiles))
    modify λ db. record db { mac_profiles = db.mac_profiles ++ (i, profile) ∷ [] }
    pure i

  abbrev pub write_or_create : Visit → Option ℕ → ℕ → Option ℕ → Action Database ℕ
  write_or_create kw sector_id now none = create_profile (new_profile kw sector_id now)
  write_or_create kw sector_id now (some i) = do update i (seen kw sector_id now); pure i

  -- The profile of the MAC address, written or made.
  unfoldable pub note_visit : Visit → Option ℕ → Action Database ℕ
  note_visit kw sector_id = do
    now ← gets (λ db. db.now)
    found ← gets (find_profile (visited_mac kw))
    write_or_create kw sector_id now found

  -- The partner of a profile, who is made if there is none.
  unfoldable pub ensure_partner : Visit → ℕ → Option ℕ → Action Database ℕ
  ensure_partner kw profile_id (some partner) = pure partner
  ensure_partner kw profile_id none = do
    i ← gets (λ db. platform.new_id (ids db.partners))
    modify (λ db. record db {
      partners =
          db.partners
          ++ (i, record { name = "Auto " ⧺ visited_mac kw; email = none; is_isp_customer = true })
            ∷ [];
    })
    update profile_id (λ profile. record profile { partner_id = some i })
    pure i

  -- The router of a sector, if a sector is known.
  abbrev pub sector_router : Option ℕ → Database → Option ℕ
  sector_router none db = none
  sector_router (some s) db = router_of_sector s db

  unfoldable pub create_line : Visit → ℕ → ℕ → ℕ → Action Database (Option Response)
  create_line kw profile_id plan_id sector_id = do
    profile ← read_profile profile_id
    partner_id ← ensure_partner kw profile_id profile.partner_id
    router_id ← gets (sector_router (some sector_id))
    sub ← Forms.create none (new_line kw partner_id plan_id sector_id router_id)
    update profile_id (λ profile. record profile { subscription_id = some sub })
    update profile_id (λ profile. record profile { plan_id = some plan_id })
    pure none

  -- The line that is made for a profile without one; the sector of the profile is the one that was
  -- just written to it. An answer ends the request.
  abbrev pub for_plan : Visit → Option ℕ → ℕ → Option ℕ → Action Database (Option Response)
  for_plan kw sector_id profile_id none = pure none
  for_plan kw none profile_id (some plan_id) = pure (some sector_required)
  for_plan kw (some sector_id) profile_id (some plan_id) =
      create_line kw profile_id plan_id sector_id

  unfoldable pub auto_create : Visit → Option ℕ → ℕ → Action Database (Option Response)
  auto_create kw sector_id profile_id = do
    setting ← gets (λ db. db.text_param "isp_core.mac_auto_create")
    profile ← read_profile profile_id
    plan ← gets (λ db. db.number_param "isp_core.mac_default_plan_id")
    if is_on setting && not (is_set profile.subscription_id)
        then for_plan kw sector_id profile_id plan
        else pure none

  unfoldable pub create_captive_user : Visit → Option ℕ → Action Database (Unit {0})
  create_captive_user kw sector_id = do
    profile ← gets (λ db. db.text_param "isp_core.mac_captive_default_profile")
    password ← token_hex 4
    router_id ← gets (sector_router sector_id)
    i ← gets (λ db. platform.new_id (ids db.captive_users))
    modify (λ db. record db {
      captive_users =
          db.captive_users
          ++ (
            i,
            new_captive_user (captive_username (visited_mac kw)) password
                (or_text profile "default") router_id,
          )
            ∷ [];
    })
    auto_prov ← gets (λ db. db.text_param "isp_core.mac_auto_provision_captive")
    device_id ← gets (related_device router_id)
    when (is_on auto_prov && is_set router_id) (do
      create_job JobType.captive_user_create none device_id sector_id (Payload.captive_user_id i)
      skip)

  unfoldable pub auto_captive : Visit → Option ℕ → Action Database (Unit {0})
  auto_captive kw sector_id = do
    setting ← gets (λ db. db.text_param "isp_core.mac_auto_create_captive_user")
    found ← gets (λ db. head? (
        platform.search CaptiveUser (has_username (captive_username (visited_mac kw)))
          db.captive_users))
    when (is_on setting && not (is_set found)) (create_captive_user kw sector_id)

  abbrev pub finish : Visit → Option ℕ → Option Response → Action Database Response
  finish kw sector_id (some response) = pure response
  finish kw sector_id none = do
    auto_captive kw sector_id
    pure (record { body = "ok"; status = 200 })

  -- A request that is not refused.
  unfoldable pub accept : Visit → Action Database Response
  accept kw = do
    sector_id ← gets (find_sector kw.sector)
    profile_id ← note_visit kw sector_id
    answer ← auto_create kw sector_id profile_id
    finish kw sector_id answer

  unfoldable pub mac_onboarding : Visit → Action Database Response
  mac_onboarding kw db = elim (refusal kw db) [
    | none ↦ accept kw db
    | some response ↦ (ok response, db)
  ]
