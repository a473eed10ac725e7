-- ===== src/MacOnboarding/Lines.antt =====
-- The lines and the partners after a request to addons/isp_core/controllers/mac_onboarding.py for a
-- profile that has its line.
use getupnet.Prelude.{ℕ, ◌≡◌, refl, ap, Option, none, some, String, arith}
use getupnet.Prelude.Effects.{ok}
use getupnet.Prelude.Frame.{Keeps, Keeps-modify, frame_rules}
use getupnet.Prelude.Rows.{Table, browse, browse-assign}
use getupnet.Database.{Database}
use getupnet.Database.Core.{MacProfile, Subscription, Partner, JobType, Payload}
use getupnet.Platform.{Platform}
use getupnet.Core.Subscription.{token_hex, next_name, create_job}
use getupnet.Preconfig.Payload.{find_sector}
use getupnet.MacOnboarding.{
  find_profile, note_visit, read_profile, update, auto_create, create_captive_user, auto_captive,
  finish, accept, mac_onboarding,
}
use getupnet.MacOnboarding.Request.{Visit, Response, visited_mac, seen}

abbrev lines_of : Database → Table Subscription × Table Partner
lines_of db = (db.subscriptions, db.partners)

ruleset line_rules = (frame_rules, Keeps-modify)

module _ ⦃platform : Platform⦄ where
  token_hex-Keeps : (n : ℕ) → Keeps lines_of (token_hex n)
  unfolding token_hex
  token_hex-Keeps n = record { at = λ db. refl }

  next_name-Keeps : (code name : String) → Keeps lines_of (next_name code name)
  unfolding next_name
  next_name-Keeps code name = record { at = λ db. refl }

  create_job-Keeps :
      (job_type : JobType) (sub device sector : Option ℕ) (payload : Payload)
      → Keeps lines_of (create_job job_type sub device sector payload)
  unfolding create_job
  create_job-Keeps job_type sub device sector payload =
      search (line_rules, next_name-Keeps) depth 12

  create_captive_user-Keeps :
      (kw : Visit) (sector : Option ℕ) → Keeps lines_of (create_captive_user kw sector)
  unfolding create_captive_user
  create_captive_user-Keeps kw sector =
      search (line_rules, token_hex-Keeps, create_job-Keeps) depth 24

  auto_captive-Keeps : (kw : Visit) (sector : Option ℕ) → Keeps lines_of (auto_captive kw sector)
  unfolding auto_captive
  auto_captive-Keeps kw sector = search (line_rules, create_captive_user-Keeps) depth 12

  finish-Keeps :
      (kw : Visit) (sector : Option ℕ) (answer : Option Response)
      → Keeps lines_of (finish kw sector answer)
  finish-Keeps kw sector (some response) = search line_rules
  finish-Keeps kw sector none = search (line_rules, auto_captive-Keeps) depth 8

  -- A profile with a line gets through without a new one.
  auto_create-lined :
      (kw : Visit) (sector : Option ℕ) (i : ℕ) (db : Database) {profile : MacProfile} {line : ℕ}
      → browse i db.mac_profiles ≡ some profile
      → profile.subscription_id ≡ some line
      → auto_create kw sector i db ≡ (ok none, db)
  unfolding auto_create read_profile
  auto_create-lined kw sector i db {profile} {line} there lined = ground (arith, there, lined)

  accept-lines :
      (kw : Visit) (db : Database) (i : ℕ) {profile : MacProfile} {line : ℕ}
      → find_profile (visited_mac kw) db ≡ some i
      → browse i db.mac_profiles ≡ some profile
      → profile.subscription_id ≡ some line
      → lines_of (accept kw db).1 ≡ lines_of db
  unfolding accept note_visit update
  accept-lines kw db i {profile} {line} found there lined =
      let sector = find_sector kw.sector db in
      let db1 = (update i (seen kw sector db.now) db).1 in
      let read : browse i db1.mac_profiles ≡ some (seen kw sector db.now profile) =
        ground (arith, there, browse-assign i i (seen kw sector db.now) db.mac_profiles) in
      let goes =
        auto_create-lined kw sector i db1 {profile = seen kw sector db.now profile} {line = line}
          read lined in
      rw (found, goes) ((finish-Keeps kw sector none).at db1)

  -- Where the profile of a MAC address has its line, a request for the address, whatever else it says
  -- and however it ends, makes neither a line nor a partner and changes none.
  pub mac_onboarding-one_line :
      (kw : Visit) (db : Database) (i : ℕ) {profile : MacProfile} {line : ℕ}
      → find_profile (visited_mac kw) db ≡ some i
      → browse i db.mac_profiles ≡ some profile
      → profile.subscription_id ≡ some line
      → ((mac_onboarding kw db).1.subscriptions ≡ db.subscriptions)
        × ((mac_onboarding kw db).1.partners ≡ db.partners)
  unfolding mac_onboarding
  mac_onboarding-one_line kw db i {profile} {line} found there lined =
      let kept = accept-lines kw db i {profile = profile} {line = line} found there lined in
      let subscriptions : (accept kw db).1.subscriptions ≡ db.subscriptions =
        ap (λ (p : Table Subscription × Table Partner). p.0) kept in
      let partners : (accept kw db).1.partners ≡ db.partners =
        ap (λ (p : Table Subscription × Table Partner). p.1) kept in
      (ground (arith, subscriptions), ground (arith, partners))
