-- ===== src/MacOnboarding/Profiles.antt =====
-- The profiles and the lines after a request to addons/isp_core/controllers/mac_onboarding.py.
use getupnet.Prelude.{
  ℕ, ◌≡◌, refl, ap, ◌∙◌, ◌||◌, ◌⊎◌, not, inl, inr, Option, none, some, List, [], ◌∷◌, ◌++◌, is_set,
  arith, if◌then◌else◌,
}
use getupnet.Prelude.Effects.{Action, Result, Exception, ok, err, is_ok, continue, ◌>>=◌}
use getupnet.Prelude.Frame.{Keeps}
use getupnet.Prelude.Rows.{Table, ids, ids-assign}
use getupnet.Database.{Database}
use getupnet.Platform.{Platform, Transaction}
use getupnet.Preconfig.Payload.{find_sector}
use getupnet.MacOnboarding.{
  find_profile, create_profile, write_or_create, note_visit, update, auto_create, finish, accept,
  mac_onboarding,
}
use getupnet.MacOnboarding.Request.{Visit, refusal, visited_mac, seen, new_profile}
use getupnet.MacOnboarding.Frame.{profile_ids, auto_create-Keeps, finish-Keeps}

-- What comes after an action and keeps a view leaves the view as the action made it.
after_bind :
    {S B A C : Type 0} {view : S → B} (m : Action S A) (f : A → Action S C) (s : S)
    → ((a : A) → Keeps view (f a))
    → view ((m >>= f) s).1 ≡ view (m s).1
after_bind {S} {B} {A} {C} {view} m f s kept = go (m s).0 (m s).1
  where
    go : (r : Result A) (s' : S) → view (continue r f s').1 ≡ view s'
    go (ok a) s' = (kept a).at s'
    go (err e) s' = refl

Result-cases :
    {A : Type 0} (r : Result A) → ((a : A) × (r ≡ ok a)) ⊎ ((e : Exception) × (r ≡ err e))
Result-cases (ok a) = inl (a, refl)
Result-cases (err e) = inr (e, refl)

ids-append :
    {A : Type 0} (t : Table A) (i : ℕ) (row : A) → ids (t ++ (i, row) ∷ []) ≡ ids t ++ i ∷ []
unfolding ids
ids-append [] i row = refl
ids-append ((j, other) ∷ t) i row = ap (λ l. j ∷ l) (ids-append t i row)

module _ ⦃platform : Platform⦄ where
  -- The ids of the profiles after the profile of a MAC address was written or made.
  abbrev with_profile : Option ℕ → List ℕ → List ℕ
  with_profile none taken = taken ++ platform.new_id taken ∷ []
  with_profile (some i) taken = taken

  write_or_create-ids :
      (kw : Visit) (sector : Option ℕ) (now : ℕ) (found : Option ℕ) (db : Database)
      → profile_ids (write_or_create kw sector now found db).1 ≡ with_profile found (profile_ids db)
  unfolding create_profile update
  write_or_create-ids kw sector now none db =
      ids-append db.mac_profiles (platform.new_id (ids db.mac_profiles)) (new_profile kw sector now)
  write_or_create-ids kw sector now (some i) db = ids-assign i (seen kw sector now) db.mac_profiles

  accept-ids :
      (kw : Visit) (db : Database)
      → profile_ids (accept kw db).1
        ≡ with_profile (find_profile (visited_mac kw) db) (profile_ids db)
  unfolding accept note_visit
  accept-ids kw db =
      let sector = find_sector kw.sector db in
      after_bind (note_visit kw sector) (λ i. auto_create kw sector i >>= finish kw sector) db
        (λ i. record {
          at = λ s.
              after_bind (auto_create kw sector i) (finish kw sector) s (finish-Keeps kw sector)
              ∙ (auto_create-Keeps kw sector i).at s;
        })
      ∙ write_or_create-ids kw sector db.now (find_profile (visited_mac kw) db) db

  written-profiles :
      (kw : Visit) (db : Database)
      → ids (mac_onboarding kw db).1.mac_profiles ≡ (
          if is_set (refusal kw db) || is_set (find_profile (visited_mac kw) db)
          then ids db.mac_profiles
          else ids db.mac_profiles ++ platform.new_id (ids db.mac_profiles) ∷ [])
  unfolding mac_onboarding
  written-profiles kw db = ground (arith, accept-ids kw db)

  -- Where every request runs in a transaction, a request that goes through, is not refused and whose
  -- MAC address no profile has makes one profile, and every other request makes none; no profile is
  -- ever lost.
  pub mac_onboarding-profiles :
      (t : Transaction) (kw : Visit) (db : Database)
      → ids (t.run (mac_onboarding kw) db).1.mac_profiles ≡ (
          if not (is_ok (mac_onboarding kw db).0)
            || is_set (refusal kw db)
            || is_set (find_profile (visited_mac kw) db)
          then ids db.mac_profiles
          else ids db.mac_profiles ++ platform.new_id (ids db.mac_profiles) ∷ [])
  mac_onboarding-profiles t kw db = elim (Result-cases (mac_onboarding kw db).0) [
    | inl (a, goes) ↦ rw goes (rw (t.commits (mac_onboarding kw) db goes) (written-profiles kw db))
    | inr (e, raises) ↦
        rw raises
          (ap (λ (d : Database). ids d.mac_profiles) (t.rolls_back (mac_onboarding kw) db raises))
  ]
