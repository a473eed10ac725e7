-- ===== src/Core/Subscription/Credentials.antt =====
-- When `_ensure_pppoe_credentials` succeeds, and what it leaves.
use getupnet.Prelude.{
  ℕ, ◌+◌, ◌≡◌, true, false, not, some, String, text_eq, has_text, or_text, inl, inr, ◌||◌,
  Bool-cases, if◌then◌else◌, arith,
}
use getupnet.Prelude.Effects.{Result, ok, err, validation_error, ◌>>◌}
use getupnet.Prelude.Rows.{browse, assign, browse-assign}
use getupnet.Database.{Database}
use getupnet.Database.Core.{Subscription, ServicePlan}
use getupnet.Platform.{Platform}
use getupnet.Core.Subscription.{
  is_pppoe, or_else_text, lacks_credentials, read, read_plan, update, token_hex,
  check_pppoe_credentials, ensure_username, ensure_password, ensure_profile,
  ensure_pppoe_credentials,
}

abbrev required_text : String
required_text = "PPPoE username and password are required."

module _ ⦃platform : Platform⦄ where
  -- A PPPoE line with neither user name nor password never gets them: the check that runs on the
  -- first assignment finds the password missing and raises.
  pub ensure-blank_raises :
      (i : ℕ) (db : Database) {rec : Subscription}
      → browse i db.subscriptions ≡ some rec
      → is_pppoe rec.auth_method ≡ true
      → has_text rec.pppoe_username ≡ false
      → has_text rec.pppoe_password ≡ false
      → (ensure_pppoe_credentials i db).0
        ≡ err (validation_error "PPPoE username and password are required.")
  unfolding ensure_pppoe_credentials ensure_username read update check_pppoe_credentials
      lacks_credentials
  ensure-blank_raises i db {rec} found pppoe no_user no_password = ground (
    arith,
    found,
    browse-assign i i (λ (row : Subscription). record row { pppoe_username = some rec.name })
        db.subscriptions,
  )

  -- A line by DHCP is left alone.
  pub ensure-dhcp_idle :
      (i : ℕ) (db : Database) {rec : Subscription}
      → browse i db.subscriptions ≡ some rec
      → is_pppoe rec.auth_method ≡ false
      → ensure_pppoe_credentials i db ≡ (ok tt, db)
  unfolding ensure_pppoe_credentials read
  ensure-dhcp_idle i db found dhcp = ground (arith, found)

  -- The state after an assignment to fields of a subscription.
  abbrev after : ℕ → (Subscription → Subscription) → Database → Database
  after i f db = record db { subscriptions = assign i f db.subscriptions }

  checked_update :
      (i : ℕ) (f : Subscription → Subscription) (db : Database) (rec : Subscription)
      → browse i db.subscriptions ≡ some rec
      → lacks_credentials (f rec) ≡ false
      → (update i f >> check_pppoe_credentials i) db ≡ (ok tt, after i f db)
  unfolding update check_pppoe_credentials read
  checked_update i f db rec found fine = ground (arith, found, browse-assign i i f db.subscriptions)

  -- A step succeeded and left a certain row; the plans and the random source are as given.
  abbrev Leaves : ℕ → Result (Unit {0}) × Database → Database → ℕ → Subscription → Type 0
  Leaves i (r, db') db calls row =
      (r ≡ ok tt)
      × (browse i db'.subscriptions ≡ some row)
      × (db'.plans ≡ db.plans)
      × (db'.token_calls ≡ calls)

  abbrev with_username : Subscription → Subscription
  with_username rec = record rec { pppoe_username = some (or_text rec.pppoe_username rec.name) }

  ensure_username_lem :
      (i : ℕ) (db : Database) (rec : Subscription)
      → browse i db.subscriptions ≡ some rec
      → has_text rec.pppoe_username || has_text rec.pppoe_password ≡ true
      → has_text rec.pppoe_username || not (text_eq rec.name "") ≡ true
      → Leaves i (ensure_username i db) db db.token_calls (with_username rec)
  unfolding ensure_username read lacks_credentials
  ensure_username_lem i db rec found half named =
      let f = λ (row : Subscription). record row { pppoe_username = some rec.name } in
      ground (arith, found, checked_update i f db rec found, browse-assign i i f db.subscriptions)

  abbrev with_password : ℕ → Subscription → Subscription
  with_password calls rec = record rec {
    pppoe_password = some (or_text rec.pppoe_password (platform.token_hex 6 calls));
  }

  ensure_password_lem :
      (i : ℕ) (db : Database) (rec : Subscription)
      → browse i db.subscriptions ≡ some rec
      → has_text rec.pppoe_username ≡ true
      → (calls : ℕ) × Leaves i (ensure_password i db) db calls (with_password db.token_calls rec)
  unfolding ensure_password read token_hex lacks_credentials
  ensure_password_lem i db rec found user =
      let token = platform.token_hex 6 db.token_calls in
      let f = λ (row : Subscription). record row { pppoe_password = some token } in
      let db' : Database = record db { token_calls = db.token_calls + 1 } in
      elim (Bool-cases (has_text rec.pppoe_password)) [
        | inl has ↦ (db.token_calls, ground (arith, found))
        | inr lacks ↦ (
          db.token_calls + 1,
          ground (
            arith,
            found,
            platform.token_hex_text 6 db.token_calls (omega arith),
            checked_update i f db' rec found,
            browse-assign i i f db.subscriptions,
          ),
        )
      ]

  abbrev with_profile : ServicePlan → Subscription → Subscription
  with_profile plan rec = record rec {
    pppoe_profile =
        if has_text rec.pppoe_profile
        then rec.pppoe_profile
        else or_else_text plan.mikrotik_profile rec.pppoe_profile;
  }

  ensure_profile_lem :
      (i : ℕ) (db : Database) (rec : Subscription) {plan : ServicePlan}
      → browse i db.subscriptions ≡ some rec
      → browse rec.plan_id db.plans ≡ some plan
      → ((ensure_profile i db).0 ≡ ok tt)
        × (browse i (ensure_profile i db).1.subscriptions ≡ some (with_profile plan rec))
  unfolding ensure_profile read read_plan update
  ensure_profile_lem i db rec {plan} found planned =
      let profile = or_else_text plan.mikrotik_profile rec.pppoe_profile in
      let f = λ (row : Subscription). record row { pppoe_profile = profile } in
      ground (arith, found, planned, browse-assign i i f db.subscriptions)

  -- The row that the three assignments leave: what is there stays, what is missing is filled in.
  abbrev pub completed : ServicePlan → Database → Subscription → Subscription
  completed plan db rec = with_profile plan (with_password db.token_calls (with_username rec))

  -- A PPPoE line that has a user name or a password, and a user name or a name to take it from, gets
  -- through: the missing user name is the line's name, the missing password a fresh token, the
  -- missing profile that of the plan, and what was there stays.
  pub ensure-completed :
      (i : ℕ) (db : Database) {rec : Subscription} {plan : ServicePlan}
      → browse i db.subscriptions ≡ some rec
      → browse rec.plan_id db.plans ≡ some plan
      → is_pppoe rec.auth_method ≡ true
      → has_text rec.pppoe_username || has_text rec.pppoe_password ≡ true
      → has_text rec.pppoe_username || not (text_eq rec.name "") ≡ true
      → ((ensure_pppoe_credentials i db).0 ≡ ok tt)
        × (browse i (ensure_pppoe_credentials i db).1.subscriptions ≡ some (completed plan db rec))
  unfolding ensure_pppoe_credentials read
  ensure-completed i db {rec} {plan} found planned pppoe half named =
      let (done, row, plans, calls) = ensure_username_lem i db rec found half named in
      let db1 = (ensure_username i db).1 in
      let (calls', (done', row', plans', c')) =
        ensure_password_lem i db1 (with_username rec) row (ground arith) in
      let db2 = (ensure_password i db1).1 in
      let (done'', row'') =
        ensure_profile_lem i db2 (with_password db1.token_calls (with_username rec)) {plan = plan}
          row' (rw (plans', plans) planned) in
      (ground (arith, found, done, done', done''), ground (arith, found, done, done', row'', calls))
