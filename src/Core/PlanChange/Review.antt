-- ===== src/Core/PlanChange/Review.antt =====
-- The requests before they are applied: dates, permissions and rejection.
use getupnet.Prelude.{
  ℕ, ◌≡◌, ap, ◌∙◌, true, [], ◌||◌, Bool, not, ◌&&◌, some, String, ◌⧺◌, has_text, or_value, is_set,
  arith, if◌then◌else◌,
}
use getupnet.Prelude.Effects.{ok, err, validation_error}
use getupnet.Prelude.Rows.{browse, assign, browse-assign}
use getupnet.Prelude.Frame.{Keeps}
use getupnet.Database.{Database}
use getupnet.Database.Core.{PlanChangeRequest, RequestState, Subscription, ServicePlan}
use getupnet.Platform.{Platform}
use getupnet.Core.Audit.{log_action, send_template}
use getupnet.Core.Subscription
use getupnet.Core.Subscription.{read_plan}
use getupnet.Core.PlanChange.{
  read, write, check_effective_date, set_effective_date, default_date, ensure_effective_date,
  is_immediate, notify, submit, reject,
}

abbrev pub may_write_requests : Database → Bool
may_write_requests db = db.may_write "isp.plan.change.request"

module _ ⦃platform : Platform⦄ where
  -- The row with the date that its mode asks for, where it has none.
  abbrev pub dated : Subscription → ℕ → PlanChangeRequest → PlanChangeRequest
  dated sub today rec = record rec {
    effective_date =
        if is_set rec.effective_date
        then rec.effective_date
        else default_date rec.effective_date_mode sub today;
  }

  pub ensure_effective_date_lem :
      (i : ℕ) (db : Database) {rec : PlanChangeRequest} {sub : Subscription}
      → may_write_requests db ≡ true
      → browse i db.plan_changes ≡ some rec
      → browse rec.subscription_id db.subscriptions ≡ some sub
      → ((ensure_effective_date i db).0 ≡ ok tt)
        × (browse i (ensure_effective_date i db).1.plan_changes ≡ some (dated sub db.today rec))
  unfolding ensure_effective_date read write check_effective_date set_effective_date
      Subscription.read default_date
  ensure_effective_date_lem i db {rec} {sub} may found line =
      let f = λ (day : ℕ) (row : PlanChangeRequest). record row { effective_date = some day } in
      let cycle = or_value sub.next_invoice_date (platform.month_later db.today) in
      ground (
        arith,
        may,
        found,
        line,
        browse-assign i i (f db.today) db.plan_changes,
        browse-assign i i (f cycle) db.plan_changes,
      )

  -- The tables that a mail and an audit entry leave alone.
  abbrev pub tables : Database → Database
  tables db = record db { mails = []; audit_log = [] }

  pub notify-goes :
      (i : ℕ) (xmlid : String) (db : Database) {rec : PlanChangeRequest} {sub : Subscription}
      → browse i db.plan_changes ≡ some rec
      → browse rec.subscription_id db.subscriptions ≡ some sub
      → (notify i xmlid db).0 ≡ ok tt
  unfolding notify read Subscription.read send_template
  notify-goes i xmlid db found line = ground (arith, found, line)

  pub notify-tables : (i : ℕ) (xmlid : String) → Keeps tables (notify i xmlid)
  unfolding notify read Subscription.read send_template
  notify-tables i xmlid = record { at = λ db. ground arith }

  abbrev pub in_state : RequestState → PlanChangeRequest → PlanChangeRequest
  in_state state rec = record rec { state = state }

  -- For a user who may write requests and a request whose line is there, a rejection goes through exactly if it has a reason, and the
  -- request is rejected then, whatever state it was in before. Without a reason the request is left
  -- as it was.
  pub reject-answer :
      (i : ℕ) (db : Database) {rec : PlanChangeRequest} {sub : Subscription}
      → may_write_requests db ≡ true
      → browse i db.plan_changes ≡ some rec
      → browse rec.subscription_id db.subscriptions ≡ some sub
      → ((reject i db).0 ≡ (
          if has_text rec.rejection_reason
          then ok tt
          else err (validation_error "Rejection reason is required.")))
        × (browse i (reject i db).1.plan_changes
            ≡ some
                (if has_text rec.rejection_reason then in_state RequestState.rejected rec else rec))
  unfolding reject read write log_action
  reject-answer i db {rec} may found line =
      let f = in_state RequestState.rejected in
      let xmlid : String = "isp_core.mail_template_plan_change_rejected" in
      let logged =
        (log_action "plan_change_rejected" "isp.subscription" rec.subscription_id
          "Plan change rejected" (record db { plan_changes = assign i f db.plan_changes })).1 in
      let here = browse-assign i i f db.plan_changes in
      let kept = ap (λ (d : Database). d.plan_changes) ((notify-tables i xmlid).at logged) in
      let sent = notify-goes i xmlid logged {rec = f rec} (ground (arith, found, here)) line in
      (ground (arith, may, found, sent), ground (arith, may, found, kept, here))

  -- Whether the user may ask for a change at once.
  abbrev pub may_hurry : Database → Bool
  may_hurry db = db.has_group "isp_core.group_isp_admin" || db.has_group "isp_core.group_isp_noc"

  abbrev pub is_denied : Database → PlanChangeRequest → Bool
  is_denied db rec = is_immediate rec.effective_date_mode && not (may_hurry db)

  pub ensure_effective_date_rest :
      (i : ℕ) → Keeps (λ (db : Database). record db { plan_changes = [] }) (ensure_effective_date i)
  unfolding ensure_effective_date read write check_effective_date set_effective_date
      Subscription.read default_date
  ensure_effective_date_rest i = record { at = λ db. ground arith }

  -- For a user who may write requests and a request whose line and plan are there, a submission goes through unless it asks for a
  -- change at once and the user is neither admin nor of the NOC. The request is submitted then, with
  -- the date that its mode asks for where it had none; a denied request is left as it was.
  pub submit-answer :
      (i : ℕ) (db : Database) {rec : PlanChangeRequest} {sub : Subscription} {plan : ServicePlan}
      → may_write_requests db ≡ true
      → browse i db.plan_changes ≡ some rec
      → browse rec.subscription_id db.subscriptions ≡ some sub
      → browse rec.requested_plan_id db.plans ≡ some plan
      → ((submit i db).0 ≡ (
          if is_denied db rec
          then err (validation_error "Immediate plan changes require Admin or NOC permissions.")
          else ok tt))
        × (browse i (submit i db).1.plan_changes
            ≡ some (
                if is_denied db rec
                then rec
                else in_state RequestState.submitted (dated sub db.today rec)))
  unfolding submit read write log_action read_plan
  submit-answer i db {rec} {sub} {plan} may found line planned =
      let f = in_state RequestState.submitted in
      let xmlid : String = "isp_core.mail_template_plan_change_submitted" in
      let db1 = (ensure_effective_date i db).1 in
      let (goes, row) = ensure_effective_date_lem i db {sub = sub} may found line in
      let rest = (ensure_effective_date_rest i).at db in
      let still = ap (λ (d : Database). may_write_requests d) rest ∙ may in
      let plans = ap (λ (d : Database). d.plans) rest in
      let subs = ap (λ (d : Database). d.subscriptions) rest in
      let logged =
        (log_action "plan_change_submitted" "isp.subscription" rec.subscription_id
          ("Plan change requested to " ⧺ plan.name)
          (record db1 { plan_changes = assign i f db1.plan_changes })).1 in
      let here = browse-assign i i f db1.plan_changes in
      let kept = ap (λ (d : Database). d.plan_changes) ((notify-tables i xmlid).at logged) in
      let sent =
        notify-goes i xmlid logged {rec = f (dated sub db.today rec)} {sub = sub}
          (ground (arith, row, here)) (rw subs line) in
      (
        ground (arith, found, goes, still, plans, planned, sent),
        ground (arith, found, goes, still, row, plans, planned, kept, here),
      )
