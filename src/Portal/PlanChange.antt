-- ===== src/Portal/PlanChange.antt =====
-- What a customer's request for another plan does.
use getupnet.Prelude.{
  ℕ, ◌+◌, ◌==◌, ◌≡◌, ap, ◌∙◌, true, false, some, [], ◌∷◌, ◌++◌, or_text, arith, if◌then◌else◌,
}
use getupnet.Prelude.Effects.{Result, ok, err, access_error, for_each}
use getupnet.Prelude.Rows.{browse, ids, browse_fresh}
use getupnet.Database.{Database}
use getupnet.Database.Core.{PlanChangeRequest, RequestState, Subscription, ServicePlan}
use getupnet.Platform.{Platform}
use getupnet.Core.Subscription
use getupnet.Core.Subscription.{next_name}
use getupnet.Core.PlanChange.{
  read, check_plan_diff, check_effective_date, ensure_effective_date, create, action_submit,
}
use getupnet.Core.PlanChange.Review.{
  may_write_requests, dated, in_state, ensure_effective_date_lem, ensure_effective_date_rest,
  submit-answer,
}
use getupnet.Portal.{Redirect, portal_request, plan_change_submit}

module _ ⦃platform : Platform⦄ where
  -- The request as `create` stores it.
  abbrev pub named : ℕ → ℕ → Database → PlanChangeRequest
  named sub_id plan_id db = record (portal_request sub_id plan_id) {
    name = or_text (platform.next_by_code "isp.plan.change.request" db.sequence_calls) "PCR";
  }

  stored : ℕ → ℕ → Database → Database
  stored sub_id plan_id db = record db {
    sequence_calls = db.sequence_calls + 1;
    plan_changes =
        db.plan_changes ++ (platform.new_id (ids db.plan_changes), named sub_id plan_id db) ∷ [];
  }

  create-stored :
      (sub_id plan_id : ℕ) (db : Database) {sub : Subscription}
      → may_write_requests db ≡ true
      → browse sub_id db.subscriptions ≡ some sub
      → plan_id == sub.plan_id ≡ false
      → let i = platform.new_id (ids db.plan_changes) in
        create (portal_request sub_id plan_id) db
        ≡ (ok i, (ensure_effective_date i (stored sub_id plan_id db)).1)
  unfolding create next_name check_plan_diff check_effective_date read Subscription.read stored
  create-stored sub_id plan_id db {sub} may found other =
      let i = platform.new_id (ids db.plan_changes) in
      let fresh =
        browse_fresh i (named sub_id plan_id db) db.plan_changes
          (platform.new_id_fresh (ids db.plan_changes)) in
      let (goes, row) =
        ensure_effective_date_lem i (stored sub_id plan_id db) {rec = named sub_id plan_id db}
          {sub = sub} may fresh found in
      ground (arith, found, other, fresh, goes)

  submitted :
      (partner sub_id plan_id : ℕ) (db : Database) {sub : Subscription} {plan : ServicePlan}
      → may_write_requests db ≡ true
      → browse sub_id db.subscriptions ≡ some sub
      → browse plan_id db.plans ≡ some plan
      → plan_id == sub.plan_id ≡ false
      → sub.partner_id == partner ≡ true
      → let i = platform.new_id (ids db.plan_changes) in
        let after = plan_change_submit partner sub_id plan_id db in
        (after.0 ≡ ok (Redirect.service sub_id))
        × (browse i after.1.plan_changes
            ≡ some (in_state RequestState.submitted (dated sub db.today (named sub_id plan_id db))))
  unfolding plan_change_submit action_submit for_each Subscription.read stored
  submitted partner sub_id plan_id db {sub} {plan} may found planned other own =
      let i = platform.new_id (ids db.plan_changes) in
      let db1 = stored sub_id plan_id db in
      let fresh =
        browse_fresh i (named sub_id plan_id db) db.plan_changes
          (platform.new_id_fresh (ids db.plan_changes)) in
      let (goes, row) =
        ensure_effective_date_lem i db1 {rec = named sub_id plan_id db} {sub = sub} may fresh
          found in
      let made = create-stored sub_id plan_id db {sub = sub} may found other in
      let db2 = (ensure_effective_date i db1).1 in
      let rest = (ensure_effective_date_rest i).at db1 in
      let still : may_write_requests db2 ≡ true =
        ap (λ (d : Database). may_write_requests d) rest ∙ may in
      let lines : browse sub_id db2.subscriptions ≡ some sub =
        ap (λ (d : Database). browse sub_id d.subscriptions) rest ∙ found in
      let offers : browse plan_id db2.plans ≡ some plan =
        ap (λ (d : Database). browse plan_id d.plans) rest ∙ planned in
      let (sent, there) =
        submit-answer i db2 {rec = dated sub db.today (named sub_id plan_id db)} {sub = sub}
          {plan = plan} still row lines offers in
      (ground (arith, found, made, sent, own), ground (arith, found, made, sent, own, there))

  abbrev pub submitted_request : ℕ → ℕ → Database → Subscription → PlanChangeRequest
  submitted_request sub_id plan_id db sub =
      in_state RequestState.submitted (dated sub db.today (named sub_id plan_id db))

  -- What the route answers to the owner of a line and to anyone else, and what it raises.
  abbrev pub route_answer : ℕ → ℕ → Database → Subscription → Result Redirect
  route_answer partner sub_id db sub =
      if sub.partner_id == partner
      then (if may_write_requests db
          then ok (Redirect.service sub_id)
          else err (access_error "isp.plan.change.request"))
      else (if db.has_group "isp_portal.group_isp_portal_customer"
          then err (access_error "isp.subscription")
          else ok Redirect.home)
