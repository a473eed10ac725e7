-- ===== src/Billing/Subscription/Overdue.antt =====
-- When the scheduled jobs queue a suspension and a reconnection.
use getupnet.Prelude.{
  ℕ, ◌==◌, ◌≡◌, ◌&&◌, some, List, or_value, or_number, length, arith, if◌then◌else◌,
}
use getupnet.Prelude.Effects.{ok}
use getupnet.Prelude.Rows.{browse, matching}
use getupnet.Prelude.Search.{length-permutation}
use getupnet.Database.{Database}
use getupnet.Database.Core.{Subscription, ServicePlan, JobType}
use getupnet.Database.Billing.{Invoice}
use getupnet.Platform.{Platform}
use getupnet.Core.Subscription
use getupnet.Core.Subscription.{read_plan, queue_job}
use getupnet.Core.Subscription.Queue.{with_job, queue_job_lem}
use getupnet.Billing.Subscription.{
  is_active, is_overdue, due_date, is_open_of, suspend_if_overdue, reconnect_if_paid,
}

-- The days of grace of a plan: its own, or those of the settings where it has none.
abbrev pub grace : Database → ServicePlan → ℕ
grace db plan =
    or_number plan.suspend_after_days
      (or_value (db.number_param "isp_billing.suspend_after_days") 10)

module _ ⦃platform : Platform⦄ where
  -- For an invoice and a line whose plan is there, the body of the scheduled job queues one
  -- suspension of the line exactly if the line is active and today is at least the days of grace of
  -- its plan after the due date. Otherwise it changes nothing.
  pub suspend_if_overdue-queues :
      (move : Invoice) (i : ℕ) (db : Database) {sub : Subscription} {plan : ServicePlan}
      → browse i db.subscriptions ≡ some sub
      → browse sub.plan_id db.plans ≡ some plan
      → suspend_if_overdue move i db ≡ (
        ok tt,
        if is_active sub.state && is_overdue db.today (grace db plan) (due_date move)
            then with_job JobType.suspend_subscription i sub db
            else db,
      )
  unfolding suspend_if_overdue Subscription.read read_plan
  suspend_if_overdue-queues move i db {sub} found planned =
      ground
        (arith, found, planned, queue_job_lem JobType.suspend_subscription i {rec = sub} db found)

  -- The invoices of a line that are posted and not settled.
  abbrev pub open_invoices : ℕ → Database → List ℕ
  open_invoices i db = matching (is_open_of i) db.invoices

  -- The body of the scheduled job queues one reconnection of the line exactly if no posted invoice of
  -- the line is unsettled, in whatever order the search gives them. Otherwise it changes nothing.
  pub reconnect_if_paid-queues :
      (i : ℕ) (db : Database) {sub : Subscription}
      → browse i db.subscriptions ≡ some sub
      → reconnect_if_paid i db ≡ (
        ok tt,
        if length (open_invoices i db) == 0
            then with_job JobType.reconnect_subscription i sub db
            else db,
      )
  unfolding reconnect_if_paid
  reconnect_if_paid-queues i db {sub} found = ground (
    arith,
    length-permutation (platform.search_perm Invoice (is_open_of i) db.invoices),
    queue_job_lem JobType.reconnect_subscription i {rec = sub} db found,
  )
