-- ===== src/Billing/Subscription.antt =====
-- addons/isp_billing/models/subscription.py, and the status map of dashboard.py. A partner is
-- required on a subscription, so the early return of `_generate_invoice` has no model. The two
-- settings that it reads through `int` are taken as numbers.
pub mod Invoicing
pub mod Overdue
pub mod Sweeps
use getupnet.Prelude.{
  ℕ, ◌+◌, ◌==◌, leb, Bool, true, false, not, ◌&&◌, ◌||◌, Option, none, some, List, [], ◌∷◌, ◌++◌,
  String, ◌⧺◌, or_text, or_value, or_number, is_set, any, length, if◌then◌else◌,
}
use getupnet.Prelude.Effects.{
  Action, ok, missing_error, skip, gets, modify, when, pure, or_raise, for_each, ◌>>=◌, ◌>>◌,
}
use getupnet.Prelude.Rows.{Table, browse, assign, ids}
use getupnet.Database.{Database}
use getupnet.Database.Core.{Subscription, SubscriptionState, ServicePlan, JobType}
use getupnet.Database.Billing.{Invoice, MoveType, MoveState, PaymentState}
use getupnet.Platform.{Platform}
use getupnet.Core.Audit.{log_action}
use getupnet.Core.Subscription
use getupnet.Core.Subscription.{read_plan, update, queue_job}
use getupnet.Mikrotik.Handlers.{same_id}

abbrev pub is_active : SubscriptionState → Bool
is_active SubscriptionState.active = true
is_active _ = false

abbrev pub is_suspended : SubscriptionState → Bool
is_suspended SubscriptionState.suspended = true
is_suspended _ = false

abbrev pub is_posted : MoveState → Bool
is_posted MoveState.posted = true
is_posted _ = false

-- `payment_state in ("paid", "in_payment")`
abbrev pub is_settled : PaymentState → Bool
is_settled PaymentState.paid = true
is_settled PaymentState.in_payment = true
is_settled _ = false

-- The part that the domains of this file share: posted and not settled.
abbrev pub is_open : Invoice → Bool
is_open inv = is_posted inv.state && not (is_settled inv.payment_state)

unfoldable pub read_invoice : ℕ → Action Database Invoice
read_invoice i db = or_raise (browse i db.invoices) (missing_error "account.move") db

-- Whether a day is set and not after another.
abbrev pub is_by : Option ℕ → ℕ → Bool
is_by none today = false
is_by (some day) today = leb day today

-- The domain of `_cron_generate_invoices`.
abbrev pub is_billable : ℕ → ℕ → Subscription → Bool
is_billable today _ sub = is_active sub.state && is_by sub.next_invoice_date today

-- `move.invoice_date_due or move.invoice_date`
abbrev pub due_date : Invoice → Option ℕ
due_date inv = elim inv.invoice_date_due [ none ↦ inv.invoice_date | some day ↦ some day ]

-- `today >= due_date + timedelta(days=days)`, where there is a due date.
abbrev pub is_overdue : ℕ → ℕ → Option ℕ → Bool
is_overdue today days none = false
is_overdue today days (some day) = leb (day + days) today

-- The domains that go by subscription.
abbrev pub is_open_of : ℕ → ℕ → Invoice → Bool
is_open_of sub _ inv = same_id inv.isp_subscription_id sub && is_open inv

abbrev pub is_open_of_due : ℕ → ℕ → Invoice → Bool
is_open_of_due sub _ inv =
    same_id inv.isp_subscription_id sub && is_open inv && is_set inv.invoice_date_due

abbrev pub is_open_linked : ℕ → Invoice → Bool
is_open_linked _ inv = is_set inv.isp_subscription_id && is_open inv

module _ ⦃platform : Platform⦄ where
  -- The invoice that `_generate_invoice` creates, posted unless accounting refuses.
  unfoldable pub new_invoice : ℕ → Subscription → ServicePlan → ℕ → Invoice
  new_invoice i sub plan today =
      let draft : Invoice = record {
        move_type = MoveType.out_invoice;
        partner_id = sub.partner_id;
        isp_subscription_id = some i;
        state = MoveState.draft;
        payment_state = PaymentState.not_paid;
        invoice_date = some today;
        invoice_date_due = some today;
        line_name = plan.name;
        price_unit = plan.price_monthly;
      } in
      if platform.can_post draft
      then record draft { state = MoveState.posted; payment_state = platform.posted_as draft }
      else draft

  unfoldable pub generate_invoice : ℕ → Action Database (Unit {0})
  generate_invoice i = do
    sub ← Subscription.read i
    plan ← read_plan sub.plan_id
    today ← gets (λ db. db.today)
    move ← gets (λ db. platform.new_id (ids db.invoices))
    modify λ db. record db { invoices = db.invoices ++ (move, new_invoice i sub plan today) ∷ [] }
    update i (λ rec. record rec { last_invoice_id = some move })
    update i (λ rec. record rec {
      next_invoice_date = some (platform.month_later (or_value rec.next_invoice_date today));
    })
    log_action "invoice_generated" "isp.subscription" i
        ("Invoice " ⧺ or_text (platform.invoice_name move) (platform.show_id move) ⧺ " generated")

  unfoldable pub action_generate_invoice : List ℕ → Action Database (Unit {0})
  action_generate_invoice self = for_each self generate_invoice

  unfoldable pub cron_generate_invoices : Action Database (Unit {0})
  cron_generate_invoices = do
    db ← gets (λ db. db)
    for_each (platform.search Subscription (is_billable db.today) db.subscriptions) generate_invoice

  -- The loop body of `_cron_suspend_overdue`, once the invoice has a subscription.
  unfoldable pub suspend_if_overdue : Invoice → ℕ → Action Database (Unit {0})
  suspend_if_overdue move i = do
    sub ← Subscription.read i
    when (is_active sub.state) (do
      plan ← read_plan sub.plan_id
      db ← gets (λ db. db)
      let suspend_param = or_value (db.number_param "isp_billing.suspend_after_days") 10
      let days = or_number plan.suspend_after_days suspend_param
      when (is_overdue db.today days (due_date move))
          (do queue_job JobType.suspend_subscription i; skip))

  unfoldable pub suspend_for : ℕ → Action Database (Unit {0})
  suspend_for m = do
    move ← read_invoice m
    elim move.isp_subscription_id [ none ↦ skip | some i ↦ suspend_if_overdue move i ]

  unfoldable pub cron_suspend_overdue : Action Database (Unit {0})
  cron_suspend_overdue = do
    db ← gets (λ db. db)
    for_each (platform.search Invoice is_open_linked db.invoices) suspend_for

  unfoldable pub reconnect_if_paid : ℕ → Action Database (Unit {0})
  reconnect_if_paid i = do
    db ← gets (λ db. db)
    when (length (platform.search Invoice (is_open_of i) db.invoices) == 0)
        (do queue_job JobType.reconnect_subscription i; skip)

  unfoldable pub cron_reconnect_on_payment : Action Database (Unit {0})
  cron_reconnect_on_payment = do
    db ← gets (λ db. db)
    for_each (platform.search Subscription (λ _ sub. is_suspended sub.state) db.subscriptions)
        reconnect_if_paid
