-- ===== src/Billing/Subscription/Invoicing.antt =====
-- One invoice for one line: the invoice, the line's dates, and the log.
use getupnet.Prelude.{ℕ, ◌≡◌, if◌then◌else◌, [], ◌∷◌, ◌++◌, some, or_value, arith}
use getupnet.Prelude.Effects.{ok}
use getupnet.Prelude.Rows.{browse, assign, ids, browse-assign, browse_fresh}
use getupnet.Database.{Database}
use getupnet.Database.Core.{Subscription, ServicePlan}
use getupnet.Database.Billing.{Invoice, MoveType, MoveState, PaymentState}
use getupnet.Platform.{Platform}
use getupnet.Core.Audit.{log_action}
use getupnet.Core.Subscription
use getupnet.Core.Subscription.{read_plan, update}
use getupnet.Billing.Subscription.{generate_invoice, new_invoice}

-- The invoice of a line for a month of its plan, as a draft of this day.
abbrev pub monthly_bill : ℕ → Subscription → ServicePlan → ℕ → Invoice
monthly_bill i sub plan today = record {
  move_type = MoveType.out_invoice;
  partner_id = sub.partner_id;
  isp_subscription_id = some i;
  state = MoveState.draft;
  payment_state = PaymentState.not_paid;
  invoice_date = some today;
  invoice_date_due = some today;
  line_name = plan.name;
  price_unit = plan.price_monthly;
}

module _ ⦃platform : Platform⦄ where
  -- The same after accounting has posted it, or left it as a draft.
  abbrev pub issued : Invoice → Invoice
  issued draft =
      if platform.can_post draft
      then record draft { state = MoveState.posted; payment_state = platform.posted_as draft }
      else draft

  -- The line that an invoice was made for.
  abbrev pub invoiced : ℕ → ℕ → Subscription → Subscription
  invoiced move today sub = record sub {
    last_invoice_id = some move;
    next_invoice_date = some (platform.month_later (or_value sub.next_invoice_date today));
  }

  -- For a line whose plan is there, one run goes through. There is one invoice more, for the line's
  -- partner, of today and due today, with the name and the monthly price of the plan, posted if
  -- accounting does it and a draft otherwise; it is the one found under its id and the one that the
  -- line refers to. The next invoice is due a month after the date that was due, or a month from
  -- today if there was none.
  pub generate_invoice-invoiced :
      (i : ℕ) (db : Database) {sub : Subscription} {plan : ServicePlan}
      → browse i db.subscriptions ≡ some sub
      → browse sub.plan_id db.plans ≡ some plan
      → let move = platform.new_id (ids db.invoices) in
        ((generate_invoice i db).0 ≡ ok tt)
        × ((generate_invoice i db).1.invoices
            ≡ db.invoices ++ (move, issued (monthly_bill i sub plan db.today)) ∷ [])
        × (browse move (generate_invoice i db).1.invoices
            ≡ some (issued (monthly_bill i sub plan db.today)))
        × (browse i (generate_invoice i db).1.subscriptions ≡ some (invoiced move db.today sub))
  unfolding generate_invoice new_invoice Subscription.read read_plan update log_action
  generate_invoice-invoiced i db {sub} {plan} found planned =
      let move = platform.new_id (ids db.invoices) in
      let f = λ (rec : Subscription). record rec { last_invoice_id = some move } in
      let g = λ (rec : Subscription). record rec {
        next_invoice_date = some (platform.month_later (or_value rec.next_invoice_date db.today));
      } in
      let fresh =
        browse_fresh move (issued (monthly_bill i sub plan db.today)) db.invoices
          (platform.new_id_fresh (ids db.invoices)) in
      let first = browse-assign i i f db.subscriptions in
      let second = browse-assign i i g (assign i f db.subscriptions) in
      (
        ground (arith, found, planned),
        ground (arith, found, planned),
        ground (arith, found, planned, fresh),
        ground (arith, found, planned, first, second),
      )
