-- ===== src/Tests/Billing.antt =====
-- The theorems on invoices, statuses and transfers, at the sample database.
use getupnet.Prelude.{◌+◌, arith, ◌≡◌, refl, some, [], ◌∷◌, ◌++◌}
use getupnet.Prelude.Effects.{ok}
use getupnet.Prelude.Rows.{Table, browse, ids, matching}
use getupnet.Prelude.Unique.{UniqueIds}
use getupnet.Database.{Database}
use getupnet.Database.Core.{SubscriptionState}
use getupnet.Database.Billing.{Invoice}
use getupnet.Samples.{office, db, pppoe_line, dhcp_line, basic_plan, open_invoice, transfer}
use getupnet.Billing.Subscription.{
  generate_invoice, cron_suspend_overdue, cron_reconnect_on_payment,
}
use getupnet.Billing.Subscription.Invoicing.{
  monthly_bill, issued, invoiced, generate_invoice-invoiced,
}
use getupnet.Billing.Subscription.Sweeps.{
  jobs_of, is_suspension, is_reconnection, AllBilled, cron_suspend_overdue-counts,
  cron_reconnect_on_payment-counts,
}
use getupnet.Billing.Status.{Status, portal_answer, mark_all}
use getupnet.Billing.Status.Agreement.{mark_all-worst, portal-dashboard}
use getupnet.Billing.Transfer.{approve}
use getupnet.Billing.Transfer.Approval.{
  payment_of, applied, approvals, approve-pays, approvals-pay_once,
}

-- An invoice that is not past its days of grace yet.
abbrev late_invoice : Invoice
late_invoice = record open_invoice { invoice_date_due = some 98 }

abbrev statuses : Table Status
statuses = (1, Status.up_to_date) ∷ []

mark_all-worst_example :
    browse 1 (mark_all 100 5 (open_invoice ∷ late_invoice ∷ []) statuses) ≡ some Status.in_arrears
unfolding browse
mark_all-worst_example =
    mark_all-worst 100 5 1 (open_invoice ∷ late_invoice ∷ []) statuses Status.up_to_date refl

portal-dashboard_example :
    (some (portal_answer 100 5 (open_invoice ∷ late_invoice ∷ [])) ≡ some Status.in_grace)
    × (browse 1 (mark_all 100 5 (open_invoice ∷ late_invoice ∷ []) statuses)
        ≡ some Status.in_arrears)
unfolding browse
portal-dashboard_example =
    portal-dashboard 100 5 1 (open_invoice ∷ late_invoice ∷ []) statuses (refl, (refl, tt)) refl

generate_invoice-invoiced_example :
    let bill = issued (monthly_bill 1 pppoe_line basic_plan 100) in
    ((generate_invoice 1 db).0 ≡ ok tt)
    × ((generate_invoice 1 db).1.invoices ≡ db.invoices ++ (2, bill) ∷ [])
    × (browse 2 (generate_invoice 1 db).1.invoices ≡ some bill)
    × (browse 1 (generate_invoice 1 db).1.subscriptions ≡ some (invoiced 2 100 pppoe_line))
unfolding browse ids
generate_invoice-invoiced_example =
    generate_invoice-invoiced 1 db {sub = pppoe_line} {plan = basic_plan} refl refl

db-AllBilled : AllBilled db
unfolding browse
db-AllBilled m s inv found linked = (pppoe_line, ground (arith, found, linked), (basic_plan, refl))

cron_suspend_overdue-counts_example :
    ((cron_suspend_overdue db).0 ≡ ok tt)
    × (jobs_of is_suspension 1 (cron_suspend_overdue db).1 ≡ 0 + 1)
unfolding browse ids matching
cron_suspend_overdue-counts_example = cron_suspend_overdue-counts 1 db (tt, tt) db-AllBilled

-- A line that waits for its connection and owes nothing.
abbrev db_paid : Database
db_paid = record db {
  subscriptions =
      (1, pppoe_line) ∷ (3, record dhcp_line { state = SubscriptionState.suspended }) ∷ [];
}

paid-UniqueIds : UniqueIds db_paid.subscriptions
unfolding ids
paid-UniqueIds = ((λ e. omega (arith, e), tt), (tt, tt))

cron_reconnect_on_payment-counts_example :
    ((cron_reconnect_on_payment db_paid).0 ≡ ok tt)
    × (jobs_of is_reconnection 3 (cron_reconnect_on_payment db_paid).1 ≡ 0 + 1)
unfolding browse ids matching
cron_reconnect_on_payment-counts_example = cron_reconnect_on_payment-counts 3 db_paid paid-UniqueIds

approve-pays_example :
    ((approve 1 db).0 ≡ ok tt)
    × ((approve 1 db).1.payments ≡ (1, payment_of transfer 3) ∷ [])
    × (browse 1 (approve 1 db).1.transfers ≡ some (applied 2 (some 1) transfer))
unfolding browse ids
approve-pays_example = approve-pays 1 3 db {rec = transfer} refl refl refl refl refl refl refl

approvals-pay_once_example : (approvals 3 1 db).payments ≡ (1, payment_of transfer 3) ∷ []
unfolding browse ids
approvals-pay_once_example =
    approvals-pay_once 2 1 3 db {rec = transfer} refl refl refl refl refl refl refl
