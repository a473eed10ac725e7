-- ===== src/Tests/Dashboard.antt =====
-- The theorems on the dashboard, with two lines on one plan.
use getupnet.Prelude.{◌+◌, ◌≡◌, refl, [], ◌∷◌}
use getupnet.Prelude.Rows.{matching, ids, browse}
use getupnet.Database.{Database}
use getupnet.Samples.{office, db, pppoe_line, basic_plan}
use getupnet.Billing.Status.{records}
use getupnet.Billing.Dashboard.{Accounting, compute_metrics, mrr_total}
use getupnet.Billing.Dashboard.Partition.{compute_metrics-partition}
use getupnet.Billing.Dashboard.Revenue.{mrr_total-one_plan}

abbrev accounting : Accounting
accounting = record {
  amount_total = λ inv. inv.price_unit;
  month_start = λ day. day;
  unpaid_by_sector = λ t. [];
  average_resolution = λ t. 0;
}

abbrev db_two : Database
db_two = record db { subscriptions = (1, pppoe_line) ∷ (2, pppoe_line) ∷ [] }

compute_metrics-partition_example :
    let metrics = compute_metrics accounting db_two in
    metrics.up_to_date_subscriptions + metrics.grace_subscriptions + metrics.overdue_subscriptions
    ≡ metrics.active_subscriptions
unfolding ids
compute_metrics-partition_example = compute_metrics-partition accounting db_two (tt, tt)

-- Two lines at 25.00 each.
mrr_total-one_plan_example : mrr_total db_two ≡ 2500
unfolding matching records browse
mrr_total-one_plan_example =
    mrr_total-one_plan 1 db_two pppoe_line (pppoe_line ∷ []) {plan = basic_plan} refl
      (refl, (refl, tt)) refl
