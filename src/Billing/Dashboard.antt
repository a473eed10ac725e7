-- ===== src/Billing/Dashboard.antt =====
-- `_compute_metrics` and `_get_top_overdue_sectors` of addons/isp_billing/models/dashboard.py. What
-- accounting says of an invoice, the first day of a month, Odoo's grouping of the unpaid amounts by
-- sector, and its average over tickets are parameters.
pub mod Partition
pub mod Revenue
use getupnet.Prelude.{
  ℕ, ◌+◌, ◌-◌, ◌==◌, leb, ltb, Bool, true, false, not, ◌&&◌, ◌||◌, Option, none, some, List, [],
  ◌∷◌, String, ◌⧺◌, length, take, any, map, is_set, if◌then◌else◌,
}
use getupnet.Prelude.Rows.{Table, browse}
use getupnet.Database.{Database}
use getupnet.Database.Core.{Subscription, SubscriptionState, ServicePlan, FaultTicket, TicketState}
use getupnet.Database.Billing.{Invoice, MoveType, MoveState, BankTransferPayment, TransferState}
use getupnet.Platform.{Platform}
use getupnet.Core.FaultTicket.{is_done}
use getupnet.Billing.Subscription.{is_active}
use getupnet.Billing.Status.{Status, records, get_subscription_status_map}

pub record Accounting : Type 0 where
  pub amount_total : Invoice → ℕ
  pub month_start : ℕ → ℕ
  -- `read_group` of the unpaid amounts: a sector's name and its sum.
  pub unpaid_by_sector : Table Invoice → List (String × ℕ)
  pub average_resolution : Table FaultTicket → ℕ

pub record Metrics : Type 0 where
  pub active_subscriptions : ℕ
  pub up_to_date_subscriptions : ℕ
  pub suspended_subscriptions : ℕ
  pub overdue_subscriptions : ℕ
  pub grace_subscriptions : ℕ
  pub mrr : ℕ
  pub invoices_month : ℕ
  pub transfer_pending : ℕ
  pub transfer_attention : ℕ
  pub faults_open : ℕ
  pub faults_closed : ℕ
  pub avg_resolution : ℕ
  pub top_overdue_sectors : String

abbrev pub is_up_to_date : Status → Bool
is_up_to_date Status.up_to_date = true
is_up_to_date _ = false

abbrev pub is_in_grace : Status → Bool
is_in_grace Status.in_grace = true
is_in_grace _ = false

abbrev pub is_in_arrears : Status → Bool
is_in_arrears Status.in_arrears = true
is_in_arrears _ = false

-- `sum(1 for status in status_map.values() if ...)`
unfoldable pub count : (Status → Bool) → Table Status → ℕ
count p [] = 0
count p ((_, status) ∷ m) = let rest = count p m in if p status then 1 + rest else rest

unfoldable pub sum : List ℕ → ℕ
sum [] = 0
sum (n ∷ l) = n + sum l

-- The ids of a recordset, each once: what `mapped` makes of a Many2one field.
unfoldable pub unique : List ℕ → List ℕ → List ℕ
unique seen [] = []
unique seen (i ∷ l) =
    let again = unique seen l in
    let rest = unique (i ∷ seen) l in if any (λ j. i == j) seen then again else i ∷ rest

abbrev pub price_of : Table ServicePlan → ℕ → ℕ
price_of plans i = elim (browse i plans) [ none ↦ 0 | some plan ↦ plan.price_monthly ]

abbrev pub plan_of : Subscription → ℕ
plan_of sub = sub.plan_id

abbrev pub is_suspended : SubscriptionState → Bool
is_suspended SubscriptionState.suspended = true
is_suspended _ = false

abbrev pub is_customer_invoice : MoveType → Bool
is_customer_invoice MoveType.out_invoice = true
is_customer_invoice MoveType.other = false

abbrev pub is_posted : MoveState → Bool
is_posted MoveState.posted = true
is_posted _ = false

abbrev pub is_within_days : ℕ → ℕ → Option ℕ → Bool
is_within_days first last none = false
is_within_days first last (some day) = leb first day && leb day last

abbrev pub is_pending : TransferState → Bool
is_pending TransferState.in_review = true
is_pending _ = false

-- Into a list that falls by its amounts, after those that are equal, as a stable sort has it.
unfoldable pub insert : String × ℕ → List (String × ℕ) → List (String × ℕ)
insert group [] = group ∷ []
insert group (other ∷ groups) =
    let rest = insert group groups in
    if ltb group.1 other.1 || group.1 == other.1 then other ∷ rest else group ∷ other ∷ groups

-- `sorted(groups, key=residual_amount, reverse=True)`, which keeps the order of equal amounts.
unfoldable pub sort_from : List (String × ℕ) → List (String × ℕ) → List (String × ℕ)
sort_from sorted [] = sorted
sort_from sorted (group ∷ groups) = sort_from (insert group sorted) groups

-- `", ".join(parts)`
unfoldable pub join_comma : List String → String
join_comma [] = ""
join_comma (part ∷ []) = part
join_comma (part ∷ next ∷ parts) = part ⧺ (", " ⧺ join_comma (next ∷ parts))

module _ ⦃platform : Platform⦄ where
  abbrev pub show_group : String × ℕ → String
  show_group (sector, amount) = sector ⧺ " (" ⧺ platform.show_float amount ⧺ ")"

  unfoldable pub get_top_overdue_sectors : Accounting → Database → String
  get_top_overdue_sectors accounting db =
      join_comma (map show_group (take 5 (sort_from [] (accounting.unpaid_by_sector db.invoices))))

  abbrev pub active_ids : Database → List ℕ
  active_ids db = platform.search Subscription (λ _ sub. is_active sub.state) db.subscriptions

  -- `sum(Subscription.search([...]).mapped("plan_id.price"))`
  unfoldable pub mrr_total : Database → ℕ
  mrr_total db =
      sum (
        map (price_of db.plans)
          (unique [] (map plan_of (records (active_ids db) db.subscriptions))))

  unfoldable pub compute_metrics : Accounting → Database → Metrics
  compute_metrics accounting db =
      let status_map = get_subscription_status_map db in
      let first = accounting.month_start db.today in
      let last = platform.month_later first - 1 in
      let month =
        platform.search Invoice
          (λ _ move.
            is_customer_invoice move.move_type
            && is_posted move.state
            && is_within_days first last move.invoice_date)
          db.invoices in
      record {
        active_subscriptions = length (active_ids db);
        up_to_date_subscriptions = count is_up_to_date status_map;
        suspended_subscriptions =
            length
              (platform.search Subscription (λ _ sub. is_suspended sub.state) db.subscriptions);
        overdue_subscriptions = count is_in_arrears status_map;
        grace_subscriptions = count is_in_grace status_map;
        mrr = mrr_total db;
        invoices_month = sum (map accounting.amount_total (records month db.invoices));
        transfer_pending =
            length
              (platform.search BankTransferPayment (λ _ rec. is_pending rec.state) db.transfers);
        transfer_attention = length (
            platform.search BankTransferPayment
              (λ _ rec. is_pending rec.state && rec.needs_attention) db.transfers);
        faults_open =
            length
              (platform.search FaultTicket (λ _ rec. not (is_done rec.state)) db.fault_tickets);
        faults_closed =
            length (platform.search FaultTicket (λ _ rec. is_done rec.state) db.fault_tickets);
        avg_resolution = accounting.average_resolution db.fault_tickets;
        top_overdue_sectors = get_top_overdue_sectors accounting db;
      }
