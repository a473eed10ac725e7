-- ===== src/Billing/Status.antt =====
-- What a customer is told about a line, `_compute_portal_status` of
-- addons/isp_billing/models/subscription.py, and what the office is told, the map of
-- `_get_subscription_status_map` of addons/isp_billing/models/dashboard.py. The setting of the days
-- of grace that both read through `int` is taken as a number.
pub mod Agreement
use getupnet.Prelude.{
  ℕ, ◌+◌, ◌==◌, leb, Bool, true, false, not, ◌&&◌, Option, none, some, List, [], ◌∷◌, ◌++◌, map,
  or_value, is_set, any, if◌then◌else◌,
}
use getupnet.Prelude.Rows.{Table, browse, assign, ids}
use getupnet.Database.{Database}
use getupnet.Database.Core.{Subscription, SubscriptionState}
use getupnet.Database.Billing.{Invoice}
use getupnet.Platform.{Platform}
use getupnet.Mikrotik.Handlers.{same_id}
use getupnet.Billing.Subscription.{is_active, is_open, is_open_of_due}

pub data Status : Type 0 where
  up_to_date in_grace in_arrears : Status

-- The text of `portal_status`: the name of a state, or that of a status.
pub data PortalStatus : Type 0 where
  of_state : SubscriptionState → PortalStatus
  of_invoices : Status → PortalStatus

-- `due + grace_days >= today`, for an invoice with a due date.
abbrev pub is_within : ℕ → ℕ → Invoice → Bool
is_within today days inv = elim inv.invoice_date_due [
  | none ↦ false
  | some due ↦ leb today (due + days)
]

-- The status of an active line by the open invoices that a search gave; the loop stops at the first
-- invoice that is in grace.
unfoldable pub portal_answer : ℕ → ℕ → List Invoice → Status
portal_answer today days [] = Status.up_to_date
portal_answer today days (inv ∷ invs) =
    if any (is_within today days) (inv ∷ invs) then Status.in_grace else Status.in_arrears

-- `status_map[i] = status`
unfoldable pub put : ℕ → Status → Table Status → Table Status
put i status m = if is_set (browse i m) then assign i (λ _. status) m else m ++ (i, status) ∷ []

abbrev pub is_late : Option Status → Bool
is_late (some Status.in_arrears) = true
is_late _ = false

-- The loop body of `_get_subscription_status_map`.
unfoldable pub mark : ℕ → ℕ → Invoice → Table Status → Table Status
mark today days move m = elim move.isp_subscription_id [
  | none ↦ m
  | some i ↦ elim move.invoice_date_due [
    | none ↦ m
    | some due ↦
        if leb today (due + days)
        then (if is_late (browse i m) then m else put i Status.in_grace m)
        else put i Status.in_arrears m
  ]
]

unfoldable pub mark_all : ℕ → ℕ → List Invoice → Table Status → Table Status
mark_all today days [] m = m
mark_all today days (move ∷ moves) m = mark_all today days moves (mark today days move m)

-- The records with certain ids.
unfoldable pub records : {A : Type 0} → List ℕ → Table A → List A
records [] t = []
records (i ∷ is) t = elim (browse i t) [ none ↦ records is t | some row ↦ row ∷ records is t ]

-- The setting `isp_billing.grace_days`.
abbrev pub grace_days : Database → ℕ
grace_days db = or_value (db.number_param "isp_billing.grace_days") 5

abbrev pub is_one_of : List ℕ → Option ℕ → Bool
is_one_of subs none = false
is_one_of subs (some i) = any (λ j. i == j) subs

module _ ⦃platform : Platform⦄ where
  unfoldable pub portal_status : ℕ → Subscription → Database → PortalStatus
  portal_status i sub db =
      if is_active sub.state
      then PortalStatus.of_invoices (
          portal_answer db.today (grace_days db)
            (records (platform.search Invoice (is_open_of_due i) db.invoices) db.invoices))
      else PortalStatus.of_state sub.state

  unfoldable pub get_subscription_status_map : Database → Table Status
  get_subscription_status_map db =
      let subs = platform.search Subscription (λ _ sub. is_active sub.state) db.subscriptions in
      let moves =
        platform.search Invoice
          (λ _ inv.
            is_one_of subs inv.isp_subscription_id && is_open inv && is_set inv.invoice_date_due)
          db.invoices in
      mark_all db.today (grace_days db) (records moves db.invoices)
        (map (λ i. (i, Status.up_to_date)) subs)
