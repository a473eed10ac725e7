-- ===== src/Billing/Subscription/Sweeps.antt =====
-- What one run of the scheduled jobs for overdue invoices and for reconnections queues.
use getupnet.Prelude.{
  ℕ, ◌+◌, ◌==◌, ◌≡◌, refl, ap, ◌∙◌, leb, Bool, true, false, not, ◌&&◌, Option, none, some, List, [],
  ◌∷◌, length, length-append, or_value, or_number, any, All, arith, if◌then◌else◌,
}
use getupnet.Prelude.Effects.{Result, ok}
use getupnet.Prelude.Rows.{Table, browse, ids, matching}
use getupnet.Prelude.Search.{matching-append}
use getupnet.Prelude.Unique.{UniqueIds, Passes, All-permutation, matching-Passes}
use getupnet.Prelude.Counting.{count, count-permutation, count-matching, Adds, for_each-Adds}
use getupnet.Database.{Database}
use getupnet.Database.Core.{Subscription, SubscriptionState, ServicePlan, Job, JobType}
use getupnet.Database.Billing.{Invoice, MoveState, PaymentState}
use getupnet.Platform.{Platform}
use getupnet.Core.Subscription.Queue.{with_job, queued_job, job_title}
use getupnet.Billing.Subscription.{
  is_active, is_overdue, due_date, suspend_if_overdue, read_invoice, is_open_linked, is_open_of,
  is_suspended, suspend_for, cron_suspend_overdue, reconnect_if_paid, cron_reconnect_on_payment,
}
use getupnet.Billing.Subscription.Overdue.{
  grace, suspend_if_overdue-queues, reconnect_if_paid-queues,
}

-- Whether an invoice is a debt: it is posted, and what is owed is not paid or on its way.
abbrev pub owes : MoveState → PaymentState → Bool
owes MoveState.posted PaymentState.not_paid = true
owes MoveState.posted PaymentState.partial = true
owes MoveState.posted PaymentState.reversed = true
owes _ _ = false

abbrev pub serves : SubscriptionState → Bool
serves SubscriptionState.active = true
serves _ = false

abbrev pub is_of : ℕ → Option ℕ → Bool
is_of i none = false
is_of i (some s) = s == i

-- Whether some days have passed since the due date, or since the date where there is none.
abbrev pub is_late : ℕ → ℕ → Option ℕ → Option ℕ → Bool
is_late today days (some due) date = leb (due + days) today
is_late today days none (some date) = leb (date + days) today
is_late today days none none = false

-- The days of the plan, or of the settings, or ten.
abbrev pub patience : Database → ServicePlan → ℕ
patience db plan =
    or_number plan.suspend_after_days
      (or_value (db.number_param "isp_billing.suspend_after_days") 10)

abbrev late_on : Database → Invoice → Option ServicePlan → Bool
late_on db inv none = false
late_on db inv (some plan) =
    is_late db.today (patience db plan) inv.invoice_date_due inv.invoice_date

abbrev late_line : Database → Invoice → Option Subscription → Bool
late_line db inv none = false
late_line db inv (some sub) = serves sub.state && late_on db inv (browse sub.plan_id db.plans)

abbrev late_link : Database → Invoice → Option ℕ → Bool
late_link db inv none = false
late_link db inv (some s) = late_line db inv (browse s db.subscriptions)

abbrev late_row : Database → ℕ → Option Invoice → Bool
late_row db k none = false
late_row db k (some inv) =
    owes inv.state inv.payment_state
    && is_of k inv.isp_subscription_id
    && late_link db inv inv.isp_subscription_id

-- An invoice that is owed by a line which is active and whose days are over.
abbrev pub calls_for_suspension : Database → ℕ → ℕ → Bool
calls_for_suspension db k m = late_row db k (browse m db.invoices)

-- Every line of an invoice is there, and so is its plan.
abbrev pub AllBilled : Database → Type 0
AllBilled db =
    (m s : ℕ) (inv : Invoice)
    → browse m db.invoices ≡ some inv
    → inv.isp_subscription_id ≡ some s
    → (sub : Subscription) × (browse s db.subscriptions ≡ some sub)
      × ((plan : ServicePlan) × (browse sub.plan_id db.plans ≡ some plan))

-- What a queued job leaves.
abbrev aside : Database → Database
aside db = record db { jobs = []; audit_log = []; sequence_calls = 0 }

abbrev pub is_suspension : JobType → Bool
is_suspension JobType.suspend_subscription = true
is_suspension _ = false

abbrev pub is_reconnection : JobType → Bool
is_reconnection JobType.reconnect_subscription = true
is_reconnection _ = false

-- How many jobs of a kind there are for a line.
abbrev pub jobs_of : (JobType → Bool) → ℕ → Database → ℕ
jobs_of kind k db =
    length (matching (λ _ job. kind job.job_type && is_of k job.subscription_id) db.jobs)

All-map : {P Q : ℕ → Type 0} → ((i : ℕ) → P i → Q i) → (l : List ℕ) → All P l → All Q l
All-map f [] h = tt
All-map f (i ∷ l) (x, h) = (f i x, All-map f l h)

abbrev pub waits : SubscriptionState → Bool
waits SubscriptionState.suspended = true
waits _ = false

-- Whether an invoice is a debt of a line.
abbrev pub owed_by : ℕ → ℕ × Invoice → Bool
owed_by i (_, inv) = is_of i inv.isp_subscription_id && owes inv.state inv.payment_state

abbrev waits_row : Option Subscription → Bool
waits_row none = false
waits_row (some sub) = waits sub.state

-- Whether an id is that of a line, which is suspended and owes nothing.
abbrev pub calls_for_reconnection : Database → ℕ → ℕ → Bool
calls_for_reconnection db k i =
    i == k && waits_row (browse i db.subscriptions) && not (any (owed_by i) db.invoices)

open_of-owed :
    (i : ℕ) (t : Table Invoice)
    → (length (matching (is_open_of i) t) == 0) ≡ not (any (owed_by i) t)
unfolding matching
open_of-owed i [] = refl
open_of-owed i ((m, inv) ∷ t) = ground (arith, open_of-owed i t)

length_of : (b : Bool) (i : ℕ) → length (if b then i ∷ [] else []) ≡ (if b then 1 else 0)
length_of true i = refl
length_of false i = refl

module _ ⦃platform : Platform⦄ where
  jobs_of-queued :
      (kind : JobType → Bool) (k : ℕ) (job_type : JobType) (i : ℕ) (sub : Subscription)
      (s : Database)
      → kind job_type ≡ true
      → jobs_of kind k (with_job job_type i sub s) ≡ jobs_of kind k s + (if i == k then 1 else 0)
  jobs_of-queued kind k job_type i sub s right =
      let p = λ (_ : ℕ) (job : Job). kind job.job_type && is_of k job.subscription_id in
      let job = queued_job job_type i sub (job_title s) in
      let new = platform.new_id (ids s.jobs) in
      ap length (matching-append p new job s.jobs)
      ∙ length-append (matching p s.jobs) (if p new job then new ∷ [] else [])
      ∙ ap (λ n. length (matching p s.jobs) + n) (length_of (p new job) new)
      ∙ ap (λ b. length (matching p s.jobs) + (if b && (i == k) then 1 else 0)) right

  -- A step that queues a job or does nothing, by a test.
  stepped :
      (b : Bool) (kind : JobType → Bool) (k : ℕ) (job_type : JobType) (i : ℕ) (sub : Subscription)
      (s db : Database)
      → kind job_type ≡ true
      → aside s ≡ aside db
      → let p : Result (Unit {0}) × Database =
          (ok tt, if b then with_job job_type i sub s else s) in
        (p.0 ≡ ok tt)
        × (aside p.1 ≡ aside db)
        × (jobs_of kind k p.1 ≡ jobs_of kind k s + (if b && (i == k) then 1 else 0))
  stepped true kind k job_type i sub s db right same =
      (refl, same, jobs_of-queued kind k job_type i sub s right)
  stepped false kind k job_type i sub s db right same = (refl, same, omega arith)

  overdue-late :
      (inv : Invoice) (today days : ℕ)
      → is_overdue today days (due_date inv)
        ≡ is_late today days inv.invoice_date_due inv.invoice_date
  overdue-late inv today days = ground arith

  suspend_for-Adds :
      (k : ℕ) (db : Database)
      → AllBilled db
      → (m : ℕ) → Passes is_open_linked db.invoices m
      → Adds (jobs_of is_suspension k) aside (calls_for_suspension db k) db suspend_for m
  unfolding suspend_for read_invoice
  suspend_for-Adds k db billed m (inv, found, open_linked) s same = go inv.isp_subscription_id refl
    where
      invoices : browse m s.invoices ≡ some inv
      invoices = ap (λ (d : Database). browse m d.invoices) same ∙ found

      go :
          (link : Option ℕ)
          → inv.isp_subscription_id ≡ link
          → ((suspend_for m s).0 ≡ ok tt)
            × (aside (suspend_for m s).1 ≡ aside db)
            × (jobs_of is_suspension k (suspend_for m s).1
                ≡ jobs_of is_suspension k s + (if calls_for_suspension db k m then 1 else 0))
      go none link = absurd (ground (arith, open_linked, link))
      go (some i) link =
          let (sub, line, (plan, planned)) = billed m i inv found link in
          let step =
            suspend_if_overdue-queues inv i s {sub = sub} {plan = plan}
              (ap (λ (d : Database). browse i d.subscriptions) same ∙ line)
              (ap (λ (d : Database). browse sub.plan_id d.plans) same ∙ planned) in
          let run : suspend_for m s ≡ suspend_if_overdue inv i s = ground (arith, invoices, link) in
          let due = is_active sub.state && is_overdue s.today (grace s plan) (due_date inv) in
          let days : is_overdue s.today (grace s plan) (due_date inv)
              ≡ is_late db.today (patience db plan) inv.invoice_date_due inv.invoice_date =
            ap (λ (d : Database). is_overdue d.today (grace d plan) (due_date inv)) same
            ∙ overdue-late inv db.today (patience db plan) in
          let test : (due && (i == k)) ≡ calls_for_suspension db k m =
            ground (arith, found, open_linked, link, line, planned, days) in
          let (goes, kept, more) =
            stepped due is_suspension k JobType.suspend_subscription i sub s db refl same in
          let whole = run ∙ step in
          (
            ap (λ p. p.0) whole ∙ goes,
            ap (λ p. aside p.1) whole ∙ kept,
            ap (λ p. jobs_of is_suspension k p.1) whole
                ∙ more
                ∙ ap (λ b. jobs_of is_suspension k s + (if b then 1 else 0)) test,
          )

  debt-open :
      (k : ℕ) (db : Database) (m : ℕ) (inv : Invoice)
      → browse m db.invoices ≡ some inv
      → calls_for_suspension db k m ≡ true
      → is_open_linked m inv ≡ true
  debt-open k db m inv found late = ground (arith, found, late)

  -- Where no two invoices have an id in common and every line of an invoice is there with its plan,
  -- the scheduled job goes through. For any line, it queues as many suspensions as the line has
  -- invoices that are posted and neither paid nor being paid, while the line is active and at least
  -- as many days have passed since the due date, or the date where there is none, as the plan says,
  -- or the settings, or ten.
  pub cron_suspend_overdue-counts :
      (k : ℕ) (db : Database)
      → UniqueIds db.invoices
      → AllBilled db
      → ((cron_suspend_overdue db).0 ≡ ok tt)
        × (jobs_of is_suspension k (cron_suspend_overdue db).1
            ≡ jobs_of is_suspension k db + count (calls_for_suspension db k) (ids db.invoices))
  unfolding cron_suspend_overdue
  cron_suspend_overdue-counts k db unique billed =
      let f = calls_for_suspension db k in
      let size = jobs_of is_suspension k in
      let perm = platform.search_perm Invoice is_open_linked db.invoices in
      let found = platform.search Invoice is_open_linked db.invoices in
      let passes =
        All-permutation (Passes is_open_linked db.invoices) perm
          (matching-Passes is_open_linked db.invoices unique) in
      let adds = All-map (suspend_for-Adds k db billed) found passes in
      let (goes, total) = for_each-Adds size aside f db suspend_for found adds db refl in
      (
        goes,
        total
            ∙ ap (λ n. size db + n)
                (count-permutation f perm
                  ∙ count-matching f is_open_linked db.invoices unique (debt-open k db)),
      )

  suspended-waits : (state : SubscriptionState) → is_suspended state ≡ waits state
  suspended-waits state = ground arith

  reconnect-Adds :
      (k : ℕ) (db : Database) (i : ℕ)
      → Passes (λ _ sub. is_suspended sub.state) db.subscriptions i
      → Adds (jobs_of is_reconnection k) aside (calls_for_reconnection db k) db reconnect_if_paid i
  reconnect-Adds k db i (sub, line, suspended) s same =
      let step =
        reconnect_if_paid-queues i s {sub = sub}
          (ap (λ (d : Database). browse i d.subscriptions) same ∙ line) in
      let clear = length (matching (is_open_of i) s.invoices) == 0 in
      let debts : clear ≡ not (any (owed_by i) db.invoices) =
        ap (λ (d : Database). length (matching (is_open_of i) d.invoices) == 0) same
        ∙ open_of-owed i db.invoices in
      let test : (clear && (i == k)) ≡ calls_for_reconnection db k i =
        ground (arith, debts, line, suspended, suspended-waits sub.state) in
      let (goes, kept, more) =
        stepped clear is_reconnection k JobType.reconnect_subscription i sub s db refl same in
      (
        ap (λ p. p.0) step ∙ goes,
        ap (λ p. aside p.1) step ∙ kept,
        ap (λ p. jobs_of is_reconnection k p.1) step
            ∙ more
            ∙ ap (λ b. jobs_of is_reconnection k s + (if b then 1 else 0)) test,
      )

  -- Where no two lines have an id in common, the scheduled job goes through. For any id, it queues as
  -- many reconnections as there are lines with the id that are suspended and of which no invoice is
  -- posted and neither paid nor being paid; drafts do not keep a line suspended.
  pub cron_reconnect_on_payment-counts :
      (k : ℕ) (db : Database)
      → UniqueIds db.subscriptions
      → ((cron_reconnect_on_payment db).0 ≡ ok tt)
        × (jobs_of is_reconnection k (cron_reconnect_on_payment db).1
            ≡ jobs_of is_reconnection k db
              + count (calls_for_reconnection db k) (ids db.subscriptions))
  unfolding cron_reconnect_on_payment
  cron_reconnect_on_payment-counts k db unique =
      let f = calls_for_reconnection db k in
      let size = jobs_of is_reconnection k in
      let p = λ (_ : ℕ) (sub : Subscription). is_suspended sub.state in
      let perm = platform.search_perm Subscription p db.subscriptions in
      let found = platform.search Subscription p db.subscriptions in
      let passes =
        All-permutation (Passes p db.subscriptions) perm
          (matching-Passes p db.subscriptions unique) in
      let adds = All-map (reconnect-Adds k db) found passes in
      let (goes, total) = for_each-Adds size aside f db reconnect_if_paid found adds db refl in
      (
        goes,
        total
            ∙ ap (λ n. size db + n)
                (count-permutation f perm
                  ∙ count-matching f p db.subscriptions unique (λ i sub there waiting.
                    ground (arith, there, waiting, suspended-waits sub.state))),
      )
