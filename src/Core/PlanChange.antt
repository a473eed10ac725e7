-- ===== src/Core/PlanChange.antt =====
-- addons/isp_core/models/plan_change_request.py.
pub mod Review
pub mod Apply
pub mod Approve
use getupnet.Prelude.{
  ℕ, ◌+◌, ◌==◌, leb, Bool, true, false, not, ◌&&◌, Option, none, some, List, [], ◌∷◌, ◌++◌, String,
  ◌⧺◌, has_text, or_text, or_value, is_set, any, text_eq, if◌then◌else◌,
}
use getupnet.Prelude.Effects.{
  Action, ok, validation_error, missing_error, access_error, skip, gets, modify, when, raise, pure,
  or_raise, for_each, ◌>>=◌, ◌>>◌,
}
use getupnet.Prelude.Rows.{browse, assign, ids}
use getupnet.Database.{Database}
use getupnet.Database.Core.{
  PlanChangeRequest, RequestState, EffectiveDateMode, Subscription, JobType,
}
use getupnet.Platform.{Platform}
use getupnet.Core.Audit.{log_action, send_template}
use getupnet.Core.Subscription
use getupnet.Core.Subscription.{read_plan, update, next_name, ensure_pppoe_credentials, queue_job}

unfoldable pub read : ℕ → Action Database PlanChangeRequest
read i db = or_raise (browse i db.plan_changes) (missing_error "isp.plan.change.request") db

-- A write by the user, whose access rights are those of the groups in ir.model.access.csv: of a
-- portal customer, to read and create requests.
unfoldable pub write : ℕ → (PlanChangeRequest → PlanChangeRequest) → Action Database (Unit {0})
write i f = do
  db ← gets (λ db. db)
  if db.may_write "isp.plan.change.request"
      then modify (λ db. record db { plan_changes = assign i f db.plan_changes })
      else raise (access_error "isp.plan.change.request")

abbrev pub is_custom : EffectiveDateMode → Bool
is_custom EffectiveDateMode.custom = true
is_custom _ = false

abbrev pub is_immediate : EffectiveDateMode → Bool
is_immediate EffectiveDateMode.immediate = true
is_immediate _ = false

unfoldable pub check_effective_date : ℕ → Action Database (Unit {0})
check_effective_date i = do
  rec ← read i
  when (is_custom rec.effective_date_mode && not (is_set rec.effective_date))
      (raise (validation_error "Custom effective date is required."))

-- `rec.requested_plan_id.id == rec.current_plan_id.id`, the related plan being the subscription's.
unfoldable pub check_plan_diff : ℕ → Action Database (Unit {0})
check_plan_diff i = do
  rec ← read i
  sub ← Subscription.read rec.subscription_id
  when (rec.requested_plan_id == sub.plan_id)
      (raise (validation_error "Requested plan must be different from current plan."))

-- A request of a line for a plan.
abbrev pub asks_for : ℕ → ℕ → ℕ × PlanChangeRequest → Bool
asks_for sub_id plan_id (_, rec) = rec.subscription_id == sub_id && rec.requested_plan_id == plan_id

-- `sub.plan_id = plan`: the stored `current_plan_id` of the line's requests follows, and
-- `_check_plan_diff`, which is declared on it, runs over them.
unfoldable pub set_plan : ℕ → ℕ → Action Database (Unit {0})
set_plan sub_id plan_id = do
  update sub_id (λ sub. record sub { plan_id = plan_id })
  db ← gets (λ db. db)
  when (any (asks_for sub_id plan_id) db.plan_changes)
      (raise (validation_error "Requested plan must be different from current plan."))

-- `rec.effective_date = day`
unfoldable pub set_effective_date : ℕ → ℕ → Action Database (Unit {0})
set_effective_date i day = do
  write i (λ rec. record rec { effective_date = some day })
  check_effective_date i

abbrev pub set_state : ℕ → RequestState → Action Database (Unit {0})
set_state i state = write i (λ rec. record rec { state = state })

module _ ⦃platform : Platform⦄ where
  -- The day that `_ensure_effective_date` gives to a request that has none, by its mode.
  unfoldable pub default_date : EffectiveDateMode → Subscription → ℕ → Option ℕ
  default_date EffectiveDateMode.immediate sub today = some today
  default_date EffectiveDateMode.next_cycle sub today =
      some (or_value sub.next_invoice_date (platform.month_later today))
  default_date EffectiveDateMode.custom sub today = none

  abbrev assign_date : ℕ → Option ℕ → Action Database (Unit {0})
  assign_date i none = skip
  assign_date i (some day) = set_effective_date i day

  unfoldable pub ensure_effective_date : ℕ → Action Database (Unit {0})
  ensure_effective_date i = do
    rec ← read i
    when (not (is_set rec.effective_date)) (do
      sub ← Subscription.read rec.subscription_id
      today ← gets (λ db. db.today)
      assign_date i (default_date rec.effective_date_mode sub today))

  -- `create(vals)` for one request: the name, the row, the checks on its fields, the date.
  unfoldable pub create : PlanChangeRequest → Action Database ℕ
  create vals = do
    name ←
        (if text_eq vals.name "New"
          then next_name "isp.plan.change.request" "PCR"
          else pure vals.name)
    i ← gets (λ db. platform.new_id (ids db.plan_changes))
    modify
        λ db. record db { plan_changes = db.plan_changes ++ (i, record vals { name = name }) ∷ [] }
    check_plan_diff i
    check_effective_date i
    ensure_effective_date i
    pure i

  -- `rec._send_template(xmlid)`, to the partner of the subscription.
  unfoldable pub notify : ℕ → String → Action Database (Unit {0})
  notify i xmlid = do
    rec ← read i
    sub ← Subscription.read rec.subscription_id
    send_template xmlid i sub.partner_id

  unfoldable pub submit : ℕ → Action Database (Unit {0})
  submit i = do
    rec ← read i
    db ← gets (λ db. db)
    when
        (is_immediate rec.effective_date_mode
          && not (db.has_group "isp_core.group_isp_admin")
          && not (db.has_group "isp_core.group_isp_noc"))
        (raise (validation_error "Immediate plan changes require Admin or NOC permissions."))
    ensure_effective_date i
    set_state i RequestState.submitted
    plan ← read_plan rec.requested_plan_id
    log_action "plan_change_submitted" "isp.subscription" rec.subscription_id
        ("Plan change requested to " ⧺ plan.name)
    notify i "isp_core.mail_template_plan_change_submitted"

  -- The loop body of `action_apply`.
  unfoldable pub apply : ℕ → Action Database (Unit {0})
  apply i = do
    rec ← read i
    set_plan rec.subscription_id rec.requested_plan_id
    ensure_pppoe_credentials rec.subscription_id
    queue_job JobType.change_plan rec.subscription_id
    set_state i RequestState.applied
    plan ← read_plan rec.requested_plan_id
    log_action "plan_change_applied" "isp.subscription" rec.subscription_id
        ("Plan changed to " ⧺ plan.name)
    notify i "isp_core.mail_template_plan_change_applied"

  -- `rec.effective_date and rec.effective_date <= today`
  abbrev pub is_due : Option ℕ → ℕ → Bool
  is_due none today = false
  is_due (some day) today = leb day today

  unfoldable pub approve : ℕ → Action Database (Unit {0})
  approve i = do
    ensure_effective_date i
    user ← gets (λ db. db.user)
    write i (λ rec. record rec { state = RequestState.approved; approved_by = some user })
    rec ← read i
    plan ← read_plan rec.requested_plan_id
    log_action "plan_change_approved" "isp.subscription" rec.subscription_id
        ("Plan change approved to " ⧺ plan.name)
    notify i "isp_core.mail_template_plan_change_approved"
    today ← gets (λ db. db.today)
    when (is_due rec.effective_date today) (apply i)

  unfoldable pub reject : ℕ → Action Database (Unit {0})
  reject i = do
    rec ← read i
    when (not (has_text rec.rejection_reason))
        (raise (validation_error "Rejection reason is required."))
    set_state i RequestState.rejected
    log_action "plan_change_rejected" "isp.subscription" rec.subscription_id "Plan change rejected"
    notify i "isp_core.mail_template_plan_change_rejected"

  unfoldable pub action_submit : List ℕ → Action Database (Unit {0})
  action_submit self = for_each self submit

  unfoldable pub action_approve : List ℕ → Action Database (Unit {0})
  action_approve self = for_each self approve

  unfoldable pub action_reject : List ℕ → Action Database (Unit {0})
  action_reject self = for_each self reject

  unfoldable pub action_apply : List ℕ → Action Database (Unit {0})
  action_apply self = for_each self apply

  abbrev pub is_approved : RequestState → Bool
  is_approved RequestState.approved = true
  is_approved _ = false

  -- The domain of `_cron_apply_plan_changes`.
  abbrev pub awaits_apply : ℕ → ℕ → PlanChangeRequest → Bool
  awaits_apply today _ rec = is_approved rec.state && is_due rec.effective_date today

  unfoldable pub cron_apply_plan_changes : Action Database (Unit {0})
  cron_apply_plan_changes = do
    db ← gets (λ db. db)
    for_each (platform.search PlanChangeRequest (awaits_apply db.today) db.plan_changes) apply
