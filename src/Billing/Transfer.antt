-- ===== src/Billing/Transfer.antt =====
-- addons/isp_billing/models/bank_transfer_payment.py. The two settings that it reads through `int`
-- are taken as numbers; a datetime is a number of seconds.
pub mod Review
pub mod Approval
use getupnet.Prelude.{
  ℕ, ◌+◌, ◌*◌, leb, Bool, true, false, not, ◌&&◌, Option, none, some, List, [], ◌∷◌, ◌++◌, String,
  ◌⧺◌, text_eq, has_text, or_value, is_set, if◌then◌else◌,
}
use getupnet.Prelude.Effects.{
  Action, ok, err, validation_error, missing_error, access_error, skip, gets, modify, when, raise,
  pure, or_raise, for_each, ◌>>=◌, ◌>>◌,
}
use getupnet.Prelude.Rows.{Table, browse, assign, ids}
use getupnet.Database.{Database}
use getupnet.Database.Billing.{BankTransferPayment, TransferState, Payment}
use getupnet.Platform.{Platform}
use getupnet.Core.Audit.{log_action, send_template}
use getupnet.Core.Subscription.{next_name}

unfoldable pub read : ℕ → Action Database BankTransferPayment
read i db = or_raise (browse i db.transfers) (missing_error "isp.bank.transfer.payment") db

unfoldable pub write : ℕ → (BankTransferPayment → BankTransferPayment) → Action Database (Unit {0})
write i f = modify λ db. record db { transfers = assign i f db.transfers }

abbrev pub is_draft : TransferState → Bool
is_draft TransferState.draft = true
is_draft _ = false

abbrev pub is_empty : List ℕ → Bool
is_empty [] = true
is_empty (x ∷ xs) = false

unfoldable pub check_attachments : ℕ → Action Database (Unit {0})
check_attachments i = do
  rec ← read i
  when (not (is_draft rec.state) && is_empty rec.attachment_ids)
      (raise (validation_error "Transfer payments require at least one attachment."))

-- `rec.state = state`
unfoldable pub set_state : ℕ → TransferState → Action Database (Unit {0})
set_state i state = do write i (λ rec. record rec { state = state }); check_attachments i

abbrev pub hours : ℕ → ℕ
hours n = 3600 * n

-- The two deadlines of a transfer.
abbrev pub with_deadlines : Database → BankTransferPayment → BankTransferPayment
with_deadlines db rec = record rec {
  review_deadline = some (
      or_value rec.transfer_datetime db.now
      + hours (or_value (db.number_param "isp_billing.transfer_review_hours") 48));
  attention_deadline = some (
      or_value rec.transfer_datetime db.now
      + hours (or_value (db.number_param "isp_billing.transfer_attention_hours") 24));
}

-- Whether the access rights let the user write to transfers; a portal customer may only read and
-- create them.
abbrev pub may_write_transfers : Database → Bool
may_write_transfers db = db.may_write "isp.bank.transfer.payment"

-- The first write of `create` and of `action_submit`, where the access rights are checked. The other
-- writes come after it or are made by those who review.
unfoldable pub set_review_deadline : ℕ → Action Database (Unit {0})
set_review_deadline i = do
  db ← gets (λ db. db)
  when (not (may_write_transfers db)) (raise (access_error "isp.bank.transfer.payment"))
  write i (with_deadlines db)

module _ ⦃platform : Platform⦄ where
  -- `create(vals)` for one transfer.
  unfoldable pub create : BankTransferPayment → Action Database ℕ
  create vals = do
    name ←
        (if text_eq vals.name "New"
          then next_name "isp.bank.transfer.payment" "BTP"
          else pure vals.name)
    i ← gets (λ db. platform.new_id (ids db.transfers))
    modify λ db. record db { transfers = db.transfers ++ (i, record vals { name = name }) ∷ [] }
    check_attachments i
    set_review_deadline i
    pure i

  unfoldable pub notify : ℕ → String → Action Database (Unit {0})
  notify i xmlid = do rec ← read i; send_template xmlid i rec.partner_id

  unfoldable pub submit : ℕ → Action Database (Unit {0})
  submit i = do
    set_review_deadline i
    set_state i TransferState.in_review
    rec ← read i
    log_action "transfer_submitted" "isp.bank.transfer.payment" i ("Transfer submitted " ⧺ rec.name)
    notify i "isp_billing.mail_template_transfer_submitted"

  unfoldable pub reject : ℕ → Action Database (Unit {0})
  reject i = do
    rec ← read i
    when (not (has_text rec.rejection_reason))
        (raise (validation_error "Rejection reason is required."))
    set_state i TransferState.rejected
    user ← gets (λ db. db.user)
    write i (λ rec'. record rec' { reviewer_id = some user })
    log_action "transfer_rejected" "isp.bank.transfer.payment" i ("Transfer rejected " ⧺ rec.name)
    notify i "isp_billing.mail_template_transfer_rejected"

  -- `account.payment.create(vals)` for each payment; gives the id of the first.
  unfoldable pub add_payment : Payment → Action Database ℕ
  add_payment payment = do
    i ← gets (λ db. platform.new_id (ids db.payments))
    modify λ db. record db { payments = db.payments ++ (i, payment) ∷ [] }
    pure i

  unfoldable pub add_payments : List Payment → Action Database (Option ℕ)
  add_payments [] = pure none
  add_payments (p ∷ ps) = do i ← add_payment p; add_payments ps; pure (some i)

  -- `rec.accounting_payment_id = payment.id`
  abbrev set_payment : ℕ → Option ℕ → Action Database (Unit {0})
  set_payment i none = skip
  set_payment i (some payment) =
      write i (λ rec. record rec { accounting_payment_id = some payment })

  -- The payment that is made for a transfer without invoices.
  abbrev pub direct_payment : BankTransferPayment → ℕ → Payment
  direct_payment rec journal = record {
    partner_id = rec.partner_id;
    amount = rec.amount;
    journal_id = journal;
    ref = rec.reference;
  }

  -- `account.payment.create(vals)`, which may raise.
  unfoldable pub create_direct : Payment → Action Database ℕ
  create_direct payment db = elim (platform.create_payment payment) [
    | none ↦ add_payment payment db
    | some exc ↦ (err exc, db)
  ]

  abbrev post : Payment → Action Database (Unit {0})
  post payment db = elim (platform.post_payment payment) [
    | none ↦ (ok tt, db)
    | some exc ↦ (err exc, db)
  ]

  unfoldable pub pay_direct : ℕ → BankTransferPayment → ℕ → Action Database (Unit {0})
  pay_direct i rec journal = do
    payment ← create_direct (direct_payment rec journal)
    post (direct_payment rec journal)
    set_payment i (some payment)

  unfoldable pub pay_invoices : ℕ → BankTransferPayment → Action Database (Unit {0})
  pay_invoices i rec = do
    made ← (λ db. (platform.register_payments rec, db))
    payment ← add_payments made
    set_payment i payment

  -- The loop body of `_create_and_apply_payment` behind its first two tests.
  unfoldable pub pay : ℕ → BankTransferPayment → ℕ → Action Database (Unit {0})
  pay i rec journal = do
    if is_empty rec.invoice_ids then pay_direct i rec journal else pay_invoices i rec
    set_state i TransferState.applied

  unfoldable pub create_and_apply_payment : ℕ → Action Database (Unit {0})
  create_and_apply_payment i = do
    rec ← read i
    if is_set rec.accounting_payment_id
        then set_state i TransferState.applied
        else elim platform.default_journal [
          | none ↦ raise (validation_error "No suitable journal found for inbound payments.")
          | some journal ↦ pay i rec journal
        ]

  unfoldable pub approve : ℕ → Action Database (Unit {0})
  approve i = do
    user ← gets (λ db. db.user)
    write i (λ rec. record rec { reviewer_id = some user })
    set_state i TransferState.approved
    create_and_apply_payment i
    rec ← read i
    log_action "transfer_approved" "isp.bank.transfer.payment" i ("Transfer approved " ⧺ rec.name)
    notify i "isp_billing.mail_template_transfer_approved"

  unfoldable pub action_submit : List ℕ → Action Database (Unit {0})
  action_submit self = for_each self submit

  unfoldable pub action_reject : List ℕ → Action Database (Unit {0})
  action_reject self = for_each self reject

  unfoldable pub action_approve : List ℕ → Action Database (Unit {0})
  action_approve self = for_each self approve

  abbrev pub is_in_review : TransferState → Bool
  is_in_review TransferState.in_review = true
  is_in_review _ = false

  abbrev pub is_past : Option ℕ → ℕ → Bool
  is_past none now = false
  is_past (some deadline) now = leb deadline now

  -- The domain of `_cron_transfer_deadlines`.
  abbrev pub wants_attention : ℕ → ℕ → BankTransferPayment → Bool
  wants_attention now _ rec = is_in_review rec.state && is_past rec.attention_deadline now

  unfoldable pub cron_transfer_deadlines : Action Database (Unit {0})
  cron_transfer_deadlines = do
    db ← gets (λ db. db)
    for_each (platform.search BankTransferPayment (wants_attention db.now) db.transfers)
        (λ i. write i (λ rec. record rec { needs_attention = true }))
