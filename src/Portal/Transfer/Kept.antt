-- ===== src/Portal/Transfer/Kept.antt =====
-- The submission of a transfer leaves the attachments as they are.
use getupnet.Prelude.{ℕ, refl, List, String}
use getupnet.Prelude.Frame.{Keeps, Keeps-modify, Keeps-read, frame_rules}
use getupnet.Database.{Database}
use getupnet.Database.Billing.{BankTransferPayment, TransferState, Attachment}
use getupnet.Platform.{Platform}
use getupnet.Core.Audit.{log_action, send_template}
use getupnet.Core.Subscription.{next_name}
use getupnet.Billing.Transfer.{
  read, write, check_attachments, set_review_deadline, set_state, notify, create, submit,
}

abbrev pub attachments_of : Database → List (ℕ × Attachment)
attachments_of db = db.attachments

read-Keeps : (i : ℕ) → Keeps attachments_of (read i)
unfolding read
read-Keeps i = Keeps-read _ _

write-Keeps :
    (i : ℕ) (f : BankTransferPayment → BankTransferPayment) → Keeps attachments_of (write i f)
unfolding write
write-Keeps i f = record { at = λ db. refl }

log_action-Keeps :
    (action model : String) (i : ℕ) (details : String)
    → Keeps attachments_of (log_action action model i details)
unfolding log_action
log_action-Keeps action model i details = record { at = λ db. refl }

ruleset row_rules = (frame_rules, read-Keeps, write-Keeps, log_action-Keeps)

check_attachments-Keeps : (i : ℕ) → Keeps attachments_of (check_attachments i)
unfolding check_attachments
check_attachments-Keeps i = search row_rules

set_state-Keeps : (i : ℕ) (state : TransferState) → Keeps attachments_of (set_state i state)
unfolding set_state
set_state-Keeps i state = search (row_rules, check_attachments-Keeps)

set_review_deadline-Keeps : (i : ℕ) → Keeps attachments_of (set_review_deadline i)
unfolding set_review_deadline
set_review_deadline-Keeps i = search row_rules

module _ ⦃platform : Platform⦄ where
  send_template-Keeps :
      (xmlid : String) (i partner : ℕ) → Keeps attachments_of (send_template xmlid i partner)
  unfolding send_template
  send_template-Keeps xmlid i partner = search (row_rules, Keeps-modify) depth 8

  notify-Keeps : (i : ℕ) (xmlid : String) → Keeps attachments_of (notify i xmlid)
  unfolding notify
  notify-Keeps i xmlid = search (row_rules, send_template-Keeps) depth 8

  pub submit-Keeps : (i : ℕ) → Keeps attachments_of (submit i)
  unfolding submit
  submit-Keeps i =
      search (row_rules, set_review_deadline-Keeps, set_state-Keeps, notify-Keeps) depth 16

  pub create-Keeps : (vals : BankTransferPayment) → Keeps attachments_of (create vals)
  unfolding create next_name
  create-Keeps vals =
      search (row_rules, set_review_deadline-Keeps, check_attachments-Keeps, Keeps-modify) depth 16
