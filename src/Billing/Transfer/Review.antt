-- ===== src/Billing/Transfer/Review.antt =====
-- Submission and rejection of a transfer, and its deadlines.
use getupnet.Prelude.{
  ℕ, ◌≡◌, refl, ap, [], true, false, some, String, ◌⧺◌, has_text, arith, if◌then◌else◌,
}
use getupnet.Prelude.Effects.{ok, err, validation_error, Result}
use getupnet.Prelude.Rows.{browse, assign, browse-assign}
use getupnet.Prelude.Frame.{Keeps}
use getupnet.Database.{Database}
use getupnet.Database.Billing.{BankTransferPayment, TransferState}
use getupnet.Platform.{Platform}
use getupnet.Core.Audit.{log_action, send_template}
use getupnet.Billing.Transfer.{
  read, write, is_draft, is_empty, check_attachments, set_state, set_review_deadline,
  may_write_transfers, with_deadlines, notify, submit, reject,
}

abbrev pub in_state : TransferState → BankTransferPayment → BankTransferPayment
in_state state rec = record rec { state = state }

abbrev pub without_proof : Result (Unit {0})
without_proof = err (validation_error "Transfer payments require at least one attachment.")

-- The database after a write to a transfer.
abbrev pub wrote : ℕ → (BankTransferPayment → BankTransferPayment) → Database → Database
wrote i f db = record db { transfers = assign i f db.transfers }

-- A state other than draft is written, and then the attachments are asked for.
pub set_state_lem :
    (i : ℕ) (state : TransferState) (db : Database) {rec : BankTransferPayment}
    → browse i db.transfers ≡ some rec
    → is_draft state ≡ false
    → set_state i state db
      ≡ (if is_empty rec.attachment_ids then without_proof else ok tt, wrote i (in_state state) db)
unfolding set_state write read check_attachments
set_state_lem i state db {rec} found proper =
    ground (arith, found, proper, browse-assign i i (in_state state) db.transfers)

module _ ⦃platform : Platform⦄ where
  abbrev pub tables : Database → Database
  tables db = record db { mails = []; audit_log = [] }

  pub notify-tables : (i : ℕ) (xmlid : String) → Keeps tables (notify i xmlid)
  unfolding notify read send_template
  notify-tables i xmlid = record { at = λ db. ground arith }

  pub notify-goes :
      (i : ℕ) (xmlid : String) (db : Database) {rec : BankTransferPayment}
      → browse i db.transfers ≡ some rec
      → (notify i xmlid db).0 ≡ ok tt
  unfolding notify read send_template
  notify-goes i xmlid db found = ground (arith, found)

  -- For a user who may write transfers, a submission of a transfer goes through exactly if the transfer has an attachment, and the
  -- transfer is in review afterwards with the deadlines that the settings give it.
  pub submit-in_review :
      (i : ℕ) (db : Database) {rec : BankTransferPayment}
      → may_write_transfers db ≡ true
      → browse i db.transfers ≡ some rec
      → ((submit i db).0 ≡ (if is_empty rec.attachment_ids then without_proof else ok tt))
        × (browse i (submit i db).1.transfers
            ≡ some (in_state TransferState.in_review (with_deadlines db rec)))
  unfolding submit set_review_deadline write read log_action
  submit-in_review i db {rec} may found =
      let db1 = wrote i (with_deadlines db) db in
      let first : browse i db1.transfers ≡ some (with_deadlines db rec) =
        ground (arith, found, browse-assign i i (with_deadlines db) db.transfers) in
      let f = in_state TransferState.in_review in
      let set = set_state_lem i TransferState.in_review db1 first refl in
      let here = browse-assign i i f db1.transfers in
      let logged =
        (log_action "transfer_submitted" "isp.bank.transfer.payment" i
          ("Transfer submitted " ⧺ rec.name) (wrote i f db1)).1 in
      let xmlid : String = "isp_billing.mail_template_transfer_submitted" in
      let kept = ap (λ (d : Database). d.transfers) ((notify-tables i xmlid).at logged) in
      let sent =
        notify-goes i xmlid logged {rec = f (with_deadlines db rec)}
          (ground (arith, first, here)) in
      (
        ground (arith, may, set, first, here, sent),
        ground (arith, may, set, first, here, sent, kept),
      )

  abbrev pub rejected : ℕ → BankTransferPayment → BankTransferPayment
  rejected user rec = record rec { state = TransferState.rejected; reviewer_id = some user }

  -- A rejection of a transfer that has a reason and an attachment goes through: the transfer is
  -- rejected, whatever its state was, and the user is its reviewer.
  pub reject-rejected :
      (i : ℕ) (db : Database) {rec : BankTransferPayment}
      → browse i db.transfers ≡ some rec
      → has_text rec.rejection_reason ≡ true
      → is_empty rec.attachment_ids ≡ false
      → ((reject i db).0 ≡ ok tt)
        × (browse i (reject i db).1.transfers ≡ some (rejected db.user rec))
  unfolding reject write read log_action
  reject-rejected i db {rec} found reason proof =
      let f = in_state TransferState.rejected in
      let g = λ (row : BankTransferPayment). record row { reviewer_id = some db.user } in
      let set = set_state_lem i TransferState.rejected db found refl in
      let here = browse-assign i i f db.transfers in
      let then_here = browse-assign i i g (assign i f db.transfers) in
      let logged =
        (log_action "transfer_rejected" "isp.bank.transfer.payment" i
          ("Transfer rejected " ⧺ rec.name) (wrote i g (wrote i f db))).1 in
      let xmlid : String = "isp_billing.mail_template_transfer_rejected" in
      let kept = ap (λ (d : Database). d.transfers) ((notify-tables i xmlid).at logged) in
      let sent =
        notify-goes i xmlid logged {rec = rejected db.user rec}
          (ground (arith, found, here, then_here)) in
      (
        ground (arith, found, reason, proof, set, sent),
        ground (arith, found, reason, proof, set, here, then_here, kept),
      )
