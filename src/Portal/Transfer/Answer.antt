-- ===== src/Portal/Transfer/Answer.antt =====
-- What a customer's report of a transfer does.
use getupnet.Prelude.{
  ℕ, ◌+◌, ◌==◌, ◌≡◌, false, some, List, [], ◌∷◌, ◌++◌, length, or_text, arith, if◌then◌else◌,
}
use getupnet.Prelude.Effects.{Result, ok, err, access_error}
use getupnet.Prelude.Rows.{browse, assign, ids, browse_fresh}
use getupnet.Database.{Database}
use getupnet.Database.Billing.{BankTransferPayment, TransferState}
use getupnet.Platform.{Platform}
use getupnet.Core.Subscription.{next_name}
use getupnet.Billing.Transfer.{
  may_write_transfers, read, write, check_attachments, set_review_deadline, with_deadlines, create,
}
use getupnet.Billing.Transfer.Review.{in_state, without_proof}
use getupnet.Portal.Transfer.Kept.{create-Keeps}
use getupnet.Portal.Transfer.{TransferForm, new_transfer, with_invoices, transfer_submit}
use getupnet.Portal.Transfer.Proof.{named}

module _ ⦃platform : Platform⦄ where
  -- The transfer as `create` leaves it.
  abbrev pub reported : ℕ → TransferForm → Database → BankTransferPayment
  reported partner form db = with_deadlines db (record (new_transfer partner form) {
    name = or_text (platform.next_by_code "isp.bank.transfer.payment" db.sequence_calls) "BTP";
  })

  created : ℕ → TransferForm → Database → Database
  created partner form db =
      let i = platform.new_id (ids db.transfers) in
      let row = record (new_transfer partner form) {
        name = or_text (platform.next_by_code "isp.bank.transfer.payment" db.sequence_calls) "BTP";
      } in
      record db {
        sequence_calls = db.sequence_calls + 1;
        transfers = assign i (with_deadlines db) (db.transfers ++ (i, row) ∷ []);
      }

  -- Who may not write transfers is stopped at the first write to the one that was created.
  create-denied :
      (partner : ℕ) (form : TransferForm) (db : Database)
      → may_write_transfers db ≡ false
      → (create (new_transfer partner form) db).0 ≡ err (access_error "isp.bank.transfer.payment")
  unfolding create next_name check_attachments set_review_deadline read
  create-denied partner form db denied =
      let i = platform.new_id (ids db.transfers) in
      let row = record (new_transfer partner form) {
        name = or_text (platform.next_by_code "isp.bank.transfer.payment" db.sequence_calls) "BTP";
      } in
      let fresh = browse_fresh i row db.transfers (platform.new_id_fresh (ids db.transfers)) in
      ground (arith, denied, fresh)

  -- The report of a transfer by a user who may not write transfers, as the customers of the portal,
  -- raises an access error, whatever the form says; no file is stored.
  pub transfer_submit-denied :
      (partner : ℕ) (form : TransferForm) (db : Database)
      → may_write_transfers db ≡ false
      → ((transfer_submit partner form db).0 ≡ err (access_error "isp.bank.transfer.payment"))
        × ((transfer_submit partner form db).1.attachments ≡ db.attachments)
  unfolding transfer_submit
  transfer_submit-denied partner form db denied =
      let raised = create-denied partner form db denied in
      let kept = (create-Keeps (new_transfer partner form)).at db in
      (ground (arith, raised), ground (arith, raised, kept))

  -- The database before the files are stored.
  invoiced : ℕ → TransferForm → Database → Database
  unfolding write
  invoiced partner form db =
      (write (platform.new_id (ids db.transfers)) (with_invoices form.invoice_ids)
        (created partner form db)).1

  -- The transfer as its submission leaves it, by the attachments that are linked to it.
  abbrev pub submitted : ℕ → TransferForm → Database → List ℕ → BankTransferPayment
  submitted partner form db attachments = in_state TransferState.in_review (
      with_deadlines db (record (with_invoices form.invoice_ids (reported partner form db)) {
        attachment_ids = attachments;
      }))

  abbrev Answered : ℕ → TransferForm → Database → Result (Unit {0}) × Database → Type 0
  Answered partner form db after =
      (after.0 ≡ (if named form.files == 0 then without_proof else ok tt))
      × ((linked : List ℕ) × (length linked ≡ named form.files)
          × (browse (platform.new_id (ids db.transfers)) after.1.transfers
              ≡ some (submitted partner form db linked)))
      × (length after.1.attachments ≡ length db.attachments + length form.files + named form.files)
