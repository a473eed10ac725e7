-- ===== src/Billing/Transfer/Approval.antt =====
-- The approval of a transfer and the payment that it makes.
use getupnet.Prelude.{
  ℕ, zero, suc, ◌≡◌, refl, ap, ◌∙◌, [], ◌∷◌, ◌++◌, true, false, Option, none, some, String, ◌⧺◌,
  is_set, arith,
}
use getupnet.Prelude.Effects.{ok}
use getupnet.Prelude.Rows.{browse, assign, ids, browse-assign}
use getupnet.Database.{Database}
use getupnet.Database.Billing.{BankTransferPayment, TransferState, Payment}
use getupnet.Platform.{Platform}
use getupnet.Core.Audit.{log_action}
use getupnet.Billing.Transfer.{
  read, write, is_empty, approve, create_and_apply_payment, pay, pay_direct, add_payment,
  create_direct,
}
use getupnet.Billing.Transfer.Review.{in_state, wrote, set_state_lem, notify-goes, notify-tables}

-- The reviewer of a transfer, and the payment that was made for it.
abbrev pub reviewed : ℕ → BankTransferPayment → BankTransferPayment
reviewed user rec = record rec { reviewer_id = some user }

abbrev pub paid_by : ℕ → BankTransferPayment → BankTransferPayment
paid_by payment rec = record rec { accounting_payment_id = some payment }

-- The payment of a transfer: from its partner, of its amount, with its reference.
abbrev pub payment_of : BankTransferPayment → ℕ → Payment
payment_of rec journal = record {
  partner_id = rec.partner_id;
  amount = rec.amount;
  journal_id = journal;
  ref = rec.reference;
}

module _ ⦃platform : Platform⦄ where
  -- A transfer without invoices and without a payment gets one, and is applied.
  pay-direct_lem :
      (i journal : ℕ) (db : Database) {rec : BankTransferPayment}
      → browse i db.transfers ≡ some rec
      → is_empty rec.attachment_ids ≡ false
      → is_empty rec.invoice_ids ≡ true
      → is_set rec.accounting_payment_id ≡ false
      → platform.default_journal ≡ some journal
      → platform.create_payment (payment_of rec journal) ≡ none
      → platform.post_payment (payment_of rec journal) ≡ none
      → let payment = platform.new_id (ids db.payments) in
        create_and_apply_payment i db ≡ (
          ok tt,
          wrote i (in_state TransferState.applied) (
              wrote i
                (paid_by payment)
                (record db { payments = db.payments ++ (payment, payment_of rec journal) ∷ [] })),
        )
  unfolding create_and_apply_payment pay pay_direct create_direct add_payment read write
  pay-direct_lem i journal db {rec} found proof no_invoices unpaid has_journal accepted_by posts =
      let payment = platform.new_id (ids db.payments) in
      let db1 =
        wrote i (paid_by payment)
          (record db { payments = db.payments ++ (payment, payment_of rec journal) ∷ [] }) in
      let there : browse i db1.transfers ≡ some (paid_by payment rec) =
        ground (arith, found, browse-assign i i (paid_by payment) db.transfers) in
      let set = set_state_lem i TransferState.applied db1 there refl in
      ground (arith, found, proof, no_invoices, unpaid, has_journal, accepted_by, posts, set)

  -- A transfer that has its payment is only applied.
  pay-again_lem :
      (i : ℕ) (db : Database) {rec : BankTransferPayment}
      → browse i db.transfers ≡ some rec
      → is_empty rec.attachment_ids ≡ false
      → is_set rec.accounting_payment_id ≡ true
      → create_and_apply_payment i db ≡ (ok tt, wrote i (in_state TransferState.applied) db)
  unfolding create_and_apply_payment read
  pay-again_lem i db found proof paid =
      let set = set_state_lem i TransferState.applied db found refl in
      ground (arith, found, proof, paid, set)

  -- The state in which the payment of an approved transfer is made.
  abbrev accepted : ℕ → Database → Database
  accepted i db = wrote i (in_state TransferState.approved) (wrote i (reviewed db.user) db)

  abbrev to_pay : Database → BankTransferPayment → BankTransferPayment
  to_pay db rec = in_state TransferState.approved (reviewed db.user rec)

  accepted_row :
      (i : ℕ) (db : Database) {rec : BankTransferPayment}
      → browse i db.transfers ≡ some rec
      → browse i (accepted i db).transfers ≡ some (to_pay db rec)
  accepted_row i db found =
      let f = reviewed db.user in
      ground (
        arith,
        found,
        browse-assign i i f db.transfers,
        browse-assign i i (in_state TransferState.approved) (assign i f db.transfers),
      )

  -- The rest of an approval whose payment went through.
  approve_lem :
      (i : ℕ) (db paid : Database) {rec row : BankTransferPayment}
      → browse i db.transfers ≡ some rec
      → is_empty rec.attachment_ids ≡ false
      → create_and_apply_payment i (accepted i db) ≡ (ok tt, paid)
      → browse i paid.transfers ≡ some row
      → ((approve i db).0 ≡ ok tt)
        × ((approve i db).1.transfers ≡ paid.transfers)
        × ((approve i db).1.payments ≡ paid.payments)
  unfolding approve read write log_action
  approve_lem i db paid {rec} {row} found proof pays there =
      let f = reviewed db.user in
      let first = browse-assign i i f db.transfers in
      let set =
        set_state_lem i TransferState.approved (wrote i f db) {rec = f rec}
          (ground (arith, found, first)) refl in
      let logged =
        (log_action "transfer_approved" "isp.bank.transfer.payment" i
          ("Transfer approved " ⧺ row.name) paid).1 in
      let xmlid : String = "isp_billing.mail_template_transfer_approved" in
      let kept = (notify-tables i xmlid).at logged in
      let transfers = ap (λ (d : Database). d.transfers) kept in
      let payments = ap (λ (d : Database). d.payments) kept in
      let sent = notify-goes i xmlid logged {rec = row} there in
      (
        ground (arith, set, proof, pays, there, sent),
        ground (arith, set, proof, pays, there, sent, transfers),
        ground (arith, set, proof, pays, there, sent, payments),
      )

  -- The row of an applied transfer.
  abbrev pub applied : ℕ → Option ℕ → BankTransferPayment → BankTransferPayment
  applied user payment rec = record rec {
    state = TransferState.applied;
    reviewer_id = some user;
    accounting_payment_id = payment;
  }

  -- The approval of a transfer with an attachment, without invoices and without a payment goes
  -- through where there is a journal and accounting creates and posts the payment: exactly one
  -- payment is made, from the transfer's partner, of its amount and with its reference, and the
  -- transfer is applied with its reviewer and that payment.
  pub approve-pays :
      (i journal : ℕ) (db : Database) {rec : BankTransferPayment}
      → browse i db.transfers ≡ some rec
      → is_empty rec.attachment_ids ≡ false
      → is_empty rec.invoice_ids ≡ true
      → is_set rec.accounting_payment_id ≡ false
      → platform.default_journal ≡ some journal
      → platform.create_payment (payment_of rec journal) ≡ none
      → platform.post_payment (payment_of rec journal) ≡ none
      → let payment = platform.new_id (ids db.payments) in
        ((approve i db).0 ≡ ok tt)
        × ((approve i db).1.payments ≡ db.payments ++ (payment, payment_of rec journal) ∷ [])
        × (browse i (approve i db).1.transfers ≡ some (applied db.user (some payment) rec))
  approve-pays i journal db {rec} found proof no_invoices unpaid has_journal accepted_by posts =
      let payment = platform.new_id (ids db.payments) in
      let db1 = accepted i db in
      let row = accepted_row i db found in
      let pays =
        pay-direct_lem i journal db1 {rec = to_pay db rec} row proof no_invoices unpaid has_journal
          accepted_by posts in
      let done = wrote i (in_state TransferState.applied) (
        wrote i (paid_by payment)
          (record db1 { payments = db.payments ++ (payment, payment_of rec journal) ∷ [] })) in
      let there : browse i done.transfers ≡ some (applied db.user (some payment) rec) = ground (
        arith,
        row,
        browse-assign i i (paid_by payment) db1.transfers,
        browse-assign i i (in_state TransferState.applied)
            (assign i (paid_by payment) db1.transfers),
      ) in
      let (goes, transfers, payments) = approve_lem i db done found proof pays there in
      (goes, payments, ap (browse i) transfers ∙ there)

  -- A transfer that already has its payment is approved without another one, and is applied.
  pub approve-pays_once :
      (i : ℕ) (db : Database) {rec : BankTransferPayment}
      → browse i db.transfers ≡ some rec
      → is_empty rec.attachment_ids ≡ false
      → is_set rec.accounting_payment_id ≡ true
      → ((approve i db).0 ≡ ok tt)
        × ((approve i db).1.payments ≡ db.payments)
        × (browse i (approve i db).1.transfers
            ≡ some (applied db.user rec.accounting_payment_id rec))
  approve-pays_once i db {rec} found proof paid =
      let db1 = accepted i db in
      let row = accepted_row i db found in
      let pays = pay-again_lem i db1 {rec = to_pay db rec} row proof paid in
      let done = wrote i (in_state TransferState.applied) db1 in
      let there : browse i done.transfers ≡ some (applied db.user rec.accounting_payment_id rec) =
        ground (arith, row, browse-assign i i (in_state TransferState.applied) db1.transfers) in
      let (goes, transfers, payments) = approve_lem i db done found proof pays there in
      (goes, payments, ap (browse i) transfers ∙ there)

  -- A number of approvals, one after the other.
  unfoldable pub approvals : ℕ → ℕ → Database → Database
  approvals zero i db = db
  approvals (suc n) i db = approvals n i (approve i db).1

  approvals-paid :
      (n i : ℕ) (db : Database) {rec : BankTransferPayment}
      → browse i db.transfers ≡ some rec
      → is_empty rec.attachment_ids ≡ false
      → is_set rec.accounting_payment_id ≡ true
      → (approvals n i db).payments ≡ db.payments
  unfolding approvals
  approvals-paid zero i db found proof paid = refl
  approvals-paid (suc n) i db {rec} found proof paid =
      let (_, payments, row) = approve-pays_once i db {rec = rec} found proof paid in
      approvals-paid n i (approve i db).1 {rec = applied db.user rec.accounting_payment_id rec} row
        proof paid
      ∙ payments

  -- However often a transfer is approved, its payment is made once: under the conditions of the first
  -- approval, there is one payment more after any number of approvals above zero, the one from the
  -- transfer's partner, of its amount and with its reference.
  pub approvals-pay_once :
      (n i journal : ℕ) (db : Database) {rec : BankTransferPayment}
      → browse i db.transfers ≡ some rec
      → is_empty rec.attachment_ids ≡ false
      → is_empty rec.invoice_ids ≡ true
      → is_set rec.accounting_payment_id ≡ false
      → platform.default_journal ≡ some journal
      → platform.create_payment (payment_of rec journal) ≡ none
      → platform.post_payment (payment_of rec journal) ≡ none
      → (approvals (suc n) i db).payments
        ≡ db.payments ++ (platform.new_id (ids db.payments), payment_of rec journal) ∷ []
  unfolding approvals
  approvals-pay_once n i journal db {rec} found proof no_invoices unpaid has_journal accepted_by
        posts =
      let payment = platform.new_id (ids db.payments) in
      let (_, payments, row) =
        approve-pays i journal db found proof no_invoices unpaid has_journal accepted_by posts in
      approvals-paid n i (approve i db).1 {rec = applied db.user (some payment) rec} row proof refl
      ∙ payments
