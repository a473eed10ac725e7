-- ===== src/Portal/Transfer.antt =====
-- `portal_my_isp_payment_transfer_submit` of addons/isp_portal/controllers/portal.py, for a form whose
-- amount, date and invoice ids are numbers. The partner of the user is an argument.
pub mod Proof
pub mod Kept
pub mod Answer
use getupnet.Prelude.{ℕ, false, Option, none, some, List, [], ◌∷◌, ◌++◌, String, has_text, or_text}
use getupnet.Prelude.Effects.{
  Action, ok, err, skip, gets, modify, when, pure, for_each, ◌>>=◌, ◌>>◌,
}
use getupnet.Prelude.Rows.{ids}
use getupnet.Database.{Database}
use getupnet.Database.Billing.{BankTransferPayment, TransferState, Attachment}
use getupnet.Platform.{Platform}
use getupnet.Billing.Transfer.{create, write, check_attachments, action_submit}

pub record File : Type 0 where
  pub filename : Option String
  pub content : String

pub record TransferForm : Type 0 where
  pub reference : String
  pub amount : ℕ
  pub date : Option ℕ
  pub invoice_ids : List ℕ
  pub files : List File

-- The values that the route gives to `create`, with the defaults of the model.
abbrev pub new_transfer : ℕ → TransferForm → BankTransferPayment
new_transfer partner form = record {
  name = "New";
  partner_id = partner;
  invoice_ids = [];
  reference = form.reference;
  amount = form.amount;
  transfer_datetime = form.date;
  attachment_ids = [];
  state = TransferState.draft;
  reviewer_id = none;
  review_deadline = none;
  attention_deadline = none;
  rejection_reason = none;
  accounting_payment_id = none;
  needs_attention = false;
}

-- `payment.write({'invoice_ids': [(6, 0, ...)]})`, if there are any.
abbrev pub with_invoices : List ℕ → BankTransferPayment → BankTransferPayment
with_invoices [] rec = rec
with_invoices (i ∷ is) rec = record rec { invoice_ids = i ∷ is }

abbrev pub linked : ℕ → BankTransferPayment → BankTransferPayment
linked attachment rec = record rec { attachment_ids = rec.attachment_ids ++ attachment ∷ [] }

module _ ⦃platform : Platform⦄ where
  abbrev pub new_attachment : ℕ → String → String → Action Database ℕ
  new_attachment transfer name datas db =
      let i = platform.new_id (ids db.attachments) in
      (
        ok i,
        record db {
          attachments =
              db.attachments ++ (i, record { name = name; datas = datas; res_id = transfer }) ∷ [];
        },
      )

  -- `request.env['ir.attachment'].create(...)`
  unfoldable pub attach : ℕ → String → String → Action Database ℕ
  attach transfer name datas db = elim (platform.store_datas datas) [
    | some exc ↦ (err exc, db)
    | none ↦ new_attachment transfer name datas db
  ]

  -- The body of the first loop, which links nothing.
  unfoldable pub attach_raw : ℕ → File → Action Database (Unit {0})
  attach_raw transfer file = do attach transfer (or_text file.filename "") file.content; skip

  -- The body of the second loop.
  unfoldable pub attach_encoded : ℕ → File → Action Database (Unit {0})
  attach_encoded transfer file = when (has_text file.filename) (do
    i ← attach transfer (or_text file.filename "") (platform.encode file.content)
    write transfer (linked i)
    check_attachments transfer)

  unfoldable pub transfer_submit : ℕ → TransferForm → Action Database (Unit {0})
  transfer_submit partner form = do
    transfer ← create (new_transfer partner form)
    write transfer (with_invoices form.invoice_ids)
    for_each form.files (attach_raw transfer)
    for_each form.files (attach_encoded transfer)
    action_submit (transfer ∷ [])
