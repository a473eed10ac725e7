-- ===== src/Database/Billing.antt =====
-- Invoices as addons/isp_billing reads them, and the rows of
-- addons/isp_billing/models/bank_transfer_payment.py.
use getupnet.Prelude.{ℕ, Bool, Option, String, List}

pub data MoveType : Type 0 where
  out_invoice other : MoveType

pub data MoveState : Type 0 where
  draft posted cancel : MoveState

pub data PaymentState : Type 0 where
  not_paid in_payment paid partial reversed : PaymentState

-- account.move
pub record Invoice : Type 0 where
  pub move_type : MoveType
  pub partner_id : ℕ
  pub isp_subscription_id : Option ℕ
  pub state : MoveState
  pub payment_state : PaymentState
  pub invoice_date : Option ℕ
  pub invoice_date_due : Option ℕ
  pub line_name : String
  pub price_unit : ℕ

-- account.payment
pub record Payment : Type 0 where
  pub partner_id : ℕ
  pub amount : ℕ
  pub journal_id : ℕ
  pub ref : String

pub data TransferState : Type 0 where
  draft in_review approved rejected applied : TransferState

pub record BankTransferPayment : Type 0 where
  pub name : String
  pub partner_id : ℕ
  pub invoice_ids : List ℕ
  pub reference : String
  pub amount : ℕ
  pub transfer_datetime : Option ℕ
  pub attachment_ids : List ℕ
  pub state : TransferState
  pub reviewer_id : Option ℕ
  pub review_deadline : Option ℕ
  pub attention_deadline : Option ℕ
  pub rejection_reason : Option String
  pub accounting_payment_id : Option ℕ
  pub needs_attention : Bool

-- ir.attachment, of a transfer.
pub record Attachment : Type 0 where
  pub name : String
  pub datas : String
  pub res_id : ℕ
