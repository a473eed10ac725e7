-- ===== src/Platform.antt =====
-- What the program calls and does not implement: Odoo's search, ids and sequences, the accounting
-- of Odoo, the random source, calendar months, and the routers behind librouteros. The laws are
-- those that their documentation gives.
use mathlib.Core.List.{Permᴰ}
use getupnet.Prelude.{ℕ, ◌<◌, ◌≡◌, ◌≢◌, Bool, false, Option, none, List, String, text_eq, All}
use getupnet.Prelude.Effects.{Action, Exception, Result, ok, err}
use getupnet.Prelude.Rows.{Table, matching}
use getupnet.Database.{Database, Sent}
use getupnet.Database.Network.{Command, Attributes}
use getupnet.Database.Billing.{Invoice, PaymentState, Payment, BankTransferPayment}

pub record Platform : Type 1 where
  -- `Model.search(domain)`: the records that pass, in an order that the model chooses.
  pub search : (A : Type 0) → (ℕ → A → Bool) → Table A → List ℕ
  pub search_perm :
      (A : Type 0) (p : ℕ → A → Bool) (t : Table A) → Permᴰ (search A p t) (matching p t)
  -- The id of a new record is one that no record of its table has.
  pub new_id : List ℕ → ℕ
  pub new_id_fresh : (taken : List ℕ) → All (λ i. i ≢ new_id taken) taken
  -- `ir.sequence.next_by_code`, by the calls so far; `none` where no sequence has the code.
  pub next_by_code : String → ℕ → Option String
  -- `secrets.token_hex`, by the calls so far.
  pub token_hex : ℕ → ℕ → String
  pub token_hex_text : (n calls : ℕ) → 0 < n → text_eq (token_hex n calls) "" ≡ false
  -- `day + relativedelta(months=1)`
  pub month_later : ℕ → ℕ
  pub month_later_grows : (day : ℕ) → day < month_later day
  -- `str` of an id, and of a float.
  pub show_id : ℕ → String
  pub show_float : ℕ → String
  -- Whether a mail template is installed.
  pub has_template : String → Bool
  -- `account.move.action_post`: whether the posting goes through.
  pub can_post : Invoice → Bool
  -- The payment state that accounting gives to an invoice that it has posted.
  pub posted_as : Invoice → PaymentState
  -- The first bank or cash journal of the company.
  pub default_journal : Option ℕ
  -- The payments that `account.payment.register` makes for a transfer's invoices.
  pub register_payments : BankTransferPayment → Result (List Payment)
  -- What `account.payment.create` raises for the values of a transfer, if it does.
  pub create_payment : Payment → Option Exception
  -- `account.payment.action_post`, which may raise.
  pub post_payment : Payment → Option Exception
  -- `base64.b64encode`, and what `ir.attachment.create` raises on `datas`, if it does: not on what is
  -- encoded.
  pub encode : String → String
  pub store_datas : String → Option Exception
  pub store_datas-encode : (content : String) → store_datas (encode content) ≡ none
  -- The number that accounting has given to an invoice.
  pub invoice_name : ℕ → Option String
  -- `str` of the attributes of a command.
  pub show_attributes : Attributes → String
  -- Whether librouteros is installed.
  pub has_librouteros : Bool
  -- Opening a connection to a router, and what it answers, by the commands sent so far.
  pub connect : ℕ → List Sent → Option Exception
  pub reply : ℕ → List Sent → Command → Result (List Attributes)

-- A caller that runs a method in a transaction of the database: what a method that raised has
-- written is gone afterwards, and what one that went through has written stays.
pub record Transaction : Type 1 where
  pub run : {A : Type 0} → Action Database A → Action Database A
  pub rolls_back :
      {A : Type 0} (m : Action Database A) (db : Database) {e : Exception}
      → (m db).0 ≡ err e
      → (run m db).1 ≡ db
  pub commits :
      {A : Type 0} (m : Action Database A) (db : Database) {a : A}
      → (m db).0 ≡ ok a
      → (run m db).1 ≡ (m db).1
