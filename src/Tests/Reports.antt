-- ===== src/Tests/Reports.antt =====
-- The theorems on reported transfers, for a form with one file that has a name and one that has none.
use getupnet.Prelude.{◌≡◌, refl, false, none, some, [], ◌∷◌}
use getupnet.Prelude.Effects.{err, access_error}
use getupnet.Database.{Database}
use getupnet.Samples.{office, db}
use getupnet.Portal.Transfer.{TransferForm, transfer_submit}
use getupnet.Portal.Transfer.Answer.{transfer_submit-denied}

abbrev form : TransferForm
form = record {
  reference = "R7";
  amount = 2500;
  date = none;
  invoice_ids = 1 ∷ [];
  files =
      record { filename = some "receipt.png"; content = "aGVsbG8=" }
      ∷ record { filename = none; content = "" }
      ∷ [];
}

-- The rights of a customer of the portal.
abbrev db_customer : Database
db_customer = record db { may_write = λ model. false }

transfer_submit-denied_example :
    ((transfer_submit 1 form db_customer).0 ≡ err (access_error "isp.bank.transfer.payment"))
    × ((transfer_submit 1 form db_customer).1.attachments ≡ [])
transfer_submit-denied_example = transfer_submit-denied 1 form db_customer refl
