-- ===== src/Core/Audit.antt =====
-- addons/isp_core/models/audit_log.py, and the `_send_template` methods of plan_change_request.py,
-- fault_ticket.py and bank_transfer_payment.py, which are the same text.
use getupnet.Prelude.{ℕ, Bool, false, Option, none, some, [], ◌∷◌, ◌++◌, String, has_text, ◌&&◌}
use getupnet.Prelude.Effects.{Action, ok, gets, when, modify, ◌>>=◌}
use getupnet.Prelude.Rows.{browse}
use getupnet.Database.{Database}
use getupnet.Database.Core.{Partner}
use getupnet.Platform.{Platform}

-- `log_action(action, record, details)`; every call of the program hands it a record.
unfoldable pub log_action : String → String → ℕ → String → Action Database (Unit {0})
log_action action model id details db = (
  ok tt,
  record db {
    audit_log =
        db.audit_log
        ++ (record {
          action = action;
          record_model = model;
          record_id = id;
          user_id = db.user;
          timestamp = db.now;
          details = details;
        }
            ∷ []);
  },
)

abbrev pub has_email : Option Partner → Bool
has_email none = false
has_email (some partner) = has_text partner.email

module _ ⦃platform : Platform⦄ where
  -- `_send_template(xmlid)` for a record with its partner.
  unfoldable pub send_template : String → ℕ → ℕ → Action Database (Unit {0})
  send_template xmlid id partner_id = do
    partner ← gets (λ db. browse partner_id db.partners)
    when (platform.has_template xmlid && has_email partner) (
        modify
          λ db. record db { mails = db.mails ++ record { xmlid = xmlid; record_id = id } ∷ [] })
