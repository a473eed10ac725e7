-- ===== src/Portal.antt =====
-- `portal_my_isp_plan_change_submit` of addons/isp_portal/controllers/portal.py. The partner of the
-- user is an argument. The route of bank transfers is in Portal/Transfer.antt.
pub mod PlanChange
pub mod Transfer
use getupnet.Prelude.{ℕ, ◌==◌, ◌&&◌, not, Bool, none, List, [], ◌∷◌, if◌then◌else◌}
use getupnet.Prelude.Effects.{Action, access_error, gets, when, raise, pure, ◌>>=◌, ◌>>◌}
use getupnet.Database.{Database}
use getupnet.Database.Core.{PlanChangeRequest, RequestState, EffectiveDateMode}
use getupnet.Platform.{Platform}
use getupnet.Core.Subscription
use getupnet.Core.PlanChange.{create, action_submit}

-- Where the browser is sent: to the start of the portal, or to the line with a message.
pub data Redirect : Type 0 where
  home : Redirect
  service : ℕ → Redirect

-- The values that the route gives to `create`, with the defaults of the model.
abbrev pub portal_request : ℕ → ℕ → PlanChangeRequest
portal_request sub_id plan_id = record {
  name = "New";
  subscription_id = sub_id;
  requested_plan_id = plan_id;
  effective_date_mode = EffectiveDateMode.next_cycle;
  effective_date = none;
  state = RequestState.draft;
  approved_by = none;
  rejection_reason = none;
}

module _ ⦃platform : Platform⦄ where
  -- The rule of isp_portal/security/ir_rule.xml lets a portal customer read lines of their own only.
  unfoldable pub plan_change_submit : ℕ → ℕ → ℕ → Action Database Redirect
  plan_change_submit partner sub_id plan_id = do
    subscription ← Subscription.read sub_id
    db ← gets (λ db. db)
    when
        (db.has_group "isp_portal.group_isp_portal_customer"
          && not (subscription.partner_id == partner))
        (raise (access_error "isp.subscription"))
    if subscription.partner_id == partner
        then (do
          pcr ← create (portal_request sub_id plan_id)
          action_submit (pcr ∷ [])
          pure (Redirect.service sub_id))
        else pure Redirect.home
