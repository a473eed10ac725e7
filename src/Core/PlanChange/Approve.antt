-- ===== src/Core/PlanChange/Approve.antt =====
-- The approval of a request, which tries to apply it at once when it is due.
use getupnet.Prelude.{ℕ, some}
use getupnet.Prelude.Effects.{Result, err, validation_error}
use getupnet.Database.{Database}
use getupnet.Database.Core.{PlanChangeRequest, RequestState, Subscription}
use getupnet.Platform.{Platform}

module _ ⦃platform : Platform⦄ where
  abbrev pub approved : ℕ → PlanChangeRequest → PlanChangeRequest
  approved user rec = record rec { state = RequestState.approved; approved_by = some user }

  abbrev pub plan_refused : Result (Unit {0})
  plan_refused = err (validation_error "Requested plan must be different from current plan.")
