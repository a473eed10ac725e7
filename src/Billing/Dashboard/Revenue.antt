-- ===== src/Billing/Dashboard/Revenue.antt =====
-- What the dashboard takes for the monthly revenue.
use getupnet.Prelude.{ℕ, ◌==◌, ◌≡◌, refl, ap, true, some, List, [], ◌∷◌, any, map, All, arith}
use getupnet.Prelude.Rows.{Table, browse}
use getupnet.Database.{Database}
use getupnet.Database.Core.{Subscription, ServicePlan}
use getupnet.Platform.{Platform}
use getupnet.Billing.Status.{records}
use getupnet.Billing.Dashboard.{sum, unique, price_of, plan_of, active_ids, mrr_total}

-- A plan that was seen is not counted again.
unique-seen :
    (p : ℕ) (seen : List ℕ) (lines : List Subscription)
    → any (λ j. p == j) seen ≡ true
    → All (λ sub. sub.plan_id ≡ p) lines
    → unique seen (map plan_of lines) ≡ []
unfolding unique
unique-seen p seen [] known h = refl
unique-seen p seen (line ∷ lines) known (same, hs) =
    rw (same, known) (unique-seen p seen lines known hs)

unique-one :
    (p : ℕ) (line : Subscription) (lines : List Subscription)
    → All (λ sub. sub.plan_id ≡ p) (line ∷ lines)
    → unique [] (map plan_of (line ∷ lines)) ≡ p ∷ []
unfolding unique
unique-one p line lines (same, hs) =
    rw same (ap (λ l. p ∷ l) (unique-seen p (p ∷ []) lines (ground arith) hs))

price_found :
    (p : ℕ) (plans : Table ServicePlan) {plan : ServicePlan}
    → browse p plans ≡ some plan
    → price_of plans p ≡ plan.price_monthly
price_found p plans {plan} there = ground (arith, there)

module _ ⦃platform : Platform⦄ where
  -- If all active lines are on one plan, the revenue that the dashboard shows is the price of that
  -- plan, however many lines there are.
  pub mrr_total-one_plan :
      (p : ℕ) (db : Database) (line : Subscription) (lines : List Subscription) {plan : ServicePlan}
      → records (active_ids db) db.subscriptions ≡ line ∷ lines
      → All (λ sub. sub.plan_id ≡ p) (line ∷ lines)
      → browse p db.plans ≡ some plan
      → mrr_total db ≡ plan.price_monthly
  unfolding mrr_total sum
  mrr_total-one_plan p db line lines {plan} active same there =
      let price = price_found p db.plans {plan = plan} there in
      rw (active, unique-one p line lines same) (omega (arith, price))
