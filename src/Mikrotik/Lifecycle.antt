-- ===== src/Mikrotik/Lifecycle.antt =====
-- The state of a line after the jobs that suspend, reconnect and terminate it.
use getupnet.Prelude.{ℕ, ◌≡◌, ap, ◌∙◌, ◌&&◌, Bool, true, not, some, arith, if◌then◌else◌}
use getupnet.Prelude.Int.{is_zero}
use getupnet.Prelude.Effects.{Action, Result, ok, err, is_ok, continue, when, ◌>>=◌, ◌>>◌}
use getupnet.Prelude.Frame.{Keeps, Keeps-when}
use getupnet.Prelude.Rows.{browse, browse-assign}
use getupnet.Database.{Database}
use getupnet.Database.Core.{Job, Subscription, SubscriptionState}
use getupnet.Platform.{Platform}
use getupnet.Core.Subscription
use getupnet.Core.Subscription.{read_plan, update, check_gps_required_for_active, is_installed}
use getupnet.Mikrotik.Commands.{
  pppoe_disable, pppoe_enable, queue_ensure, queue_disable, queue_remove,
}
use getupnet.Mikrotik.Handlers.{
  is_type_pppoe, required, set_state, connect_router, handle_suspend_subscription,
  handle_reconnect_subscription, handle_terminate_subscription,
}
use getupnet.Mikrotik.Lines.{
  lines_of, read_plan-lines, connect_router-lines, disable-lines, enable-lines, queue_ensure-lines,
  queue_disable-lines, queue_remove-lines,
}

abbrev pub in_state : SubscriptionState → Subscription → Subscription
in_state state sub = record sub { state = state }

-- A line whose coordinates are both set.
abbrev pub has_position : Subscription → Bool
has_position sub = not (is_zero sub.gps_lat) && not (is_zero sub.gps_lng)

-- An action that leaves a line in a state if it goes through, and as it was if it raises.
pub record Reaches {A : Type 0} (i : ℕ) (state : SubscriptionState) (m : Action Database A)
    : Type 0 where
  pub at :
      (db : Database) (sub : Subscription)
      → browse i db.subscriptions ≡ some sub
      → has_position sub ≡ true
      → browse i (m db).1.subscriptions ≡ some (if is_ok (m db).0 then in_state state sub else sub)

set_state-Reaches : (i : ℕ) (state : SubscriptionState) → Reaches i state (set_state i state)
unfolding set_state update check_gps_required_for_active Subscription.read
set_state-Reaches i state = record {
  at = λ db sub found position.
      ground (arith, found, position, browse-assign i i (in_state state) db.subscriptions);
}

Reaches-bind :
    {A B : Type 0} (i : ℕ) (state : SubscriptionState) (m : Action Database A)
    (f : A → Action Database B)
    → Keeps lines_of m
    → ((a : A) → Reaches i state (f a))
    → Reaches i state (m >>= f)
Reaches-bind {A} i state m f keeps ends = record {
  at = λ db sub found position. go (m db).0 (m db).1 (ap (browse i) (keeps.at db) ∙ found) position;
}
  where
    go :
        (r : Result A) (db : Database) {sub : Subscription}
        → browse i db.subscriptions ≡ some sub
        → has_position sub ≡ true
        → browse i (continue r f db).1.subscriptions
          ≡ some (if is_ok (continue r f db).0 then in_state state sub else sub)
    go (ok a) db {sub} found position = (ends a).at db sub found position
    go (err e) db found position = found

module _ ⦃platform : Platform⦄ where
  -- The handlers behind the reading of their line.
  abbrev suspend : Job → ℕ → Subscription → Action Database (Unit {0})
  suspend job i sub = do
    client ← connect_router job
    plan ← read_plan sub.plan_id
    when (is_type_pppoe plan) (pppoe_disable client sub)
    queue_disable client sub
    set_state i SubscriptionState.suspended

  abbrev reconnect : Job → ℕ → Subscription → Action Database (Unit {0})
  reconnect job i sub = do
    client ← connect_router job
    plan ← read_plan sub.plan_id
    when (is_type_pppoe plan) (pppoe_enable client sub)
    queue_ensure client sub plan
    set_state i SubscriptionState.active

  abbrev terminate : Job → ℕ → Subscription → Action Database (Unit {0})
  terminate job i sub = do
    client ← connect_router job
    plan ← read_plan sub.plan_id
    when (is_type_pppoe plan) (pppoe_disable client sub)
    queue_remove client sub
    set_state i SubscriptionState.terminated

  ruleset reach_rules = (
    Reaches-bind, set_state-Reaches, connect_router-lines, read_plan-lines, disable-lines,
    enable-lines, queue_ensure-lines, queue_disable-lines, queue_remove-lines, Keeps-when,
  )

  suspend-Reaches :
      (job : Job) (i : ℕ) (sub : Subscription)
      → Reaches i SubscriptionState.suspended (suspend job i sub)
  suspend-Reaches job i sub = search reach_rules depth 12

  reconnect-Reaches :
      (job : Job) (i : ℕ) (sub : Subscription)
      → Reaches i SubscriptionState.active (reconnect job i sub)
  reconnect-Reaches job i sub = search reach_rules depth 12

  terminate-Reaches :
      (job : Job) (i : ℕ) (sub : Subscription)
      → Reaches i SubscriptionState.terminated (terminate job i sub)
  terminate-Reaches job i sub = search reach_rules depth 12

  -- Whatever the router answers: where the handler goes through, the line that the job is for is
  -- suspended, and where it raises, the line is as it was. The line has its coordinates.
  pub handle_suspend-state :
      (job : Job) (i : ℕ) (db : Database) {sub : Subscription}
      → job.subscription_id ≡ some i
      → browse i db.subscriptions ≡ some sub
      → has_position sub ≡ true
      → browse i (handle_suspend_subscription job db).1.subscriptions
        ≡ some (
            if is_ok (handle_suspend_subscription job db).0
            then in_state SubscriptionState.suspended sub
            else sub)
  unfolding handle_suspend_subscription required Subscription.read
  handle_suspend-state job i db {sub} for_line found position =
      let opened : handle_suspend_subscription job db ≡ suspend job i sub db =
        ground (arith, for_line, found) in
      rw opened ((suspend-Reaches job i sub).at db sub found position)

  -- Whatever the router answers: where the handler goes through, the line that the job is for is
  -- active, and where it raises, the line is as it was. The line has its coordinates.
  pub handle_reconnect-state :
      (job : Job) (i : ℕ) (db : Database) {sub : Subscription}
      → job.subscription_id ≡ some i
      → browse i db.subscriptions ≡ some sub
      → has_position sub ≡ true
      → browse i (handle_reconnect_subscription job db).1.subscriptions
        ≡ some (
            if is_ok (handle_reconnect_subscription job db).0
            then in_state SubscriptionState.active sub
            else sub)
  unfolding handle_reconnect_subscription required Subscription.read
  handle_reconnect-state job i db {sub} for_line found position =
      let opened : handle_reconnect_subscription job db ≡ reconnect job i sub db =
        ground (arith, for_line, found) in
      rw opened ((reconnect-Reaches job i sub).at db sub found position)

  -- Whatever the router answers: where the handler goes through, the line that the job is for is
  -- terminated, and where it raises, the line is as it was. The line has its coordinates.
  pub handle_terminate-state :
      (job : Job) (i : ℕ) (db : Database) {sub : Subscription}
      → job.subscription_id ≡ some i
      → browse i db.subscriptions ≡ some sub
      → has_position sub ≡ true
      → browse i (handle_terminate_subscription job db).1.subscriptions
        ≡ some (
            if is_ok (handle_terminate_subscription job db).0
            then in_state SubscriptionState.terminated sub
            else sub)
  unfolding handle_terminate_subscription required Subscription.read
  handle_terminate-state job i db {sub} for_line found position =
      let opened : handle_terminate_subscription job db ≡ terminate job i sub db =
        ground (arith, for_line, found) in
      rw opened ((terminate-Reaches job i sub).at db sub found position)
