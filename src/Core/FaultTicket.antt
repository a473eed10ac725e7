-- ===== src/Core/FaultTicket.antt =====
-- addons/isp_core/models/fault_ticket.py. Hours are whole numbers of seconds here.
pub mod Closing
use getupnet.Prelude.{
  ℕ, ◌-◌, ◌*◌, Bool, true, false, not, ◌&&◌, Option, none, some, List, [], ◌∷◌, ◌++◌, String,
  text_eq, is_set, or_value, if◌then◌else◌,
}
use getupnet.Prelude.Effects.{
  Action, missing_error, skip, gets, modify, when, pure, or_raise, for_each, ◌>>=◌, ◌>>◌,
}
use getupnet.Prelude.Rows.{browse, assign, ids}
use getupnet.Database.{Database}
use getupnet.Database.Core.{FaultTicket, TicketState, Priority}
use getupnet.Platform.{Platform}
use getupnet.Core.Audit.{send_template}
use getupnet.Core.Subscription
use getupnet.Core.Subscription.{next_name}

unfoldable pub read : ℕ → Action Database FaultTicket
read i db = or_raise (browse i db.fault_tickets) (missing_error "isp.fault.ticket") db

unfoldable pub update : ℕ → (FaultTicket → FaultTicket) → Action Database (Unit {0})
update i f = modify λ db. record db { fault_tickets = assign i f db.fault_tickets }

-- `rec.state in ("resolved", "closed")`
abbrev pub is_done : TicketState → Bool
is_done TicketState.resolved = true
is_done TicketState.closed = true
is_done _ = false

-- `rec.closed_at = fields.Datetime.now()`
unfoldable pub stamp : ℕ → Action Database (Unit {0})
stamp i = do now ← gets (λ db. db.now); update i (λ rec. record rec { closed_at = some now })

-- `write({"state": state})` of the class.
unfoldable pub write_state : ℕ → TicketState → Action Database (Unit {0})
write_state i state = do
  update i (λ rec. record rec { state = state })
  rec ← read i
  when (is_done rec.state && not (is_set rec.closed_at)) (stamp i)

-- `_compute_resolution_time_hours`, in seconds.
unfoldable pub resolution_time : FaultTicket → ℕ
resolution_time rec = elim rec.opened_at [
  | none ↦ 0
  | some opened ↦ elim rec.closed_at [ none ↦ 0 | some closed ↦ closed - opened ]
]

-- `_compute_sla_target_hours`
unfoldable pub sla_target_hours : Priority → ℕ
sla_target_hours Priority.low = 72
sla_target_hours Priority.normal = 48
sla_target_hours Priority.high = 24
sla_target_hours Priority.urgent = 8

unfoldable pub action_start : List ℕ → Action Database (Unit {0})
action_start self = for_each self λ i. write_state i TicketState.in_progress

unfoldable pub action_waiting : List ℕ → Action Database (Unit {0})
action_waiting self = for_each self λ i. write_state i TicketState.waiting_customer

-- The position of a ticket that has a subscription is that of the line.
unfoldable pub take_position : ℕ → Option ℕ → Action Database (Unit {0})
take_position i none = skip
take_position i (some s) = do
  sub ← Subscription.read s
  update i (λ rec. record rec { gps_lat = sub.gps_lat })
  update i (λ rec. record rec { gps_lng = sub.gps_lng })

module _ ⦃platform : Platform⦄ where
  unfoldable pub notify : ℕ → String → Action Database (Unit {0})
  notify i xmlid = do rec ← read i; send_template xmlid i rec.partner_id

  -- `create(vals)` for one ticket.
  unfoldable pub create : FaultTicket → Action Database ℕ
  create vals = do
    name ← (if text_eq vals.name "New" then next_name "isp.fault.ticket" "FLT" else pure vals.name)
    now ← gets (λ db. db.now)
    i ← gets (λ db. platform.new_id (ids db.fault_tickets))
    modify λ db. record db {
      fault_tickets =
          db.fault_tickets
          ++ (i, record vals { name = name; opened_at = some (or_value vals.opened_at now) }) ∷ [];
    }
    take_position i vals.subscription_id
    notify i "isp_core.mail_template_fault_created"
    pure i

  -- The loop body of `action_resolve` and `action_close`.
  unfoldable pub finish : TicketState → String → ℕ → Action Database (Unit {0})
  finish state xmlid i = do
    write_state i state
    rec ← read i
    when (not (is_set rec.closed_at)) (stamp i)
    notify i xmlid

  unfoldable pub action_resolve : List ℕ → Action Database (Unit {0})
  action_resolve self =
      for_each self (finish TicketState.resolved "isp_core.mail_template_fault_resolved")

  unfoldable pub action_close : List ℕ → Action Database (Unit {0})
  action_close self =
      for_each self (finish TicketState.closed "isp_core.mail_template_fault_closed")
