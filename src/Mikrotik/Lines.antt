-- ===== src/Mikrotik/Lines.antt =====
-- What is sent to a router leaves the table of subscriptions alone.
use getupnet.Prelude.{ℕ, refl, String, arith}
use getupnet.Prelude.Frame.{Keeps, Keeps-read, frame_rules}
use getupnet.Prelude.Rows.{Table}
use getupnet.Database.{Database}
use getupnet.Database.Core.{Job, Subscription, ServicePlan}
use getupnet.Database.Network.{Command, Attributes}
use getupnet.Platform.{Platform}
use getupnet.Core.Audit.{log_action}
use getupnet.Core.Subscription.{read_plan}
use getupnet.Mikrotik.Client
use getupnet.Mikrotik.Client.{
  Client, dummy, adapter, read_device, open_connection, get_connection_info, make_adapter,
  get_routeros_client, cmd,
}
use getupnet.Mikrotik.Commands.{
  send, pppoe_disable, pppoe_enable, queue_ensure, queue_disable, queue_remove,
}
use getupnet.Mikrotik.Handlers.{get_router, connect_router}

abbrev pub lines_of : Database → Table Subscription
lines_of db = db.subscriptions

log_action-lines :
    (action model : String) (id : ℕ) (details : String)
    → Keeps lines_of (log_action action model id details)
unfolding log_action
log_action-lines action model id details = record { at = λ db. refl }

pub read_plan-lines : (i : ℕ) → Keeps lines_of (read_plan i)
unfolding read_plan
read_plan-lines i = Keeps-read _ _

read_router-lines : (i : ℕ) → Keeps lines_of (Client.read i)
unfolding Client.read
read_router-lines i = Keeps-read _ _

read_device-lines : (i : ℕ) → Keeps lines_of (read_device i)
unfolding read_device
read_device-lines i = Keeps-read _ _

ruleset line_rules =
    (frame_rules, log_action-lines, read_plan-lines, read_router-lines, read_device-lines)

module _ ⦃platform : Platform⦄ where
  open_connection-lines : (i : ℕ) → Keeps lines_of (open_connection i)
  unfolding open_connection
  open_connection-lines i = record { at = λ db. ground arith }

  connection_info-lines : (i : ℕ) → Keeps lines_of (get_connection_info i)
  unfolding get_connection_info
  connection_info-lines i = search line_rules

  adapter-lines : (i : ℕ) → Keeps lines_of (make_adapter i)
  unfolding make_adapter
  adapter-lines i = search (line_rules, open_connection-lines, connection_info-lines) depth 8

  client-lines : (i : ℕ) → Keeps lines_of (get_routeros_client i)
  unfolding get_routeros_client
  client-lines i = search (line_rules, adapter-lines)

  cmd-lines : (client : Client) (command : Command) → Keeps lines_of (cmd client command)
  unfolding cmd
  cmd-lines (dummy i) command = search line_rules
  cmd-lines (adapter i) command = record { at = λ db. refl }

  send-lines :
      (client : Client) (path : String) (attributes : Attributes)
      → Keeps lines_of (send client path attributes)
  unfolding send
  send-lines client path attributes = search (line_rules, cmd-lines)

  pub disable-lines :
      (client : Client) (sub : Subscription) → Keeps lines_of (pppoe_disable client sub)
  unfolding pppoe_disable
  disable-lines client sub = search (line_rules, send-lines)

  pub enable-lines :
      (client : Client) (sub : Subscription) → Keeps lines_of (pppoe_enable client sub)
  unfolding pppoe_enable
  enable-lines client sub = search (line_rules, send-lines)

  pub queue_ensure-lines :
      (client : Client) (sub : Subscription) (plan : ServicePlan)
      → Keeps lines_of (queue_ensure client sub plan)
  unfolding queue_ensure
  queue_ensure-lines client sub plan = search (line_rules, send-lines)

  pub queue_disable-lines :
      (client : Client) (sub : Subscription) → Keeps lines_of (queue_disable client sub)
  unfolding queue_disable
  queue_disable-lines client sub = search (line_rules, send-lines)

  pub queue_remove-lines :
      (client : Client) (sub : Subscription) → Keeps lines_of (queue_remove client sub)
  unfolding queue_remove
  queue_remove-lines client sub = search (line_rules, send-lines)

  get_router-lines : (job : Job) → Keeps lines_of (get_router job)
  unfolding get_router
  get_router-lines job = Keeps-read _ _

  pub connect_router-lines : (job : Job) → Keeps lines_of (connect_router job)
  unfolding connect_router
  connect_router-lines job = search (line_rules, get_router-lines, client-lines)
