-- ===== src/Database.antt =====
-- The state that requests and scheduled jobs work on: the tables, the calls that have left the
-- system (mails, router commands), and what a request sees of its surroundings (clock, user,
-- settings).
pub mod Core
pub mod Network
pub mod Billing
use getupnet.Prelude.{ℕ, Bool, Option, String, List}
use getupnet.Prelude.Rows.{Table}
use Core.{
  ServicePlan, Device, Partner, Subscription, Job, PlanChangeRequest, FaultTicket, Sector,
  MacProfile, AuditEntry,
}
use Network.{Router, CaptiveUser, WalledGarden, OnuAssignment, Preconfig, Command}
use Billing.{Invoice, Payment, BankTransferPayment, Attachment}

-- A template that was queued for a record.
pub record Mail : Type 0 where
  pub xmlid : String
  pub record_id : ℕ

-- A command that was sent to the router with an id.
pub record Sent : Type 0 where
  pub router_id : ℕ
  pub command : Command

pub record Database : Type 0 where
  pub now : ℕ
  pub today : ℕ
  pub user : ℕ
  pub has_group : String → Bool
  -- Whether the record rules on sectors show the user the rows of a sector, and whether the access
  -- rights let the user write to a model.
  pub sees_sector : ℕ → Bool
  pub may_write : String → Bool
  pub number_param : String → Option ℕ
  pub text_param : String → Option String
  pub sequence_calls : ℕ
  pub token_calls : ℕ
  pub partners : Table Partner
  pub plans : Table ServicePlan
  pub sectors : Table Sector
  pub mac_profiles : Table MacProfile
  pub devices : Table Device
  pub routers : Table Router
  pub subscriptions : Table Subscription
  pub jobs : Table Job
  pub plan_changes : Table PlanChangeRequest
  pub fault_tickets : Table FaultTicket
  pub invoices : Table Invoice
  pub payments : Table Payment
  pub transfers : Table BankTransferPayment
  pub attachments : Table Attachment
  pub captive_users : Table CaptiveUser
  pub walled_gardens : Table WalledGarden
  pub onu_assignments : Table OnuAssignment
  pub preconfigs : Table Preconfig
  pub audit_log : List AuditEntry
  pub mails : List Mail
  pub sent : List Sent
