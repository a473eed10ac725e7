-- ===== src/Database/Core.antt =====
-- The rows of addons/isp_core/models. An optional `Many2one` is `none` where Odoo has `False`. Dates
-- are days and datetimes seconds since a fixed start; money is in cents, speeds are in thousandths
-- of a Mbps, coordinates in millionths of a degree. Fields that no modelled code reads are left out.
use getupnet.Prelude.{ℕ, Bool, Option, String}
use getupnet.Prelude.Int.{ℤ}

pub data ServiceType : Type 0 where
  pppoe dhcp hotspot : ServiceType

pub record ServicePlan : Type 0 where
  pub name : String
  pub service_type : ServiceType
  pub active : Bool
  pub download_mbps : ℕ
  pub upload_mbps : ℕ
  pub price_monthly : ℕ
  pub mikrotik_profile : Option String
  pub suspend_after_days : ℕ

pub data DeviceType : Type 0 where
  mikrotik olt other : DeviceType

pub data DeviceStatus : Type 0 where
  draft active maintenance retired : DeviceStatus

pub record Device : Type 0 where
  pub name : String
  pub device_type : DeviceType
  pub sector_id : Option ℕ
  pub mgmt_ip : Option String
  pub mgmt_port : ℕ
  pub status : DeviceStatus

pub record Partner : Type 0 where
  pub name : String
  pub email : Option String
  pub is_isp_customer : Bool

pub data SubscriptionState : Type 0 where
  draft active suspended terminated : SubscriptionState

pub data AuthMethod : Type 0 where
  dhcp pppoe : AuthMethod

pub data DhcpMode : Type 0 where
  dynamic static : DhcpMode

-- isp.subscription, with the fields that isp_mikrotik and isp_billing add to it.
pub record Subscription : Type 0 where
  pub name : String
  pub partner_id : ℕ
  pub plan_id : ℕ
  pub sector_id : ℕ
  pub state : SubscriptionState
  pub start_date : Option ℕ
  pub gps_lat : ℤ
  pub gps_lng : ℤ
  pub device_id : Option ℕ
  pub auth_method : AuthMethod
  pub dhcp_mode : DhcpMode
  pub next_invoice_date : Option ℕ
  pub pppoe_username : Option String
  pub pppoe_password : Option String
  pub pppoe_profile : Option String
  pub service_ip : Option String
  pub service_mac : Option String
  pub router_id : Option ℕ
  pub last_invoice_id : Option ℕ

-- The job types of isp_core and those that isp_mikrotik adds.
pub data JobType : Type 0 where
  activate_subscription suspend_subscription reconnect_subscription terminate_subscription
        change_plan disconnect_session mikrotik_healthcheck captive_user_create captive_user_disable
        walled_garden_apply export_config_snapshot activate_pppoe activate_dhcp ensure_queue :
      JobType

pub data JobState : Type 0 where
  queued running success failed : JobState

-- The keys that the program puts into `payload_json`; `unreadable` is a text that is no JSON object.
pub data Payload : Type 0 where
  nothing unreadable : Payload
  captive_user_id walled_garden_id : ℕ → Payload

pub record Job : Type 0 where
  pub name : String
  pub job_type : JobType
  pub subscription_id : Option ℕ
  pub device_id : Option ℕ
  pub sector_id : Option ℕ
  pub state : JobState
  pub attempts : ℕ
  pub max_attempts : ℕ
  pub error_message : Option String
  pub executed_at : Option ℕ
  pub payload_json : Payload

pub data EffectiveDateMode : Type 0 where
  immediate next_cycle custom : EffectiveDateMode

pub data RequestState : Type 0 where
  draft submitted approved rejected applied : RequestState

pub record PlanChangeRequest : Type 0 where
  pub name : String
  pub subscription_id : ℕ
  pub requested_plan_id : ℕ
  pub effective_date_mode : EffectiveDateMode
  pub effective_date : Option ℕ
  pub state : RequestState
  pub approved_by : Option ℕ
  pub rejection_reason : Option String

pub data TicketState : Type 0 where
  new in_progress waiting_customer resolved closed : TicketState

pub data Priority : Type 0 where
  low normal high urgent : Priority

pub record FaultTicket : Type 0 where
  pub name : String
  pub partner_id : ℕ
  pub subscription_id : Option ℕ
  pub gps_lat : ℤ
  pub gps_lng : ℤ
  pub priority : Priority
  pub state : TicketState
  pub opened_at : Option ℕ
  pub closed_at : Option ℕ

pub record Sector : Type 0 where
  pub name : String
  pub code : String
  pub active : Bool

pub data Presence : Type 0 where
  online offline : Presence

pub record MacProfile : Type 0 where
  pub mac_address : String
  pub sector_id : Option ℕ
  pub plan_id : Option ℕ
  pub partner_id : Option ℕ
  pub subscription_id : Option ℕ
  pub state : Presence
  pub last_seen_ip : Option String
  pub last_seen_at : Option ℕ
  pub hostname : Option String

pub record AuditEntry : Type 0 where
  pub action : String
  pub record_model : String
  pub record_id : ℕ
  pub user_id : ℕ
  pub timestamp : ℕ
  pub details : String
