-- ===== src/Samples.antt =====
-- A platform that keeps the laws of Platform.antt, and a small database, for the tests.
use mathlib.Core.List.{Permᴰ}
use getupnet.Prelude.{
  ℕ, suc, ◌+◌, ◌<◌, ◌≡◌, refl, ◌≢◌, true, false, none, some, List, [], ◌∷◌, text_eq, All, arith,
}
use getupnet.Prelude.Int.{pos}
use getupnet.Prelude.Effects.{Result, ok, err}
use getupnet.Prelude.Rows.{matching}
use getupnet.Database.{Database}
use getupnet.Database.Network.{OnuAssignment}
use getupnet.Database.Core.{
  Subscription, SubscriptionState, AuthMethod, DhcpMode, ServicePlan, ServiceType, Job, JobType,
  JobState, Payload, PlanChangeRequest, RequestState, EffectiveDateMode, FaultTicket, TicketState,
  Priority,
}
use getupnet.Database.Billing.{
  Invoice, MoveType, MoveState, PaymentState, BankTransferPayment, TransferState,
}
use getupnet.Platform.{Platform, Transaction}

pub same-permutation : (l : List ℕ) → Permᴰ l l
same-permutation [] = Permᴰ.nil
same-permutation (x ∷ l) = Permᴰ.cons refl (same-permutation l)

abbrev pub total : List ℕ → ℕ
total [] = 0
total (x ∷ l) = x + total l

abbrev pub above : List ℕ → ℕ
above l = suc (total l)

below_total : (n : ℕ) (l : List ℕ) → total l < n → All (λ i. i ≢ n) l
below_total n [] h = tt
below_total n (x ∷ l) h = (omega arith, below_total n l (omega arith))

pub above-fresh : (l : List ℕ) → All (λ i. i ≢ above l) l
above-fresh l = below_total (above l) l (omega arith)

pub token-text : (n calls : ℕ) → 0 < n → text_eq "0a1b2c3d4e5f" "" ≡ false
token-text n calls h = refl

pub month-grows : (day : ℕ) → day < day + 30
month-grows day = omega arith

instance abbrev pub office : Platform
office = record {
  search = λ A p t. matching p t;
  search_perm = λ A p t. same-permutation (matching p t);
  new_id = above;
  new_id_fresh = above-fresh;
  next_by_code = λ code calls. none;
  token_hex = λ n calls. "0a1b2c3d4e5f";
  token_hex_text = token-text;
  month_later = λ day. day + 30;
  month_later_grows = month-grows;
  show_id = λ i. "7";
  show_float = λ x. "10.0";
  has_template = λ xmlid. true;
  can_post = λ invoice. true;
  posted_as = λ invoice. PaymentState.not_paid;
  default_journal = some 3;
  register_payments = λ transfer. ok [];
  create_payment = λ payment. none;
  post_payment = λ payment. none;
  encode = λ content. content;
  store_datas = λ datas. none;
  store_datas-encode = λ content. refl;
  invoice_name = λ i. none;
  show_attributes = λ attributes. "{}";
  has_librouteros = true;
  connect = λ router sent. none;
  reply = λ router sent command. ok [];
}

abbrev pub basic_plan : ServicePlan
basic_plan = record {
  name = "Basic";
  service_type = ServiceType.pppoe;
  active = true;
  download_mbps = 10000;
  upload_mbps = 5000;
  price_monthly = 2500;
  mikrotik_profile = some "basic";
  suspend_after_days = 0;
}

abbrev pub fast_plan : ServicePlan
fast_plan = record basic_plan { name = "Fast"; mikrotik_profile = none; price_monthly = 4500 }

-- A PPPoE line with a user name and no password yet.
abbrev pub pppoe_line : Subscription
pppoe_line = record {
  name = "SUB1";
  partner_id = 1;
  plan_id = 1;
  sector_id = 1;
  state = SubscriptionState.active;
  start_date = none;
  gps_lat = pos 18;
  gps_lng = pos 69;
  device_id = none;
  auth_method = AuthMethod.pppoe;
  dhcp_mode = DhcpMode.dynamic;
  next_invoice_date = some 90;
  pppoe_username = some "user1";
  pppoe_password = none;
  pppoe_profile = none;
  service_ip = some "10.0.0.2";
  service_mac = none;
  router_id = some 1;
  last_invoice_id = none;
}

abbrev pub blank_line : Subscription
blank_line = record pppoe_line { name = "SUB2"; pppoe_username = none }

abbrev pub dhcp_line : Subscription
dhcp_line = record pppoe_line {
  name = "SUB3";
  auth_method = AuthMethod.dhcp;
  state = SubscriptionState.suspended;
  dhcp_mode = DhcpMode.static;
  service_ip = some "10.0.0.3";
}

abbrev pub queued_job : Job
queued_job = record {
  name = "JOB1";
  job_type = JobType.export_config_snapshot;
  subscription_id = some 1;
  device_id = none;
  sector_id = some 1;
  state = JobState.queued;
  attempts = 0;
  max_attempts = 3;
  error_message = none;
  executed_at = none;
  payload_json = Payload.nothing;
}

abbrev pub request : PlanChangeRequest
request = record {
  name = "PCR1";
  subscription_id = 1;
  requested_plan_id = 2;
  effective_date_mode = EffectiveDateMode.immediate;
  effective_date = some 90;
  state = RequestState.approved;
  approved_by = none;
  rejection_reason = none;
}

abbrev pub open_invoice : Invoice
open_invoice = record {
  move_type = MoveType.out_invoice;
  partner_id = 1;
  isp_subscription_id = some 1;
  state = MoveState.posted;
  payment_state = PaymentState.not_paid;
  invoice_date = some 80;
  invoice_date_due = some 80;
  line_name = "Basic";
  price_unit = 2500;
}

abbrev pub transfer : BankTransferPayment
transfer = record {
  name = "BTP1";
  partner_id = 1;
  invoice_ids = [];
  reference = "R1";
  amount = 2500;
  transfer_datetime = none;
  attachment_ids = 5 ∷ [];
  state = TransferState.in_review;
  reviewer_id = none;
  review_deadline = none;
  attention_deadline = some 100;
  rejection_reason = none;
  accounting_payment_id = none;
  needs_attention = false;
}

abbrev pub ticket : FaultTicket
ticket = record {
  name = "FLT1";
  partner_id = 1;
  subscription_id = some 1;
  gps_lat = pos 18;
  gps_lng = pos 69;
  priority = Priority.normal;
  state = TicketState.in_progress;
  opened_at = some 4000;
  closed_at = none;
}

abbrev pub spare_onu : OnuAssignment
spare_onu = record {
  onu_id = 4;
  subscription_id = 1;
  active = false;
  assigned_at = none;
  unassigned_at = none;
}

abbrev pub db : Database
db = record {
  now = 5000;
  today = 100;
  user = 2;
  has_group = λ group. false;
  sees_sector = λ sector. true;
  may_write = λ model. true;
  number_param = λ key. none;
  text_param = λ key. some "1";
  sequence_calls = 0;
  token_calls = 0;
  partners =
      (1, record { name = "Ana"; email = some "ana@example.com"; is_isp_customer = true }) ∷ [];
  plans = (1, basic_plan) ∷ (2, fast_plan) ∷ [];
  sectors = [];
  mac_profiles = [];
  devices = [];
  routers =
      (
        1,
        record {
          device_id = 1;
          api_user = none;
          routeros_version = none;
          last_healthcheck_at = none;
          last_healthcheck_status = none;
        },
      )
      ∷ [];
  subscriptions = (1, pppoe_line) ∷ (2, blank_line) ∷ (3, dhcp_line) ∷ [];
  jobs = (1, queued_job) ∷ [];
  plan_changes = (1, request) ∷ [];
  fault_tickets = (1, ticket) ∷ [];
  invoices = (1, open_invoice) ∷ [];
  payments = [];
  transfers = (1, transfer) ∷ [];
  attachments = [];
  captive_users = [];
  walled_gardens = [];
  onu_assignments = (1, spare_onu) ∷ [];
  preconfigs = [];
  audit_log = [];
  mails = [];
  sent = [];
}

-- The answer of a transaction that ran a method on a database.
abbrev finished : {A : Type 0} → Database → Result A → Database → Result A × Database
finished before (ok a) after = (ok a, after)
finished before (err e) after = (err e, before)

abbrev pub savepoint : Transaction
savepoint = record {
  run = λ m before. finished before (m before).0 (m before).1;
  rolls_back = λ m before raised. rw raised refl;
  commits = λ m before goes. rw goes refl;
}
