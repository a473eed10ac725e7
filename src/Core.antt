-- ===== src/Core.antt =====
-- addons/isp_core: subscriptions, plan changes, provisioning jobs, devices, fault tickets and
-- the audit log.
pub mod Audit
pub mod Subscription
pub mod Job
pub mod PlanChange
pub mod Device
pub mod FaultTicket
