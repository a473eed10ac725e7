-- ===== src/Billing.antt =====
-- addons/isp_billing: recurring invoices, suspension and reconnection, bank transfers.
pub mod Subscription
pub mod Status
pub mod Dashboard
pub mod Transfer
