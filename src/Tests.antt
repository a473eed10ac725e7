-- ===== src/Tests.antt =====
-- The theorems at concrete inputs.
mod Core
mod Requests
mod Billing
mod Dashboard
mod MacOnboarding
pub mod Preloader
mod Preconfig
mod Onboarding
mod Reports
mod Scanner
mod Onu
mod Lifecycle
