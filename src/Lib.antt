-- ===== src/Lib.antt =====
-- The program runs an internet provider on Odoo: lines and their plans, the jobs that set up
-- routers, billing, and the tools that prepare the routers. This library models its Python code.
--
-- Parts and files:
-- - Database.antt and Database/: the rows of the Odoo models (addons/isp_core/models,
--   addons/isp_billing/models, addons/isp_mikrotik/models, addons/isp_captive_portal/models,
--   addons/isp_onu/models), each a record with the fields that modelled code reads, and the state on
--   which every method works.
-- - Platform.antt: what the program calls and does not implement, as a record of operations with the
--   laws that their documentation gives: Odoo's search and ids, sequences, accounting, the random
--   source, months, and the routers behind librouteros. Samples.antt has an instance.
-- - Core/Subscription.antt: addons/isp_core/models/subscription.py. An assignment to a field runs the
--   checks that are declared on it at once. Core/Subscription/Forms.antt has the methods of a form.
-- - Core/Job.antt: addons/isp_core/models/provisioning_job.py, with the handlers as a parameter.
--   Provisioning.antt puts in those of Mikrotik/Handlers.antt
--   (addons/isp_mikrotik/models/provisioning_job.py) and Captive.antt
--   (addons/isp_captive_portal/models).
-- - Mikrotik/Client.antt: addons/isp_mikrotik/models/router.py and routeros_client.py.
-- - Core/PlanChange.antt, Core/FaultTicket.antt, Core/Audit.antt: the files of the same names in
--   addons/isp_core/models.
-- - Core/Device.antt: addons/isp_core/models/device.py, and the fields of sector.py that matter to it.
-- - Billing/Subscription.antt, Billing/Transfer.antt, Billing/Status.antt, Billing/Dashboard.antt:
--   addons/isp_billing/models/subscription.py, bank_transfer_payment.py, and the status map and the
--   figures of dashboard.py.
-- - Onu.antt: addons/isp_onu/models/assignment.py.
-- - Portal.antt and Portal/Transfer.antt: the routes of addons/isp_portal/controllers/portal.py that
--   submit a plan change and a bank transfer.
-- - Preconfig.antt and Preconfig/: addons/isp_mikrotik/models/preconfig.py, and how the preloader
--   fetches it and puts it over its own file.
-- - MacOnboarding.antt: addons/isp_core/controllers/mac_onboarding.py, to which routers report leases,
--   and addons/isp_core/models/mac_profile.py.
-- - Preloader.antt and Preloader/: tools/mikrotik_preloader/preloader.py, over the list of commands
--   that one router was sent. Preloader/Register.antt is its registration in Odoo, on the rows of
--   Core/Device.antt, and Preloader/Main.antt the loop of `main` over the routers it found.
-- - Scanner.antt and Scanner/Onus.antt: tools/scan_onus.py, with the preloader's connection to a
--   router and a table of values for isp.onu. Scanner/Hotspot.antt: addons/mikrotik_onboard.py.
--
-- How the parts interact: billing and plan changes queue jobs (`queue_job`); a scheduled job runs
-- them (`execute`), and the handlers write lines and send commands to routers. Methods are state
-- passing with exceptions as values (Prelude/Effects.antt); what a method wrote before it raised
-- stays in the state, since only the caller's transaction undoes it (Transaction in Platform.antt).
--
-- Loops over records are structural recursion over their ids, so there is no fuel. Dates are days,
-- datetimes seconds, money cents; these and ids are native numbers.
--
-- Access rights and record rules are modelled where a result turns on them: Database.antt has what
-- the user may write and which sectors they see, which is read by the checks for addresses and ONUs
-- that are taken and by the routes of the portal (addons/isp_core/security, addons/isp_onu/security,
-- addons/isp_portal/security). Elsewhere the user may do what the code does.
--
-- Not modelled: views, other access rules, window actions and the portal's pages;
-- tools/mikrotik_manager.py, which lists rows on the console, and tools/mikrotik_onboard.py, an older
-- version of the file under addons; the preloader's manual instructions, console output and filter
-- for one address, and the reading of the merged dict into the record Config; rows that have no
-- behaviour. The code of Odoo, librouteros and accounting is behind Platform.antt and the record
-- RouterApi of Preloader.antt.
pub mod Prelude
pub mod Database
pub mod Platform
pub mod Core
pub mod Mikrotik
pub mod Captive
pub mod Provisioning
pub mod Billing
pub mod Onu
pub mod MacOnboarding
pub mod Portal
pub mod Preconfig
pub mod Preloader
pub mod Samples
pub mod Scanner
pub mod Tests
