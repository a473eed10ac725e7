-- ===== src/Preconfig.antt =====
-- addons/isp_mikrotik/models/preconfig.py and the functions of tools/mikrotik_preloader/preloader.py
-- that read and merge what it sends.
pub mod Text
pub mod Csv
pub mod Value
pub mod Merge
pub mod Keys
pub mod Override
pub mod Payload
pub mod Shape
pub mod Whole
pub mod Applied
pub mod Fetch
