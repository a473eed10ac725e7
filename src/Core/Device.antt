-- ===== src/Core/Device.antt =====
-- addons/isp_core/models/device.py: making and writing devices under the check that is declared on
-- them.
use getupnet.Prelude.{ℕ, Bool, true, false, not, ◌&&◌, [], ◌∷◌, ◌++◌, is_set}
use getupnet.Prelude.Effects.{
  Action, validation_error, missing_error, gets, modify, when, raise, or_raise, pure, ◌>>=◌, ◌>>◌,
}
use getupnet.Prelude.Rows.{browse, assign, ids}
use getupnet.Database.{Database}
use getupnet.Database.Core.{Device, DeviceType}
use getupnet.Platform.{Platform}

abbrev pub is_mikrotik : DeviceType → Bool
is_mikrotik DeviceType.mikrotik = true
is_mikrotik DeviceType.olt = false
is_mikrotik DeviceType.other = false

unfoldable pub read : ℕ → Action Database Device
read i db = or_raise (browse i db.devices) (missing_error "isp.device") db

unfoldable pub check_sector_required_for_mikrotik : ℕ → Action Database (Unit {0})
check_sector_required_for_mikrotik i = do
  rec ← read i
  when (is_mikrotik rec.device_type && not (is_set rec.sector_id))
      (raise (validation_error "MikroTik devices must be linked to a sector."))

-- A write that names the type or the sector.
unfoldable pub write : ℕ → (Device → Device) → Action Database (Unit {0})
write i f = do
  modify (λ db. record db { devices = assign i f db.devices })
  check_sector_required_for_mikrotik i

module _ ⦃platform : Platform⦄ where
  unfoldable pub create : Device → Action Database ℕ
  create device = do
    i ← gets (λ db. platform.new_id (ids db.devices))
    modify (λ db. record db { devices = db.devices ++ (i, device) ∷ [] })
    check_sector_required_for_mikrotik i
    pure i
