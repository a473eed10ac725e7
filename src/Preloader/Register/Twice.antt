-- ===== src/Preloader/Register/Twice.antt =====
-- A router that is registered once, and once more.
use text.Mathlib.TextPositions.{eq_refl}
use getupnet.Prelude.{
  ℕ, suc, ◌+◌, ◌≡◌, ◌≢◌, refl, ap, ◌∙◌, Bool, true, false, ◌&&◌, Option, some, [], ◌∷◌, ◌++◌,
  String, length, length-append, is_set, All, arith,
}
use getupnet.Prelude.Effects.{Result, ok}
use getupnet.Prelude.Rows.{Table, browse, assign, ids, matching, browse-assign, browse_fresh}
use getupnet.Prelude.Search.{head-single, head-none, matching-append}
use getupnet.Database.{Database}
use getupnet.Database.Core.{Device}
use getupnet.Database.Network.{Router}
use getupnet.Platform.{Platform}
use getupnet.Core.Device.{create, write, read, check_sector_required_for_mikrotik}
use getupnet.Preloader.Register.{
  Onboarded, is_at, is_of, new_device, updated, new_router, log_in, find_sector, find_device,
  find_router, create_router, register, odoo_register_device,
}

-- Every router belongs to a device that is there.
unfoldable pub are_linked : Table Device → Table Router → Bool
are_linked devices [] = true
are_linked devices ((_, router) ∷ routers) =
    is_set (browse router.device_id devices) && are_linked devices routers

browse-absent : (i : ℕ) (t : Table Device) → All (λ j. j ≢ i) (ids t) → is_set (browse i t) ≡ false
unfolding browse ids
browse-absent i [] h = refl
browse-absent i ((j, device) ∷ t) (h, hs) = ground (arith, browse-absent i t hs, h)

unlinked :
    (i : ℕ) (devices : Table Device) (routers : Table Router)
    → is_set (browse i devices) ≡ false
    → are_linked devices routers ≡ true
    → matching (is_of i) routers ≡ []
unfolding matching are_linked
unlinked i devices [] absent linked = refl
unlinked i devices ((_, router) ∷ routers) absent linked =
    ground (arith, unlinked i devices routers absent)

length-assign : (i : ℕ) (f : Device → Device) (t : Table Device) → length (assign i f t) ≡ length t
unfolding assign
length-assign i f [] = refl
length-assign i f (_ ∷ t) = ap suc (length-assign i f t)

is_at_self :
    (onboarded : Onboarded) (i s : ℕ) → is_at onboarded.ip i (new_device onboarded s) ≡ true
is_at_self onboarded i s = rw (eq_refl onboarded.ip) refl

module _ ⦃platform : Platform⦄ (code : String) where
  abbrev device_id : Database → ℕ
  device_id db = platform.new_id (ids db.devices)

  abbrev router_id : Database → ℕ
  router_id db = platform.new_id (ids db.routers)

  -- The database with one device and one router more.
  registered : Onboarded → ℕ → Database → Database
  registered onboarded s db = record db {
    devices = db.devices ++ (device_id db, new_device onboarded s) ∷ [];
    routers = db.routers ++ (router_id db, new_router (device_id db)) ∷ [];
  }

  no_router :
      (db : Database)
      → are_linked db.devices db.routers ≡ true
      → matching (is_of (device_id db)) db.routers ≡ []
  no_router db linked =
      unlinked (device_id db) db.devices db.routers
        (browse-absent (device_id db) db.devices (platform.new_id_fresh (ids db.devices))) linked

  create_lem :
      (onboarded : Onboarded) (s : ℕ) (db : Database)
      → create (new_device onboarded s) db ≡ (
        ok (device_id db),
        record db { devices = db.devices ++ (device_id db, new_device onboarded s) ∷ [] },
      )
  unfolding create check_sector_required_for_mikrotik read
  create_lem onboarded s db =
      rw
        (browse_fresh (device_id db) (new_device onboarded s) db.devices
          (platform.new_id_fresh (ids db.devices)))
        refl

  register-first :
      (onboarded : Onboarded) (db : Database) {s : ℕ}
      → find_sector code db ≡ some s
      → matching (is_at onboarded.ip) db.devices ≡ []
      → are_linked db.devices db.routers ≡ true
      → register code onboarded db ≡ (ok (device_id db, router_id db), registered onboarded s db)
  unfolding register find_device find_router create_router registered
  register-first onboarded db {s} sector absent linked =
      let none_at =
        head-none (platform.search_perm Device (is_at onboarded.ip) db.devices) absent in
      let none_of =
        head-none (platform.search_perm Router (is_of (device_id db)) db.routers)
          (no_router db linked) in
      rw (sector, none_at, create_lem onboarded s db, none_of) refl

  write_lem :
      (onboarded : Onboarded) (s i : ℕ) (db : Database) {device : Device}
      → browse i db.devices ≡ some device
      → write i (updated onboarded s) db
        ≡ (ok tt, record db { devices = assign i (updated onboarded s) db.devices })
  unfolding write check_sector_required_for_mikrotik read
  write_lem onboarded s i db {device} there =
      ground (arith, there, browse-assign i i (updated onboarded s) db.devices)

  register-known :
      (onboarded : Onboarded) (db : Database) (i r : ℕ) {s : ℕ} {device : Device}
      → find_sector code db ≡ some s
      → browse i db.devices ≡ some device
      → matching (is_at onboarded.ip) db.devices ≡ i ∷ []
      → matching (is_of i) db.routers ≡ r ∷ []
      → register code onboarded db
        ≡ (ok (i, r), record db { devices = assign i (updated onboarded s) db.devices })
  unfolding register find_device find_router
  register-known onboarded db i r {s} {device} sector there at_ip of_device =
      let device_found =
        head-single i (platform.search_perm Device (is_at onboarded.ip) db.devices) at_ip in
      let router_found =
        head-single r (platform.search_perm Router (is_of i) db.routers) of_device in
      rw (sector, device_found, write_lem onboarded s i db {device = device} there, router_found)
        refl

  -- The registration of a second visit to an address, right after the first.
  again :
      (onboarded : Onboarded) (identity : String) (port : ℕ) (db : Database) {s : ℕ}
      → find_sector code db ≡ some s
      → matching (is_at onboarded.ip) db.devices ≡ []
      → are_linked db.devices db.routers ≡ true
      → let next = record onboarded { identity = identity; api_port = port } in
        let db1 = registered onboarded s db in
        register code next db1 ≡ (
          ok (device_id db, router_id db),
          record db1 { devices = assign (device_id db) (updated next s) db1.devices },
        )
  unfolding registered find_sector
  again onboarded identity port db {s} sector absent linked =
      let next = record onboarded { identity = identity; api_port = port } in
      let i = device_id db in
      let device = new_device onboarded s in
      let at_ip : matching (is_at onboarded.ip) (db.devices ++ (i, device) ∷ []) ≡ i ∷ [] =
        matching-append (is_at onboarded.ip) i device db.devices
        ∙ rw (absent, is_at_self onboarded i s) refl in
      let of_device : matching (is_of i) (db.routers ++ (router_id db, new_router i) ∷ [])
          ≡ router_id db ∷ [] =
        matching-append (is_of i) (router_id db) (new_router i) db.routers
        ∙ rw (no_router db linked) (ground arith) in
      register-known next (registered onboarded s db) i (router_id db) {s = s} {device = device}
        sector (browse_fresh i device db.devices (platform.new_id_fresh (ids db.devices))) at_ip
        of_device

  logged_in :
      (environ : String → Option String) (authenticate : String → Result Bool)
      (pass_env : Option String) (onboarded : Onboarded) (db : Database)
      → log_in environ authenticate pass_env ≡ ok tt
      → odoo_register_device environ authenticate pass_env code onboarded db
        ≡ register code onboarded db
  unfolding odoo_register_device
  logged_in environ authenticate pass_env onboarded db login = rw (odoo_register_device, login) refl

  -- Where the log-in goes through, the sector is there, no MikroTik device has the address and every
  -- router belongs to a device, the registration of an address makes one device and one router. A
  -- second registration of the address right after it, under whatever name and port, goes through
  -- with the same two ids and makes nothing; the device has the new name and port then.
  pub odoo_register_device-once :
      (environ : String → Option String) (authenticate : String → Result Bool)
      (pass_env : Option String) (onboarded : Onboarded) (identity : String) (port : ℕ)
      (db : Database) {s : ℕ}
      → log_in environ authenticate pass_env ≡ ok tt
      → find_sector code db ≡ some s
      → matching (is_at onboarded.ip) db.devices ≡ []
      → are_linked db.devices db.routers ≡ true
      → let run = odoo_register_device environ authenticate pass_env code in
        let next = record onboarded { identity = identity; api_port = port } in
        let first = run onboarded db in
        let second = run next first.1 in
        (first.0 ≡ ok (device_id db, router_id db))
        × (second.0 ≡ ok (device_id db, router_id db))
        × (length second.1.devices ≡ length db.devices + 1)
        × (length second.1.routers ≡ length db.routers + 1)
        × (browse (device_id db) second.1.devices ≡ some (new_device next s))
  unfolding registered
  odoo_register_device-once environ authenticate pass_env onboarded identity port db {s} login
        sector absent linked =
      let next = record onboarded { identity = identity; api_port = port } in
      let i = device_id db in
      let fresh = platform.new_id_fresh (ids db.devices) in
      let one =
        logged_in environ authenticate pass_env onboarded db login
        ∙ register-first onboarded db {s = s} sector absent linked in
      let two =
        logged_in environ authenticate pass_env next (registered onboarded s db) login
        ∙ again onboarded identity port db {s = s} sector absent linked in
      rw (one, two)
        (
          refl,
          refl,
          length-assign i (updated next s) (db.devices ++ (i, new_device onboarded s) ∷ [])
              ∙ length-append db.devices ((i, new_device onboarded s) ∷ []),
          length-append db.routers ((router_id db, new_router i) ∷ []),
          ground (
            arith,
            browse-assign i i (updated next s) (db.devices ++ (i, new_device onboarded s) ∷ []),
            browse_fresh i (new_device onboarded s) db.devices fresh,
          ),
        )
