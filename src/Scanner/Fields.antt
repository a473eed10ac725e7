-- ===== src/Scanner/Fields.antt =====
-- What tools/scan_onus.py makes of the devices that it found, where Odoo takes only values for fields.
use getupnet.Prelude.{
  Option-cases, ◌≡◌, refl, ◌∙◌, Bool, true, false, Bool-cases, inl, inr, List, [], ◌∷◌, is_set,
  arith,
}
use getupnet.Prelude.Effects.{Action, Result, ok, err, skip, try_except, recover}
use getupnet.Prelude.Rows.{Table}
use getupnet.Prelude.Invariant.{Maintains-for_each}
use getupnet.Database.Network.{Command, Attributes}
use getupnet.Platform.{Platform}
use getupnet.Preloader.{RouterApi}
use getupnet.Scanner.{FoundDevice, scan}
use getupnet.Scanner.Onus.{
  Refusal, are_fields, onu_values, exists, create_onu, sync_device, sync_all, unique_devices,
  report, main,
}

-- `create` raises on values for what is not a field, as Odoo does.
abbrev pub RefusesUnknown : Refusal → Type 0
RefusesUnknown refuses =
    (onus : Table Attributes) (vals : Attributes)
    → are_fields vals ≡ false
    → is_set (refuses onus vals) ≡ true

recover_skip :
    {S : Type 0} (m : Action S (Unit {0})) (s : S) → (try_except m (λ _. skip) s).1 ≡ (m s).1
recover_skip {S} m s = go (m s).0 (m s).1
  where
    go : (r : Result (Unit {0})) (s : S) → (recover r (λ _. skip) s).1 ≡ s
    go (ok u) s = refl
    go (err e) s = refl

module _ ⦃platform : Platform⦄ (refuses : Refusal) where
  values-are_fields : (dev : FoundDevice) → are_fields (onu_values dev) ≡ false
  unfolding are_fields
  values-are_fields dev = refl

  create_onu-unchanged :
      (vals : Attributes) (onus : Table Attributes)
      → is_set (refuses onus vals) ≡ true
      → (create_onu refuses vals onus).1 ≡ onus
  unfolding create_onu
  create_onu-unchanged vals onus refused = elim (Option-cases (refuses onus vals)) [
    | inl none_raised ↦ absurd (ground (arith, refused, none_raised))
    | inr (e, raised) ↦ rw (create_onu, raised) refl
  ]

  sync_device-unchanged :
      RefusesUnknown refuses
      → (dev : FoundDevice) (onus : Table Attributes) → (sync_device refuses dev onus).1 ≡ onus
  unfolding sync_device
  sync_device-unchanged strict dev onus = elim (Bool-cases (exists dev.mac onus)) [
    | inl known ↦ rw known refl
    | inr unknown ↦ rw unknown (
        create_onu-unchanged (onu_values dev) onus
          (strict onus (onu_values dev) (values-are_fields dev)))
  ]

  sync_all-unchanged :
      RefusesUnknown refuses
      → (devices : List FoundDevice) (onus : Table Attributes)
      → (sync_all refuses devices onus).1 ≡ onus
  unfolding sync_all
  sync_all-unchanged strict devices onus =
      (Maintains-for_each {P = λ t. t ≡ onus} devices (sync_device refuses)
          (λ dev. record { at = λ t h. sync_device-unchanged strict dev t ∙ h })).at
        onus refl

  report-unchanged :
      RefusesUnknown refuses
      → (login : Result Bool) (devices : List FoundDevice) (onus : Table Attributes)
      → (report login refuses devices onus).1 ≡ onus
  unfolding report
  report-unchanged strict login [] onus = refl
  report-unchanged strict (err e) (dev ∷ devices) onus = refl
  report-unchanged strict (ok false) (dev ∷ devices) onus = refl
  report-unchanged strict (ok true) (dev ∷ devices) onus =
      recover_skip (sync_all refuses (unique_devices [] (dev ∷ devices))) onus
      ∙ sync_all-unchanged strict (unique_devices [] (dev ∷ devices)) onus

  -- Where Odoo's `create` raises on values for what is not a field, the program makes no ONU and
  -- changes none, whatever devices it finds: its values name a field that isp.onu does not have.
  pub main-no_onus :
      ⦃api : RouterApi⦄
      → RefusesUnknown refuses
      → (login : Result Bool) (sent : List Command) (onus : Table Attributes)
      → (main login refuses sent onus).1.1 ≡ onus
  unfolding main
  main-no_onus ⦃api⦄ strict login sent onus =
      elim (Option-cases (api.connect "admin" "getupsoft" sent)) [
        | inr (e, refused) ↦ rw (main, refused) refl
        | inl opened ↦
            let s = (scan (record { sent = sent; found_devices = [] })).1 in
            rw (main, opened) (report-unchanged strict login s.found_devices onus)
      ]
