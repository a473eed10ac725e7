-- ===== src/Preloader/Main/Reached.antt =====
-- Every router is set up, whatever happens to the others.
use getupnet.Prelude.{
  ◌≡◌, refl, ap, subst, ◌∙◌, sym, true, false, Bool-cases, inl, inr, List, [], ◌∷◌, String, text_eq,
  eq_iff, or_value, All, arith, if◌then◌else◌,
}
use text.Mathlib.TextPositions.{eq_refl}
use getupnet.Prelude.Effects.{
  Action, Result, ok, err, skip, try_except, recover, continue, for_each,
}
use getupnet.Database.{Database}
use getupnet.Database.Network.{Command}
use getupnet.Platform.{Platform}
use getupnet.Preloader.Main.{Site, Field, register_if_asked, set_up, register, onboard, onboard_all}

abbrev pub Distinct : List String → Type 0
Distinct [] = Unit
Distinct (ip ∷ ips) = All (λ other. text_eq other ip ≡ false) ips × Distinct ips

module _ ⦃platform : Platform⦄ (site : Site) where
  -- The registration that follows the set-up of a router, if that went through.
  abbrev registered : String → Result String → Database → Database
  registered ip (err e) db = db
  registered ip (ok identity) db =
      if or_value site.odoo.register_device true then (register site ip identity db).1 else db

  -- The registrations of all routers, each set up on its own.
  abbrev pub registrations : List String → (String → List Command) → Database → Database
  registrations [] sent db = db
  registrations (ip ∷ ips) sent db =
      registrations ips sent (registered ip (set_up site ip (sent ip)).0 db)

  abbrev step : String → Action Field (Unit {0})
  step ip = try_except (onboard site ip) (λ exc. skip)

  -- How a turn of the loop ends, by the result of the set-up.
  abbrev turn : String → Result String → Field → Result (Unit {0}) × Field
  turn ip r field =
      let (r', after) = continue r (register_if_asked site ip) field in
      recover r' (λ exc. skip) after

  recovered :
      (p : Result (Unit {0}) × Database) (field : Field)
      → let (r, after) = recover p.0 (λ exc. skip) (record field { office = p.1 }) in
        (r ≡ ok tt) × (after ≡ record field { office = p.1 })
  recovered (ok u, db) field = (refl, refl)
  recovered (err e, db) field = (refl, refl)

  turn_lem :
      (ip : String) (r : Result String) (field : Field)
      → ((turn ip r field).0 ≡ ok tt)
        × ((turn ip r field).1 ≡ record field { office = registered ip r field.office })
  turn_lem ip (err e) field = (refl, refl)
  turn_lem ip (ok identity) field = elim (Bool-cases (or_value site.odoo.register_device true)) [
    | inl wanted ↦ rw wanted (recovered (register site ip identity field.office) field)
    | inr unwanted ↦ rw unwanted (refl, refl)
  ]

  -- One turn of the loop ends without an exception, writes to one router, and registers that.
  step_lem :
      (ip : String) (field : Field)
      → let (r, after) = step ip field in
        (r ≡ ok tt)
        × (after.office ≡ registered ip (set_up site ip (field.sent ip)).0 field.office)
        × ((other : String)
            → after.sent other
              ≡ (if text_eq other ip then (set_up site ip (field.sent ip)).1 else field.sent other))
  unfolding onboard
  step_lem ip field =
      let p = set_up site ip (field.sent ip) in
      let moved = record field {
        sent = λ other. if text_eq other ip then p.1 else field.sent other;
      } in
      let (goes, after) = turn_lem ip p.0 moved in
      (goes, ap (λ (f : Field). f.office) after, λ other. ap (λ (f : Field). f.sent other) after)

  registrations_same :
      (ips : List String) (sent sent' : String → List Command) (db : Database)
      → All (λ ip. sent ip ≡ sent' ip) ips
      → registrations ips sent db ≡ registrations ips sent' db
  registrations_same [] sent sent' db h = refl
  registrations_same (ip ∷ ips) sent sent' db (h, hs) =
      rw h (registrations_same ips sent sent' (registered ip (set_up site ip (sent' ip)).0 db) hs)

  -- The other routers were sent nothing by a turn.
  unmoved :
      (ip : String) (field : Field) (ips : List String)
      → All (λ other. text_eq other ip ≡ false) ips
      → All (λ other. (step ip field).1.sent other ≡ field.sent other) ips
  unmoved ip field [] h = tt
  unmoved ip field (other ∷ ips) (h, hs) =
      ((step_lem ip field).2 other ∙ rw h refl, unmoved ip field ips hs)

  -- What was sent at the end, seen from before a turn.
  seen_before :
      (ips : List String) (sent before after : String → List Command)
      → All (λ ip. before ip ≡ sent ip) ips
      → All (λ ip. after ip ≡ (set_up site ip (before ip)).1) ips
      → All (λ ip. after ip ≡ (set_up site ip (sent ip)).1) ips
  seen_before [] sent before after h k = tt
  seen_before (ip ∷ ips) sent before after (h, hs) (k, ks) =
      (rw (sym h) k, seen_before ips sent before after hs ks)

  apart :
      (ip : String) (ips : List String)
      → All (λ other. text_eq other ip ≡ false) ips
      → All (λ other. text_eq ip other ≡ false) ips
  apart ip [] h = tt
  apart ip (other ∷ ips) (h, hs) =
      (ground (arith, h, eq_iff other ip, eq_iff ip other), apart ip ips hs)

  others_lem :
      (ips : List String) (field : Field)
      → ((onboard_all site ips field).0 ≡ ok tt)
        × ((other : String)
            → All (λ ip. text_eq other ip ≡ false) ips
            → (onboard_all site ips field).1.sent other ≡ field.sent other)
  unfolding onboard_all for_each
  others_lem [] field = (refl, λ other h. refl)
  others_lem (ip ∷ ips) field =
      let (goes, _, moved) = step_lem ip field in
      let (rest, others) = others_lem ips (step ip field).1 in
      (rw goes rest, λ other h. rw goes (others other h.1 ∙ moved other ∙ rw h.0 refl))

  next_turn :
      (ip : String) (ips : List String) (field : Field)
      → onboard_all site (ip ∷ ips) field ≡ onboard_all site ips (step ip field).1
  unfolding onboard_all for_each
  next_turn ip ips field = rw ((step_lem ip field).0) refl

  abbrev Reaches : List String → Field → Result (Unit {0}) × Field → Type 0
  Reaches candidates field (r, after) =
      (r ≡ ok tt)
      × All (λ ip. after.sent ip ≡ (set_up site ip (field.sent ip)).1) candidates
      × (after.office ≡ registrations candidates field.sent field.office)

  -- Whatever the routers answer and Odoo does, the loop over distinct addresses ends without an
  -- exception, and every router was sent all that its own set-up sends where no other router is
  -- there: a router that fails stops none. The database is the one after the registration of
  -- exactly those routers whose set-up went through, in their order.
  pub onboard_all-reaches :
      (candidates : List String) (field : Field)
      → Distinct candidates
      → let (r, after) = onboard_all site candidates field in
        (r ≡ ok tt)
        × All (λ ip. after.sent ip ≡ (set_up site ip (field.sent ip)).1) candidates
        × (after.office ≡ registrations candidates field.sent field.office)
  onboard_all-reaches [] field distinct = unfold onboard_all for_each in (refl, tt, refl)
  onboard_all-reaches (ip ∷ ips) field (differ, distinct) =
      let (goes, office, moved) = step_lem ip field in
      let next = (step ip field).1 in
      let (rest, sent, registered_all) = onboard_all-reaches ips next distinct in
      let same = unmoved ip field ips differ in
      let kept = (others_lem ips next).1 ip (apart ip ips differ) in
      subst (Reaches (ip ∷ ips) field) (sym (next_turn ip ips field)) (
        rest,
        (
          kept ∙ moved ip ∙ rw (eq_refl ip) refl,
          seen_before ips field.sent next.sent (onboard_all site ips next).1.sent same sent,
        ),
        registered_all
            ∙ registrations_same ips next.sent field.sent next.office same
            ∙ ap (registrations ips field.sent) office,
      )
