-- ===== src/Onu.antt =====
-- addons/isp_onu/models/assignment.py: which ONU serves which line, and writes of it.
pub mod Exclusive
pub mod Written
pub mod Created
use getupnet.Prelude.{
  ℕ, ◌==◌, Bool, true, not, ◌&&◌, ◌||◌, Option, none, some, [], ◌∷◌, ◌++◌, is_set, or_value, length,
  if◌then◌else◌,
}
use getupnet.Prelude.Effects.{
  Action, missing_error, validation_error, gets, modify, when, raise, pure, or_raise, ◌>>=◌, ◌>>◌,
}
use getupnet.Prelude.Rows.{browse, assign, ids}
use getupnet.Database.{Database}
use getupnet.Database.Network.{OnuAssignment}
use getupnet.Platform.{Platform}

-- What a write gives; `none` where a field is not in `vals`.
pub record Values : Type 0 where
  pub active : Option Bool
  pub onu_id : Option ℕ
  pub subscription_id : Option ℕ

abbrev pub written : Values → OnuAssignment → OnuAssignment
written vals row = record row {
  active = or_value vals.active row.active;
  onu_id = or_value vals.onu_id row.onu_id;
  subscription_id = or_value vals.subscription_id row.subscription_id;
}

-- Whether isp_onu/security/ir_rule.xml shows the user an assignment: the sector of an assignment is
-- that of its line, which is there.
unfoldable pub sees : Database → OnuAssignment → Bool
sees db a = elim (browse a.subscription_id db.subscriptions) [
  | none ↦ true
  | some sub ↦ db.sees_sector sub.sector_id
]

unfoldable pub read : ℕ → Action Database OnuAssignment
read i db = or_raise (browse i db.onu_assignments) (missing_error "isp.onu.assignment") db

unfoldable pub update : ℕ → (OnuAssignment → OnuAssignment) → Action Database (Unit {0})
update i f = modify λ db. record db { onu_assignments = assign i f db.onu_assignments }

-- The domains of the two searches.
abbrev pub shares_onu : ℕ → OnuAssignment → ℕ → OnuAssignment → Bool
shares_onu i rec j other = other.onu_id == rec.onu_id && other.active && not (j == i)

abbrev pub shares_subscription : ℕ → OnuAssignment → ℕ → OnuAssignment → Bool
shares_subscription i rec j other =
    other.subscription_id == rec.subscription_id && other.active && not (j == i)

-- What `create` adds to the values of an active assignment.
abbrev pub with_date : ℕ → OnuAssignment → OnuAssignment
with_date now vals = record vals {
  assigned_at = if vals.active then some (or_value vals.assigned_at now) else vals.assigned_at;
}

unfoldable pub stamp_assigned : ℕ → Action Database (Unit {0})
stamp_assigned i = do
  rec ← read i
  now ← gets (λ db. db.now)
  when (rec.active && not (is_set rec.assigned_at))
      (update i (λ row. record row { assigned_at = some now }))

unfoldable pub stamp_unassigned : ℕ → Action Database (Unit {0})
stamp_unassigned i = do
  rec ← read i
  now ← gets (λ db. db.now)
  when (not rec.active && not (is_set rec.unassigned_at))
      (update i (λ row. record row { unassigned_at = some now }))

module _ ⦃platform : Platform⦄ where
  unfoldable pub check_one_active_per_onu : ℕ → Action Database (Unit {0})
  check_one_active_per_onu i = do
    rec ← read i
    when rec.active (do
      count ← gets (λ db. length (
          platform.search OnuAssignment (λ j a. shares_onu i rec j a && sees db a)
            db.onu_assignments))
      when (not (count == 0)) (raise (validation_error "ONU already has an active assignment.")))

  unfoldable pub check_one_active_per_subscription : ℕ → Action Database (Unit {0})
  check_one_active_per_subscription i = do
    rec ← read i
    when rec.active (do
      count ← gets (λ db. length (
          platform.search OnuAssignment (λ j a. shares_subscription i rec j a && sees db a)
            db.onu_assignments))
      when (not (count == 0)) (raise (validation_error "Subscription already has an active ONU.")))

  -- `create(vals)` for one assignment.
  unfoldable pub create : OnuAssignment → Action Database ℕ
  create vals = do
    i ← gets (λ db. platform.new_id (ids db.onu_assignments))
    modify
        λ db. record db { onu_assignments = db.onu_assignments ++ (i, with_date db.now vals) ∷ [] }
    check_one_active_per_onu i
    check_one_active_per_subscription i
    pure i

  -- `write(vals)` with one or more of the fields that the checks are declared on.
  unfoldable pub write : ℕ → Values → Action Database (Unit {0})
  write i vals = do
    update i (written vals)
    when (is_set vals.onu_id || is_set vals.active) (check_one_active_per_onu i)
    when (is_set vals.subscription_id || is_set vals.active) (check_one_active_per_subscription i)
    when (is_set vals.active) (do stamp_assigned i; stamp_unassigned i)
