-- ===== src/Onu/Exclusive.antt =====
-- Assignments that are apart: an ONU serves one line at a time, and a line has one ONU.
use native.Mathlib.Decide.{ℕ_discrete}
use getupnet.Prelude.{ℕ, ◌≡◌, sym, subst, ◌≢◌, ◌∙◌, true, Option, none, some, arith}
use getupnet.Prelude.Rows.{Table, browse, assign, map_row, browse-assign}
use getupnet.Prelude.Frame.{Keeps}
use getupnet.Database.{Database}
use getupnet.Database.Network.{OnuAssignment}
use getupnet.Onu.{read, update, stamp_assigned, stamp_unassigned}

-- Two assignments that are both active differ in a field.
abbrev pub ApartBy : (OnuAssignment → ℕ) → Option OnuAssignment → Option OnuAssignment → Type 0
ApartBy key none b = Unit
ApartBy key (some a) none = Unit
ApartBy key (some a) (some b) = a.active ≡ true → b.active ≡ true → key a ≢ key b

abbrev pub ExclusiveBy : (OnuAssignment → ℕ) → Table OnuAssignment → Type 0
ExclusiveBy key t = (i j : ℕ) → i ≢ j → ApartBy key (browse i t) (browse j t)

abbrev pub onu : OnuAssignment → ℕ
onu row = row.onu_id

abbrev pub line : OnuAssignment → ℕ
line row = row.subscription_id

-- Active assignments have neither the ONU nor the line in common.
abbrev pub Exclusive : Database → Type 0
Exclusive db = ExclusiveBy onu db.onu_assignments × ExclusiveBy line db.onu_assignments

-- What an assignment is without its dates.
abbrev pub without_dates : Option OnuAssignment → Option OnuAssignment
without_dates none = none
without_dates (some a) = some (record a { assigned_at = none; unassigned_at = none })

pub ApartBy-sym :
    (key : OnuAssignment → ℕ) (a b : Option OnuAssignment) → ApartBy key a b → ApartBy key b a
ApartBy-sym key none none h = tt
ApartBy-sym key none (some b) h = tt
ApartBy-sym key (some a) none h = tt
ApartBy-sym key (some a) (some b) h = λ on off e. h off on (sym e)

pub onu-dates :
    (a b : Option OnuAssignment) → ApartBy onu (without_dates a) (without_dates b) → ApartBy onu a b
onu-dates none b h = tt
onu-dates (some a) none h = tt
onu-dates (some a) (some b) h = h

pub dates-onu :
    (a b : Option OnuAssignment) → ApartBy onu a b → ApartBy onu (without_dates a) (without_dates b)
dates-onu none b h = tt
dates-onu (some a) none h = tt
dates-onu (some a) (some b) h = h

pub line-dates :
    (a b : Option OnuAssignment)
    → ApartBy line (without_dates a) (without_dates b)
    → ApartBy line a b
line-dates none b h = tt
line-dates (some a) none h = tt
line-dates (some a) (some b) h = h

pub dates-line :
    (a b : Option OnuAssignment)
    → ApartBy line a b
    → ApartBy line (without_dates a) (without_dates b)
dates-line none b h = tt
dates-line (some a) none h = tt
dates-line (some a) (some b) h = h

-- One row without its dates, as a view of the state.
abbrev pub row_of : ℕ → Database → Option OnuAssignment
row_of j db = without_dates (browse j db.onu_assignments)

pub stamp_assigned-row : (i j : ℕ) → Keeps (row_of j) (stamp_assigned i)
unfolding stamp_assigned read update
stamp_assigned-row i j = record {
  at = λ db.
      let f = λ (row : OnuAssignment). record row { assigned_at = some db.now } in
      ground (arith, browse-assign i j f db.onu_assignments);
}

pub stamp_unassigned-row : (i j : ℕ) → Keeps (row_of j) (stamp_unassigned i)
unfolding stamp_unassigned read update
stamp_unassigned-row i j = record {
  at = λ db.
      let f = λ (row : OnuAssignment). record row { unassigned_at = some db.now } in
      ground (arith, browse-assign i j f db.onu_assignments);
}

-- A write to one row that leaves its field and its activity, or after which it is apart from every
-- other row.
module _ (key : OnuAssignment → ℕ) (i : ℕ) (f : OnuAssignment → OnuAssignment) where
  unfoldable pub Leaves : OnuAssignment → Type 0
  Leaves row = ((f row).active ≡ row.active) × (key (f row) ≡ key row)

  others_stay : (j : ℕ) (t : Table OnuAssignment) → i ≢ j → browse j (assign i f t) ≡ browse j t
  others_stay j t ne = ground (arith, browse-assign i j f t)

  Leaves-ApartBy :
      (a b : Option OnuAssignment)
      → ((row : OnuAssignment) → Leaves row)
      → ApartBy key a b
      → ApartBy key (map_row f a) b
  unfolding Leaves
  Leaves-ApartBy none b same h = tt
  Leaves-ApartBy (some a) none same h = tt
  Leaves-ApartBy (some a) (some b) same h =
      λ on off e. let (active, field) = same a in h (sym active ∙ on) off (sym field ∙ e)

  pub Leaves-apart :
      (t : Table OnuAssignment)
      → ExclusiveBy key t
      → ((row : OnuAssignment) → Leaves row)
      → (j : ℕ) → i ≢ j
      → ApartBy key (browse i (assign i f t)) (browse j (assign i f t))
  Leaves-apart t exclusive same j ne = rw (others_stay j t ne) (
      subst (λ a. ApartBy key a (browse j t)) (sym (here t))
        (Leaves-ApartBy (browse i t) (browse j t) same (exclusive i j ne)))
    where
      here : (t : Table OnuAssignment) → browse i (assign i f t) ≡ map_row f (browse i t)
      here t = ground (arith, browse-assign i i f t)

  pub assign-ExclusiveBy :
      (t : Table OnuAssignment)
      → ExclusiveBy key t
      → ((j : ℕ) → i ≢ j → ApartBy key (browse i (assign i f t)) (browse j (assign i f t)))
      → ExclusiveBy key (assign i f t)
  assign-ExclusiveBy t exclusive apart j k ne = elim (ℕ_discrete i j) [
    | yes here ↦ rw (← here) (apart k (λ e. ne (sym here ∙ e)))
    | no not_j ↦ elim (ℕ_discrete i k) [
      | yes here ↦ rw (← here) (ApartBy-sym key _ _ (apart j not_j))
      | no not_k ↦ rw (others_stay j t not_j, others_stay k t not_k) (exclusive j k ne)
    ]
  ]
