-- ===== src/Onu/Written.antt =====
-- A write to an assignment, and the assignments that are apart.
use getupnet.Prelude.{
  ℕ, ◌≡◌, refl, sym, subst, ap, ◌⊎◌, ◌≢◌, ◌∙◌, Bool, true, false, inl, inr, ◌||◌, ◌&&◌,
  Option-cases, Option, none, some, is_set, or_value, arith,
}
use getupnet.Prelude.Effects.{Action, ok, when, ◌>>◌}
use getupnet.Prelude.Rows.{browse, assign}
use getupnet.Prelude.Search.{length-permutation, matching-none}
use getupnet.Prelude.Sequence.{guard_ok}
use getupnet.Prelude.Frame.{Keeps, frame_rules}
use getupnet.Database.{Database}
use getupnet.Database.Network.{OnuAssignment}
use getupnet.Platform.{Platform}
use getupnet.Onu.{
  Values, written, read, update, sees, shares_onu, shares_subscription, check_one_active_per_onu,
  check_one_active_per_subscription, stamp_assigned, stamp_unassigned, write,
}
use getupnet.Onu.Exclusive.{
  ApartBy, ExclusiveBy, Exclusive, onu, line, Leaves, Leaves-apart, assign-ExclusiveBy, row_of,
  onu-dates, dates-onu, line-dates, dates-line, stamp_assigned-row, stamp_unassigned-row,
}

given : {A : Type 0} (o : Option A) → (is_set o ≡ true) ⊎ ((d : A) → or_value o d ≡ d)
given none = inr (λ d. refl)
given (some a) = inl refl

or_true : (a : Bool) {b : Bool} → b ≡ true → (a || b) ≡ true
or_true true h = refl
or_true false h = h

-- A user who sees the rows of every sector, as the administrator does.
abbrev pub SeesAll : Database → Type 0
SeesAll db = (sector : ℕ) → db.sees_sector sector ≡ true

sees_all : (db : Database) (a : OnuAssignment) → SeesAll db → sees db a ≡ true
unfolding sees
sees_all db a all = elim (Option-cases (browse a.subscription_id db.subscriptions)) [
  | inl gone ↦ rw (sees, gone) refl
  | inr (sub, there) ↦ rw (sees, there) (all sub.sector_id)
]

module _ ⦃platform : Platform⦄ where
  pub onu_state : (i : ℕ) (db : Database) → (check_one_active_per_onu i db).1 ≡ db
  unfolding check_one_active_per_onu read
  onu_state i db = ground arith

  pub subscription_state : (i : ℕ) (db : Database) → (check_one_active_per_subscription i db).1 ≡ db
  unfolding check_one_active_per_subscription read
  subscription_state i db = ground arith

  -- Where a check passes, the assignment is apart from every other one.
  pub onu-apart :
      (i j : ℕ) (db : Database)
      → SeesAll db
      → (check_one_active_per_onu i db).0 ≡ ok tt
      → i ≢ j
      → ApartBy onu (browse i db.onu_assignments) (browse j db.onu_assignments)
  unfolding check_one_active_per_onu read
  onu-apart i j db all goes ne =
      go (browse i db.onu_assignments) (browse j db.onu_assignments) refl refl
    where
      go :
          (a b : Option OnuAssignment)
          → browse i db.onu_assignments ≡ a
          → browse j db.onu_assignments ≡ b
          → ApartBy onu a b
      go none b at_i at_j = tt
      go (some a) none at_i at_j = tt
      go (some a) (some b) at_i at_j = λ on also_on same.
          let found =
            platform.search_perm OnuAssignment (λ k c. shares_onu i a k c && sees db c)
              db.onu_assignments in
          let free =
            matching-none (λ k c. shares_onu i a k c && sees db c) j db.onu_assignments b in
          ground (arith, at_i, sees_all db b all, free, length-permutation found)

  pub line-apart :
      (i j : ℕ) (db : Database)
      → SeesAll db
      → (check_one_active_per_subscription i db).0 ≡ ok tt
      → i ≢ j
      → ApartBy line (browse i db.onu_assignments) (browse j db.onu_assignments)
  unfolding check_one_active_per_subscription read
  line-apart i j db all goes ne =
      go (browse i db.onu_assignments) (browse j db.onu_assignments) refl refl
    where
      go :
          (a b : Option OnuAssignment)
          → browse i db.onu_assignments ≡ a
          → browse j db.onu_assignments ≡ b
          → ApartBy line a b
      go none b at_i at_j = tt
      go (some a) none at_i at_j = tt
      go (some a) (some b) at_i at_j = λ on also_on same.
          let found =
            platform.search_perm OnuAssignment (λ k c. shares_subscription i a k c && sees db c)
              db.onu_assignments in
          let free =
            matching-none (λ k c. shares_subscription i a k c && sees db c) j db.onu_assignments
              b in
          ground (arith, at_i, sees_all db b all, free, length-permutation found)

  wrote : ℕ → Values → Database → Database
  wrote i vals db = record db { onu_assignments = assign i (written vals) db.onu_assignments }

  abbrev checks_onu : Values → Bool
  checks_onu vals = is_set vals.onu_id || is_set vals.active

  abbrev checks_line : Values → Bool
  checks_line vals = is_set vals.subscription_id || is_set vals.active

  when_state :
      (b : Bool) (m : Action Database (Unit {0})) (db : Database)
      → (m db).1 ≡ db
      → (when b m db).1 ≡ db
  when_state true m db same = same
  when_state false m db same = refl

  -- A write that goes through has passed the checks that it makes, and what follows writes dates.
  write-passes :
      (i : ℕ) (vals : Values) (db : Database)
      → (write i vals db).0 ≡ ok tt
      → ((when (checks_onu vals) (check_one_active_per_onu i) (wrote i vals db)).0 ≡ ok tt)
        × ((when (checks_line vals) (check_one_active_per_subscription i) (wrote i vals db)).0
            ≡ ok tt)
        × ((write i vals db).1
            ≡ (when
                (is_set vals.active)
                (stamp_assigned i >> stamp_unassigned i)
                (wrote i vals db)).1)
  unfolding write update wrote
  write-passes i vals db goes =
      let db1 = wrote i vals db in
      let m1 = when (checks_onu vals) (check_one_active_per_onu i) in
      let m2 = when (checks_line vals) (check_one_active_per_subscription i) in
      let m3 = when (is_set vals.active) (stamp_assigned i >> stamp_unassigned i) in
      let state1 =
        when_state (checks_onu vals) (check_one_active_per_onu i) db1 (onu_state i db1) in
      let state2 =
        when_state (checks_line vals) (check_one_active_per_subscription i) db1
          (subscription_state i db1) in
      let (one, after) = guard_ok m1 (m2 >> m3) db1 state1 goes in
      let (two, last) = guard_ok m2 m3 db1 state2 (ap (λ p. p.0) (sym after) ∙ goes) in
      (one, two, ap (λ p. p.1) (after ∙ last))

  -- The field is checked, or the write leaves it and the activity.
  onu_checked :
      (vals : Values)
      → (checks_onu vals ≡ true) ⊎ ((i : ℕ) (row : OnuAssignment) → Leaves onu i (written vals) row)
  unfolding Leaves
  onu_checked vals = elim (given vals.onu_id) [
    | inl set ↦ inl (rw set refl)
    | inr field ↦ elim (given vals.active) [
      | inl set ↦ inl (or_true (is_set vals.onu_id) set)
      | inr active ↦ inr (λ i row. (active row.active, field row.onu_id))
    ]
  ]

  wrote-onu :
      (i : ℕ) (vals : Values) (db : Database)
      → SeesAll db
      → ExclusiveBy onu db.onu_assignments
      → (when (checks_onu vals) (check_one_active_per_onu i) (wrote i vals db)).0 ≡ ok tt
      → ExclusiveBy onu (wrote i vals db).onu_assignments
  unfolding wrote
  wrote-onu i vals db all exclusive goes =
      assign-ExclusiveBy onu i (written vals) db.onu_assignments exclusive
        (elim (onu_checked vals) [
          | inl checked ↦
              let passed : (check_one_active_per_onu i (wrote i vals db)).0 ≡ ok tt =
                subst (λ b. (when b (check_one_active_per_onu i) (wrote i vals db)).0 ≡ ok tt)
                  checked goes in
              λ j ne. onu-apart i j (wrote i vals db) all passed ne
          | inr same ↦ Leaves-apart onu i (written vals) db.onu_assignments exclusive (same i)
        ])

  -- The field is checked, or the write leaves it and the activity.
  line_checked :
      (vals : Values)
      → (checks_line vals ≡ true)
        ⊎ ((i : ℕ) (row : OnuAssignment) → Leaves line i (written vals) row)
  unfolding Leaves
  line_checked vals = elim (given vals.subscription_id) [
    | inl set ↦ inl (rw set refl)
    | inr field ↦ elim (given vals.active) [
      | inl set ↦ inl (or_true (is_set vals.subscription_id) set)
      | inr active ↦ inr (λ i row. (active row.active, field row.subscription_id))
    ]
  ]

  wrote-line :
      (i : ℕ) (vals : Values) (db : Database)
      → SeesAll db
      → ExclusiveBy line db.onu_assignments
      → (when (checks_line vals) (check_one_active_per_subscription i) (wrote i vals db)).0 ≡ ok tt
      → ExclusiveBy line (wrote i vals db).onu_assignments
  unfolding wrote
  wrote-line i vals db all exclusive goes =
      assign-ExclusiveBy line i (written vals) db.onu_assignments exclusive
        (elim (line_checked vals) [
          | inl checked ↦
              let passed : (check_one_active_per_subscription i (wrote i vals db)).0 ≡ ok tt =
                subst
                  (λ b. (when b (check_one_active_per_subscription i) (wrote i vals db)).0 ≡ ok tt)
                  checked goes in
              λ j ne. line-apart i j (wrote i vals db) all passed ne
          | inr same ↦ Leaves-apart line i (written vals) db.onu_assignments exclusive (same i)
        ])

  stamps-row :
      (i j : ℕ) (vals : Values)
      → Keeps (row_of j) (when (is_set vals.active) (stamp_assigned i >> stamp_unassigned i))
  stamps-row i j vals = search (frame_rules, stamp_assigned-row, stamp_unassigned-row) depth 10

  -- For a user who sees the rows of every sector: from a database where active assignments have
  -- neither ONU nor line in common, a write to an assignment that goes through leads to such a
  -- database, whichever of its activity, ONU and line are written.
  pub write-Exclusive :
      (i : ℕ) (vals : Values) (db : Database)
      → SeesAll db
      → Exclusive db
      → (write i vals db).0 ≡ ok tt
      → Exclusive (write i vals db).1
  write-Exclusive i vals db all (onus, lines) goes =
      let (one, two, state) = write-passes i vals db goes in
      let db1 = wrote i vals db in
      let row = λ (n : ℕ). (stamps-row i n vals).at db1 in
      let onus_before = wrote-onu i vals db all onus one in
      let lines_before = wrote-line i vals db all lines two in
      rw state (
        λ j k ne. onu-dates _ _ (
            rw (row j, row k)
              (dates-onu (browse j db1.onu_assignments) (browse k db1.onu_assignments)
                (onus_before j k ne))),
        λ j k ne. line-dates _ _ (
            rw (row j, row k)
              (dates-line (browse j db1.onu_assignments) (browse k db1.onu_assignments)
                (lines_before j k ne))),
      )
