-- ===== src/Onu/Created.antt =====
-- A new assignment, and the assignments that are apart.
use native.Mathlib.Decide.{ℕ_discrete}
use getupnet.Prelude.{ℕ, ◌≡◌, sym, ap, ◌≢◌, ◌∙◌, Option-cases, inl, inr, [], ◌∷◌, ◌++◌, arith}
use getupnet.Prelude.Effects.{ok, pure, ◌>>◌}
use getupnet.Prelude.Rows.{Table, browse, ids, browse-append}
use getupnet.Prelude.Sequence.{guard_ok}
use getupnet.Database.{Database}
use getupnet.Database.Network.{OnuAssignment}
use getupnet.Platform.{Platform}
use getupnet.Onu.{with_date, check_one_active_per_onu, check_one_active_per_subscription, create}
use getupnet.Onu.Exclusive.{ApartBy, ApartBy-sym, ExclusiveBy, Exclusive, onu, line}
use getupnet.Onu.Written.{SeesAll, onu_state, subscription_state, onu-apart, line-apart}

module _ (key : OnuAssignment → ℕ) (i : ℕ) (row : OnuAssignment) (t : Table OnuAssignment) where
  others_stay : (j : ℕ) → i ≢ j → browse j (t ++ (i, row) ∷ []) ≡ browse j t
  others_stay j ne = elim (Option-cases (browse j t)) [
    | inl gone ↦ ground (arith, gone, browse-append i j row t)
    | inr (a, there) ↦ ground (arith, there, browse-append i j row t)
  ]

  append-ExclusiveBy :
      ExclusiveBy key t
      → ((j : ℕ)
          → i ≢ j
          → ApartBy key (browse i (t ++ (i, row) ∷ [])) (browse j (t ++ (i, row) ∷ [])))
      → ExclusiveBy key (t ++ (i, row) ∷ [])
  append-ExclusiveBy exclusive apart j k ne = elim (ℕ_discrete i j) [
    | yes here ↦ rw (← here) (apart k (λ e. ne (sym here ∙ e)))
    | no not_j ↦ elim (ℕ_discrete i k) [
      | yes here ↦ rw (← here) (ApartBy-sym key _ _ (apart j not_j))
      | no not_k ↦ rw (others_stay j not_j, others_stay k not_k) (exclusive j k ne)
    ]
  ]

module _ ⦃platform : Platform⦄ where
  abbrev fresh_id : Database → ℕ
  fresh_id db = platform.new_id (ids db.onu_assignments)

  added : OnuAssignment → Database → Database
  added vals db = record db {
    onu_assignments = db.onu_assignments ++ (fresh_id db, with_date db.now vals) ∷ [];
  }

  create-passes :
      (vals : OnuAssignment) (db : Database) {i : ℕ}
      → (create vals db).0 ≡ ok i
      → ((check_one_active_per_onu (fresh_id db) (added vals db)).0 ≡ ok tt)
        × ((check_one_active_per_subscription (fresh_id db) (added vals db)).0 ≡ ok tt)
        × (create vals db ≡ (ok (fresh_id db), added vals db))
  unfolding create added
  create-passes vals db goes =
      let i = fresh_id db in
      let db1 = added vals db in
      let m1 = check_one_active_per_onu i in
      let m2 = check_one_active_per_subscription i in
      let (one, after) = guard_ok m1 (m2 >> pure i) db1 (onu_state i db1) goes in
      let (two, last) =
        guard_ok m2 (pure i) db1 (subscription_state i db1) (ap (λ p. p.0) (sym after) ∙ goes) in
      (one, two, after ∙ last)

  -- For a user who sees the rows of every sector: from a database where active assignments have
  -- neither ONU nor line in common, the creation of an assignment that goes through leads to such a
  -- database.
  pub create-Exclusive :
      (vals : OnuAssignment) (db : Database) {i : ℕ}
      → SeesAll db
      → Exclusive db
      → (create vals db).0 ≡ ok i
      → Exclusive (create vals db).1
  unfolding added
  create-Exclusive vals db {i} all (onus, lines) goes =
      let (one, two, result) = create-passes vals db {i = i} goes in
      let new = fresh_id db in
      let row = with_date db.now vals in
      let db1 = added vals db in
      rw result (
        append-ExclusiveBy onu new row db.onu_assignments onus
            (λ j ne. onu-apart new j db1 all one ne),
        append-ExclusiveBy line new row db.onu_assignments lines
            (λ j ne. line-apart new j db1 all two ne),
      )
