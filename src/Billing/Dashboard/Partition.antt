-- ===== src/Billing/Dashboard/Partition.antt =====
-- The dashboard counts every active line once.
use getupnet.Prelude.{
  ℕ, ◌+◌, ◌==◌, ◌≡◌, refl, ap, sym, subst, ◌∙◌, Bool, true, ◌&&◌, none, some, List, [], ◌∷◌, length,
  any, map, is_set, All, arith,
}
use getupnet.Prelude.Rows.{Table, browse, ids, ids-assign}
use getupnet.Prelude.Unique.{UniqueIds, Passes, matching-Passes, All-permutation}
use getupnet.Database.{Database}
use getupnet.Database.Billing.{Invoice}
use getupnet.Platform.{Platform}
use getupnet.Billing.Subscription.{is_open}
use getupnet.Billing.Status.{
  Status, put, mark, mark_all, records, is_one_of, grace_days, get_subscription_status_map,
}
use getupnet.Billing.Dashboard.{
  Accounting, count, is_up_to_date, is_in_grace, is_in_arrears, active_ids, compute_metrics,
}

-- The three counts together are the length of the map.
counts-length :
    (m : Table Status)
    → count is_up_to_date m + count is_in_grace m + count is_in_arrears m ≡ length m
unfolding count
counts-length [] = refl
counts-length ((i, Status.up_to_date) ∷ m) = omega (arith, counts-length m)
counts-length ((i, Status.in_grace) ∷ m) = omega (arith, counts-length m)
counts-length ((i, Status.in_arrears) ∷ m) = omega (arith, counts-length m)

length-ids : (m : Table Status) → length (ids m) ≡ length m
unfolding ids
length-ids [] = refl
length-ids ((i, status) ∷ m) = omega (arith, length-ids m)

ids-start : (subs : List ℕ) → ids (map (λ i. (i, Status.up_to_date)) subs) ≡ subs
unfolding ids
ids-start [] = refl
ids-start (i ∷ subs) = ap (λ l. i ∷ l) (ids-start subs)

-- A key of the map is found in it.
found-key :
    (i : ℕ) (m : Table Status) → any (λ j. i == j) (ids m) ≡ true → is_set (browse i m) ≡ true
unfolding ids browse
found-key i [] h = ground (arith, h)
found-key i ((j, status) ∷ m) h = ground (arith, h, found-key i m)

ids-put :
    (i : ℕ) (status : Status) (m : Table Status)
    → any (λ j. i == j) (ids m) ≡ true
    → ids (put i status m) ≡ ids m
unfolding put
ids-put i status m known = rw (found-key i m known) (ids-assign i (λ _. status) m)

ids-mark :
    (today days : ℕ) (move : Invoice) (m : Table Status)
    → is_one_of (ids m) move.isp_subscription_id ≡ true
    → ids (mark today days move m) ≡ ids m
unfolding mark
ids-mark today days move m known =
    elim move.isp_subscription_id
        as (λ sub.
          is_one_of (ids m) sub ≡ true
          → ids (mark today days (record move { isp_subscription_id = sub }) m) ≡ ids m) [
            | none ↦ λ _. refl
            | some i ↦ λ key.
                ground
                  (arith, key, ids-put i Status.in_grace m key, ids-put i Status.in_arrears m key)
          ]
      known

ids-mark_all :
    (today days : ℕ) (moves : List Invoice) (m : Table Status)
    → All (λ move. is_one_of (ids m) move.isp_subscription_id ≡ true) moves
    → ids (mark_all today days moves m) ≡ ids m
unfolding mark_all
ids-mark_all today days [] m h = refl
ids-mark_all today days (move ∷ moves) m (h, hs) =
    let same = ids-mark today days move m h in
    let further =
      subst
        (λ (l : List ℕ). All (λ (inv : Invoice). is_one_of l inv.isp_subscription_id ≡ true) moves)
        (sym same) hs in
    ids-mark_all today days moves (mark today days move m) further ∙ same

-- The domain of the invoices that mark a line.
abbrev marks : List ℕ → ℕ → Invoice → Bool
marks subs _ inv =
    is_one_of subs inv.isp_subscription_id && is_open inv && is_set inv.invoice_date_due

records-found :
    (i : ℕ) (l : List ℕ) (t : Table Invoice) {row : Invoice}
    → browse i t ≡ some row
    → records (i ∷ l) t ≡ row ∷ records l t
unfolding records
records-found i l t {row} there = rw (records, there) refl

records-marks :
    (subs l : List ℕ) (t : Table Invoice)
    → All (Passes (marks subs) t) l
    → All (λ move. is_one_of subs move.isp_subscription_id ≡ true) (records l t)
unfolding records
records-marks subs [] t h = tt
records-marks subs (i ∷ l) t ((row, there, passes), hs) =
    subst (All (λ (move : Invoice). is_one_of subs move.isp_subscription_id ≡ true))
      (sym (records-found i l t {row = row} there))
      (ground (arith, passes), records-marks subs l t hs)

module _ ⦃platform : Platform⦄ where
  ids-status_map :
      (db : Database) → UniqueIds db.invoices → ids (get_subscription_status_map db) ≡ active_ids db
  unfolding get_subscription_status_map
  ids-status_map db unique =
      let subs = active_ids db in
      let start = map (λ i. (i, Status.up_to_date)) subs in
      let found =
        All-permutation (Passes (marks subs) db.invoices)
          (platform.search_perm Invoice (marks subs) db.invoices)
          (matching-Passes (marks subs) db.invoices unique) in
      let marked =
        records-marks subs (platform.search Invoice (marks subs) db.invoices) db.invoices found in
      ids-mark_all db.today (grace_days db)
        (records (platform.search Invoice (marks subs) db.invoices) db.invoices) start
        (subst
          (λ (l : List ℕ).
            All (λ (inv : Invoice). is_one_of l inv.isp_subscription_id ≡ true)
              (records (platform.search Invoice (marks subs) db.invoices) db.invoices))
          (sym (ids-start subs)) marked)
      ∙ ids-start subs

  -- If no two invoices have one id, the dashboard counts every active line once: those up to date,
  -- those in grace and those in arrears are together the active ones, whatever the invoices say.
  pub compute_metrics-partition :
      (accounting : Accounting) (db : Database)
      → UniqueIds db.invoices
      → let metrics = compute_metrics accounting db in
        metrics.up_to_date_subscriptions + metrics.grace_subscriptions
          + metrics.overdue_subscriptions
        ≡ metrics.active_subscriptions
  unfolding compute_metrics
  compute_metrics-partition accounting db unique =
      counts-length (get_subscription_status_map db)
      ∙ sym (length-ids (get_subscription_status_map db))
      ∙ ap length (ids-status_map db unique)
