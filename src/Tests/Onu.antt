-- ===== src/Tests/Onu.antt =====
-- The theorems on ONU assignments, at the sample database.
use getupnet.Prelude.{ℕ, ◌≡◌, ◌≢◌, refl, true, Option, none, some, ◌⊎◌, inl, inr, arith}
use getupnet.Prelude.Effects.{ok}
use getupnet.Prelude.Rows.{browse, ids, assign, matching}
use getupnet.Database.Network.{OnuAssignment}
use getupnet.Samples.{office, db}
use getupnet.Onu.{
  read, sees, update, check_one_active_per_onu, check_one_active_per_subscription, stamp_assigned,
  stamp_unassigned, create, Values, write,
}
use getupnet.Onu.Exclusive.{ApartBy, Exclusive}
use getupnet.Onu.Created.{create-Exclusive}
use getupnet.Onu.Written.{write-Exclusive}

one_missing :
    (i j : ℕ) → i ≢ j → (browse i db.onu_assignments ≡ none) ⊎ (browse j db.onu_assignments ≡ none)
unfolding browse
one_missing i j ne = ground arith

Apart-missing :
    (key : OnuAssignment → ℕ) (a b : Option OnuAssignment)
    → (a ≡ none) ⊎ (b ≡ none)
    → ApartBy key a b
Apart-missing key none b h = tt
Apart-missing key (some a) none h = tt
Apart-missing key (some a) (some b) (inl e) = cc
Apart-missing key (some a) (some b) (inr e) = cc

sample-Exclusive : Exclusive db
sample-Exclusive = (
  λ i j ne. Apart-missing (λ row. row.onu_id) _ _ (one_missing i j ne),
  λ i j ne. Apart-missing (λ row. row.subscription_id) _ _ (one_missing i j ne),
)

-- The assignment moves to another ONU and is active.
abbrev move : Values
move = record { active = some true; onu_id = some 9; subscription_id = none }

moved : (write 1 move db).0 ≡ ok tt
unfolding write update read sees check_one_active_per_onu check_one_active_per_subscription
    stamp_assigned stamp_unassigned browse assign matching
moved = refl

write-Exclusive_example : Exclusive (write 1 move db).1
write-Exclusive_example = write-Exclusive 1 move db (λ sector. refl) sample-Exclusive moved

abbrev other_assignment : OnuAssignment
other_assignment = record {
  onu_id = 9;
  subscription_id = 8;
  active = true;
  assigned_at = none;
  unassigned_at = none;
}

added : (create other_assignment db).0 ≡ ok 2
unfolding create read sees check_one_active_per_onu check_one_active_per_subscription browse ids
    matching
added = refl

create-Exclusive_example : Exclusive (create other_assignment db).1
create-Exclusive_example =
    create-Exclusive other_assignment db {i = 2} (λ sector. refl) sample-Exclusive added
