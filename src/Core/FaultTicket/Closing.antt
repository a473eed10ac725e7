-- ===== src/Core/FaultTicket/Closing.antt =====
-- The closing time of a ticket.
use mathlib.Core.Option.{some-injective}
use native.Mathlib.Decide.{ℕ_discrete}
use getupnet.Prelude.{
  ℕ, ◌≡◌, refl, true, none, some, String, is_set, or_value, ◌==◌, Option-cases, inl, inr, arith,
  if◌then◌else◌,
}
use getupnet.Prelude.Effects.{ok}
use getupnet.Prelude.Rows.{browse, assign, browse-assign}
use getupnet.Prelude.Frame.{Keeps}
use getupnet.Database.{Database}
use getupnet.Database.Core.{FaultTicket, TicketState}
use getupnet.Platform.{Platform}
use getupnet.Core.Audit.{send_template}
use getupnet.Core.FaultTicket.{read, update, is_done, stamp, write_state, notify, finish}

-- The row that a write of the state leaves: the first closing sets the time, and it stays.
abbrev pub moved : TicketState → ℕ → FaultTicket → FaultTicket
moved state now rec = record rec {
  state = state;
  closed_at = if is_done state then some (or_value rec.closed_at now) else rec.closed_at;
}

-- For a ticket that is there, writing a state goes through and leaves the ticket in that state: the
-- first write of `resolved` or `closed` sets the closing time to the present, and every write after
-- that, those that open the ticket again included, leaves that time alone. No other ticket changes.
pub write_state-moved :
    (i j : ℕ) (state : TicketState) (db : Database) {rec : FaultTicket}
    → browse i db.fault_tickets ≡ some rec
    → ((write_state i state db).0 ≡ ok tt)
      × (browse j (write_state i state db).1.fault_tickets
          ≡ (if i == j then some (moved state db.now rec) else browse j db.fault_tickets))
unfolding write_state read update stamp
write_state-moved i j state db {rec} found =
    let f = λ (row : FaultTicket). record row { state = state } in
    let g = λ (row : FaultTicket). record row { closed_at = some db.now } in
    let table = assign i f db.fault_tickets in
    let set = browse-assign i i f db.fault_tickets in
    (
      ground (arith, found, set),
      ground (arith, found, set, browse-assign i j f db.fault_tickets, browse-assign i j g table),
    )

-- A ticket that is resolved or closed has its closing time.
abbrev pub AllStamped : Database → Type 0
AllStamped db =
    (i : ℕ) (rec : FaultTicket)
    → browse i db.fault_tickets ≡ some rec
    → is_done rec.state ≡ true
    → is_set rec.closed_at ≡ true

moved-stamped :
    (state : TicketState) (now : ℕ) (rec : FaultTicket)
    → is_done (moved state now rec).state ≡ true
    → is_set (moved state now rec).closed_at ≡ true
moved-stamped state now rec done = rw done refl

write_state-gone :
    (i : ℕ) (state : TicketState) (db : Database)
    → browse i db.fault_tickets ≡ none
    → (j : ℕ) → browse j (write_state i state db).1.fault_tickets ≡ browse j db.fault_tickets
unfolding write_state read update stamp
write_state-gone i state db gone j =
    let f = λ (row : FaultTicket). record row { state = state } in
    ground (arith, gone, browse-assign i i f db.fault_tickets, browse-assign i j f db.fault_tickets)

-- If every ticket that is resolved or closed has a closing time, then this is so after a write of
-- any state to any ticket.
pub write_state-AllStamped :
    (i : ℕ) (state : TicketState) (db : Database)
    → AllStamped db
    → AllStamped (write_state i state db).1
write_state-AllStamped i state db all j rec found done =
    elim (Option-cases (browse i db.fault_tickets)) [
      | inl gone ↦ all j rec (rw (write_state-gone i state db gone j) at found) done
      | inr (old, was) ↦
          let (goes, row) = write_state-moved i j state db was in
          elim (ℕ_discrete i j) [
            | no ne ↦ all j rec (ground (arith, row, found, ne)) done
            | yes same ↦
                let here : some (moved state db.now old) ≡ some rec =
                  ground (arith, row, found, same) in
                let is_moved = some-injective _ _ here in
                rw (← is_moved) (moved-stamped state db.now old (rw (← is_moved) at done))
          ]
    ]

module _ ⦃platform : Platform⦄ where
  notify_tickets :
      (i : ℕ) (xmlid : String) → Keeps (λ (db : Database). db.fault_tickets) (notify i xmlid)
  unfolding notify read send_template
  notify_tickets i xmlid = record { at = λ db. ground arith }

  notify_goes :
      (i : ℕ) (xmlid : String) (db : Database) {rec : FaultTicket}
      → browse i db.fault_tickets ≡ some rec
      → (notify i xmlid db).0 ≡ ok tt
  unfolding notify read send_template
  notify_goes i xmlid db found = ground (arith, found)

  -- For a ticket that is there, resolving or closing it goes through and leaves it in that state with
  -- a closing time: the one it had, or else the present.
  pub finish-moved :
      (state : TicketState) (xmlid : String) (i : ℕ) (db : Database) {rec : FaultTicket}
      → browse i db.fault_tickets ≡ some rec
      → is_done state ≡ true
      → ((finish state xmlid i db).0 ≡ ok tt)
        × (browse i (finish state xmlid i db).1.fault_tickets ≡ some (moved state db.now rec))
  unfolding finish read
  finish-moved state xmlid i db {rec} found done =
      let db1 = (write_state i state db).1 in
      let (goes, there) = write_state-moved i i state db found in
      let row : browse i db1.fault_tickets ≡ some (moved state db.now rec) =
        ground (arith, there) in
      let stamped = moved-stamped state db.now rec done in
      let kept = (notify_tickets i xmlid).at db1 in
      let sent = notify_goes i xmlid db1 row in
      (ground (arith, goes, row, stamped, sent), ground (arith, goes, row, stamped, kept))
