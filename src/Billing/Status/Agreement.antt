-- ===== src/Billing/Status/Agreement.antt =====
-- Where the customer and the office are told the same about a line, and where not.
use getupnet.Prelude.{
  ℕ, ◌==◌, ◌≡◌, refl, Bool, true, not, ◌&&◌, ◌||◌, none, some, List, [], ◌∷◌, is_set, any, All,
  Bool-cases, inl, inr, arith, if◌then◌else◌,
}
use getupnet.Prelude.Rows.{Table, browse, browse-assign, browse-append}
use getupnet.Database.Billing.{Invoice}
use getupnet.Mikrotik.Handlers.{same_id}
use getupnet.Billing.Status.{Status, is_within, is_late, portal_answer, put, mark, mark_all}

browse-put :
    (i j : ℕ) (status : Status) (m : Table Status)
    → browse j (put i status m) ≡ (if i == j then some status else browse j m)
unfolding put
browse-put i j status m =
    ground (arith, browse-assign i j (λ _. status) m, browse-append i j status m)

-- The line's own invoices among those of a list.
abbrev pub of_line : ℕ → List Invoice → List Invoice
of_line i [] = []
of_line i (move ∷ moves) =
    if same_id move.isp_subscription_id i then move ∷ of_line i moves else of_line i moves

-- An open invoice with a due date, past its days of grace.
abbrev pub is_beyond : ℕ → ℕ → Invoice → Bool
is_beyond today days move = is_set move.invoice_date_due && not (is_within today days move)

-- The status that a list of the line's invoices gives it, from the one it has.
abbrev pub worst : ℕ → ℕ → Status → List Invoice → Status
worst today days start moves =
    if is_late (some start) || any (is_beyond today days) moves
    then Status.in_arrears
    else if any (is_within today days) moves
    then Status.in_grace
    else start

mark_step :
    (today days i : ℕ) (move : Invoice) (m : Table Status) (start : Status)
    → browse i m ≡ some start
    → browse i (mark today days move m) ≡ some (worst today days start (of_line i (move ∷ [])))
unfolding mark
mark_step today days i move m start found =
    elim move.isp_subscription_id
      as (λ sub.
        browse i (mark today days (record move { isp_subscription_id = sub }) m)
        ≡ some
            (worst today days start (of_line i (record move { isp_subscription_id = sub } ∷ [])))) [
              | none ↦ ground (arith, found)
              | some j ↦ ground (
                arith,
                found,
                browse-put j i Status.in_grace m,
                browse-put j i Status.in_arrears m,
              )
            ]

worst-line :
    (today days i : ℕ) (start : Status) (move : Invoice) (moves : List Invoice)
    → worst today days (worst today days start (of_line i (move ∷ []))) (of_line i moves)
      ≡ worst today days start (of_line i (move ∷ moves))
worst-line today days i start move moves = elim (Bool-cases (same_id move.isp_subscription_id i)) [
  | inr other ↦ rw other (start_stays today days start (of_line i moves))
  | inl own ↦ rw own (ground arith)
]
  where
    start_stays :
        (today days : ℕ) (start : Status) (moves : List Invoice)
        → worst today days (worst today days start []) moves ≡ worst today days start moves
    start_stays today days start moves = ground arith

-- However many invoices there are of other lines between them, the loop of the dashboard gives a line
-- of its map the status that the line's own invoices give it: in arrears if it had been so or if one
-- of them is past its days of grace, else in grace if one of them is within them, else as before.
pub mark_all-worst :
    (today days i : ℕ) (moves : List Invoice) (m : Table Status) (start : Status)
    → browse i m ≡ some start
    → browse i (mark_all today days moves m) ≡ some (worst today days start (of_line i moves))
unfolding mark_all
mark_all-worst today days i [] m start found = ground (arith, found)
mark_all-worst today days i (move ∷ moves) m start found =
    rw (← worst-line today days i start move moves) (
      mark_all-worst today days i moves (mark today days move m)
        (worst today days start (of_line i (move ∷ [])))
        (mark_step today days i move m start found))

-- What the domain of both searches asks of an invoice's due date.
abbrev pub HasDue : Invoice → Type 0
HasDue move = is_set move.invoice_date_due ≡ true

-- The line has an invoice past its days of grace and another within them.
abbrev pub is_mixed : ℕ → ℕ → List Invoice → Bool
is_mixed today days moves = any (is_beyond today days) moves && any (is_within today days) moves

of_line-All : (i : ℕ) (moves : List Invoice) → All HasDue moves → All HasDue (of_line i moves)
of_line-All i [] h = tt
of_line-All i (move ∷ moves) (due, h) = elim (Bool-cases (same_id move.isp_subscription_id i)) [
  | inr other ↦ rw other (of_line-All i moves h)
  | inl own ↦ rw own (due, of_line-All i moves h)
]

answer-worst :
    (today days : ℕ) (moves : List Invoice)
    → All HasDue moves
    → portal_answer today days moves ≡ (
        if is_mixed today days moves
        then Status.in_grace
        else worst today days Status.up_to_date moves)
unfolding portal_answer
answer-worst today days [] h = refl
answer-worst today days (move ∷ moves) (due, h) = ground (arith, due)

-- For open invoices with due dates and a line that the dashboard starts as up to date, the customer
-- is told that the line is in grace if it has an invoice past its days of grace and another within
-- them, while the dashboard has it in arrears; in all other cases the two are the same.
pub portal-dashboard :
    (today days i : ℕ) (moves : List Invoice) (m : Table Status)
    → All HasDue moves
    → browse i m ≡ some Status.up_to_date
    → let own = of_line i moves in
      let office = browse i (mark_all today days moves m) in
      (some (portal_answer today days own)
        ≡ (if is_mixed today days own then some Status.in_grace else office))
      × (office ≡ (if is_mixed today days own then some Status.in_arrears else office))
portal-dashboard today days i moves m due found =
    let answer = answer-worst today days (of_line i moves) (of_line-All i moves due) in
    let office = mark_all-worst today days i moves m Status.up_to_date found in
    (ground (arith, answer, office), ground (arith, office))
