-- ===== src/Prelude/Rows.antt =====
-- A table of the database: rows under their ids. Reading a row and assigning to its fields are
-- functions; what Odoo does on top of that (search, ids of new rows) is the interface of Platform.antt.
use getupnet.Prelude.{
  ℕ, ◌≡◌, ◌≢◌, refl, Bool, Option, none, some, List, [], ◌∷◌, ◌++◌, arith, ◌==◌, is_set, All,
  if◌then◌else◌,
}

abbrev pub Table : Type 0 → Type 0
Table A = List (ℕ × A)

module _ {A : Type 0} where
  unfoldable pub ids : Table A → List ℕ
  ids [] = []
  ids ((j, _) ∷ t) = j ∷ ids t

  -- The row with an id, if there is one.
  unfoldable pub browse : ℕ → Table A → Option A
  browse i [] = none
  browse i ((j, row) ∷ t) = if i == j then some row else browse i t

  -- Assigns to fields of the row with an id.
  unfoldable pub assign : ℕ → (A → A) → Table A → Table A
  assign i f [] = []
  assign i f ((j, row) ∷ t) = (j, if i == j then f row else row) ∷ assign i f t

  -- The ids of the rows that pass a test of id and fields, in the table's order.
  unfoldable pub matching : (ℕ → A → Bool) → Table A → List ℕ
  matching p [] = []
  matching p ((j, row) ∷ t) = if p j row then j ∷ matching p t else matching p t

  -- A field assignment on the row that a read finds.
  abbrev pub map_row : (A → A) → Option A → Option A
  map_row f none = none
  map_row f (some row) = some (f row)

  pub browse-assign :
      (i j : ℕ) (f : A → A) (t : Table A)
      → browse j (assign i f t) ≡ (if i == j then map_row f (browse j t) else browse j t)
  unfolding browse assign
  browse-assign i j f [] = ground arith
  browse-assign i j f ((k, row) ∷ t) = ground (arith, browse-assign i j f t)

  pub ids-assign : (i : ℕ) (f : A → A) (t : Table A) → ids (assign i f t) ≡ ids t
  unfolding ids assign
  ids-assign i f [] = refl
  ids-assign i f ((k, row) ∷ t) = ground (arith, ids-assign i f t)

  pub browse-append :
      (i j : ℕ) (row : A) (t : Table A)
      → browse j (t ++ (i, row) ∷ [])
        ≡ (if is_set (browse j t) then browse j t else if j == i then some row else none)
  unfolding browse
  browse-append i j row [] = refl
  browse-append i j row ((k, other) ∷ t) = ground (arith, browse-append i j row t)

  -- A row whose id no other row has is the one that a read finds.
  pub browse_fresh :
      (i : ℕ) (row : A) (t : Table A)
      → All (λ j. j ≢ i) (ids t)
      → browse i (t ++ (i, row) ∷ []) ≡ some row
  unfolding browse ids
  browse_fresh i row [] h = ground arith
  browse_fresh i row ((k, other) ∷ t) h = ground (arith, browse_fresh i row t h.1)
