-- ===== src/Prelude/Unique.antt =====
-- Tables whose rows have ids of their own, and what a search of such a table gives.
use mathlib.Core.List.{Permᴰ}
use getupnet.Prelude.{
  ℕ, ◌≡◌, ◌≢◌, refl, sym, subst, Bool, true, false, Bool-cases, inl, inr, some, List, [], ◌∷◌,
  is_set, All, arith,
}
use getupnet.Prelude.Rows.{Table, browse, ids, matching}

pub All-permutation : (P : ℕ → Type 0) {l m : List ℕ} → Permᴰ l m → All P m → All P l
All-permutation P Permᴰ.nil h = tt
All-permutation P (Permᴰ.cons e p) (h, hs) = (subst P (sym e) h, All-permutation P p hs)
All-permutation P (Permᴰ.swap e f) (h, (k, hs)) = (subst P (sym e) k, (subst P (sym f) h, hs))
All-permutation P (Permᴰ.trans p q) h = All-permutation P p (All-permutation P q h)

module _ {A : Type 0} where
  abbrev pub UniqueIds : Table A → Type 0
  UniqueIds [] = Unit
  UniqueIds ((i, _) ∷ t) = All (λ j. j ≢ i) (ids t) × UniqueIds t

  pub browse-absent : (i : ℕ) (t : Table A) → All (λ j. j ≢ i) (ids t) → is_set (browse i t) ≡ false
  unfolding browse ids
  browse-absent i [] h = refl
  browse-absent i ((j, row) ∷ t) (h, hs) = ground (arith, browse-absent i t hs, h)

  -- The row under an id is one that the test is true of.
  abbrev pub Passes : (ℕ → A → Bool) → Table A → ℕ → Type 0
  Passes p t i = (row : A) × (browse i t ≡ some row) × (p i row ≡ true)

  Passes-cons :
      (p : ℕ → A → Bool) (k : ℕ) (row : A) (t : Table A) (l : List ℕ)
      → is_set (browse k t) ≡ false
      → All (Passes p t) l
      → All (Passes p ((k, row) ∷ t)) l
  unfolding browse
  Passes-cons p k row t [] absent h = tt
  Passes-cons p k row t (i ∷ l) absent ((found, there, passes), hs) =
      ((found, ground (arith, there, absent), passes), Passes-cons p k row t l absent hs)

  pub matching-Passes :
      (p : ℕ → A → Bool) (t : Table A) → UniqueIds t → All (Passes p t) (matching p t)
  unfolding matching browse
  matching-Passes p [] u = tt
  matching-Passes p ((k, row) ∷ t) (fresh, u) =
      let rest =
        Passes-cons p k row t (matching p t) (browse-absent k t fresh) (matching-Passes p t u) in
      elim (Bool-cases (p k row)) [
        | inl passes ↦ rw passes ((row, ground arith, passes), rest)
        | inr fails ↦ rw fails rest
      ]
