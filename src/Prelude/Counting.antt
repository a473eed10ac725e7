-- ===== src/Prelude/Counting.antt =====
-- How many ids pass a test, in whatever order, and loops that add to a length.
use mathlib.Core.List.{Permᴰ}
use getupnet.Prelude.{
  ℕ, ◌+◌, ◌≡◌, ◌≢◌, refl, ap, ◌∙◌, Bool, true, some, List, [], ◌∷◌, All, arith, if◌then◌else◌,
}
use getupnet.Prelude.Effects.{Action, ok, for_each}
use getupnet.Prelude.Rows.{Table, browse, ids, matching}
use getupnet.Prelude.Sequence.{then_ok}
use getupnet.Prelude.Unique.{UniqueIds}

abbrev pub count : (ℕ → Bool) → List ℕ → ℕ
count p [] = 0
count p (i ∷ l) = (if p i then 1 else 0) + count p l

pub count-permutation : (p : ℕ → Bool) {l m : List ℕ} → Permᴰ l m → count p l ≡ count p m
count-permutation p Permᴰ.nil = refl
count-permutation p (Permᴰ.cons e q) =
    let same = ap p e in let rest = count-permutation p q in ground (arith, same, rest)
count-permutation p (Permᴰ.swap e f) =
    let one = ap p e in let other = ap p f in ground (arith, one, other)
count-permutation p (Permᴰ.trans q r) = count-permutation p q ∙ count-permutation p r

module _ {A : Type 0} where
  -- A read in a table finds every row of another one.
  abbrev Finds : Table A → Table A → Type 0
  Finds whole [] = Unit
  Finds whole ((i, row) ∷ t) = (browse i whole ≡ some row) × Finds whole t

  Finds-cons :
      (k : ℕ) (row : A) (whole t : Table A)
      → All (λ j. j ≢ k) (ids t)
      → Finds whole t
      → Finds ((k, row) ∷ whole) t
  unfolding ids browse
  Finds-cons k row whole [] fresh h = tt
  Finds-cons k row whole ((i, other) ∷ t) (ne, fresh) (there, h) =
      (ground (arith, ne, there), Finds-cons k row whole t fresh h)

  all_found : (t : Table A) → UniqueIds t → Finds t t
  unfolding browse
  all_found [] u = tt
  all_found ((k, row) ∷ t) (fresh, u) = (ground arith, Finds-cons k row t t fresh (all_found t u))

  count-Finds :
      (f : ℕ → Bool) (p : ℕ → A → Bool) (whole t : Table A)
      → Finds whole t
      → ((i : ℕ) (row : A) → browse i whole ≡ some row → f i ≡ true → p i row ≡ true)
      → count f (matching p t) ≡ count f (ids t)
  unfolding ids matching
  count-Finds f p whole [] h implies = refl
  count-Finds f p whole ((i, row) ∷ t) (there, h) implies =
      ground (arith, implies i row there, count-Finds f p whole t h implies)

  -- The ids that pass one test are counted among those of a search by a weaker one.
  pub count-matching :
      (f : ℕ → Bool) (p : ℕ → A → Bool) (t : Table A)
      → UniqueIds t
      → ((i : ℕ) (row : A) → browse i t ≡ some row → f i ≡ true → p i row ≡ true)
      → count f (matching p t) ≡ count f (ids t)
  count-matching f p t u implies = count-Finds f p t t (all_found t u) implies

module _ {S B : Type 0} (size : S → ℕ) (view : S → B) (f : ℕ → Bool) (start : S)
    (body : ℕ → Action S (Unit {0})) where
  -- From every state with the view of the start, the body goes through, keeps the view, and adds one
  -- to the size exactly if its id passes the test.
  abbrev pub Adds : ℕ → Type 0
  Adds i =
      (s : S)
      → view s ≡ view start
      → ((body i s).0 ≡ ok tt)
        × (view (body i s).1 ≡ view start)
        × (size (body i s).1 ≡ size s + (if f i then 1 else 0))

  pub for_each-Adds :
      (l : List ℕ)
      → All Adds l
      → (s : S) → view s ≡ view start
      → ((for_each l body s).0 ≡ ok tt) × (size (for_each l body s).1 ≡ size s + count f l)
  unfolding for_each
  for_each-Adds [] adds s same = (refl, omega arith)
  for_each-Adds (i ∷ l) (add, adds) s same =
      let (goes, kept, more) = add s same in
      let (rest, total) = for_each-Adds l adds (body i s).1 kept in
      let split = then_ok (body i) (for_each l body) s goes in
      (ap (λ r. r.0) split ∙ rest, ap (λ r. size r.1) split ∙ total ∙ omega (arith, more))
