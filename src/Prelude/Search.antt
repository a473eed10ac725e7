-- ===== src/Prelude/Search.antt =====
-- Facts about a search, from the law that it is a permutation of the matching rows.
use mathlib.Core.List.{Permᴰ}
use getupnet.Prelude.{
  ℕ, suc, ◌≡◌, refl, ap, ◌∙◌, Bool, false, none, some, List, [], ◌∷◌, ◌++◌, length, head?, arith,
  if◌then◌else◌,
}
use getupnet.Prelude.Rows.{Table, browse, matching}

module _ {A : Type 0} where
  pub length-permutation : {l m : List A} → Permᴰ l m → length l ≡ length m
  length-permutation Permᴰ.nil = refl
  length-permutation (Permᴰ.cons e p) = ap suc (length-permutation p)
  length-permutation (Permᴰ.swap e f) = refl
  length-permutation (Permᴰ.trans p q) = length-permutation p ∙ length-permutation q

  length-nil : (l : List A) → length l ≡ 0 → l ≡ []
  length-nil [] h = refl
  length-nil (x ∷ l) h = absurd (omega (arith, h))

  single-permutation : {l m : List A} → Permᴰ l m → (a : A) → m ≡ a ∷ [] → l ≡ a ∷ []
  single-permutation Permᴰ.nil a h = h
  single-permutation (Permᴰ.cons {l₁ = l} e p) a h =
      ground (arith, e, h, length-permutation p, length-nil l)
  single-permutation (Permᴰ.swap e f) a h = absurd (ground (arith, h))
  single-permutation (Permᴰ.trans p q) a h = single-permutation p a (single-permutation q a h)

  -- What is found where one thing can be, and where nothing can.
  pub head-single : {l m : List A} (a : A) → Permᴰ l m → m ≡ a ∷ [] → head? l ≡ some a
  head-single a p h = ap head? (single-permutation p a h)

  pub head-none : {l m : List A} → Permᴰ l m → m ≡ [] → head? l ≡ none
  head-none {l} p h = ap head? (length-nil l (length-permutation p ∙ ap length h))

  pub matching-append :
      (p : ℕ → A → Bool) (i : ℕ) (row : A) (t : Table A)
      → matching p (t ++ (i, row) ∷ []) ≡ matching p t ++ (if p i row then i ∷ [] else [])
  unfolding matching
  matching-append p i row [] = refl
  matching-append p i row ((k, other) ∷ t) = ground (arith, matching-append p i row t)

  -- Nothing matches where the matching rows are none.
  pub matching-none :
      (p : ℕ → A → Bool) (j : ℕ) (t : Table A) (row : A)
      → length (matching p t) ≡ 0
      → browse j t ≡ some row
      → p j row ≡ false
  unfolding matching browse
  matching-none p j [] row none_found found = cc
  matching-none p j ((k, other) ∷ t) row none_found found = ground (arith, matching-none p j t row)
