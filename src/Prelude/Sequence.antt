-- ===== src/Prelude/Sequence.antt =====
-- Laws of actions that are run one after the other.
use getupnet.Prelude.{◌≡◌, refl, ap, ◌∙◌, arith}
use getupnet.Prelude.Effects.{Action, Result, ok, err, skip, continue, ◌>>◌}

module _ {S : Type 0} where
  continue-skip : (p : Result (Unit {0}) × S) → continue p.0 (λ _. skip) p.1 ≡ p
  continue-skip (ok u, s) = refl
  continue-skip (err e, s) = refl

  pub then_skip : (m : Action S (Unit {0})) → (m >> skip) ≡ m
  then_skip m = λ i s. continue-skip (m s) i

  continue_assoc :
      (p : Result (Unit {0}) × S) (k l : Action S (Unit {0}))
      → let q = continue p.0 (λ _. k) p.1 in
        continue q.0 (λ _. l) q.1 ≡ continue p.0 (λ _. k >> l) p.1
  continue_assoc (ok u, s) k l = refl
  continue_assoc (err e, s) k l = refl

  pub then_assoc : (m k l : Action S (Unit {0})) → ((m >> k) >> l) ≡ (m >> (k >> l))
  then_assoc m k l = λ i s. continue_assoc (m s) k l i

-- An action that goes through is followed by the next one.
pub then_ok :
    {S A : Type 0} (m : Action S (Unit {0})) (k : Action S A) (s : S)
    → (m s).0 ≡ ok tt
    → (m >> k) s ≡ k (m s).1
then_ok m k s goes = rw goes refl

-- Where two actions go through, the first does.
pub first_ok :
    {S A : Type 0} (m : Action S (Unit {0})) (k : Action S A) (s : S) {a : A}
    → ((m >> k) s).0 ≡ ok a
    → (m s).0 ≡ ok tt
first_ok {S} {A} m k s {a} = go (m s).0 (m s).1
  where
    go : (r : Result (Unit {0})) (s : S) → (continue r (λ _. k) s).0 ≡ ok a → r ≡ ok tt
    go (ok tt) s goes = refl
    go (err e) s goes = absurd (ground (arith, goes))

-- A check that leaves the state: it passed, where what it guards goes through.
pub guard_ok :
    {S A : Type 0} (m : Action S (Unit {0})) (k : Action S A) (s : S) {a : A}
    → (m s).1 ≡ s
    → ((m >> k) s).0 ≡ ok a
    → ((m s).0 ≡ ok tt) × ((m >> k) s ≡ k s)
guard_ok m k s same goes =
    let first = first_ok m k s goes in (first, then_ok m k s first ∙ ap k same)
