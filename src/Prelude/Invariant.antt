-- ===== src/Prelude/Invariant.antt =====
-- A predicate on states that an action maintains, whether it returns or raises.
use getupnet.Prelude.{Bool, true, false, Option, none, some, List, [], ◌∷◌, if◌then◌else◌}
use getupnet.Prelude.Effects.{
  Action, Result, Exception, ok, err, pure, raise, gets, or_raise, skip, when, continue, for_each,
  ◌>>=◌,
}

module _ {S : Type 0} where
  pub record Maintains {A : Type 0} (P : S → Type 0) (m : Action S A) : Type 0 where
    pub at : (s : S) → P s → P (m s).1

  module _ {P : S → Type 0} where
    pub Maintains-skip : Maintains P skip
    Maintains-skip = record { at = λ s h. h }

    pub Maintains-when :
        (b : Bool) (m : Action S (Unit {0})) → Maintains P m → Maintains P (when b m)
    Maintains-when true m km = km
    Maintains-when false m km = Maintains-skip

    module _ {A : Type 0} where
      pub Maintains-pure : (a : A) → Maintains P (pure a)
      Maintains-pure a = record { at = λ s h. h }

      pub Maintains-raise : (e : Exception) → Maintains P (raise {A = A} e)
      Maintains-raise e = record { at = λ s h. h }

      pub Maintains-gets : (f : S → A) → Maintains P (gets f)
      Maintains-gets f = record { at = λ s h. h }

      pub Maintains-if :
          (b : Bool) (m n : Action S A)
          → Maintains P m
          → Maintains P n
          → Maintains P (if b then m else n)
      Maintains-if true m n km kn = km
      Maintains-if false m n km kn = kn

      pub Maintains-read :
          (o : S → Option A) (e : Exception) → Maintains P (λ s. or_raise (o s) e s)
      Maintains-read o e = record { at = λ s. go (o s) s }
        where
          go : (a : Option A) (s : S) → P s → P (or_raise a e s).1
          go none s h = h
          go (some a) s h = h

    pub Maintains-bind :
        {A C : Type 0} (m : Action S A) (f : A → Action S C)
        → Maintains P m
        → ((a : A) → Maintains P (f a))
        → Maintains P (m >>= f)
    Maintains-bind {A} m f km kf = record { at = λ s h. go (m s).0 (m s).1 (km.at s h) }
      where
        go : (r : Result A) (s : S) → P s → P (continue r f s).1
        go (ok a) s h = (kf a).at s h
        go (err e) s h = h

    pub Maintains-for_each :
        {A : Type 0} (xs : List A) (body : A → Action S (Unit {0}))
        → ((a : A) → Maintains P (body a))
        → Maintains P (for_each xs body)
    unfolding for_each
    Maintains-for_each [] body kb = Maintains-skip
    Maintains-for_each (x ∷ xs) body kb =
        Maintains-bind (body x) (λ _. for_each xs body) (kb x) (λ _. Maintains-for_each xs body kb)

pub ruleset invariant_rules = (
  Maintains-skip, Maintains-when, Maintains-pure, Maintains-raise, Maintains-gets, Maintains-read,
  Maintains-if, Maintains-bind, Maintains-for_each,
)
