-- ===== src/Prelude/Frame.antt =====
-- What an action leaves alone: a view of the state that is the same after it, however it ends. One
-- rule for each way to build an action, for `search`.
use getupnet.Prelude.{
  ◌≡◌, refl, ◌∙◌, Bool, true, false, Option, none, some, List, [], ◌∷◌, if◌then◌else◌,
}
use getupnet.Prelude.Effects.{
  Action, Result, Exception, ok, err, lib_routeros_error, pure, raise, gets, or_raise, skip, modify,
  when, try_except, except_routeros, recover, recover_routeros, continue, for_each, ◌>>=◌,
}

module _ {S B : Type 0} where
  pub record Keeps (view : S → B) {A : Type 0} (m : Action S A) : Type 0 where
    pub at : (s : S) → view (m s).1 ≡ view s

  module _ {view : S → B} where
    pub Keeps-modify : (f : S → S) → ((s : S) → view (f s) ≡ view s) → Keeps view (modify f)
    Keeps-modify f h = record { at = h }

    pub Keeps-skip : Keeps view skip
    Keeps-skip = record { at = λ s. refl }

    module _ {A : Type 0} where
      pub Keeps-pure : (a : A) → Keeps view (pure a)
      Keeps-pure a = record { at = λ s. refl }

      pub Keeps-raise : (e : Exception) → Keeps view (raise {A = A} e)
      Keeps-raise e = record { at = λ s. refl }

      pub Keeps-gets : (f : S → A) → Keeps view (gets f)
      Keeps-gets f = record { at = λ s. refl }

      -- A read that depends on the state.
      pub Keeps-read : (o : S → Option A) (e : Exception) → Keeps view (λ s. or_raise (o s) e s)
      Keeps-read o e = record { at = λ s. go (o s) s }
        where
          go : (a : Option A) (s : S) → view (or_raise a e s).1 ≡ view s
          go none s = refl
          go (some a) s = refl

      pub Keeps-or_raise : (o : Option A) (e : Exception) → Keeps view (or_raise o e)
      Keeps-or_raise none e = record { at = λ s. refl }
      Keeps-or_raise (some a) e = record { at = λ s. refl }

      pub Keeps-if :
          (b : Bool) (m n : Action S A)
          → Keeps view m
          → Keeps view n
          → Keeps view (if b then m else n)
      Keeps-if true m n km kn = km
      Keeps-if false m n km kn = kn

      pub Keeps-try_except :
          (m : Action S A) (handler : Exception → Action S A)
          → Keeps view m
          → ((e : Exception) → Keeps view (handler e))
          → Keeps view (try_except m handler)
      Keeps-try_except m handler km kh = record { at = λ s. go (m s).0 (m s).1 ∙ km.at s }
        where
          go : (r : Result A) (s : S) → view (recover r handler s).1 ≡ view s
          go (ok a) s = refl
          go (err e) s = (kh e).at s

      pub Keeps-except_routeros :
          (m n : Action S A) → Keeps view m → Keeps view n → Keeps view (except_routeros m n)
      Keeps-except_routeros m n km kn = record { at = λ s. go (m s).0 (m s).1 ∙ km.at s }
        where
          go : (r : Result A) (s : S) → view (recover_routeros r n s).1 ≡ view s
          go (err (lib_routeros_error text)) s = kn.at s
          go r s = refl

    pub Keeps-when : (b : Bool) (m : Action S (Unit {0})) → Keeps view m → Keeps view (when b m)
    Keeps-when true m km = km
    Keeps-when false m km = Keeps-skip

    pub Keeps-bind :
        {A C : Type 0} (m : Action S A) (f : A → Action S C)
        → Keeps view m
        → ((a : A) → Keeps view (f a))
        → Keeps view (m >>= f)
    Keeps-bind {A} m f km kf = record { at = λ s. go (m s).0 (m s).1 ∙ km.at s }
      where
        go : (r : Result A) (s : S) → view (continue r f s).1 ≡ view s
        go (ok a) s = (kf a).at s
        go (err e) s = refl

    pub Keeps-for_each :
        {A : Type 0} (xs : List A) (body : A → Action S (Unit {0}))
        → ((a : A) → Keeps view (body a))
        → Keeps view (for_each xs body)
    unfolding for_each
    Keeps-for_each [] body kb = Keeps-skip
    Keeps-for_each (x ∷ xs) body kb =
        Keeps-bind (body x) (λ _. for_each xs body) (kb x) (λ _. Keeps-for_each xs body kb)

pub ruleset frame_rules = (
  Keeps-skip, Keeps-pure, Keeps-raise, Keeps-gets, Keeps-read, Keeps-or_raise, Keeps-if,
  Keeps-try_except, Keeps-except_routeros, Keeps-when, Keeps-bind, Keeps-for_each,
)
