-- ===== src/Prelude/Effects.antt =====
-- Methods that change a state and may raise. What was written before a raise stays written, so the
-- state comes back beside the exception too.
use Prim.Native.String.{String}
use mathlib.Core.Bool.{Bool, true, false}
use mathlib.Core.Option.{Option, none, some}
use mathlib.Core.List.{List, [], ◌∷◌}

-- The exception classes that the program raises or tells apart, with their message.
pub data Exception : Type 0 where
  validation_error user_error lib_routeros_error runtime_error missing_error value_error
        access_error other_error :
      String → Exception

-- `str(exc)`
abbrev pub message : Exception → String
message (validation_error m) = m
message (user_error m) = m
message (lib_routeros_error m) = m
message (runtime_error m) = m
message (missing_error m) = m
message (value_error m) = m
message (access_error m) = m
message (other_error m) = m

pub data Result (A : Type 0) : Type 0 where
  ok : A → Result A
  err : Exception → Result A

abbrev pub is_ok : {A : Type 0} → Result A → Bool
is_ok (ok a) = true
is_ok (err e) = false

abbrev pub Action : Type 0 → Type 0 → Type 0
Action S A = S → Result A × S

module _ {S A : Type 0} where
  abbrev pub pure : A → Action S A
  pure a s = (ok a, s)

  abbrev pub raise : Exception → Action S A
  raise e s = (err e, s)

  abbrev pub gets : (S → A) → Action S A
  gets f s = (ok (f s), s)

  abbrev pub or_raise : Option A → Exception → Action S A
  or_raise none e s = (err e, s)
  or_raise (some a) e s = (ok a, s)

  -- `try: m  except Exception as exc: handler(exc)`
  abbrev pub recover : Result A → (Exception → Action S A) → S → Result A × S
  recover (ok a) handler s = (ok a, s)
  recover (err e) handler s = handler e s

  abbrev pub try_except : Action S A → (Exception → Action S A) → Action S A
  try_except m handler s = let (r, s') = m s in recover r handler s'

  -- `except LibRouterosError: handler()`: any other exception passes through
  abbrev pub recover_routeros : Result A → Action S A → S → Result A × S
  recover_routeros (err (lib_routeros_error m)) handler s = handler s
  recover_routeros r handler s = (r, s)

  abbrev pub except_routeros : Action S A → Action S A → Action S A
  except_routeros m handler s = let (r, s') = m s in recover_routeros r handler s'

module _ {S A B : Type 0} where
  abbrev pub continue : Result A → (A → Action S B) → S → Result B × S
  continue (ok a) f s = f a s
  continue (err e) f s = (err e, s)

  infixl 5 ◌>>=◌ ◌>>◌
  abbrev pub ◌>>=◌ : Action S A → (A → Action S B) → Action S B
  ◌>>=◌ m f s = let (r, s') = m s in continue r f s'

  abbrev pub ◌>>◌ : Action S A → Action S B → Action S B
  m >> k = m >>= λ _. k

module _ {S : Type 0} where
  abbrev pub modify : (S → S) → Action S (Unit {0})
  modify f s = (ok tt, f s)

  abbrev pub skip : Action S (Unit {0})
  skip s = (ok tt, s)

  abbrev pub when : Bool → Action S (Unit {0}) → Action S (Unit {0})
  when true m = m
  when false m = skip

  -- `for x in xs: body(x)`: a raise ends the loop
  unfoldable pub for_each : {A : Type 0} → List A → (A → Action S (Unit {0})) → Action S (Unit {0})
  for_each [] body = skip
  for_each (x ∷ xs) body = body x >> for_each xs body
