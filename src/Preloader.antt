-- ===== src/Preloader.antt =====
-- tools/mikrotik_preloader/preloader.py, which sets up the routers of a sector over their API: the
-- calls that it makes. The state is the list of commands that one router has been sent. What
-- `print` shows on the console is left out.
pub mod Ensure
pub mod Firewall
pub mod Services
pub mod Paths
pub mod Config
pub mod Scripts
pub mod Sector
pub mod Onboard
pub mod Again
pub mod OneRule
pub mod Bridge
pub mod Cutoff
pub mod Register
pub mod Main
use getupnet.Prelude.{
  ℕ, Bool, true, false, Option, none, some, List, [], ◌∷◌, ◌++◌, String, ◌⧺◌, text_eq, is_set,
  has_text, if◌then◌else◌,
}
use getupnet.Prelude.Effects.{
  Action, Result, Exception, lib_routeros_error, skip, raise, pure, try_except, except_routeros,
  ◌>>=◌, ◌>>◌,
}
use text.Mathlib.Text.{find?}
use getupnet.Database.Network.{Command, Attributes}
use getupnet.Core.Subscription.{or_else_text}

-- A connection to a router: what it answers, by the commands that it was sent before.
pub record RouterApi : Type 0 where
  pub answer : List Command → Command → Result (List Attributes)
  -- `connect` as a user with a password: what it raises, if it does.
  pub connect : String → String → List Command → Option Exception

abbrev pub command : String → Attributes → Command
command path attributes = record { path = path; attributes = attributes }

-- `item.get(key)`
abbrev pub get : String → Attributes → Option String
get key [] = none
get key ((k, value) ∷ item) = if text_eq k key then value else get key item

-- `str(x)` of a text or of `None`.
abbrev pub show : Option String → String
show none = "None"
show (some s) = s

abbrev pub with_value : String → String → List Attributes → List Attributes
with_value field value [] = []
with_value field value (item ∷ items) =
    if text_eq (show (get field item)) value
    then item ∷ with_value field value items
    else with_value field value items

-- `x[0].get(".id") or x[0].get("id")`
abbrev pub first_id : List Attributes → Option String
first_id [] = none
first_id (item ∷ items) = or_else_text (get ".id" item) (get "id" item)

abbrev pub found : List Attributes → Bool
found [] = false
found (item ∷ items) = true

module _ ⦃api : RouterApi⦄ where
  -- `api_exec(api, path, **kwargs)`
  unfoldable pub api_exec : String → Attributes → Action (List Command) (List Attributes)
  api_exec path attributes sent =
      (api.answer sent (command path attributes), sent ++ command path attributes ∷ [])

  unfoldable pub run : String → Attributes → Action (List Command) (Unit {0})
  run path attributes = do api_exec path attributes; skip

  -- The handler in `routeros_find`.
  unfoldable pub find_in_all :
      String → String → String → Exception → Action (List Command) (List Attributes)
  find_in_all path field value (lib_routeros_error m) =
      if is_set (find? m "unknown parameter")
      then (do items ← api_exec path []; pure (with_value field value items))
      else raise (lib_routeros_error m)
  find_in_all path field value exc = raise exc

  unfoldable pub routeros_find : String → String → String → Action (List Command) (List Attributes)
  routeros_find path field value =
      try_except (api_exec path (("?" ⧺ field, some value) ∷ [])) (find_in_all path field value)

  unfoldable pub routeros_interface_exists : String → Action (List Command) Bool
  routeros_interface_exists name = do
    items ← routeros_find "/interface/print" "name" name
    pure (found items)

  unfoldable pub routeros_get_id : String → String → String → Action (List Command) (Option String)
  routeros_get_id path field value = do
    items ← routeros_find path field value
    pure (first_id items)

  -- A command whose refusal by the router is ignored.
  unfoldable pub try_run : String → Attributes → Action (List Command) (Unit {0})
  try_run path attributes = except_routeros (run path attributes) skip

  -- `if routeros_find(...): return`, and then one command.
  unfoldable pub unless_found :
      String → String → String → String → Attributes → Action (List Command) (Unit {0})
  unless_found path field value add attributes = do
    items ← routeros_find path field value
    if found items then skip else run add attributes
