-- ===== src/Preloader/Bridge.antt =====
-- The interface that the connection runs over stays out of the bridge.
use text.Mathlib.Text.{find?}
use getupnet.Prelude.{
  is_set, ◌≡◌, refl, Bool, true, false, ◌&&◌, some, List, [], ◌∷◌, ◌++◌, String, ◌⧺◌, text_eq,
  has_text, All, inl, inr, Bool-cases, arith, if◌then◌else◌,
}
use getupnet.Prelude.Effects.{
  Result, Exception, ok, err, skip, pure, raise, recover, lib_routeros_error, ◌>>=◌,
}
use getupnet.Prelude.Invariant.{
  Maintains, Maintains-skip, Maintains-if, Maintains-bind, Maintains-for_each,
}
use getupnet.Database.Network.{Command, Attributes}
use getupnet.Preloader.{
  RouterApi, command, found, get, show, api_exec, run, routeros_find, find_in_all,
  routeros_interface_exists, with_value,
}
use getupnet.Preloader.Ensure.{routeros_ensure_bridge_port, has_item}
use getupnet.Preloader.Sector.{bridge_ports, is_mgmt}

-- A command that puts an interface into a bridge.
abbrev pub adds_port : String → Command → Bool
adds_port interface c =
    text_eq c.path "/interface/bridge/port/add"
    && text_eq (show (get "interface" c.attributes)) interface

-- Nothing that was sent puts the interface into a bridge.
abbrev pub StaysOut : String → List Command → Type 0
StaysOut interface sent = All (λ c. adds_port interface c ≡ false) sent

StaysOut-append :
    (interface : String) (sent : List Command) (c : Command)
    → StaysOut interface sent
    → adds_port interface c ≡ false
    → StaysOut interface (sent ++ c ∷ [])
StaysOut-append interface [] c h out = (out, tt)
StaysOut-append interface (d ∷ sent) c (first, h) out =
    (first, StaysOut-append interface sent c h out)

module _ ⦃api : RouterApi⦄ (interface : String) where
  pub api_exec-StaysOut :
      (path : String) (attributes : Attributes)
      → adds_port interface (command path attributes) ≡ false
      → Maintains (StaysOut interface) (api_exec path attributes)
  unfolding api_exec
  api_exec-StaysOut path attributes out = record {
    at = λ sent h. StaysOut-append interface sent (command path attributes) h out;
  }

  pub run-StaysOut :
      (path : String) (attributes : Attributes)
      → adds_port interface (command path attributes) ≡ false
      → Maintains (StaysOut interface) (run path attributes)
  unfolding run
  run-StaysOut path attributes out =
      Maintains-bind (api_exec path attributes) (λ _. skip) (api_exec-StaysOut path attributes out)
        (λ _. Maintains-skip)

  find_in_all-StaysOut :
      (path field value : String) (exc : Exception)
      → text_eq path "/interface/bridge/port/add" ≡ false
      → Maintains (StaysOut interface) (find_in_all path field value exc)
  unfolding find_in_all
  find_in_all-StaysOut path field value (lib_routeros_error m) out =
      Maintains-if (is_set (find? m "unknown parameter"))
        (api_exec path [] >>= λ items. pure (with_value field value items))
        (raise (lib_routeros_error m))
        (Maintains-bind (api_exec path []) (λ items. pure (with_value field value items))
          (api_exec-StaysOut path [] (rw out refl)) (λ items. record { at = λ sent h. h }))
        (record { at = λ sent h. h })
  find_in_all-StaysOut path field value exc out = record { at = λ sent h. h }

  pub find-StaysOut :
      (path field value : String)
      → text_eq path "/interface/bridge/port/add" ≡ false
      → Maintains (StaysOut interface) (routeros_find path field value)
  unfolding routeros_find
  find-StaysOut path field value out = record {
    at = λ sent h.
        let asked = api_exec path (("?" ⧺ field, some value) ∷ []) in
        go (asked sent).0 (asked sent).1
          ((api_exec-StaysOut path (("?" ⧺ field, some value) ∷ []) (rw out refl)).at sent h);
  }
    where
      go :
          (r : Result (List Attributes)) (sent : List Command)
          → StaysOut interface sent
          → StaysOut interface (recover r (find_in_all path field value) sent).1
      go (ok items) sent h = h
      go (err exc) sent h = (find_in_all-StaysOut path field value exc out).at sent h

  exists-StaysOut :
      (name : String) → Maintains (StaysOut interface) (routeros_interface_exists name)
  unfolding routeros_interface_exists
  exists-StaysOut name =
      Maintains-bind (routeros_find "/interface/print" "name" name) (λ items. pure (found items))
        (find-StaysOut "/interface/print" "name" name refl) (λ items. record { at = λ sent h. h })

  bridge_port-StaysOut :
      (bridge port : String)
      → text_eq port interface ≡ false
      → Maintains (StaysOut interface) (routeros_ensure_bridge_port bridge port)
  unfolding routeros_ensure_bridge_port
  bridge_port-StaysOut bridge port other =
      Maintains-bind (routeros_interface_exists port) _ (exists-StaysOut port) λ exists.
        Maintains-if exists _ _
          (Maintains-bind (routeros_find "/interface/bridge/port/print" "interface" port) _
            (find-StaysOut "/interface/bridge/port/print" "interface" port refl)
            λ ports. Maintains-if (has_item "bridge" bridge ports) _ _ Maintains-skip (
              run-StaysOut "/interface/bridge/port/add"
                (("bridge", some bridge) ∷ ("interface", some port) ∷ []) other))
          Maintains-skip

  is_mgmt-named :
      (port : String)
      → has_text (some interface) ≡ true
      → is_mgmt (some interface) port ≡ text_eq port interface
  is_mgmt-named port named = ground (arith, named)

  pub guarded_port-StaysOut :
      (bridge port : String)
      → has_text (some interface) ≡ true
      → Maintains
          (StaysOut interface)
          (if is_mgmt (some interface) port then skip else routeros_ensure_bridge_port bridge port)
  guarded_port-StaysOut bridge port named =
      rw (is_mgmt-named port named) (elim (Bool-cases (text_eq port interface)) [
        | inl same ↦ rw same Maintains-skip
        | inr other ↦ rw other (bridge_port-StaysOut bridge port other)
      ])

  -- However the router answers and whichever ports are listed, the step that fills the bridge sends
  -- no command that puts the interface of the management address into a bridge, if none was sent
  -- before.
  pub bridge_ports-StaysOut :
      (bridge : String) (ports : List String) (sent : List Command)
      → has_text (some interface) ≡ true
      → StaysOut interface sent
      → StaysOut interface (bridge_ports bridge (some interface) ports sent).1
  unfolding bridge_ports
  bridge_ports-StaysOut bridge ports sent named =
      let body = λ (port : String).
        if is_mgmt (some interface) port then skip else routeros_ensure_bridge_port bridge port in
      (Maintains-for_each ports body (λ port. guarded_port-StaysOut bridge port named)).at sent
