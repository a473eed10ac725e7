-- ===== src/Preconfig/Merge.antt =====
-- `_merge_dict` and `merge_preconfig` of tools/mikrotik_preloader/preloader.py. They change the
-- configuration in place, so what was merged before an exception stays: the state is the object that
-- is changed. The texts of Python's own exceptions are left out.
use getupnet.Prelude.{not, Option, none, some, String, or_value, if◌then◌else◌}
use getupnet.Prelude.Effects.{Action, ok, err, other_error, skip, raise, when, ◌>>◌}
use getupnet.Preconfig.Value.{
  Value, null, flag, number, text, texts, dict, Dict, empty, entry, get, put, truth, is_none,
  is_empty,
}

-- `dst[key] = value`
abbrev pub set_item : String → Value → Action Value (Unit {0})
set_item key value (dict d) = (ok tt, dict (put key value d))
set_item key value dst = (err (other_error "TypeError"), dst)

-- `node = dst.setdefault(key, {})` and a change of `node`, which is the value under the key.
abbrev pub within : String → Action Value (Unit {0}) → Action Value (Unit {0})
within key change (dict d) =
    let (r, node) = change (or_value (get key d) (dict empty)) in (r, dict (put key node d))
within key change dst = (err (other_error "AttributeError"), dst)

unfoldable mutual
  -- `_merge_dict(dst, src)`
  pub merge_dict : Dict → Action Value (Unit {0})
  merge_dict empty = skip
  merge_dict (entry key value src) = merge_entry key value >> merge_dict src

  -- The body of its loop.
  pub merge_entry : String → Value → Action Value (Unit {0})
  merge_entry key null = skip
  merge_entry key (dict d) = within key (merge_dict d)
  merge_entry key (flag b) = set_item key (flag b)
  merge_entry key (number n) = set_item key (number n)
  merge_entry key (text s) = set_item key (text s)
  merge_entry key (texts l) = set_item key (texts l)

-- `_merge_dict(node, value)` of any value: only a dictionary has `items()`, and what is falsy
-- counts as the empty dictionary.
abbrev pub merge_any : Value → Action Value (Unit {0})
merge_any (dict d) = merge_dict d
merge_any v = if truth v then raise (other_error "AttributeError") else skip

-- `if preconfig.get(key) is not None: cfg.setdefault(key, {}); _merge_dict(cfg[key], ...)`
abbrev pub merge_section : String → Dict → Action Value (Unit {0})
merge_section key preconfig = elim (get key preconfig) [
  | none ↦ skip
  | some v ↦ if is_none (some v) then skip else within key (merge_any v)
]

-- `if "config" in routeros: cfg["routeros"]["config"] = routeros["config"]`
abbrev pub replace_config : Dict → Action Value (Unit {0})
replace_config routeros = elim (get "config" routeros) [
  | none ↦ skip
  | some v ↦ within "routeros" (set_item "config" v)
]

-- `routeros = preconfig.get("routeros") or {}`, and what is done with it.
abbrev pub merge_routeros : Option Value → Action Value (Unit {0})
merge_routeros none = skip
merge_routeros (some (dict routeros)) =
    if is_empty routeros
    then skip
    else (within "routeros" (merge_dict routeros) >> replace_config routeros)
merge_routeros (some v) = if truth v then within "routeros" (merge_any v) else skip

-- `if preconfig.get("mgmt_subnet"): cfg["mgmt_subnet"] = preconfig.get("mgmt_subnet")`
abbrev pub set_truthy : String → Dict → Action Value (Unit {0})
set_truthy key preconfig = elim (get key preconfig) [
  | none ↦ skip
  | some v ↦ when (truth v) (set_item key v)
]

-- `if preconfig.get("target_mac") is not None: ...`
abbrev pub set_given : String → Dict → Action Value (Unit {0})
set_given key preconfig = elim (get key preconfig) [
  | none ↦ skip
  | some v ↦ when (not (is_none (some v))) (set_item key v)
]

unfoldable pub merge_preconfig : Dict → Action Value (Unit {0})
merge_preconfig preconfig = if is_empty preconfig then skip else (do
  set_truthy "mgmt_subnet" preconfig
  set_given "target_mac" preconfig
  merge_section "bootstrap" preconfig
  merge_routeros (get "routeros" preconfig)
  merge_section "call_home" preconfig
  merge_section "webhook" preconfig
  merge_section "naming" preconfig)
