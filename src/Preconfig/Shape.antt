-- ===== src/Preconfig/Shape.antt =====
-- The payload of addons/isp_mikrotik/models/preconfig.py as `merge_preconfig` of
-- tools/mikrotik_preloader/preloader.py takes it: its keys, and its merge in two parts.
use getupnet.Prelude.{
  ◌≡◌, refl, ap, sym, ◌∙◌, not, Bool-cases, inl, inr, Option, none, some, List, String, text_eq,
}
use getupnet.Prelude.Effects.{Action, skip, when, ◌>>◌}
use getupnet.Prelude.Sequence.{then_skip, then_assoc}
use getupnet.Database.Network.{Preconfig}
use getupnet.Preconfig.Value.{
  Value, dict, Dict, empty, entry, get, truth, is_none, UniqueKeys, UniqueWithin,
}
use getupnet.Preconfig.Payload.{
  char, or_none, list_or_none, to_routeros_config, bootstrap, routeros, call_home, webhook, naming,
  to_preloader_payload,
}
use getupnet.Preconfig.Merge.{merge_dict, merge_entry, merge_preconfig, set_item, replace_config}

unique-char : (o : Option String) → UniqueWithin (char o)
unique-char none = tt
unique-char (some s) = tt

unique-or_none : (o : Option String) → UniqueWithin (or_none o)
unique-or_none none = tt
unique-or_none (some s) = elim (Bool-cases (text_eq s "")) [
  | inl blank ↦ rw blank tt
  | inr other ↦ rw other tt
]

unique-list_or_none : (o : Option (List String)) → UniqueWithin (list_or_none o)
unique-list_or_none none = tt
unique-list_or_none (some l) = tt

abbrev pub first_part : Preconfig → Dict
first_part pc = entry "mgmt_subnet" (or_none pc.mgmt_subnet) (
    entry "target_mac" (or_none pc.target_mac)
      (entry "bootstrap" (dict (bootstrap pc)) (entry "routeros" (dict (routeros pc)) empty)))

abbrev pub last_part : Preconfig → Dict
last_part pc =
    entry "call_home" (dict (call_home pc))
      (entry "webhook" (dict (webhook pc)) (entry "naming" (dict (naming pc)) empty))

pub to_preloader_payload-UniqueKeys : (pc : Preconfig) → UniqueKeys (to_preloader_payload pc)
unfolding to_routeros_config bootstrap routeros call_home webhook naming get
to_preloader_payload-UniqueKeys pc =
    search (unique-char, unique-or_none, unique-list_or_none) depth 80

module _ {S : Type 0} where
  -- Four steps, one that is part of the fourth, and three more.
  regroup :
      (a b c d replace e f g : Action S (Unit {0}))
      → (a >> (b >> (c >> ((d >> replace) >> (e >> (f >> g))))))
        ≡ ((a >> (b >> (c >> (d >> skip)))) >> (replace >> (e >> (f >> (g >> skip)))))
  regroup a b c d replace e f g =
      let rest = replace >> (e >> (f >> g)) in
      let inner : ((c >> d) >> rest) ≡ (c >> ((d >> replace) >> (e >> (f >> g)))) =
        then_assoc c d rest
        ∙ ap (λ (k : Action S (Unit {0})). c >> k) (sym (then_assoc d replace (e >> (f >> g)))) in
      let front : ((a >> (b >> (c >> d))) >> rest) ≡ (a >> (b >> ((c >> d) >> rest))) =
        then_assoc a (b >> (c >> d)) rest
        ∙ ap (λ (k : Action S (Unit {0})). a >> k) (then_assoc b (c >> d) rest) in
      sym (
        rw (then_skip g, then_skip d)
          (front ∙ ap (λ (k : Action S (Unit {0})). a >> (b >> k)) inner))

set_truthy_lem :
    (key : String) (o : Option String)
    → when (truth (or_none o)) (set_item key (or_none o)) ≡ merge_entry key (or_none o)
unfolding merge_entry
set_truthy_lem key none = refl
set_truthy_lem key (some s) = elim (Bool-cases (text_eq s "")) [
  | inl blank ↦ rw blank refl
  | inr other ↦ rw other (rw other refl)
]

set_given_lem :
    (key : String) (o : Option String)
    → when (not (is_none (some (or_none o)))) (set_item key (or_none o))
      ≡ merge_entry key (or_none o)
unfolding merge_entry
set_given_lem key none = refl
set_given_lem key (some s) = elim (Bool-cases (text_eq s "")) [
  | inl blank ↦ rw blank refl
  | inr other ↦ rw other refl
]

-- The payload is merged as `_merge_dict` would merge it, except that `routeros.config` is replaced
-- between its two parts.
pub merge_preconfig-parts :
    (pc : Preconfig) (v : Value)
    → merge_preconfig (to_preloader_payload pc) v
      ≡ (merge_dict (first_part pc) >> (replace_config (routeros pc) >> merge_dict (last_part pc)))
          v
unfolding merge_preconfig merge_dict get routeros
merge_preconfig-parts pc v =
    rw (set_truthy_lem "mgmt_subnet" pc.mgmt_subnet, set_given_lem "target_mac" pc.target_mac)
      (ap (λ (run : Action Value (Unit {0})). run v)
        (regroup (merge_entry "mgmt_subnet" (or_none pc.mgmt_subnet))
          (merge_entry "target_mac" (or_none pc.target_mac))
          (merge_entry "bootstrap" (dict (bootstrap pc)))
          (merge_entry "routeros" (dict (routeros pc))) (replace_config (routeros pc))
          (merge_entry "call_home" (dict (call_home pc)))
          (merge_entry "webhook" (dict (webhook pc))) (merge_entry "naming" (dict (naming pc)))))
