-- ===== src/Preconfig/Whole.antt =====
-- Every key of the local configuration of tools/mikrotik_preloader/preloader.py after the merge of a
-- profile of addons/isp_mikrotik/models/preconfig.py.
use getupnet.Prelude.{
  ◌≡◌, refl, ◌∙◌, Bool, true, Bool-cases, inl, inr, ◌&&◌, Option, some, String, text_eq, eq_iff,
  or_value, arith, if◌then◌else◌,
}
use getupnet.Prelude.Effects.{Action, ok, ◌>>◌}
use getupnet.Database.Network.{Preconfig}
use getupnet.Preconfig.Value.{Value, dict, Dict, empty, get, put, UniqueKeys}
use getupnet.Preconfig.Payload.{
  or_none, to_routeros_config, bootstrap, routeros, to_preloader_payload,
}
use getupnet.Preconfig.Merge.{merge_dict, merge_preconfig, replace_config}
use getupnet.Preconfig.Keys.{fits, fits_value, get-put, over_key, merge_dict-Merges, node}
use getupnet.Preconfig.Override.{found-fits}
use getupnet.Preconfig.Shape.{
  to_preloader_payload-UniqueKeys, first_part, last_part, merge_preconfig-parts,
}

-- The keys of the payload stand in one of its two parts.
split-keys :
    (pc : Preconfig) (i : String) (o : Option Value)
    → over_key (get i (last_part pc)) (over_key (get i (first_part pc)) o)
      ≡ over_key (get i (to_preloader_payload pc)) o
unfolding get
split-keys pc i o = elim (Bool-cases (text_eq i "call_home")) [
  | inl same ↦ let path : i ≡ "call_home" = (eq_iff i "call_home").0 same in rw path refl
  | inr a ↦ elim (Bool-cases (text_eq i "webhook")) [
    | inl same ↦ let path : i ≡ "webhook" = (eq_iff i "webhook").0 same in rw path refl
    | inr b ↦ elim (Bool-cases (text_eq i "naming")) [
      | inl same ↦ let path : i ≡ "naming" = (eq_iff i "naming").0 same in rw path refl
      | inr c ↦ rw (a, b, c) refl
    ]
  ]
]

and-parts :
    (a b c d rest : Bool)
    → (a && (b && (c && (d && rest)))) ≡ true
    → ((a && (b && (c && (d && true)))) ≡ true) × (rest ≡ true)
and-parts a b c d rest h = ground (arith, h)

parts-fit :
    (pc : Preconfig) (cfg : Dict)
    → fits (to_preloader_payload pc) cfg ≡ true
    → (fits (first_part pc) cfg ≡ true) × (fits (last_part pc) cfg ≡ true)
unfolding fits
parts-fit pc cfg f =
    and-parts (fits_value (or_none pc.mgmt_subnet) (get "mgmt_subnet" cfg))
      (fits_value (or_none pc.target_mac) (get "target_mac" cfg))
      (fits_value (dict (bootstrap pc)) (get "bootstrap" cfg))
      (fits_value (dict (routeros pc)) (get "routeros" cfg)) (fits (last_part pc) cfg) f

parts-UniqueKeys : (pc : Preconfig) → UniqueKeys (first_part pc) × UniqueKeys (last_part pc)
unfolding get
parts-UniqueKeys pc =
    let unique = to_preloader_payload-UniqueKeys pc in
    let rest = unique.2.2 in
    ((refl, unique.1, (refl, unique.2.1, (refl, rest.1, (refl, rest.2.1, tt)))), rest.2.2)

pub routeros-UniqueKeys : (pc : Preconfig) → UniqueKeys (routeros pc)
routeros-UniqueKeys pc = (parts-UniqueKeys pc).0.2.2.2.1

-- The local `routeros` section, or the empty one.
local_routeros :
    (pc : Preconfig) (cfg : Dict)
    → fits (to_preloader_payload pc) cfg ≡ true
    → (n : Dict) × (or_value (get "routeros" cfg) (dict empty) ≡ dict n)
      × (fits (routeros pc) n ≡ true)
unfolding get
local_routeros pc cfg f =
    node (routeros pc) (get "routeros" cfg)
      (found-fits "routeros" (to_preloader_payload pc) cfg (to_preloader_payload-UniqueKeys pc) f).1

-- The `routeros` section afterwards: the merge of the profile's into the local one, with the
-- sector's configuration put in whole.
abbrev pub new_routeros : Preconfig → Dict → Dict
new_routeros pc r = put "config" (dict (to_routeros_config pc)) r

replaced :
    (pc : Preconfig) (r m : Dict)
    → get "routeros" m ≡ some (dict r)
    → replace_config (routeros pc) (dict m)
      ≡ (ok tt, dict (put "routeros" (dict (new_routeros pc r)) m))
unfolding routeros get
replaced pc r m there = rw there refl

last-fits :
    (pc : Preconfig) (cfg m : Dict) (w : Value)
    → ((i : String) → get i m ≡ over_key (get i (first_part pc)) (get i cfg))
    → fits (last_part pc) (put "routeros" w m) ≡ fits (last_part pc) cfg
unfolding fits get
last-fits pc cfg m w keys =
    rw
      (
        get-put "call_home" "routeros" w m,
        get-put "webhook" "routeros" w m,
        get-put "naming" "routeros" w m,
        keys "call_home",
        keys "webhook",
        keys "naming",
      )
      refl

first-routeros :
    (pc : Preconfig) (cfg n r : Dict)
    → or_value (get "routeros" cfg) (dict empty) ≡ dict n
    → merge_dict (routeros pc) (dict n) ≡ (ok tt, dict r)
    → over_key (get "routeros" (first_part pc)) (get "routeros" cfg) ≡ some (dict r)
unfolding get
first-routeros pc cfg n r at_n goes = rw (at_n, goes) refl

last_keys :
    (pc : Preconfig) (i : String) (cfg m1 m : Dict) (w : Value)
    → get i m1 ≡ over_key (get i (first_part pc)) (get i cfg)
    → get i m ≡ over_key (get i (last_part pc)) (get i (put "routeros" w m1))
    → get i m ≡ (
        if text_eq i "routeros"
        then some w
        else over_key (get i (to_preloader_payload pc)) (get i cfg))
last_keys pc i cfg m1 m w first last = elim (Bool-cases (text_eq i "routeros")) [
  | inl same ↦
      let path : i ≡ "routeros" = (eq_iff i "routeros").0 same in
      rw same (last ∙ rw (get-put i "routeros" w m1, same, path) (unfold get in refl))
  | inr other ↦
      rw other (last ∙ rw (get-put i "routeros" w m1, other, first) (split-keys pc i (get i cfg)))
]

in_turn :
    (a b c : Action Value (Unit {0})) (v v1 v2 v3 : Value)
    → a v ≡ (ok tt, v1)
    → b v1 ≡ (ok tt, v2)
    → c v2 ≡ (ok tt, v3)
    → (a >> (b >> c)) v ≡ (ok tt, v3)
in_turn a b c v v1 v2 v3 h k l = rw (h, k) l

-- All of the merge: the section `routeros`, and every other key.
pub whole :
    (pc : Preconfig) (cfg : Dict)
    → fits (to_preloader_payload pc) cfg ≡ true
    → (n r m : Dict) × (or_value (get "routeros" cfg) (dict empty) ≡ dict n)
      × (fits (routeros pc) n ≡ true)
      × (merge_dict (routeros pc) (dict n) ≡ (ok tt, dict r))
      × (merge_preconfig (to_preloader_payload pc) (dict cfg) ≡ (ok tt, dict m))
      × ((i : String)
          → get i m ≡ (
              if text_eq i "routeros"
              then some (dict (new_routeros pc r))
              else over_key (get i (to_preloader_payload pc)) (get i cfg)))
whole pc cfg f =
    let (f1, f2) = parts-fit pc cfg f in
    let (u1, u2) = parts-UniqueKeys pc in
    let (n, at_n, fit) = local_routeros pc cfg f in
    let (r, goes_r, _) = merge_dict-Merges (routeros pc) n (routeros-UniqueKeys pc) fit in
    let (m1, goes1, keys1) = merge_dict-Merges (first_part pc) cfg u1 f1 in
    let there : get "routeros" m1 ≡ some (dict r) =
      keys1 "routeros" ∙ first-routeros pc cfg n r at_n goes_r in
    let m2 = put "routeros" (dict (new_routeros pc r)) m1 in
    let fit2 = last-fits pc cfg m1 (dict (new_routeros pc r)) keys1 ∙ f2 in
    let (m, goes2, keys2) = merge_dict-Merges (last_part pc) m2 u2 fit2 in
    (
      n,
      r,
      m,
      at_n,
      fit,
      goes_r,
      merge_preconfig-parts pc (dict cfg)
          ∙ in_turn (merge_dict (first_part pc)) (replace_config (routeros pc))
              (merge_dict (last_part pc)) (dict cfg) (dict m1) (dict m2) (dict m) goes1
              (replaced pc r m1 there) goes2,
      λ i. last_keys pc i cfg m1 m (dict (new_routeros pc r)) (keys1 i) (keys2 i),
    )
