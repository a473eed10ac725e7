-- ===== src/Preconfig/Applied.antt =====
-- What a profile of addons/isp_mikrotik/models/preconfig.py makes of the local configuration of
-- tools/mikrotik_preloader/preloader.py.
use getupnet.Prelude.{
  ◌≡◌, refl, sym, ap, subst, ◌∙◌, Bool, true, false, Bool-cases, inl, inr, ◌&&◌, ◌||◌, Option, none,
  some, List, [], ◌∷◌, String, text_eq, eq_iff, or_value, if◌then◌else◌,
}
use getupnet.Prelude.Effects.{Result, ok}
use getupnet.Database.Network.{Preconfig}
use getupnet.Preconfig.Value.{Value, dict, Dict, empty, get}
use getupnet.Preconfig.Payload.{to_routeros_config, routeros, to_preloader_payload}
use getupnet.Preconfig.Merge.{merge_dict, merge_preconfig}
use getupnet.Preconfig.Keys.{fits, get-put, over_key}
use getupnet.Preconfig.Override.{
  gives, leaf, in_found, leaf-empty, pick, found-fits, merge_dict-leaf,
}
use getupnet.Preconfig.Shape.{to_preloader_payload-UniqueKeys}
use getupnet.Preconfig.Whole.{new_routeros, whole, routeros-UniqueKeys}

abbrev starts_config : List String → Bool
starts_config [] = false
starts_config (j ∷ path) = text_eq j "config"

-- The paths of the sector's configuration.
abbrev pub is_config : List String → Bool
is_config [] = false
is_config (k ∷ path) = text_eq k "routeros" && starts_config path

-- A path into the new `routeros` section.
routeros-leaf :
    (pc : Preconfig) (n r : Dict) (path : List String)
    → fits (routeros pc) n ≡ true
    → merge_dict (routeros pc) (dict n) ≡ (ok tt, dict r)
    → leaf path (dict (new_routeros pc r)) ≡ (
        if is_config ("routeros" ∷ path) || gives path (routeros pc)
        then leaf path (dict (routeros pc))
        else leaf path (dict n))
unfolding leaf gives
routeros-leaf pc n r [] fit goes = refl
routeros-leaf pc n r (j ∷ path) fit goes = elim (Bool-cases (text_eq j "config")) [
  | inl same ↦
      let at : j ≡ "config" = (eq_iff j "config").0 same in
      rw (same, get-put j "config" (dict (to_routeros_config pc)) r, same, at)
        (unfold get routeros in refl)
  | inr other ↦
      let read =
        ap (λ (p : Result (Unit {0}) × Value). leaf (j ∷ path) p.1) (sym goes)
        ∙ merge_dict-leaf (j ∷ path) (routeros pc) n (routeros-UniqueKeys pc) fit in
      rw (other, get-put j "config" (dict (to_routeros_config pc)) r, other) read
]

local-leaf :
    (path : List String) (o : Option Value) (n : Dict)
    → or_value o (dict empty) ≡ dict n
    → in_found o (leaf path) ≡ leaf path (dict n)
local-leaf path none n at_n = sym (leaf-empty path) ∙ ap (leaf path) at_n
local-leaf path (some v) n at_n = ap (leaf path) at_n

-- What a path reads in the merged configuration.
abbrev Overridden : Preconfig → Dict → Dict → List String → Type 0
Overridden pc cfg m path = leaf path (dict m) ≡ (
    if is_config path || gives path (to_preloader_payload pc)
    then leaf path (dict (to_preloader_payload pc))
    else leaf path (dict cfg))

module _ (pc : Preconfig) (cfg n r m : Dict) where
  routeros-Overridden :
      or_value (get "routeros" cfg) (dict empty) ≡ dict n
      → fits (routeros pc) n ≡ true
      → merge_dict (routeros pc) (dict n) ≡ (ok tt, dict r)
      → get "routeros" m ≡ some (dict (new_routeros pc r))
      → (path : List String) → Overridden pc cfg m ("routeros" ∷ path)
  unfolding leaf gives get
  routeros-Overridden at_n fit goes there path =
      rw (there, local-leaf path (get "routeros" cfg) n at_n) (routeros-leaf pc n r path fit goes)

  other-Overridden :
      fits (to_preloader_payload pc) cfg ≡ true
      → (i : String) → text_eq i "routeros" ≡ false
      → get i m ≡ over_key (get i (to_preloader_payload pc)) (get i cfg)
      → (path : List String) → Overridden pc cfg m (i ∷ path)
  unfolding leaf gives
  other-Overridden f i other there path =
      let (inner, meets) =
        found-fits i (to_preloader_payload pc) cfg (to_preloader_payload-UniqueKeys pc) f in
      rw (there, other)
        (pick path (get i (to_preloader_payload pc)) (get i cfg) (merge_dict-leaf path) inner meets)

  after-Overridden :
      fits (to_preloader_payload pc) cfg ≡ true
      → or_value (get "routeros" cfg) (dict empty) ≡ dict n
      → fits (routeros pc) n ≡ true
      → merge_dict (routeros pc) (dict n) ≡ (ok tt, dict r)
      → ((i : String)
          → get i m ≡ (
              if text_eq i "routeros"
              then some (dict (new_routeros pc r))
              else over_key (get i (to_preloader_payload pc)) (get i cfg)))
      → (path : List String) → Overridden pc cfg m path
  unfolding leaf gives
  after-Overridden f at_n fit goes keys [] = refl
  after-Overridden f at_n fit goes keys (i ∷ path) = elim (Bool-cases (text_eq i "routeros")) [
    | inl same ↦
        subst (λ k. Overridden pc cfg m (k ∷ path)) (sym ((eq_iff i "routeros").0 same))
          (routeros-Overridden at_n fit goes (keys "routeros") path)
    | inr other ↦ other-Overridden f i other (keys i ∙ rw other refl) path
  ]

-- Where the sections of the local configuration that meet those of a profile are dictionaries,
-- its payload is merged without an exception. Afterwards every path reads what the payload has on it,
-- and the local value where that has nothing or `None`. The exception is `routeros.config`: there
-- the payload alone is read, and the local configuration of the sector is gone.
pub merge_preconfig-overrides :
    (pc : Preconfig) (cfg : Dict)
    → fits (to_preloader_payload pc) cfg ≡ true
    → let payload = to_preloader_payload pc in
      let after = merge_preconfig payload (dict cfg) in
      (after.0 ≡ ok tt)
      × ((path : List String)
          → leaf path after.1 ≡ (
              if is_config path || gives path payload
              then leaf path (dict payload)
              else leaf path (dict cfg)))
merge_preconfig-overrides pc cfg f =
    let (n, r, m, at_n, fit, goes_r, goes, keys) = whole pc cfg f in
    (rw goes refl, λ path. rw goes (after-Overridden pc cfg n r m f at_n fit goes_r keys path))
