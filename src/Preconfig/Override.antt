-- ===== src/Preconfig/Override.antt =====
-- What merging one dictionary into another leaves under each path of keys.
use getupnet.Prelude.{
  ◌≡◌, refl, ap, Bool, true, false, Bool-cases, inl, inr, Option, none, some, List, [], ◌∷◌, String,
  text_eq, eq_iff, arith, if◌then◌else◌,
}
use getupnet.Prelude.Effects.{ok}
use getupnet.Preconfig.Value.{
  Value, null, flag, number, text, texts, dict, Dict, empty, entry, get, UniqueKeys, UniqueWithin,
}
use getupnet.Preconfig.Merge.{merge_dict}
use getupnet.Preconfig.Keys.{fits, fits_value, fits_rest, over_key, merge_dict-Merges}

abbrev pub in_found : Option Value → (Value → Option Value) → Option Value
in_found none read = none
in_found (some v) read = read v

abbrev in_given : Option Value → (Dict → Bool) → Bool
in_given none test = false
in_given (some null) test = false
in_given (some (dict d)) test = test d
in_given (some v) test = true

-- Whether a path meets a value that is neither `None` nor a dictionary.
unfoldable pub gives : List String → Dict → Bool
gives [] d = false
gives (k ∷ path) d = in_given (get k d) (gives path)

-- The value at the end of a path, if it is not a dictionary.
unfoldable pub leaf : List String → Value → Option Value
leaf [] (dict d) = none
leaf [] v = some v
leaf (k ∷ path) (dict d) = in_found (get k d) (leaf path)
leaf (k ∷ path) v = none

abbrev UniqueIn : Option Value → Type 0
UniqueIn none = Unit
UniqueIn (some v) = UniqueWithin v

abbrev fits_in : Option Value → Option Value → Bool
fits_in none o = true
fits_in (some v) o = fits_value v o

pub found-fits :
    (k : String) (src m : Dict)
    → UniqueKeys src
    → fits src m ≡ true
    → UniqueIn (get k src) × (fits_in (get k src) (get k m) ≡ true)
unfolding get
found-fits k empty m u f = (tt, refl)
found-fits k (entry j v src) m (_, inner, u) f =
    let (fit, rest) = fits_rest j v src m f in
    let further = found-fits k src m u rest in
    elim (Bool-cases (text_eq k j)) [
      | inl same ↦ let path : k ≡ j = (eq_iff k j).0 same in rw same (inner, (rw path fit))
      | inr other ↦ rw other further
    ]

pub leaf-empty : (path : List String) → leaf path (dict empty) ≡ none
unfolding leaf get
leaf-empty [] = refl
leaf-empty (k ∷ path) = refl

-- What the path after a key reads, if the merge of dictionaries is right about it.
pub pick :
    (path : List String) (o p : Option Value)
    → ((d n : Dict)
        → UniqueKeys d
        → fits d n ≡ true
        → leaf path (merge_dict d (dict n)).1
          ≡ (if gives path d then leaf path (dict d) else leaf path (dict n)))
    → UniqueIn o
    → fits_in o p ≡ true
    → in_found (over_key o p) (leaf path)
      ≡ (if in_given o (gives path) then in_found o (leaf path) else in_found p (leaf path))
unfolding fits
pick path none p ih u f = refl
pick path (some null) p ih u f = refl
pick path (some (flag b)) p ih u f = refl
pick path (some (number n)) p ih u f = refl
pick path (some (text s)) p ih u f = refl
pick path (some (texts l)) p ih u f = refl
pick path (some (dict d)) none ih u f = rw (ih d empty u f, leaf-empty path) refl
pick path (some (dict d)) (some (dict n)) ih u f = ih d n u f
pick path (some (dict d)) (some null) ih u f = absurd (ground (arith, f))
pick path (some (dict d)) (some (flag b)) ih u f = absurd (ground (arith, f))
pick path (some (dict d)) (some (number n)) ih u f = absurd (ground (arith, f))
pick path (some (dict d)) (some (text s)) ih u f = absurd (ground (arith, f))
pick path (some (dict d)) (some (texts l)) ih u f = absurd (ground (arith, f))

-- Where no key repeats and what is to be merged fits, a path reads afterwards what the merged
-- dictionary gives on it, and what was there before where that gives nothing or `None`.
pub merge_dict-leaf :
    (path : List String) (src m : Dict)
    → UniqueKeys src
    → fits src m ≡ true
    → leaf path (merge_dict src (dict m)).1
      ≡ (if gives path src then leaf path (dict src) else leaf path (dict m))
unfolding leaf gives
merge_dict-leaf [] src m u f = let (m', goes, keys) = merge_dict-Merges src m u f in rw goes refl
merge_dict-leaf (k ∷ path) src m u f =
    let (m', goes, keys) = merge_dict-Merges src m u f in
    let (inner, fit) = found-fits k src m u f in
    rw (goes, keys k) (pick path (get k src) (get k m) (merge_dict-leaf path) inner fit)

-- Where no key repeats and every dictionary meets a dictionary or nothing, a merge goes through.
-- Afterwards every path reads what the merged dictionary has on it, and what was there before where
-- that has nothing or `None`.
pub merge_dict-overrides :
    (src m : Dict)
    → UniqueKeys src
    → fits src m ≡ true
    → ((merge_dict src (dict m)).0 ≡ ok tt)
      × ((path : List String)
          → leaf path (merge_dict src (dict m)).1
            ≡ (if gives path src then leaf path (dict src) else leaf path (dict m)))
merge_dict-overrides src m u f =
    let (m', goes, keys) = merge_dict-Merges src m u f in
    (ap (λ r. r.0) goes, λ path. merge_dict-leaf path src m u f)
