-- ===== src/Preconfig/Value.antt =====
-- The values that a configuration is made of, in tools/mikrotik_preloader/preloader.py as it reads
-- them from YAML and in addons/isp_mikrotik/models/preconfig.py as it sends them: `None`, Booleans,
-- numbers, texts, lists of texts, and dictionaries with their entries in order.
use getupnet.Prelude.{
  ℕ, Bool, true, false, not, Option, none, some, List, [], ◌∷◌, String, text_eq, is_set, ◌==◌, ◌≡◌,
  if◌then◌else◌,
}

mutual
  pub data Value : Type 0 where
    null : Value
    flag : Bool → Value
    number : ℕ → Value
    text : String → Value
    texts : List String → Value
    dict : Dict → Value

  pub data Dict : Type 0 where
    empty : Dict
    entry : String → Value → Dict → Dict

-- `d.get(key)`, where a key that is missing is `none`.
unfoldable pub get : String → Dict → Option Value
get key empty = none
get key (entry k v d) = if text_eq key k then some v else get key d

-- `d[key] = value`: in the place of the key, or at the end.
unfoldable pub put : String → Value → Dict → Dict
put key value empty = entry key value empty
put key value (entry k v d) =
    let rest = put key value d in if text_eq key k then entry k value d else entry k v rest

abbrev pub is_empty : Dict → Bool
is_empty empty = true
is_empty (entry k v d) = false

abbrev pub is_zero : ℕ → Bool
is_zero n = n == 0

-- `bool(value)`
abbrev pub truth : Value → Bool
truth null = false
truth (flag b) = b
truth (number n) = not (is_zero n)
truth (text s) = not (text_eq s "")
truth (texts []) = false
truth (texts (s ∷ l)) = true
truth (dict d) = not (is_empty d)

-- `value is None`, where a missing key reads as `None`.
abbrev pub is_none : Option Value → Bool
is_none none = true
is_none (some null) = true
is_none (some v) = false

-- The dictionary that is read under a key, the empty one for everything else.
abbrev pub dict_or_empty : Option Value → Dict
dict_or_empty (some (dict d)) = d
dict_or_empty v = empty

-- No key stands in a dictionary twice, and none does in those within it.
abbrev mutual
  pub UniqueKeys : Dict → Type 0
  UniqueKeys empty = Unit
  UniqueKeys (entry k v d) = (is_set (get k d) ≡ false) × UniqueWithin v × UniqueKeys d

  pub UniqueWithin : Value → Type 0
  UniqueWithin (dict d) = UniqueKeys d
  UniqueWithin v = Unit
