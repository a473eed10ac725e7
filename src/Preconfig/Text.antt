-- ===== src/Preconfig/Text.antt =====
-- Python's `split(",")` and `strip()`, and `_parse_csv` of addons/isp_mikrotik/models/preconfig.py,
-- which is built from them.
use Prim.Native.Char.{Char, code}
use Prim.Native.String.{[], ◌∷◌}
use getupnet.Prelude.{
  ℕ, ◌==◌, leb, Bool, ◌&&◌, ◌||◌, Option, none, some, List, [], ◌∷◌, String, text_eq, or_text,
  if◌then◌else◌,
}

-- The characters that `strip` removes: the code points of which `isspace` is true.
unfoldable pub is_space : ℕ → Bool
is_space n =
    (leb 9 n && leb n 13)
    || (leb 28 n && leb n 32)
    || n == 133
    || n == 160
    || n == 5760
    || (leb 8192 n && leb n 8202)
    || n == 8232
    || n == 8233
    || n == 8239
    || n == 8287
    || n == 12288

-- The code of the separator.
abbrev pub comma : ℕ
comma = b','

-- Puts a character before the first part.
abbrev pub onto : Char → List String → List String
onto c [] = (c ∷ []) ∷ []
onto c (part ∷ parts) = (c ∷ part) ∷ parts

-- `value.split(",")`
unfoldable pub split : String → List String
split [] = "" ∷ []
split (c ∷ s) = let parts = split s in if code c == comma then "" ∷ parts else onto c parts

-- `value.lstrip()`
unfoldable pub lstrip : String → String
lstrip [] = ""
lstrip (c ∷ s) = let rest = lstrip s in if is_space (code c) then rest else c ∷ s

-- A character before a text without white space at its end.
abbrev pub before : Char → String → String
before c [] = if is_space (code c) then "" else c ∷ []
before c (d ∷ s) = c ∷ d ∷ s

-- `value.rstrip()`
unfoldable pub rstrip : String → String
rstrip [] = ""
rstrip (c ∷ s) = before c (rstrip s)

abbrev pub strip : String → String
strip s = rstrip (lstrip s)

-- `[v.strip() for v in parts if v.strip()]`
unfoldable pub strip_all : List String → List String
strip_all [] = []
strip_all (part ∷ parts) =
    let rest = strip_all parts in if text_eq (strip part) "" then rest else strip part ∷ rest

abbrev pub parse_csv : Option String → List String
parse_csv value = strip_all (split (or_text value ""))

abbrev pub lan_ports_list : Option String → List String
lan_ports_list lan_ports = strip_all (split (or_text lan_ports ""))

abbrev pub parse_csv_or_none : Option String → Option (List String)
parse_csv_or_none value = elim (parse_csv value) [ [] ↦ none | item ∷ items ↦ some (item ∷ items) ]
