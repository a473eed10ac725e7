-- ===== src/Preconfig/Csv.antt =====
-- Comma-separated fields of a preconfiguration, read and written again.
use Prim.Native.Char.{Char, code}
use Prim.Native.String.{[], ◌∷◌}
use text.Mathlib.TextLemmas.{nil-append, cons-append}
use getupnet.Prelude.{
  ◌==◌, ◌≡◌, refl, ◌∙◌, ap, false, Bool-cases, inl, inr, Option, some, List, [], ◌∷◌, String, ◌⧺◌,
  text_eq, or_text, All, arith, eq_iff,
}
use getupnet.Preconfig.Text.{
  comma, is_space, onto, before, split, lstrip, rstrip, strip, strip_all, parse_csv,
}

-- `",".join(items)`
unfoldable pub join : List String → String
join [] = ""
join (item ∷ []) = item
join (item ∷ next ∷ items) = item ⧺ ("," ⧺ join (next ∷ items))

abbrev pub NoComma : String → Type 0
NoComma [] = Unit
NoComma (c ∷ s) = (code c == comma ≡ false) × NoComma s

-- An item that a field can hold: not blank, without a comma, and without white space around it.
abbrev pub Clean : String → Type 0
Clean s = NoComma s × (text_eq s "" ≡ false) × (strip s ≡ s)

split_plain : (s : String) → NoComma s → split s ≡ s ∷ []
unfolding split
split_plain [] h = refl
split_plain (c ∷ s) h = ground (arith, split_plain s h.1)

split_at_comma : (s rest : String) → NoComma s → split (s ⧺ ("," ⧺ rest)) ≡ s ∷ split rest
unfolding split
split_at_comma [] rest h = rw (nil-append, cons-append, nil-append)
split_at_comma (c ∷ s) rest h = rw (cons-append c s _) (ground (arith, split_at_comma s rest h.1))

split-join :
    (item : String) (items : List String)
    → All NoComma (item ∷ items)
    → split (join (item ∷ items)) ≡ item ∷ items
unfolding join
split-join item [] h = split_plain item h.0
split-join item (next ∷ items) h =
    rw (split_at_comma item _ h.0) (ap (λ rest. item ∷ rest) (split-join next items h.1))

NoComma-of_Clean : (items : List String) → All Clean items → All NoComma items
NoComma-of_Clean [] h = tt
NoComma-of_Clean (item ∷ items) h = (h.0.0, NoComma-of_Clean items h.1)

strip_all-Clean : (items : List String) → All Clean items → strip_all items ≡ items
unfolding strip_all
strip_all-Clean [] h = refl
strip_all-Clean (item ∷ items) h =
    let (_, there, stripped) = h.0 in
    let rest = strip_all-Clean items h.1 in ground (arith, there, stripped, rest)

or_text_blank : (s : String) → or_text (some s) "" ≡ s
or_text_blank s = ground (arith, eq_iff s "")

-- Items that are not blank, hold no comma and have no white space around them come back from the
-- field that joins them with commas, all of them and in their order.
pub parse_csv-join : (items : List String) → All Clean items → parse_csv (some (join items)) ≡ items
parse_csv-join [] h = unfold join split lstrip rstrip strip_all in refl
parse_csv-join (item ∷ items) h =
    rw
      (
        or_text_blank (join (item ∷ items)),
        split-join item items (NoComma-of_Clean (item ∷ items) h),
      )
      (strip_all-Clean (item ∷ items) h)

-- What is read from a field is clean.
onto-NoComma :
    (c : Char) (parts : List String)
    → code c == comma ≡ false
    → All NoComma parts
    → All NoComma (onto c parts)
onto-NoComma c [] h k = ((h, tt), tt)
onto-NoComma c (part ∷ parts) h k = ((h, k.0), k.1)

split-NoComma : (s : String) → All NoComma (split s)
unfolding split
split-NoComma [] = (tt, tt)
split-NoComma (c ∷ s) = ground (arith, split-NoComma s, onto-NoComma c (split s))

lstrip-NoComma : (s : String) → NoComma s → NoComma (lstrip s)
unfolding lstrip
lstrip-NoComma [] h = tt
lstrip-NoComma (c ∷ s) h = ground (arith, lstrip-NoComma s h.1)

before-NoComma :
    (c : Char) (s : String) → code c == comma ≡ false → NoComma s → NoComma (before c s)
before-NoComma c [] h k = elim (Bool-cases (is_space (code c))) [
  | inl space ↦ rw space tt
  | inr other ↦ rw other (h, tt)
]
before-NoComma c (d ∷ s) h k = (h, k)

rstrip-NoComma : (s : String) → NoComma s → NoComma (rstrip s)
unfolding rstrip
rstrip-NoComma [] h = tt
rstrip-NoComma (c ∷ s) h = before-NoComma c (rstrip s) h.0 (rstrip-NoComma s h.1)

rstrip-before : (c : Char) (s : String) → rstrip s ≡ s → rstrip (before c s) ≡ before c s
unfolding rstrip
rstrip-before c [] h = elim (Bool-cases (is_space (code c))) [
  | inl space ↦ rw space refl
  | inr other ↦ rw other (rw other refl)
]
rstrip-before c (d ∷ s) h = ap (before c) h

rstrip-rstrip : (s : String) → rstrip (rstrip s) ≡ rstrip s
unfolding rstrip
rstrip-rstrip [] = refl
rstrip-rstrip (c ∷ s) = rstrip-before c (rstrip s) (rstrip-rstrip s)

-- A text that begins with white space after its end was stripped began with it before.
lstrip-before :
    (c : Char) (s : String) → is_space (code c) ≡ false → lstrip (before c s) ≡ before c s
unfolding lstrip
lstrip-before c [] h = ground (arith, h)
lstrip-before c (d ∷ s) h = ground (arith, h)

lstrip-strip : (s : String) → lstrip (strip s) ≡ strip s
unfolding lstrip rstrip
lstrip-strip [] = refl
lstrip-strip (c ∷ s) = ground (arith, lstrip-strip s, lstrip-before c (rstrip s))

strip-strip : (s : String) → strip (strip s) ≡ strip s
strip-strip s = ap rstrip (lstrip-strip s) ∙ rstrip-rstrip (lstrip s)

strip_all-IsClean : (parts : List String) → All NoComma parts → All Clean (strip_all parts)
unfolding strip_all
strip_all-IsClean [] h = tt
strip_all-IsClean (part ∷ parts) h =
    let rest = strip_all-IsClean parts h.1 in
    let plain = rstrip-NoComma (lstrip part) (lstrip-NoComma part h.0) in
    ground (arith, rest, plain, strip-strip part)

-- Every field, however it was written, reads as clean items.
pub parse_csv-IsClean : (value : Option String) → All Clean (parse_csv value)
parse_csv-IsClean value =
    strip_all-IsClean (split (or_text value "")) (split-NoComma (or_text value ""))

-- The items that any field reads as, joined with commas, read as the same items again.
pub parse_csv-join-parse_csv :
    (value : Option String) → parse_csv (some (join (parse_csv value))) ≡ parse_csv value
parse_csv-join-parse_csv value = parse_csv-join (parse_csv value) (parse_csv-IsClean value)
