-- ===== src/Preconfig/Keys.antt =====
-- What merging one dictionary into another leaves under each key.
use getupnet.Prelude.{
  ◌≡◌, refl, sym, ◌∙◌, Bool, true, false, Bool-cases, inl, inr, ◌&&◌, Option, none, some, String,
  text_eq, eq_iff, is_set, or_value, arith, if◌then◌else◌,
}
use getupnet.Prelude.Effects.{ok}
use getupnet.Preconfig.Value.{
  Value, null, flag, number, text, texts, dict, Dict, empty, entry, get, put, UniqueKeys,
}
use getupnet.Preconfig.Merge.{merge_dict, merge_entry}

-- Under every key that holds a dictionary in the one, the other has a dictionary or nothing, and so
-- on within them.
unfoldable mutual
  pub fits : Dict → Dict → Bool
  fits empty m = true
  fits (entry k v src) m = fits_value v (get k m) && fits src m

  pub fits_value : Value → Option Value → Bool
  fits_value (dict d) none = fits d empty
  fits_value (dict d) (some (dict n)) = fits d n
  fits_value (dict d) (some v) = false
  fits_value v o = true

pub get-put :
    (i k : String) (w : Value) (m : Dict)
    → get i (put k w m) ≡ (if text_eq i k then some w else get i m)
unfolding get put
get-put i k w empty = refl
get-put i k w (entry j v m) = ground (arith, get-put i k w m, eq_iff i k, eq_iff k j, eq_iff i j)

-- What is left under a key that holds `v` in the dictionary that is merged.
abbrev pub over : Value → Option Value → Option Value
over null o = o
over (dict d) o = some (merge_dict d (or_value o (dict empty))).1
over v o = some v

abbrev pub over_key : Option Value → Option Value → Option Value
over_key none o = o
over_key (some v) o = over v o

-- Merging goes through, and leaves that under every key.
abbrev pub Merges : Dict → Dict → Type 0
Merges src m =
    (m' : Dict) × (merge_dict src (dict m) ≡ (ok tt, dict m'))
    × ((i : String) → get i m' ≡ over_key (get i src) (get i m))

-- A key that an entry's dictionary does not have differs from the entry's key.
differs :
    (k j : String) (v : Value) (d : Dict)
    → is_set (get k (entry j v d)) ≡ false
    → (text_eq j k ≡ false) × (is_set (get k d) ≡ false)
unfolding get
differs k j v d h = ground (arith, eq_iff j k, eq_iff k j)

fits-put :
    (src : Dict) (k : String) (w : Value) (m : Dict)
    → is_set (get k src) ≡ false
    → fits src (put k w m) ≡ fits src m
unfolding fits
fits-put empty k w m h = refl
fits-put (entry j v src) k w m h =
    let (other, rest) = differs k j v src h in
    rw (get-put j k w m, other, fits-put src k w m rest) refl

absent : (k : String) (d : Dict) → is_set (get k d) ≡ false → get k d ≡ none
absent k d h = ground (arith, h)

-- Under a key that the rest of the dictionary does not have, the first entry decides.
key-first :
    (i k : String) (v w : Value) (src m : Dict)
    → is_set (get k src) ≡ false
    → over v (get k m) ≡ some w
    → over_key (get i src) (get i (put k w m)) ≡ over_key (get i (entry k v src)) (get i m)
unfolding get
key-first i k v w src m h there = elim (Bool-cases (text_eq i k)) [
  | inl same ↦
      let path : i ≡ k = (eq_iff i k).0 same in
      rw (get-put i k w m, same, path, absent k src h) (sym there)
  | inr other ↦ rw (get-put i k w m, other) refl
]

entry-Merges :
    (k : String) (v w : Value) (src m : Dict)
    → is_set (get k src) ≡ false
    → over v (get k m) ≡ some w
    → merge_entry k v (dict m) ≡ (ok tt, dict (put k w m))
    → Merges src (put k w m)
    → Merges (entry k v src) m
unfolding merge_dict
entry-Merges k v w src m h there step (m', goes, keys) =
    (m', rw step goes, λ i. keys i ∙ key-first i k v w src m h there)

null-Merges :
    (k : String) (src m : Dict)
    → is_set (get k src) ≡ false
    → Merges src m
    → Merges (entry k null src) m
unfolding merge_dict get
null-Merges k src m h (m', goes, keys) = (
  m',
  goes,
  λ i. elim (Bool-cases (text_eq i k)) [
    | inl same ↦
        let path : i ≡ k = (eq_iff i k).0 same in
        rw same (keys i ∙ (rw (path, absent k src h) refl))
    | inr other ↦ rw other (keys i)
  ],
)

pub fits_rest :
    (k : String) (v : Value) (src m : Dict)
    → fits (entry k v src) m ≡ true
    → (fits_value v (get k m) ≡ true) × (fits src m ≡ true)
unfolding fits
fits_rest k v src m h = (ground (arith, h), ground (arith, h))

-- The dictionary that a nested one is merged into.
pub node :
    (d : Dict) (o : Option Value)
    → fits_value (dict d) o ≡ true
    → (n : Dict) × (or_value o (dict empty) ≡ dict n) × (fits d n ≡ true)
unfolding fits
node d none h = (empty, refl, h)
node d (some null) h = absurd (ground (arith, h))
node d (some (flag b)) h = absurd (ground (arith, h))
node d (some (number n)) h = absurd (ground (arith, h))
node d (some (text s)) h = absurd (ground (arith, h))
node d (some (texts l)) h = absurd (ground (arith, h))
node d (some (dict n)) h = (n, refl, h)

nested-Merges :
    (k : String) (d n src m : Dict)
    → is_set (get k src) ≡ false
    → or_value (get k m) (dict empty) ≡ dict n
    → (within : Merges d n) → Merges src (put k (dict within.0) m)
    → Merges (entry k (dict d) src) m
nested-Merges k d n src m h at_node (n', goes, _) rest =
    entry-Merges k (dict d) (dict n') src m h (rw (at_node, goes) refl)
      (unfold merge_dict in rw (at_node, goes) refl) rest

leaf-Merges :
    (k : String) (v : Value) (src m : Dict)
    → is_set (get k src) ≡ false
    → ((o : Option Value) → over v o ≡ some v)
    → merge_entry k v (dict m) ≡ (ok tt, dict (put k v m))
    → (UniqueKeys src → fits src (put k v m) ≡ true → Merges src (put k v m))
    → UniqueKeys src
    → fits src m ≡ true
    → Merges (entry k v src) m
leaf-Merges k v src m h whole step rest u f =
    entry-Merges k v v src m h (whole (get k m)) step (rest u (fits-put src k v m h ∙ f))

pub merge_dict-Merges : (src m : Dict) → UniqueKeys src → fits src m ≡ true → Merges src m
unfolding merge_dict get
merge_dict-Merges empty m u f = (m, refl, λ i. refl)
merge_dict-Merges (entry k null src) m (h, _, u) f =
    null-Merges k src m h (merge_dict-Merges src m u (fits_rest k null src m f).1)
merge_dict-Merges (entry k (flag b) src) m (h, _, u) f =
    leaf-Merges k (flag b) src m h (λ o. refl) refl (merge_dict-Merges src (put k (flag b) m)) u
      (fits_rest k (flag b) src m f).1
merge_dict-Merges (entry k (number n) src) m (h, _, u) f =
    leaf-Merges k (number n) src m h (λ o. refl) refl (merge_dict-Merges src (put k (number n) m)) u
      (fits_rest k (number n) src m f).1
merge_dict-Merges (entry k (text s) src) m (h, _, u) f =
    leaf-Merges k (text s) src m h (λ o. refl) refl (merge_dict-Merges src (put k (text s) m)) u
      (fits_rest k (text s) src m f).1
merge_dict-Merges (entry k (texts l) src) m (h, _, u) f =
    leaf-Merges k (texts l) src m h (λ o. refl) refl (merge_dict-Merges src (put k (texts l) m)) u
      (fits_rest k (texts l) src m f).1
merge_dict-Merges (entry k (dict d) src) m (h, inner, u) f =
    let (fit, rest) = fits_rest k (dict d) src m f in
    let (n, at_node, fit_node) = node d (get k m) fit in
    let within = merge_dict-Merges d n inner fit_node in
    nested-Merges k d n src m h at_node within (
      merge_dict-Merges src (put k (dict within.0) m) u (fits-put src k (dict within.0) m h ∙ rest))
