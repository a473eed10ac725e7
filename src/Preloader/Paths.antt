-- ===== src/Preloader/Paths.antt =====
-- The text methods that tools/mikrotik_preloader/preloader.py uses on addresses and URLs.
use Prim.Native.String.{String, [], ◌∷◌}
use text.Mathlib.Text.{◌==◌, find?, get?}
use getupnet.Prelude.{◌≡◌, refl, none, some, if◌then◌else◌}

-- `s.rstrip("/")`
abbrev pub rstrip_slash : String → String
rstrip_slash [] = []
rstrip_slash (c ∷ s) = let rest = rstrip_slash s in if (c ∷ rest) == "/" then "" else c ∷ rest

-- `s.split("/")[0]`
abbrev pub before_slash : String → String
before_slash s = elim (find? s "/") [
  | none ↦ s
  | some k ↦ elim (get? s 0 k) [ none ↦ s | some t ↦ t ]
]

stripped : rstrip_slash "http://host//" ≡ "http://host"
stripped = refl

cut : before_slash "10.0.0.1/24" ≡ "10.0.0.1"
cut = refl
