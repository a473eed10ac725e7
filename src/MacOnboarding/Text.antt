-- ===== src/MacOnboarding/Text.antt =====
-- Upper and lower case for the letters of ASCII, `normalize_mac` of
-- addons/isp_core/models/mac_profile.py, and the name of a captive user in
-- addons/isp_core/controllers/mac_onboarding.py. Other letters stay as they are: MAC addresses have
-- none, and no other letter has one of `false` or `no` as its lower case.
use Prim.Native.Char.{Char, code}
use Prim.Native.String.{[], ◌∷◌}
use getupnet.Prelude.{
  ◌==◌, Bool, false, ◌||◌, Option, none, some, String, text_eq, ◌⧺◌, if◌then◌else◌,
}
use getupnet.Preconfig.Text.{strip}

abbrev small_letters : String
small_letters = "abcdefghijklmnopqrstuvwxyz"

abbrev capital_letters : String
capital_letters = "ABCDEFGHIJKLMNOPQRSTUVWXYZ"

-- The letter at the same place of another alphabet.
unfoldable pub counterpart : String → String → Char → Char
counterpart (a ∷ from) (b ∷ to) c =
    let rest = counterpart from to c in if code a == code c then b else rest
counterpart from to c = c

unfoldable pub upper : String → String
upper [] = ""
upper (c ∷ s) = counterpart small_letters capital_letters c ∷ upper s

unfoldable pub lower : String → String
lower [] = ""
lower (c ∷ s) = counterpart capital_letters small_letters c ∷ lower s

-- `norm_mac.replace(':', '')`
unfoldable pub remove_colons : String → String
remove_colons [] = ""
remove_colons (c ∷ s) = let rest = remove_colons s in if code c == b':' then rest else c ∷ rest

-- `normalize_mac`, where `False` is `none`.
unfoldable pub normalize_mac : Option String → Option String
normalize_mac none = none
normalize_mac (some mac) = if text_eq mac "" then none else some (upper (strip mac))

abbrev pub captive_username : String → String
captive_username norm_mac = "onu_" ⧺ lower (remove_colons norm_mac)

-- `str(bound).lower() in ("0", "false", "no")`
abbrev pub is_unbound : String → Bool
is_unbound bound =
    text_eq (lower bound) "0" || text_eq (lower bound) "false" || text_eq (lower bound) "no"

-- `value in ("1", "true", "True")`
abbrev pub is_on : Option String → Bool
is_on none = false
is_on (some s) = text_eq s "1" || text_eq s "true" || text_eq s "True"
