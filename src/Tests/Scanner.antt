-- ===== src/Tests/Scanner.antt =====
-- The theorems on the scan for ONUs and the set-up of a hotspot, with one device in the router's ARP table.
use getupnet.Prelude.{◌≡◌, refl, true, none, some, [], ◌∷◌, text_eq, if◌then◌else◌}
use getupnet.Prelude.Effects.{ok, value_error}
use getupnet.Database.Network.{Attributes}
use getupnet.Samples.{office}
use getupnet.Preloader.{RouterApi}
use getupnet.Scanner.Onus.{Refusal, are_fields, main}
use getupnet.Scanner.Reading.{OnlyReads, main-OnlyReads}
use getupnet.Scanner.Hotspot.{hotspot_main}
use getupnet.Scanner.Unset.{hotspot_main-OnlyReads}
use getupnet.Scanner.Fields.{RefusesUnknown, main-no_onus}

abbrev entry : Attributes
entry =
    ("interface", some "ether3") ∷ ("mac-address", some "AA:BB") ∷ ("address", some "10.0.0.9") ∷ []

instance abbrev router : RouterApi
router = record {
  answer = λ sent c. ok (if text_eq c.path "/ip/arp/print" then entry ∷ [] else []);
  connect = λ user password sent. none;
}

abbrev takes_all : Refusal
takes_all onus vals = none

abbrev strict : Refusal
strict onus vals = if are_fields vals then none else some (value_error "Invalid field")

strict-RefusesUnknown : RefusesUnknown strict
strict-RefusesUnknown onus vals unknown = rw unknown refl

main-OnlyReads_example : OnlyReads (main (ok true) takes_all [] []).0
main-OnlyReads_example = main-OnlyReads (ok true) takes_all [] [] tt

main-no_onus_example : (main (ok true) strict [] []).1.1 ≡ []
main-no_onus_example = main-no_onus strict strict-RefusesUnknown (ok true) [] []

hotspot_main-OnlyReads_example : OnlyReads (hotspot_main []).1
hotspot_main-OnlyReads_example = hotspot_main-OnlyReads [] tt
