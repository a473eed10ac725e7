-- ===== src/Preloader/OneRule.antt =====
-- The rules for the management addresses: all of them share a comment.
use getupnet.Prelude.{
  ℕ, ◌+◌, ◌≡◌, Bool, Option, some, List, [], ◌∷◌, ◌++◌, String, text_eq, if◌then◌else◌,
}
use getupnet.Database.Network.{Command}
use getupnet.Preloader.{RouterApi, command}
use getupnet.Preloader.Again.{query, Finds}

abbrev pub comment : String
comment = "ALLOW ODOO/NOC API"

abbrev pub rule_query : Command
rule_query = query "/ip/firewall/filter/print" "comment" comment

-- How many commands add a firewall rule.
abbrev pub is_add : Command → Bool
is_add c = text_eq c.path "/ip/firewall/filter/add"

unfoldable pub adds : List Command → ℕ
adds [] = 0
adds (c ∷ sent) = (if is_add c then 1 else 0) + adds sent

abbrev move_command : Option String → Command
move_command id =
    command "/ip/firewall/filter/move" (("numbers", id) ∷ ("destination", some "0") ∷ [])

module _ ⦃api : RouterApi⦄ where
  -- What RouterOS does with a rule that it has: a query finds it, and goes on to after a query and
  -- after a rule was moved.
  pub record KeepsRule : Type 0 where
    pub after_query :
        (sent : List Command) → Finds rule_query sent → Finds rule_query (sent ++ rule_query ∷ [])
    pub after_move :
        (sent : List Command) (id : Option String)
        → Finds rule_query sent
        → Finds rule_query (sent ++ move_command id ∷ [])

  abbrev Holds : ℕ → List Command → Type 0
  Holds n sent = Finds rule_query sent × (adds sent ≡ n)
