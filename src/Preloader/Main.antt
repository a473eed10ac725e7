-- ===== src/Preloader/Main.antt =====
-- The loop of `main` in tools/mikrotik_preloader/preloader.py: every router that answers in the subnet
-- is set up and registered. The routers stand at their addresses, each with what it was sent; Odoo
-- has its database. The configuration is the one after the merge, with its port as a number beside it.
pub mod Reached
use getupnet.Prelude.{
  ℕ, Bool, true, false, Option, none, some, List, [], ◌∷◌, String, text_eq, or_value, if◌then◌else◌,
}
use getupnet.Prelude.Effects.{
  Action, Result, other_error, skip, pure, or_raise, try_except, for_each, ◌>>=◌, ◌>>◌,
}
use getupnet.Database.{Database}
use getupnet.Database.Network.{Command}
use getupnet.Platform.{Platform}
use getupnet.Preloader.{RouterApi}
use getupnet.Preloader.Config.{Config}
use getupnet.Preloader.Onboard.{routeros_onboard}
use getupnet.Preloader.Register.{Onboarded, odoo_register_device}

-- The section `odoo` of the configuration.
pub record OdooConfig : Type 0 where
  pub pass_env : Option String
  pub register_device : Option Bool

pub record Field : Type 0 where
  pub office : Database
  pub sent : String → List Command

abbrev pub on_office : {A : Type 0} → Action Database A → Action Field A
on_office m field = let (r, office) = m field.office in (r, record field { office = office })

abbrev pub on_router : {A : Type 0} → String → Action (List Command) A → Action Field A
on_router ip m field =
    let (r, commands) = m (field.sent ip) in
    (r, record field { sent = λ other. if text_eq other ip then commands else field.sent other })

-- `scan_subnet_for_api`, over the hosts of the subnet and those that take a connection.
unfoldable pub scan_subnet_for_api : (String → Bool) → List String → List String
scan_subnet_for_api connects [] = []
scan_subnet_for_api connects (ip ∷ hosts) =
    let rest = scan_subnet_for_api connects hosts in if connects ip then ip ∷ rest else rest

-- What the tool meets: the routers by their addresses, the environment of its process, Odoo's answer
-- to a log-in, and its configuration.
pub record Site : Type 0 where
  pub apis : String → RouterApi
  pub environ : String → Option String
  pub authenticate : String → Result Bool
  pub cfg : Config
  pub api_port : ℕ
  pub odoo : OdooConfig

module _ ⦃platform : Platform⦄ (site : Site) where
  -- The commands for one router, and the name that it has then.
  abbrev pub set_up : String → Action (List Command) String
  set_up ip = routeros_onboard ⦃api = site.apis ip⦄ site.environ ip site.cfg

  unfoldable pub register : String → String → Action Database (Unit {0})
  register ip identity = do
    code ← or_raise site.cfg.sector_code (other_error "sector_code")
    odoo_register_device site.environ site.authenticate site.odoo.pass_env code
        (record { identity = identity; ip = ip; api_port = site.api_port })
    skip

  abbrev pub register_if_asked : String → String → Action Field (Unit {0})
  register_if_asked ip identity =
      if or_value site.odoo.register_device true then on_office (register ip identity) else skip

  -- The body of the loop, inside its `try`.
  unfoldable pub onboard : String → Action Field (Unit {0})
  onboard ip = do identity ← on_router ip (set_up ip); register_if_asked ip identity

  unfoldable pub onboard_all : List String → Action Field (Unit {0})
  onboard_all candidates = for_each candidates (λ ip. try_except (onboard ip) (λ exc. skip))
