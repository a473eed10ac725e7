-- ===== src/Captive.antt =====
-- addons/isp_captive_portal/models: captive_user.py, walled_garden.py and provisioning_job.py.
use getupnet.Prelude.{
  ℕ, true, false, Option, none, some, List, [], ◌∷◌, String, or_text, if◌then◌else◌,
}
use getupnet.Prelude.Effects.{
  Action, user_error, missing_error, skip, gets, modify, pure, or_raise, except_routeros, for_each,
  ◌>>=◌, ◌>>◌,
}
use getupnet.Prelude.Rows.{browse, assign}
use getupnet.Database.{Database}
use getupnet.Database.Core.{Job, JobType, Payload}
use getupnet.Database.Network.{CaptiveUser, CaptiveState, WalledGarden}
use getupnet.Platform.{Platform}
use getupnet.Core.Subscription.{create_job}
use getupnet.Mikrotik.Client.{router_sector, get_routeros_client}
use getupnet.Mikrotik.Commands.{send}
use getupnet.Mikrotik.Handlers.{or_else, router_of_sector}

unfoldable pub read_user : ℕ → Action Database CaptiveUser
unfolding browse
read_user i db = or_raise (browse i db.captive_users) (missing_error "isp.captive.user") db

unfoldable pub read_garden : ℕ → Action Database WalledGarden
read_garden i db =
    or_raise (browse i db.walled_gardens) (missing_error "isp.captive.walled_garden") db

unfoldable pub set_user_state : ℕ → CaptiveState → Action Database (Unit {0})
unfolding assign
set_user_state i state = modify λ db. record db {
  captive_users = assign i (λ user. record user { state = state }) db.captive_users;
}

-- The related field `sector_id` of a record with a `router_id`.
unfoldable pub related_sector : Option ℕ → Database → Option ℕ
related_sector none db = none
related_sector (some i) db = elim (browse i db.routers) [
  | none ↦ none
  | some router ↦ router_sector router db
]

-- `rec.router_id.device_id.id if rec.router_id else False`
unfoldable pub related_device : Option ℕ → Database → Option ℕ
related_device none db = none
related_device (some i) db = elim (browse i db.routers) [
  | none ↦ none
  | some router ↦ some router.device_id
]

-- `payload.get(key)` of `get_payload`, which reads a broken text as `{}`.
abbrev pub payload_user : Payload → Option ℕ
payload_user (Payload.captive_user_id i) = some i
payload_user _ = none

abbrev pub payload_garden : Payload → Option ℕ
payload_garden (Payload.walled_garden_id i) = some i
payload_garden _ = none

-- The code of a user's sector, or the empty text.
unfoldable pub sector_code : Option ℕ → Database → String
sector_code none db = ""
sector_code (some i) db = elim (browse i db.sectors) [ none ↦ "" | some sector ↦ sector.code ]

module _ ⦃platform : Platform⦄ where
  -- One round of `action_enable` and `action_disable`, and of `WalledGarden.action_apply`.
  unfoldable pub queue_captive_job : JobType → Payload → Option ℕ → Action Database (Unit {0})
  queue_captive_job job_type payload router_id = do
    sector ← gets (related_sector router_id)
    device ← gets (related_device router_id)
    create_job job_type none device sector payload
    skip

  unfoldable pub action_enable : List ℕ → Action Database (Unit {0})
  action_enable self = for_each self λ i. do
    user ← read_user i
    queue_captive_job JobType.captive_user_create (Payload.captive_user_id i) user.router_id

  unfoldable pub action_disable : List ℕ → Action Database (Unit {0})
  action_disable self = for_each self λ i. do
    user ← read_user i
    queue_captive_job JobType.captive_user_disable (Payload.captive_user_id i) user.router_id

  unfoldable pub action_apply : List ℕ → Action Database (Unit {0})
  action_apply self = for_each self λ i. do
    garden ← read_garden i
    queue_captive_job JobType.walled_garden_apply (Payload.walled_garden_id i) garden.router_id

  -- The search by sector in `_get_router_for_captive`.
  unfoldable pub router_by_sector : Option ℕ → Database → Option ℕ
  router_by_sector none db = none
  router_by_sector (some sector) db = router_of_sector sector db

  unfoldable pub get_router_for_captive : Option ℕ → Action Database ℕ
  get_router_for_captive router_id db =
      or_raise (or_else router_id (router_by_sector (related_sector router_id db) db))
        (user_error "No MikroTik router found for captive operation.") db

  unfoldable pub handle_captive_user_create : Job → Action Database (Unit {0})
  unfolding read_user get_router_for_captive get_routeros_client sector_code send set_user_state
  handle_captive_user_create job = do
    i ← or_raise (payload_user job.payload_json) (user_error "captive_user_id missing in payload.")
    user ← read_user i
    client ← (do get_routeros_client (← get_router_for_captive user.router_id))
    comment ← gets (λ db. sector_code (related_sector user.router_id db) db)
    except_routeros
        (send client "/ip/hotspot/user/add" (
          ("name", some user.username)
          ∷ ("password", some (or_text user.password ""))
          ∷ ("profile", some (or_text user.profile "default"))
          ∷ ("disabled", some "no")
          ∷ ("comment", some comment)
          ∷ []))
        (send client "/ip/hotspot/user/set" (
          ("numbers", some user.username)
          ∷ ("profile", some (or_text user.profile "default"))
          ∷ ("disabled", some "no")
          ∷ []))
    set_user_state i CaptiveState.active

  -- A refusal by the router ends the method before the state is set.
  unfoldable pub handle_captive_user_disable : Job → Action Database (Unit {0})
  unfolding read_user get_router_for_captive get_routeros_client send set_user_state
  handle_captive_user_disable job = do
    i ← or_raise (payload_user job.payload_json) (user_error "captive_user_id missing in payload.")
    user ← read_user i
    client ← (do get_routeros_client (← get_router_for_captive user.router_id))
    sent ←
        except_routeros
          (do
            send client "/ip/hotspot/user/set"
                (("numbers", some user.username) ∷ ("disabled", some "yes") ∷ [])
            pure true)
          (pure false)
    if sent then set_user_state i CaptiveState.disabled else skip

  unfoldable pub handle_walled_garden_apply : Job → Action Database (Unit {0})
  handle_walled_garden_apply job = do
    i ←
        or_raise (payload_garden job.payload_json)
          (user_error "walled_garden_id missing in payload.")
    garden ← read_garden i
    client ← (do get_routeros_client (← get_router_for_captive garden.router_id))
    except_routeros
        (send client "/ip/hotspot/walled-garden/add" (("dst-host", some garden.domain) ∷ [])) skip
