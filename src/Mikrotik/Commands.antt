-- ===== src/Mikrotik/Commands.antt =====
-- The RouterOS commands of addons/isp_mikrotik/models/provisioning_job.py.
use getupnet.Prelude.{not, ◌||◌, some, [], ◌∷◌, String, ◌⧺◌, has_text, or_text, if◌then◌else◌}
use getupnet.Prelude.Effects.{Action, skip, except_routeros, ◌>>◌}
use getupnet.Database.{Database}
use getupnet.Database.Core.{Subscription, ServicePlan}
use getupnet.Database.Network.{Command, Attributes}
use getupnet.Platform.{Platform}
use getupnet.Mikrotik.Client.{Client, cmd}

abbrev pub command : String → Attributes → Command
command path attributes = record { path = path; attributes = attributes }

module _ ⦃platform : Platform⦄ where
  -- Sends a command and drops the reply.
  unfoldable pub send : Client → String → Attributes → Action Database (Unit {0})
  send client path attributes = do cmd client (command path attributes); skip

  unfoldable pub pppoe_ensure_secret :
      Client → Subscription → ServicePlan → Action Database (Unit {0})
  pppoe_ensure_secret client sub plan =
      let profile = or_text plan.mikrotik_profile "default" in
      except_routeros
        (send client "/ppp/secret/add" (
          ("name", sub.pppoe_username)
          ∷ ("password", sub.pppoe_password)
          ∷ ("profile", some profile)
          ∷ ("service", some "pppoe")
          ∷ []))
        (send client "/ppp/secret/set" (
          ("numbers", sub.pppoe_username)
          ∷ ("password", sub.pppoe_password)
          ∷ ("profile", some profile)
          ∷ ("disabled", some "no")
          ∷ []))

  unfoldable pub pppoe_disable : Client → Subscription → Action Database (Unit {0})
  pppoe_disable client sub =
      except_routeros
        (send client "/ppp/secret/set"
          (("numbers", sub.pppoe_username) ∷ ("disabled", some "yes") ∷ []))
        skip

  unfoldable pub pppoe_enable : Client → Subscription → Action Database (Unit {0})
  pppoe_enable client sub =
      except_routeros
        (send client "/ppp/secret/set"
          (("numbers", sub.pppoe_username) ∷ ("disabled", some "no") ∷ []))
        skip

  unfoldable pub dhcp_ensure_lease : Client → Subscription → Action Database (Unit {0})
  dhcp_ensure_lease client sub =
      if not (has_text sub.service_ip) || not (has_text sub.service_mac)
      then skip
      else except_routeros
          (send client "/ip/dhcp-server/lease/add" (
            ("address", sub.service_ip)
            ∷ ("mac-address", sub.service_mac)
            ∷ ("comment", some sub.name)
            ∷ []))
          (send client "/ip/dhcp-server/lease/set" (
            ("numbers", sub.service_ip)
            ∷ ("comment", some sub.name)
            ∷ ("disabled", some "no")
            ∷ []))

  -- `f"{down}M/{up}M"`
  abbrev pub max_limit : ServicePlan → String
  max_limit plan =
      platform.show_float plan.download_mbps ⧺ ("M/" ⧺ (platform.show_float plan.upload_mbps ⧺ "M"))

  unfoldable pub queue_ensure : Client → Subscription → ServicePlan → Action Database (Unit {0})
  queue_ensure client sub plan =
      if not (has_text sub.service_ip)
      then skip
      else except_routeros
          (send client "/queue/simple/add" (
            ("name", some sub.name)
            ∷ ("target", some (or_text sub.service_ip "" ⧺ "/32"))
            ∷ ("max-limit", some (max_limit plan))
            ∷ ("comment", some sub.name)
            ∷ []))
          (send client "/queue/simple/set" (
            ("numbers", some sub.name)
            ∷ ("max-limit", some (max_limit plan))
            ∷ ("disabled", some "no")
            ∷ []))

  unfoldable pub queue_disable : Client → Subscription → Action Database (Unit {0})
  queue_disable client sub =
      except_routeros
        (send client "/queue/simple/set"
          (("numbers", some sub.name) ∷ ("disabled", some "yes") ∷ []))
        skip

  unfoldable pub queue_remove : Client → Subscription → Action Database (Unit {0})
  queue_remove client sub =
      except_routeros (send client "/queue/simple/remove" (("numbers", some sub.name) ∷ [])) skip
