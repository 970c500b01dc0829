-- ===== src/Domains.antt =====
-- frontend/src/views/app-detail-view.tsx: `DomainTab`, the domains of an application and the recipe of
-- the DNS record.
pub mod Adding
use nova_server_manager.Common.{
  ℕ, Bool, true, false, Text, codes, is_empty, Option, none, some, if◌then◌else◌,
}
use nova_server_manager.Client.Message.{
  Message, value_copied, domain_without_ssl, domain_with_https, domain_with_http, domain_failed,
  confirm_remove_domain, domain_removed, domain_remove_failed,
}
use nova_server_manager.Client.Error.{message_of}
use nova_server_manager.Client.Request.{
  DnsMode, a, cname, wildcard, add_domain, remove_domain, copy_text, confirm,
}
use nova_server_manager.Client.Effect.{
  Prog, Kind, success, error, info, called, reload, request, choose, update, notify, signal, skip,
  catch, finally, ◌>>=◌, ◌>>◌,
}

pub record DomainForm : Type 0 where
  pub busy : Bool
  pub mode : DnsMode
  pub target : Text

abbrev pub initial : DomainForm
initial = record { busy = false; mode = cname; target = codes "server.example.com" }

unfoldable pub copy : Text → Prog DomainForm (Unit {0})
copy value = do request (copy_text value); notify value_copied success

-- Whether the server warns: `result.warning` is there and not empty.
abbrev pub warns : Option Text → Bool
warns none = false
warns (some text) = if is_empty text then false else true

unfoldable pub outcome : Option Text → Bool → Message
outcome warning wants_ssl =
    if warns warning
    then domain_without_ssl
    else if wants_ssl
    then domain_with_https
    else domain_with_http

unfoldable pub choose_mode : DnsMode → Prog DomainForm (Unit {0})
choose_mode mode = update (λ s. record s { mode = mode })

unfoldable pub type_target : Text → Prog DomainForm (Unit {0})
type_target target = update (λ s. record s { target = target })

module _ (app_id : ℕ) where
  unfoldable pub submit :
      DomainForm → (domain : Text) (wants_ssl : Bool) → Prog DomainForm (Unit {0})
  submit c domain wants_ssl = do
    update (λ s. record s { busy = true })
    finally
        (catch
          (do
            warning ← request (add_domain app_id domain wants_ssl c.mode)
            notify (outcome warning wants_ssl) (if warns warning then info else success)
            signal (called reload))
          (λ e. notify (message_of e domain_failed) error))
        (λ p. update (λ s. record s { busy = false }) >> p)

  -- What `remove` does once the user has agreed.
  remove_agreed : Text → Prog DomainForm (Unit {0})
  remove_agreed domain =
      catch
        (do
          request (remove_domain app_id domain)
          notify domain_removed success
          signal (called reload))
        (λ e. notify (message_of e domain_remove_failed) error)

  unfoldable pub remove : Text → Prog DomainForm (Unit {0})
  unfolding remove_agreed
  remove domain = do
    agreed ← choose (confirm (confirm_remove_domain domain))
    if agreed then remove_agreed domain else skip

-- `serverIp || "SERVER_IP"`
abbrev pub address : Text → Text
address server_ip = if is_empty server_ip then codes "SERVER_IP" else server_ip

-- The type, the name and the value of the record that the user is told to make.
unfoldable pub dns_type : DnsMode → Text
dns_type a = codes "A"
dns_type cname = codes "CNAME"
dns_type wildcard = codes "A"

unfoldable pub dns_name : DnsMode → Text
dns_name a = codes "app"
dns_name cname = codes "app"
dns_name wildcard = codes "*.apps"

unfoldable pub dns_value : Text → DomainForm → Text
dns_value server_ip s = elim s.mode [
  | a ↦ address server_ip
  | cname ↦ s.target
  | wildcard ↦ address server_ip
]
