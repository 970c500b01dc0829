-- ===== src/Server/Domains.antt =====
-- app/routers/apps.py: `set_domain` and `delete_domain`, with `_app_domains`, over the database and the
-- files that route the domains. `lower` is Python's `str.lower`; `loads` and `dumps` are those of
-- `json` on lists of texts, where `none` is a text that cannot be read.

pub mod Separate
pub mod Requests
use nova_server_manager.Common.{
  Bool, true, false, not, ◌&&◌, ◌||◌, ◌==◌, ℕ, Text, codes, includes, is_empty, text_eq, Option,
  none, some, List, [], ◌∷◌, ◌++◌, map, keep, any, str_eq, if◌then◌else◌,
}
use nova_server_manager.Client.Request.{DnsMode}
use nova_server_manager.Server.Rows.{AppRow, LogRow, CommandResult, given_domain, lost_domain}
use nova_server_manager.Server.Replies.{
  Reply, answers, refuses, no_such_app, no_http_domain, invalid_domain, domain_taken, proxy_failed,
}
use nova_server_manager.Server.Deploys.{Panel, get_app, change_app}
use nova_server_manager.Server.Deploys.Task.{complaint}
use nova_server_manager.Server.Proxy.{Sites, Tools, unique, validate_domain, configure_domains}

-- What the server keeps: its database and the files of nginx.
pub record Host : Type 0 where
  pub panel : Panel
  pub sites : Sites

-- What the two handlers answer.
pub record DomainAnswer : Type 0 where
  pub domain : Text
  pub domains : List Text
  pub warning : Option Text

-- `app.app_type in {"postgres", "mongodb"}`
abbrev pub is_database : AppRow → Bool
is_database a = str_eq a.app_type "postgres" || str_eq a.app_type "mongodb"

abbrev pub head_or_empty : List Text → Text
head_or_empty [] = []
head_or_empty (d ∷ ds) = d

module _ (lower : Text → Text) (loads : Text → Option (List Text)) (dumps : List Text → Text) where
  abbrev pub listed : AppRow → List Text
  listed a = elim (loads (if is_empty a.domains_json then codes "[]" else a.domains_json)) [
    | none ↦ []
    | some ds ↦ ds
  ]

  -- `_app_domains`
  unfoldable pub app_domains : AppRow → List Text
  unfolding unique text_eq
  app_domains a =
      let found = listed a in
      let all_domains =
        if not (is_empty a.domain) && not (includes found a.domain)
        then a.domain ∷ found
        else found in
      unique (map lower (keep (λ d. not (is_empty d)) all_domains))

  unfoldable pub set_domains : List Text → AppRow → AppRow
  set_domains domains a = record a { domain = head_or_empty domains; domains_json = dumps domains }

  -- Whether the domain is another application's.
  abbrev pub taken : AppRow → Text → AppRow → Bool
  taken app domain a = not (a.id == app.id) && includes (app_domains a) domain

  abbrev pub logged : AppRow → LogRow → List Text → Host → Sites → Host
  logged app row domains h sites = record {
    panel = record (h.panel) {
      apps = change_app app.id (set_domains domains) h.panel.apps;
      logs = row ∷ h.panel.logs;
    };
    sites = sites;
  }

  abbrev pub domain_set : AppRow → Text → DnsMode → LogRow
  domain_set app domain mode = record {
    action = "domain_set";
    detail = given_domain app.name domain mode;
    level = "info";
  }

  abbrev pub domain_remove : AppRow → Text → LogRow
  domain_remove app domain = record {
    action = "domain_remove";
    detail = lost_domain app.name domain;
    level = "info";
  }

  -- What both handlers do from `configure_domains` on.
  unfoldable pub apply :
      Tools
      → (warning_of : CommandResult → Option Text) → AppRow
      → LogRow
      → List Text
      → (enable_ssl : Bool) → Host
      → Reply DomainAnswer × Host
  unfolding configure_domains set_domains change_app
  apply tools warning_of app row domains enable_ssl h =
      elim (configure_domains lower tools app domains enable_ssl h.sites) [
        | none ↦ (refuses invalid_domain, h)
        | some (result, sites) ↦
            if not result.ok
            then (refuses (proxy_failed (complaint result)), record h { sites = sites })
            else (
              answers (record {
                domain = head_or_empty domains;
                domains = domains;
                warning = warning_of result;
              }),
              logged app row domains h sites,
            )
      ]

  -- `set_domain`
  unfoldable pub set_domain :
      Tools
      → Host
      → (app_id : ℕ) (domain : Text) (enable_ssl : Bool) → DnsMode
      → Reply DomainAnswer × Host
  unfolding get_app validate_domain apply app_domains
  set_domain tools h app_id asked enable_ssl mode = elim (get_app h.panel.apps app_id) [
    | none ↦ (refuses no_such_app, h)
    | some app ↦
        if is_database app
        then (refuses no_http_domain, h)
        else elim (validate_domain lower asked) [
          | none ↦ (refuses invalid_domain, h)
          | some domain ↦
              if any (taken app domain) h.panel.apps
              then (refuses domain_taken, h)
              else let before = app_domains app in
                apply tools (λ r. some r.stderr) app (domain_set app domain mode)
                  (if includes before domain then before else before ++ domain ∷ []) enable_ssl h
        ]
  ]

  -- `delete_domain`
  unfoldable pub delete_domain :
      Tools → Host → (app_id : ℕ) (domain : Text) → Reply DomainAnswer × Host
  unfolding get_app validate_domain apply app_domains
  delete_domain tools h app_id asked = elim (get_app h.panel.apps app_id) [
    | none ↦ (refuses no_such_app, h)
    | some app ↦ elim (validate_domain lower asked) [
      | none ↦ (refuses invalid_domain, h)
      | some domain ↦
          apply tools (λ r. none) app (domain_remove app domain)
            (keep (λ d. not (text_eq d domain)) (app_domains app)) false h
    ]
  ]
