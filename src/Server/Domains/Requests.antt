-- ===== src/Server/Domains/Requests.antt =====
-- The requests that change domains, one after another.
use nova_server_manager.Common.{
  Bool, true, false, not, ◌&&◌, ◌==◌, ℕ, ◌≡◌, refl, Text, includes, is_empty, text_eq, split,
  Option, some, List, [], ◌∷◌, ◌++◌, keep, any, all, if◌then◌else◌, Bool-cases, Option-cases, inl,
  inr, arith, any-keep, all-and, all-find_first, all-weaken, any-all, All, All-keep, ◌⊎◌,
}
use mathlib.Core.Path.{subst}
use mathlib.Core.Option.{some_inj}
use mathlib.Core.Bool.{and-eq-true_iff}
use nova_server_manager.Client.Request.{DnsMode}
use nova_server_manager.Server.Rows.{AppRow, LogRow, CommandResult}
use nova_server_manager.Server.Deploys.{get_app}
use nova_server_manager.Server.Python.{strip, rstrip}
use nova_server_manager.Server.Proxy.{Tools, is_path, validate_domain, configure_domains}
use nova_server_manager.Server.Domains.{
  Host, is_database, app_domains, taken, apply, set_domain, delete_domain, domain_set,
  domain_remove,
}
use nova_server_manager.Server.Domains.Separate.{
  separate, apart, clear, set_domains-separate, includes-share, share-unless, append-cases,
  app_domains-lowered,
}

-- A request, and what the commands that it runs answer.
pub data DomainRequest : Type 0 where
  sets : Tools → (app_id : ℕ) (domain : Text) (enable_ssl : Bool) → DnsMode → DomainRequest
  deletes : Tools → (app_id : ℕ) (domain : Text) → DomainRequest

All-append :
    {A : Type 0} (P : A → Type 0) (xs : List A) (y : A) → All P xs → P y → All P (xs ++ y ∷ [])
All-append P [] y h p = (p, tt)
All-append P (x ∷ xs) y (q, h) p = (q, All-append P xs y h p)

module _ (lower : Text → Text) (loads : Text → Option (List Text)) (dumps : List Text → Text) where
  unfoldable pub serve : DomainRequest → Host → Host
  unfolding set_domain delete_domain
  serve (sets tools app_id domain enable_ssl mode) h =
      (set_domain lower loads dumps tools h app_id domain enable_ssl mode).1
  serve (deletes tools app_id domain) h = (delete_domain lower loads dumps tools h app_id domain).1

  unfoldable pub serve_all : List DomainRequest → Host → Host
  unfolding serve
  serve_all [] h = h
  serve_all (r ∷ rs) h = serve_all rs (serve r h)

  -- Whether no domain belongs to two applications.
  abbrev pub exclusive : Host → Bool
  exclusive h = separate lower loads dumps h.panel.apps

  module _ (idempotent : (t : Text) → lower (lower t) ≡ lower t)
      (hosts : (t : Text) → is_path (split 46 t) ≡ true → lower t ≡ t)
      (round_trip : (ds : List Text) → loads (dumps ds) ≡ some ds)
      (written : (ds : List Text) → is_empty (dumps ds) ≡ false) where
    abbrev owned : AppRow → List Text
    owned a = app_domains lower loads dumps a

    validate_domain-lowered : (t d : Text) → validate_domain lower t ≡ some d → lower d ≡ d
    unfolding validate_domain
    validate_domain-lowered t d =
        let name = rstrip (λ c. c == 46) (strip (lower t)) in
        elim (Bool-cases (is_path (split 46 name))) [
          | inl good ↦ rw good (λ e. subst (λ z. lower z ≡ z) (some_inj.0 e) (hosts name good))
          | inr bad ↦ rw bad (λ e. cc)
        ]

    -- Domains that the application has, and others that this other one lacks, are not this one's.
    gained-clear :
        (app : AppRow) (ds : List Text) (b : AppRow)
        → ((d : Text)
            → includes ds d ≡ true
            → (b.id == app.id) ≡ false
            → (includes (owned b) d ≡ false) ⊎ (includes (owned app) d ≡ true))
        → apart lower loads dumps app b ≡ true
        → clear lower loads dumps app ds b ≡ true
    gained-clear app ds b from h = elim (Bool-cases (b.id == app.id)) [
      | inl same ↦ rw same refl
      | inr other ↦
          rw
            (
              other,
              share-unless ds (owned b) (λ d k. elim (from d k other) [
                | inl lacks ↦ lacks
                | inr had ↦ includes-share d (owned app) (owned b) (ground arith) had
              ]),
            )
            refl
    ]

    untaken :
        (app b : AppRow) (domain : Text)
        → (b.id == app.id) ≡ false
        → not (taken lower loads dumps app domain b) ≡ true
        → includes (owned b) domain ≡ false
    untaken app b domain other h = ground arith

    module _ (tools : Tools) (h : Host) (sep : exclusive h ≡ true) (app : AppRow) (app_id : ℕ)
        (found : get_app h.panel.apps app_id ≡ some app) where
      its_apart : all (apart lower loads dumps app) h.panel.apps ≡ true
      unfolding get_app
      its_apart =
          all-find_first (λ a. all (apart lower loads dumps a) h.panel.apps) _ h.panel.apps app sep
            found

      apply-exclusive :
          (warning_of : CommandResult → Option Text) (row : LogRow) (ds : List Text)
          (enable_ssl : Bool)
          → All (λ d. lower d ≡ d) ds
          → all (clear lower loads dumps app ds) h.panel.apps ≡ true
          → exclusive (apply lower loads dumps tools warning_of app row ds enable_ssl h).1 ≡ true
      unfolding apply
      apply-exclusive warning_of row ds enable_ssl low free =
          elim (Option-cases (configure_domains lower tools app ds enable_ssl h.sites)) [
            | inl error ↦ rw (error, apply) sep
            | inr ((result, sites), done) ↦
                rw (done, apply)
                  (elim (Bool-cases result.ok) [
                    | inr failed ↦ rw failed sep
                    | inl fine ↦ rw fine (
                        set_domains-separate lower loads dumps idempotent round_trip written app ds
                          low h.panel.apps sep free)
                  ])
          ]

      keeps-exclusive :
          (warning_of : CommandResult → Option Text) (row : LogRow) (domain : Text)
          → exclusive
              (apply lower loads dumps tools warning_of app row
                (keep (λ d. not (text_eq d domain)) (owned app))
                false
                h).1
            ≡ true
      keeps-exclusive warning_of row domain =
          apply-exclusive warning_of row (keep (λ d. not (text_eq d domain)) (owned app)) false
            (All-keep _ _ (owned app)
              (app_domains-lowered lower loads dumps idempotent round_trip written app))
            (all-weaken _ _
              (λ b. gained-clear app _ b (λ d k other. inr (any-keep _ _ (owned app) k)))
              h.panel.apps its_apart)

      adds-exclusive :
          (warning_of : CommandResult → Option Text) (row : LogRow) (domain : Text)
          (enable_ssl : Bool)
          → lower domain ≡ domain
          → any (taken lower loads dumps app domain) h.panel.apps ≡ false
          → exclusive
              (apply lower loads dumps tools warning_of app row
                (if includes (owned app) domain then owned app else owned app ++ domain ∷ [])
                enable_ssl
                h).1
            ≡ true
      adds-exclusive warning_of row domain enable_ssl low free =
          let lows = app_domains-lowered lower loads dumps idempotent round_trip written app in
          elim (Bool-cases (includes (owned app) domain)) [
            | inl had ↦ rw had (
                apply-exclusive warning_of row (owned app) enable_ssl lows (
                  all-weaken _ _ (λ b. gained-clear app _ b (λ d k other. inr k)) h.panel.apps
                    its_apart))
            | inr new ↦ rw new (
                apply-exclusive warning_of row (owned app ++ domain ∷ []) enable_ssl
                  (All-append _ _ domain lows low)
                  (all-weaken
                    (λ b.
                      apart lower loads dumps app b && not (taken lower loads dumps app domain b))
                    _
                    (λ b both.
                      gained-clear app _ b
                        (λ d k other. elim (append-cases d (owned app) domain k) [
                          | inl is ↦
                              inl (
                                rw is (untaken app b domain other ((and-eq-true_iff _ _).0 both).1))
                          | inr had ↦ inr had
                        ])
                        ((and-eq-true_iff _ _).0 both).0)
                    h.panel.apps
                    (all-and _ _ h.panel.apps its_apart (any-all _ h.panel.apps free))))
          ]

    module _ (tools : Tools) (h : Host) (app_id : ℕ) (asked : Text) (sep : exclusive h ≡ true) where
      set_domain-exclusive :
          (enable_ssl : Bool) (mode : DnsMode)
          → exclusive (set_domain lower loads dumps tools h app_id asked enable_ssl mode).1 ≡ true
      unfolding set_domain
      set_domain-exclusive enable_ssl mode = elim (Option-cases (get_app h.panel.apps app_id)) [
        | inl missing ↦ rw (missing, set_domain) sep
        | inr (app, found) ↦
            rw (found, set_domain)
              (elim (Bool-cases (is_database app)) [
                | inl database ↦ rw database sep
                | inr web ↦ rw web (elim (Option-cases (validate_domain lower asked)) [
                  | inl bad ↦ rw bad sep
                  | inr (domain, good) ↦
                      rw good
                        (elim (Bool-cases (any (taken lower loads dumps app domain) h.panel.apps)) [
                          | inl is_taken ↦ rw is_taken sep
                          | inr free ↦ rw free (
                              adds-exclusive tools h sep app app_id found _
                                (domain_set lower loads dumps app domain mode) domain enable_ssl
                                (validate_domain-lowered asked domain good) free)
                        ])
                ])
              ])
      ]

      delete_domain-exclusive :
          exclusive (delete_domain lower loads dumps tools h app_id asked).1 ≡ true
      unfolding delete_domain
      delete_domain-exclusive = elim (Option-cases (get_app h.panel.apps app_id)) [
        | inl missing ↦ rw (missing, delete_domain) sep
        | inr (app, found) ↦
            rw (found, delete_domain)
              (elim (Option-cases (validate_domain lower asked)) [
                | inl bad ↦ rw bad sep
                | inr (domain, good) ↦ rw good (
                    keeps-exclusive tools h sep app app_id found _
                      (domain_remove lower loads dumps app domain) domain)
              ])
      ]

    -- Where no domain belongs to two applications, none does after any sequence of requests to add and
    -- to remove domains, whatever nginx, systemctl and certbot answer, and whether the requests succeed
    -- or fail; given that lower case is lower case already, that of a valid domain is itself, and `json`
    -- reads the lists that it writes, as texts that are not empty.
    pub domains-Exclusive :
        (rs : List DomainRequest) (h : Host)
        → exclusive h ≡ true
        → exclusive (serve_all rs h) ≡ true
    unfolding serve_all
    domains-Exclusive [] h sep = sep
    domains-Exclusive (sets tools app_id domain enable_ssl mode ∷ rs) h sep =
        domains-Exclusive rs _ (set_domain-exclusive tools h app_id domain sep enable_ssl mode)
    domains-Exclusive (deletes tools app_id domain ∷ rs) h sep =
        domains-Exclusive rs _ (delete_domain-exclusive tools h app_id domain sep)
