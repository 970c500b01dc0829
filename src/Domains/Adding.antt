-- ===== src/Domains/Adding.antt =====
-- What adding a domain leaves.
use nova_server_manager.Common.{◌≡◌, ◌↔◌, ℕ, Bool, true, false, Text, ◌∷◌, arith}
use nova_server_manager.Client.Error.{ok}
use nova_server_manager.Client.Request.{add_domain}
use nova_server_manager.Client.Effect.{called, reload}
use nova_server_manager.Client.Run.{Env, Log, Run, run, requests, Succeeds, effects}
use nova_server_manager.Domains.{DomainForm, submit}

-- Whether the latest event asks for the application again.
abbrev pub asks_reload : Log → Bool
asks_reload (called reload ∷ l) = true
asks_reload _ = false

module _ (app_id : ℕ) (env : Env) (c s : DomainForm) (domain : Text) (wants_ssl : Bool)
    (l : Log) where
  abbrev pub added : Run DomainForm (Unit {0})
  added = run env (submit app_id c domain wants_ssl) s l

  -- To add a domain ends, not busy, with the choices kept, after exactly one request, for the record
  -- type that was chosen; the application is asked for again exactly if the server accepts, with or
  -- without a warning.
  submit_adds :
      (added.result ≡ ok tt)
      × (added.state ≡ record s { busy = false })
      × (requests added.log ≡ add_domain app_id domain wants_ssl c.mode ∷ requests l)
      × ((asks_reload added.log ≡ true)
          ↔ Succeeds (env.answer l (add_domain app_id domain wants_ssl c.mode)))
  unfolding effects submit requests
  submit_adds = ground arith
