-- ===== src/AppsView/Creation/Flow.antt =====
-- The two steps of `CreateAppModal`, whatever the server answers.
use nova_server_manager.Common.{
  ◌≡◌, ◌↔◌, Bool, true, false, ◌&&◌, Option, none, some, List, ◌∷◌, arith,
}
use nova_server_manager.Types.{NovaApp, UploadProgress}
use nova_server_manager.Client.Json.{File}
use nova_server_manager.Client.Error.{ok, is_ok}
use nova_server_manager.Client.Request.{create_app, upload_source}
use nova_server_manager.Client.Effect.{called, created as created_callback}
use nova_server_manager.Client.Run.{Env, Log, Run, run, effects, Succeeds}
use nova_server_manager.AppDetail.{needs_no_source}
use nova_server_manager.AppsView.Creation.{
  Creation, details, source, AppForm, new_app, create, finish,
}

-- Whether the latest event hands a new application to the page.
abbrev pub hands_over : Log → Bool
hands_over (called (created_callback app) ∷ l) = true
hands_over _ = false

module _ (env : Env) (form : AppForm) (c s : Creation) (l : Log) where
  abbrev pub creating : Run Creation (Unit {0})
  creating = run env (create c form) s l

  -- Creating an application always ends, with the dialog not busy and the chosen file kept, and
  -- hands the application to the page exactly if the server makes it and its type needs no
  -- source.
  create_settles :
      (creating.result ≡ ok tt)
      × (creating.state.busy ≡ false)
      × (creating.state.file ≡ s.file)
      × (hands_over creating.log
          ≡ is_ok (env.answer l (create_app (new_app form))) && needs_no_source c.app_type)
  unfolding effects create
  create_settles = ground arith

  -- From the first step of the dialog, creating an application leads to the second one exactly
  -- if the server makes it and its type needs a source.
  create_advances :
      s.step ≡ details
      → (creating.state.step ≡ source) ↔ (
          Succeeds (env.answer l (create_app (new_app form)))
          × (needs_no_source c.app_type ≡ false))
  unfolding effects create
  create_advances first = ground arith

module _ (env : Env) (reports : List UploadProgress) (app : NovaApp) (c s : Creation) (l : Log)
    (made : c.created ≡ some app) where
  abbrev pub finishing : Run Creation (Unit {0})
  finishing = run env (finish c reports) s l

  -- Whether the chosen file, if there is one, is uploaded.
  abbrev pub uploaded : Option File → Bool
  uploaded none = true
  uploaded (some file) = is_ok (env.answer l (upload_source app.id file))

  -- For an application that was made, the second step always ends, and hands the application to
  -- the page exactly if no file is chosen or its upload succeeds.
  finish_lem : (finishing.result ≡ ok tt) × (hands_over finishing.log ≡ uploaded c.file)
  unfolding effects finish
  finish_lem = ground arith
