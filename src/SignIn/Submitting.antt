-- ===== src/SignIn/Submitting.antt =====
-- What a submission of the sign-in form leaves.
use nova_server_manager.Common.{◌≡◌, ◌⊎◌, inl, inr, Bool, false, Text, none, some, ◌∷◌, arith}
use nova_server_manager.Client.Message.{login_failed}
use nova_server_manager.Client.Error.{Error, ok, err, message_of, Result-cases}
use nova_server_manager.Client.Request.{User, authenticate}
use nova_server_manager.Client.Effect.{sent, called, authenticated}
use nova_server_manager.Client.Run.{Env, Log, Run, run, effects}
use nova_server_manager.SignIn.{SignIn, submit}

module _ (env : Env) (setup : Bool) (username password : Text) (s : SignIn) (l : Log) where
  abbrev pub submitted : Run SignIn (Unit {0})
  submitted = run env (submit setup username password) s l

  -- A submission ends, not busy, after one request: either the server names a user, who is handed to
  -- the page, and no error is shown, or the error of the server is shown and nobody is handed over.
  submit_lem :
      (submitted.result ≡ ok tt)
      × (submitted.state.busy ≡ false)
      × (((u : User) × (env.answer l (authenticate setup username password) ≡ ok u)
            × (submitted.state.shown ≡ none)
            × (submitted.log
                ≡ called (authenticated u) ∷ sent (authenticate setup username password) ∷ l))
          ⊎ ((e : Error) × (env.answer l (authenticate setup username password) ≡ err e)
              × (submitted.state.shown ≡ some (message_of e login_failed))
              × (submitted.log ≡ sent (authenticate setup username password) ∷ l)))
  unfolding effects submit
  submit_lem = elim (Result-cases (env.answer l (authenticate setup username password))) [
    | inl (u, fine) ↦ (ground arith, ground arith, inl (u, fine, ground arith, ground arith))
    | inr (e, refused) ↦ (ground arith, ground arith, inr (e, refused, ground arith, ground arith))
  ]
