-- ===== src/SignIn.antt =====
-- frontend/src/components/auth-view.tsx: `AuthView`, which signs a user in, or makes the first user.
pub mod Submitting
use nova_server_manager.Common.{Bool, true, false, Text, Option, none, some}
use nova_server_manager.Client.Message.{Message, login_failed}
use nova_server_manager.Client.Error.{message_of}
use nova_server_manager.Client.Request.{authenticate}
use nova_server_manager.Client.Effect.{
  Prog, called, authenticated, request, update, signal, catch, finally, ◌>>=◌, ◌>>◌,
}

pub record SignIn : Type 0 where
  pub busy : Bool
  -- the error that is shown; the empty one is `none`
  pub shown : Option Message

abbrev pub initial : SignIn
initial = record { busy = false; shown = none }

unfoldable pub submit : (setup_required : Bool) (username password : Text) → Prog SignIn (Unit {0})
submit setup_required username password = do
  update (λ s. record s { busy = true; shown = none })
  finally
      (catch
        (do
          user ← request (authenticate setup_required username password)
          signal (called (authenticated user)))
        (λ e. update (λ s. record s { shown = some (message_of e login_failed) })))
      (λ p. update (λ s. record s { busy = false }) >> p)
