-- ===== src/System/Confirming.antt =====
-- When the server is restarted or shut down.
use nova_server_manager.Common.{
  ◌≡◌, ◌⊎◌, ◌≢◌, inl, inr, Text, text_eq_iff, text_eq, Option-cases, Bool-cases, Option, some, [],
  ◌∷◌, arith,
}
use nova_server_manager.Client.Message.{type_to_confirm}
use nova_server_manager.Client.Request.{Power, system_action, prompt}
use nova_server_manager.Client.Run.{Env, Log, run, requests, effects}
use nova_server_manager.System.{word, action}

module _ (env : Env) (value : Power) (l : Log) where
  -- What the user types into the dialog.
  abbrev pub typed : Option Text
  typed = env.choice l (prompt (type_to_confirm (word value)) [])

  -- The server is told to restart or to shut down exactly if the user types the word of that action,
  -- and nothing else is requested.
  pub requests-action :
      ((typed ≡ some (word value))
        × (requests (run env (action value) tt l).log ≡ system_action value ∷ requests l))
      ⊎ ((typed ≢ some (word value)) × (requests (run env (action value) tt l).log ≡ requests l))
  unfolding effects action requests
  requests-action = elim (Option-cases typed) [
    | inl closed ↦ inr ((λ e. cc), ground arith)
    | inr (t, entered) ↦ elim (Bool-cases (text_eq t (word value))) [
      | inl same ↦ let e = (text_eq_iff t (word value)).0 same in inl (cc, ground arith)
      | inr other ↦ inr (
        (λ e. let same : t ≡ word value = cc in cc (other, (text_eq_iff t (word value)).1 same)),
        ground arith,
      )
    ]
  ]
