-- ===== src/Settings/Saving.antt =====
-- What `SettingsTab` sends: the environment of a form that nobody touched, and a removal.
use nova_server_manager.Common.{
  ℕ, ◌≡◌, refl, ap, Bool, false, Text, codes, some, [], ◌∷◌, ◌++◌, Lacks, Lacks-append, join, All,
  arith, if◌then◌else◌,
}
use nova_server_manager.Types.{Entries, NovaApp}
use nova_server_manager.Client.Message.{confirm_delete_app, confirm_delete_data}
use nova_server_manager.Client.Request.{AppSettings, update_app, delete_app, confirm}
use nova_server_manager.Client.Effect.{asked}
use nova_server_manager.Client.Run.{Env, Log, run, requests, effects}
use nova_server_manager.Environment.{print_entry, env_text, value_of}
use nova_server_manager.Environment.RoundTrip.{IsClean, IsRecord, parse_environment-env_text}
use nova_server_manager.Settings.{line_ends, one_line, form_of, settings_of, save, remove}

-- A text without CR.
line_ends-Lacks : (s : Text) → Lacks b'\r' s → line_ends false s ≡ s
unfolding line_ends
line_ends-Lacks [] h = refl
line_ends-Lacks (c ∷ s) (other, h) = rw (other, line_ends-Lacks s h)

one_line-Lacks : (s : Text) → Lacks b'\r' s → Lacks b'\n' s → one_line s ≡ s
unfolding one_line
one_line-Lacks [] h k = refl
one_line-Lacks (c ∷ s) (p, h) (q, k) = rw (p, q) (ap (◌∷◌ c) (one_line-Lacks s h k))

print_entry-Lacks :
    (e : Text × Text) → Lacks b'\r' e.0 → Lacks b'\r' e.1 → Lacks b'\r' (print_entry e)
unfolding print_entry
print_entry-Lacks (key, value) hk hv = Lacks-append b'\r' key (codes "=" ++ value) hk (refl, hv)

-- Neither name nor value has a CR.
abbrev pub LacksReturn : Text × Text → Type 0
LacksReturn (key, value) = Lacks b'\r' key × Lacks b'\r' value

env_text-Lacks : (es : Entries) → All LacksReturn es → Lacks b'\r' (env_text (some es))
unfolding env_text join
env_text-Lacks [] h = tt
env_text-Lacks (e ∷ []) ((hk, hv), h) = print_entry-Lacks e hk hv
env_text-Lacks (e ∷ f ∷ es) ((hk, hv), h) =
    Lacks-append b'\r' (print_entry e) _ (print_entry-Lacks e hk hv)
      (refl, env_text-Lacks (f ∷ es) h)

abbrev pub IsLine : Text → Type 0
IsLine s = Lacks b'\r' s × Lacks b'\n' s

-- The settings that a request carries are those of the application.
abbrev pub IsUnchanged : NovaApp → Entries → AppSettings → Type 0
IsUnchanged app es sent =
    (sent.display_name ≡ app.display_name)
    × (sent.internal_port ≡ app.internal_port)
    × (sent.start_command ≡ app.start_command)
    × ((j : Text) → value_of j sent.environment ≡ value_of j es)

settings_of-form_of :
    (app : NovaApp) (es : Entries)
    → app.environment ≡ some es
    → All IsClean es
    → All LacksReturn es
    → IsRecord es
    → IsLine app.display_name
    → IsLine app.start_command
    → IsUnchanged app es (settings_of (form_of app))
unfolding settings_of form_of
settings_of-form_of app es is clean no_return once name command = (
  one_line-Lacks app.display_name name.0 name.1,
  refl,
  one_line-Lacks app.start_command command.0 command.1,
  λ j.
      rw (is, line_ends-Lacks (env_text (some es)) (env_text-Lacks es no_return))
        (parse_environment-env_text es j clean once),
)

module _ (app_id : ℕ) (env : Env) (l : Log) where
  -- To save the form of an application as it is shown sends one request, which changes no setting, if
  -- the display name and the start command have no line end, no variable stands twice, each name of a
  -- variable is not empty, has no `=` and is not `__proto__`, and neither a name nor a value of a
  -- variable has a line end (LF or CR), or white space at its ends.
  pub requests-save :
      (app : NovaApp) (es : Entries)
      → app.environment ≡ some es
      → All IsClean es
      → All LacksReturn es
      → IsRecord es
      → IsLine app.display_name
      → IsLine app.start_command
      → (sent : AppSettings) × (requests (run env (save app_id (form_of app)) tt l).log
          ≡ update_app app_id sent ∷ requests l)
        × IsUnchanged app es sent
  unfolding effects save requests
  requests-save app es is clean no_return once name command = (
    settings_of (form_of app),
    ground arith,
    settings_of-form_of app es is clean no_return once name command,
  )

  abbrev pub first : Bool
  first = env.choice l (confirm confirm_delete_app)

  abbrev pub second : Bool
  second = env.choice (asked (confirm confirm_delete_app) ∷ l) (confirm confirm_delete_data)

  -- A removal is requested exactly if the user agrees to the first question, and takes the data with
  -- it exactly if the user agrees to the second one too; nothing else is requested.
  requests-remove :
      requests (run env (remove app_id) tt l).log
      ≡ (if first then delete_app app_id second ∷ requests l else requests l)
  unfolding effects remove requests
  requests-remove = ground arith
