-- ===== src/Page/Signing.antt =====
-- Starting, signing out, refreshing and toasts of `Home`, whatever the server answers.
use nova_server_manager.Common.{
  ℕ, ◌≡◌, refl, ap, ◌⊎◌, ◌↔◌, inl, inr, ◌==◌, ==_iff, ◌∙◌, Bool, false, not, none, some, List, [],
  ◌∷◌, ◌++◌, keep, keep-append, append-nil, arith, All, if◌then◌else◌, ◌&&◌,
}
use nova_server_manager.Client.Message.{Message}
use nova_server_manager.Client.Error.{Error, api_error, Result, Result-cases, ok, err, is_ok}
use nova_server_manager.Client.Request.{
  User, Answer, auth_status, auth_me, logout as log_out, load_base,
}
use nova_server_manager.Client.Effect.{Kind, sent}
use nova_server_manager.Client.Run.{Env, Log, Run, run, effects, shows_error}
use nova_server_manager.Page.{
  Home, Toast, boot, unless_401, refresh_base, logout, add_toast, dismiss,
}

-- `error instanceof ApiError && error.status === 401`
abbrev pub is_401 : {A : Type 0} → Result A → Bool
is_401 (err (api_error message status)) = status == 401
is_401 _ = false

module _ (env : Env) (s : Home) (l : Log) where
  abbrev pub booted : Run Home (Unit {0})
  booted = run env boot s l

  -- The answer to `/api/auth/me`, which is asked after the status.
  abbrev pub me : Result User
  me = env.answer (sent auth_status ∷ l) auth_me

  boot_settles :
      (booted.result ≡ ok tt)
      × (booted.state.booting ≡ false)
      × (booted.state.apps ≡ s.apps)
      × (booted.state.route ≡ s.route)
  unfolding effects boot unless_401
  boot_settles = ground arith

  -- If nobody is signed in before the start, then a user is after it exactly if the server says
  -- that it needs no setup and then names that user.
  boot_user :
      (u : User)
      → s.user ≡ none
      → (booted.state.user ≡ some u) ↔ ((env.answer l auth_status ≡ ok false) × (me ≡ ok u))
  unfolding effects boot unless_401
  boot_user u nobody = ground arith

  -- If the server says whether it needs a setup, the start ends with an error on the screen
  -- exactly if it needs none and the question for the user fails otherwise than with the status
  -- 401.
  boot_reports :
      (b : Bool)
      → env.answer l auth_status ≡ ok b
      → shows_error booted.log ≡ (if b then false else not (is_ok me) && not (is_401 me))
  unfolding effects boot unless_401 shows_error
  boot_reports b answered = ground arith

  refresh_base_lem :
      ((e : Error) × (env.answer l load_base ≡ err e)
        × ((run env refresh_base s l).result ≡ err e)
        × ((run env refresh_base s l).state ≡ s))
      ⊎ ((a : Answer load_base) × (env.answer l load_base ≡ ok a)
          × ((run env refresh_base s l).result ≡ ok tt)
          × ((run env refresh_base s l).state
              ≡ record s { apps = a.0; metrics = some a.1; activity = a.2; deployments = a.3 }))
  unfolding effects refresh_base
  refresh_base_lem = elim (Result-cases (env.answer l load_base)) [
    | inl (a, fine) ↦ inr (a, fine, ground arith, ground arith)
    | inr (e, refused) ↦ inl (e, refused, ground arith, ground arith)
  ]

  logout_lem :
      ((run env logout s l).state.user ≡ none) × ((run env logout s l).state.metrics ≡ none)
      ⊎ (((run env logout s l).state ≡ s) × ((e : Error) × ((run env logout s l).result ≡ err e)))
  unfolding effects logout
  logout_lem = elim (Result-cases (env.answer l log_out)) [
    | inl (a, fine) ↦ inl (ground arith, ground arith)
    | inr (e, refused) ↦ inr (ground arith, (e, ground arith))
  ]

-- No toast has the id.
abbrev pub IsFresh : ℕ → List Toast → Type 0
IsFresh id toasts = All (λ t. (t.id == id) ≡ false) toasts

keep_fresh :
    (id : ℕ) (toasts : List Toast)
    → IsFresh id toasts
    → keep (λ item. not (item.id == id)) toasts ≡ toasts
keep_fresh id [] h = refl
keep_fresh id (t ∷ ts) (other, h) = rw (other, keep_fresh id ts h)

keep-added :
    (t : Toast) (toasts : List Toast)
    → IsFresh t.id toasts
    → keep (λ item. not (item.id == t.id)) (toasts ++ t ∷ []) ≡ toasts
keep-added t toasts fresh =
    keep-append (λ item. not (item.id == t.id)) toasts (t ∷ [])
    ∙ rw (keep_fresh t.id toasts fresh, (==_iff t.id t.id).1 refl) (append-nil toasts)

-- Taking away a toast whose id no other one has restores the page as it was before the toast.
dismiss-add_toast :
    (id : ℕ) (text : Message) (kind : Kind) (env : Env) (s : Home) (l m : Log)
    → IsFresh id s.toasts
    → (run env (dismiss id) (run env (add_toast id text kind) s l).state m).state ≡ s
unfolding effects dismiss add_toast
dismiss-add_toast id text kind env s l m fresh =
    ap (λ (toasts : List Toast). record s { toasts = toasts })
      (keep-added (record { id = id; text = text; kind = kind }) s.toasts fresh)
