-- ===== src/Client/Upload/Reports.antt =====
-- What `uploadSource` reports over a whole request, and when it resolves.
use nova_server_manager.Common.{
  ℕ, ◌+◌, ◌≤◌, ◌<◌, ◌≡◌, refl, ap₂, ◌∙◌, ◌↔◌, Bool, true, false, ◌||◌, Text, none, some, List, [],
  ◌∷◌, ◌++◌, any, All, Fraction, whole, ◌≤Q◌, IsProper, arith,
}
use nova_server_manager.Types.{completed}
use nova_server_manager.Client.Json.{Json, File}
use nova_server_manager.Client.Fetch.{is_success}
use nova_server_manager.Client.Upload.{
  UploadEvent, progressed, sent_all, responded, broken, UploadStep, report, resolve, progress_at,
  steps, upload_steps, respond,
}

-- A progress event of a request whose length is known says how much of it is sent; the clock gives
-- a proper fraction.
abbrev pub IsRegular : UploadEvent → Type 0
IsRegular (progressed computable loaded total elapsed) =
    (0 < total) × (loaded ≤ total) × IsProper elapsed
IsRegular (sent_all elapsed) = IsProper elapsed
IsRegular _ = Unit

-- What is sent and what remains make up the whole, 100 percent are reported exactly with the phase
-- `completed`, and the speed is a number.
abbrev pub IsSound : UploadStep → Type 0
IsSound (report p) =
    (p.loaded + p.remaining ≡ p.total)
    × (p.percent ≤Q whole 100)
    × ((p.phase ≡ completed) ↔ (whole 100 ≤Q p.percent))
    × IsProper p.speed
IsSound _ = Unit

-- A response that lets the upload succeed.
abbrev pub succeeds : UploadEvent → Bool
succeeds (responded status body) = is_success status
succeeds _ = false

abbrev pub resolves : UploadStep → Bool
resolves (resolve payload) = true
resolves _ = false

module _ (to_string : Json → Text) (file : File) where
  progress_at-IsSound :
      (loaded total : ℕ) (elapsed : Fraction)
      → 0 < total
      → loaded ≤ total
      → IsProper elapsed
      → IsSound (report (progress_at loaded total elapsed))
  unfolding progress_at
  progress_at-IsSound loaded total elapsed h k d = ground arith

  respond-IsSound :
      (status : ℕ) (payload : Json) → All IsSound (respond to_string file status payload)
  unfolding respond
  respond-IsSound status payload = ground arith

  steps-IsSound : (e : UploadEvent) → IsRegular e → All IsSound (steps to_string file e)
  unfolding steps
  steps-IsSound (progressed true loaded total elapsed) (h, k, d) =
      (progress_at-IsSound loaded total elapsed h k d, tt)
  steps-IsSound (progressed false loaded total elapsed) h = tt
  steps-IsSound (sent_all elapsed) d = ground arith
  steps-IsSound (responded status (some payload)) h = respond-IsSound status payload
  steps-IsSound (responded status none) h = respond-IsSound status _
  steps-IsSound broken h = (tt, tt)

  All-append : (xs ys : List UploadStep) → All IsSound xs → All IsSound ys → All IsSound (xs ++ ys)
  All-append [] ys h k = k
  All-append (x ∷ xs) ys (p, h) k = (p, All-append xs ys h k)

  -- Over any progress events of a request whose length is known and positive, which never send
  -- more than that, and any other events, in any order, with a clock that gives proper
  -- fractions: in every report, what is sent and what remains make up the whole, at most 100
  -- percent are reported, 100 exactly with the phase `completed`, and the speed is a number.
  pub upload_steps-IsSound :
      (es : List UploadEvent) → All IsRegular es → All IsSound (upload_steps to_string file es)
  unfolding upload_steps
  upload_steps-IsSound [] h = tt
  upload_steps-IsSound (e ∷ es) (r, h) =
      All-append (steps to_string file e) _ (steps-IsSound e r) (upload_steps-IsSound es h)

  any-append :
      (xs ys : List UploadStep) → any resolves (xs ++ ys) ≡ (any resolves xs || any resolves ys)
  any-append [] ys = refl
  any-append (x ∷ xs) ys = ground (arith, any-append xs ys)

  steps-resolves : (e : UploadEvent) → any resolves (steps to_string file e) ≡ succeeds e
  unfolding steps respond
  steps-resolves (progressed true loaded total elapsed) = refl
  steps-resolves (progressed false loaded total elapsed) = refl
  steps-resolves (sent_all elapsed) = refl
  steps-resolves (responded status (some payload)) = ground arith
  steps-resolves (responded status none) = ground arith
  steps-resolves broken = refl

  -- The promise of an upload resolves exactly if a response with a status from 200 to 299 comes.
  upload_steps-resolves :
      (es : List UploadEvent) → any resolves (upload_steps to_string file es) ≡ any succeeds es
  unfolding upload_steps
  upload_steps-resolves [] = refl
  upload_steps-resolves (e ∷ es) =
      any-append (steps to_string file e) (upload_steps to_string file es)
      ∙ ap₂ ◌||◌ (steps-resolves e) (upload_steps-resolves es)
