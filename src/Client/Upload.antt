-- ===== src/Client/Upload.antt =====
-- `uploadSource` of frontend/src/lib/api.ts: what it reports for each event of the request, and when
-- its promise settles. The clock is a parameter of the events: the seconds since the upload began.
pub mod Reports
use nova_server_manager.Common.{
  ℕ, ◌*◌, ◌-◌, ◌==◌, Bool, true, false, not, ◌&&◌, Text, Option, none, some, List, [], ◌∷◌, ◌++◌,
  leb, if◌then◌else◌, Fraction, whole, max_fraction, min_fraction, over, is_empty,
}
use nova_server_manager.Types.{UploadProgress, uploading, processing, completed}
use nova_server_manager.Client.Json.{Json, null, bool, num, str, obj, end, File}
use nova_server_manager.Client.Message.{plain, upload_refused, upload_disconnected}
use nova_server_manager.Client.Error.{Error, api_error}
use nova_server_manager.Client.Fetch.{is_success, detail}

pub data UploadEvent : Type 0 where
  -- `xhr.upload.onprogress`
  progressed : (computable : Bool) (loaded total : ℕ) (elapsed : Fraction) → UploadEvent
  -- `xhr.upload.onload`
  sent_all : (elapsed : Fraction) → UploadEvent
  -- `xhr.onload`, with the body if it is JSON
  responded : (status : ℕ) → Option Json → UploadEvent
  -- `xhr.onerror`
  broken : UploadEvent

pub data UploadStep : Type 0 where
  report : UploadProgress → UploadStep
  resolve : Json → UploadStep
  reject : Error → UploadStep

-- `Math.max((performance.now() - startedAt) / 1000, 0.1)`
abbrev pub seconds : Fraction → Fraction
seconds elapsed = max_fraction elapsed (record { num = 1; den = 10 })

-- `Math.min(99, (loaded / total) * 100)`; 0 / 0 is no number, written as a fraction over 0.
abbrev pub percent_of : ℕ → ℕ → Fraction
percent_of loaded total =
    if total == 0 && loaded == 0
    then record { num = 0; den = 0 }
    else min_fraction (whole 99) (record { num = loaded * 100; den = total })

unfoldable pub progress_at : ℕ → ℕ → Fraction → UploadProgress
progress_at loaded total elapsed =
    let speed = over (whole loaded) (seconds elapsed) in
    record {
      loaded = loaded;
      total = total;
      percent = percent_of loaded total;
      speed = speed;
      remaining = total - loaded;
      eta = if not (loaded == 0) then some (over (whole (total - loaded)) speed) else none;
      phase = if leb total loaded then processing else uploading;
    }

-- `data.detail || …` of a refused upload. `to_string` is the conversion that `Error` makes of a
-- message that is no string.
module _ (to_string : Json → Text) where
  refusal : ℕ → Option Json → Error
  refusal status none = api_error (upload_refused status) status
  refusal status (some null) = api_error (upload_refused status) status
  refusal status (some (bool b)) =
      api_error (if b then plain (to_string (bool b)) else upload_refused status) status
  refusal status (some (num n)) =
      api_error (if n == 0 then upload_refused status else plain (to_string (num n))) status
  refusal status (some (str t)) =
      api_error (if is_empty t then upload_refused status else plain t) status
  refusal status (some j) = api_error (plain (to_string j)) status

  -- `xhr.onload`; a body that is no JSON counts as `{}`. Reading `detail` from `null` throws in the
  -- event handler, and the promise stays pending.
  pub respond : File → ℕ → Json → List UploadStep
  respond file status payload =
      if is_success status
      then report (record {
        loaded = file.size;
        total = file.size;
        percent = whole 100;
        speed = whole 0;
        remaining = 0;
        eta = some (whole 0);
        phase = completed;
      })
        ∷ resolve payload
        ∷ []
      else elim (detail payload) [ none ↦ [] | some d ↦ reject (refusal status d) ∷ [] ]

  unfoldable pub steps : File → UploadEvent → List UploadStep
  unfolding respond refusal progress_at
  steps file (progressed computable loaded total elapsed) =
      if not computable then [] else report (progress_at loaded total elapsed) ∷ []
  steps file (sent_all elapsed) =
      report (record {
        loaded = file.size;
        total = file.size;
        percent = whole 99;
        speed = over (whole file.size) (seconds elapsed);
        remaining = 0;
        eta = none;
        phase = processing;
      })
      ∷ []
  steps file (responded status (some payload)) = respond file status payload
  steps file (responded status none) = respond file status (obj end)
  steps file broken = reject (api_error upload_disconnected 0) ∷ []

  -- Everything that the upload does over the events of one request.
  unfoldable pub upload_steps : File → List UploadEvent → List UploadStep
  unfolding steps
  upload_steps file [] = []
  upload_steps file (e ∷ es) = steps file e ++ upload_steps file es
