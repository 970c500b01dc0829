-- ===== src/UploadDialog.antt =====
-- `UploadModal` of frontend/src/views/app-detail-view.tsx: choosing a ZIP file and uploading it. The
-- browser's `toLowerCase` is a parameter.
pub mod Choosing
use nova_server_manager.Common.{
  ℕ, Bool, true, false, not, Text, codes, ends_with, ltb, Option, none, some, List, [], ◌∷◌,
  if◌then◌else◌,
}
use nova_server_manager.Types.{UploadProgress, failed}
use nova_server_manager.Client.Json.{File}
use nova_server_manager.Client.Message.{
  Message, only_zip, too_large, upload_done, upload_failed, file_upload_failed,
}
use nova_server_manager.Client.Error.{Result, message_of}
use nova_server_manager.Client.Request.{Uploaded, Answer, upload_source}
use nova_server_manager.Client.Effect.{
  Prog, await, success, error, called, completed, update, notify, signal, settle, skip, catch,
  ◌>>=◌, ◌>>◌,
}

pub record UploadState : Type 0 where
  pub file : Option File
  pub progress : Option UploadProgress
  pub result : Option Uploaded
  -- the error that is shown; the empty one is `none`
  pub shown : Option Message
  pub dragging : Bool

abbrev pub initial : UploadState
initial = record { file = none; progress = none; result = none; shown = none; dragging = false }

-- What the request reports before it settles, the latest report last.
unfoldable pub deliver : List UploadProgress → UploadState → UploadState
deliver [] s = s
deliver (p ∷ ps) s = deliver ps (record s { progress = some p })

-- `current ? { ...current, phase: "failed" } : null`
abbrev pub mark_failed : Option UploadProgress → Option UploadProgress
mark_failed none = none
mark_failed (some p) = some (record p { phase = failed })

module _ (lower : Text → Text) (max_upload : ℕ) where
  -- The last step of `select`, with what was selected.
  choose_file : Option File → UploadState → UploadState
  choose_file none s = record s { file = none }
  choose_file (some selected) s =
      if not (ends_with (lower selected.name) (codes ".zip"))
      then record s { shown = some only_zip }
      else if ltb max_upload selected.size
      then record s { shown = some (too_large max_upload) }
      else record s { file = some selected }

  unfoldable pub select : Option File → Prog UploadState (Unit {0})
  unfolding choose_file
  select selected = do
    update (λ s. record s { shown = none; result = none; progress = none })
    update (choose_file selected)

-- `uploadSource(app.id, file, setProgress)`, which makes these reports before it settles.
unfoldable pub upload_with : (app_id : ℕ) → List UploadProgress → File → Prog UploadState Uploaded
upload_with app_id reports file =
    await (upload_source app_id file) (λ r. update (deliver reports) >> settle r)

module _ (app_id : ℕ) (reports : List UploadProgress) where
  start_file : Option File → Prog UploadState (Unit {0})
  start_file none = skip
  start_file (some file) = do
    update (λ s. record s { shown = none })
    catch
        (do
          response ← upload_with app_id reports file
          update (λ s. record s { result = some response })
          signal (called completed)
          notify upload_done success)
        (λ e. do
          update (λ s. record s {
            progress = mark_failed s.progress;
            shown = some (message_of e upload_failed);
          })
          notify file_upload_failed error)

  unfoldable pub start : UploadState → Prog UploadState (Unit {0})
  unfolding start_file
  start c = start_file c.file

  -- The button that shows the form again.
  unfoldable pub retry : Prog UploadState (Unit {0})
  retry = update (λ s. record s { progress = none })

unfoldable pub drag : Bool → Prog UploadState (Unit {0})
drag dragging = update (λ s. record s { dragging = dragging })
