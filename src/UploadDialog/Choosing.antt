-- ===== src/UploadDialog/Choosing.antt =====
-- Which file `UploadModal` uploads, and what it shows afterwards.
use nova_server_manager.Common.{
  ℕ, ◌≤◌, ◌≡◌, refl, true, Text, codes, ends_with, Option, none, some, List, [], ◌∷◌, ◌↔◌, arith,
}
use nova_server_manager.Types.{UploadProgress}
use nova_server_manager.Client.Json.{File}
use nova_server_manager.Client.Message.{upload_failed}
use nova_server_manager.Client.Error.{Error, err, message_of}
use nova_server_manager.Client.Request.{upload_source}
use nova_server_manager.Client.Run.{Env, Log, run, effects}
use nova_server_manager.UploadDialog.{UploadState, deliver, select, upload_with, start}

module _ (lower : Text → Text) (max_upload : ℕ) where
  -- The chosen file, if there is one, has a name that ends in `.zip` and is not too large.
  abbrev pub IsUploadable : Option File → Type 0
  IsUploadable none = Unit
  IsUploadable (some file) =
      (ends_with (lower file.name) (codes ".zip") ≡ true) × (file.size ≤ max_upload)

  -- If the chosen file has a name that ends in `.zip` and is not too large, or if there is none,
  -- the same holds after any selection.
  select-IsUploadable :
      (selected : Option File) (env : Env) (s : UploadState) (l : Log)
      → IsUploadable s.file
      → IsUploadable (run env (select lower max_upload selected) s l).state.file
  unfolding effects select
  select-IsUploadable none env s l h = tt
  select-IsUploadable (some f) env s l h = ground arith

  -- A file is refused exactly with an error, and then the one that was chosen before stays.
  select-refused_iff :
      (f : File) (env : Env) (s : UploadState) (l : Log)
      → ((run env (select lower max_upload (some f)) s l).state.shown ≡ none)
        ↔ ((ends_with (lower f.name) (codes ".zip") ≡ true) × (f.size ≤ max_upload))
  unfolding effects select
  select-refused_iff f env s l = ground arith

module _ (app_id : ℕ) (reports : List UploadProgress) (env : Env) (s : UploadState) (l : Log) where
  file-deliver : (ps : List UploadProgress) (t : UploadState) → (deliver ps t).file ≡ t.file
  unfolding deliver
  file-deliver [] t = refl
  file-deliver (p ∷ ps) t = file-deliver ps (record t { progress = some p })

  -- If the upload of the chosen file is refused, the file stays chosen and the error is shown,
  -- whatever was reported before.
  start_failed :
      (f : File) (e : Error)
      → s.file ≡ some f
      → env.answer l (upload_source app_id f) ≡ err e
      → ((run env (start app_id reports s) s l).state.file ≡ some f)
        × ((run env (start app_id reports s) s l).state.shown ≡ some (message_of e upload_failed))
  unfolding effects start upload_with
  start_failed f e chosen refused = ground (arith, file-deliver reports (record s { shown = none }))
