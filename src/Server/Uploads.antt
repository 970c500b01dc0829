-- ===== src/Server/Uploads.antt =====
-- app/routers/apps.py: `upload_source`, with app/services/file_service.py's `directory_stats`, over the
-- rows of the server and the directories beside the source of the application. What the operating
-- system and the reader of ZIP files do at each step is an argument.

pub mod Steps
pub mod Outcomes
pub mod Keeping
pub use Steps.{
  Node, file, folder, Contents, nothing, item, Flattened, flat, stuck, Disk, Extracted,
  whole_archive, broken_archive, Luck, Ending, done, too_large, raised,
}
unfoldable pub use Steps.{
  node_files, file_count, node_size, byte_count, move_up, flatten, receive_chunks, remove_old, swap,
  stage_files, attempt, clean_up, clean_up_fails,
}
use nova_server_manager.Common.{
  ℕ, suc, max, ◌+◌, ltb, Bool, true, false, not, ◌&&◌, ◌==◌, str_eq, Text, codes, text_eq,
  ends_with, is_empty, Option, none, some, List, [], ◌∷◌, map, any, take, if◌then◌else◌,
}
use nova_server_manager.Server.Rows.{AppRow, UploadRow, sent_source}
use nova_server_manager.Server.Replies.{
  Refusal, Reply, answers, refuses, no_such_app, no_zip_name, upload_active, upload_too_large,
  upload_failed, clean_up_failed,
}
use nova_server_manager.Server.Deploys.{Panel, get_app, change_app}

-- The rows `processing` of this application.
abbrev pub is_processing : ℕ → UploadRow → Bool
is_processing app_id u = u.app_id == app_id && str_eq u.status "processing"

unfoldable pub next_upload : List UploadRow → ℕ
next_upload [] = 1
next_upload (u ∷ us) = max (suc u.id) (next_upload us)

-- `(file.filename or "source.zip")[:255]`
abbrev pub recorded_name : Text → Text
recorded_name name = take 255 (if is_empty name then codes "source.zip" else name)

-- `upload_source` up to its first commit, where `lower` is `str.lower`.
unfoldable pub accept_upload :
    (lower : Text → Text) (now : ℕ) → Panel → (app_id : ℕ) (name : Text) → Reply UploadRow × Panel
accept_upload lower now s app_id name = elim (get_app s.apps app_id) [
  | none ↦ (refuses no_such_app, s)
  | some app ↦
      if not (ends_with (lower name) (codes ".zip"))
      then (refuses no_zip_name, s)
      else if any (is_processing app.id) s.uploads
      then (refuses upload_active, s)
      else let row : UploadRow = record {
        id = next_upload s.uploads;
        app_id = app.id;
        filename = recorded_name name;
        size = 0;
        status = "processing";
        files_extracted = 0;
        extracted_size = 0;
        error = [];
        created_at = now;
        completed_at = none;
      } in
        (answers row, record s { uploads = row ∷ s.uploads })
]

abbrev pub change_upload : ℕ → (UploadRow → UploadRow) → List UploadRow → List UploadRow
change_upload id f us = map (λ u. if u.id == id then f u else u) us

abbrev pub complete_upload : (size files bytes now : ℕ) → UploadRow → UploadRow
complete_upload size files bytes now u = record u {
  size = size;
  files_extracted = files;
  extracted_size = bytes;
  status = "completed";
  completed_at = some now;
}

abbrev pub fail_upload : (size : ℕ) (text : Text) (now : ℕ) → UploadRow → UploadRow
fail_upload size text now u = record u {
  size = size;
  status = "failed";
  error = take 2000 text;
  completed_at = some now;
}

abbrev pub replace_source : UploadRow → (size files bytes now : ℕ) → AppRow → AppRow
replace_source u size files bytes now a = record a {
  last_upload_name = u.filename;
  last_upload_size = size;
  last_upload_at = some now;
  source_files = files;
  source_size = bytes;
}

-- The bytes that are counted when the loop ends, or when a write fails.
abbrev pub counted_by : Luck → ℕ → ℕ
counted_by luck counted = elim luck.write [ none ↦ counted | some (text, n) ↦ n ]

-- The response after the `finally` block.
unfoldable pub reply_after : Luck → Disk → Reply UploadRow → Reply UploadRow
reply_after luck after reply = if clean_up_fails luck after then refuses clean_up_failed else reply

-- `upload_source` from its first commit on: `limit` is `settings.max_upload_mb * 1024 * 1024` and
-- `too_large_text` is the detail of the refusal.
unfoldable pub finish_upload :
    (limit : ℕ) (too_large_text : Text)
    → Luck
    → (now : ℕ) → AppRow
    → UploadRow
    → (chunks : List ℕ) → Panel
    → Disk
    → Reply UploadRow × Panel × Disk
finish_upload limit too_large_text luck now app row chunks s d =
    let (large, counted) = receive_chunks limit chunks 0 in
    let size = counted_by luck counted in
    let (ending, after) = attempt luck large d in
    elim ending [
      | done files bytes ↦ (
        reply_after luck after (answers (complete_upload size files bytes now row)),
        record s {
          apps = change_app app.id (replace_source row size files bytes now) s.apps;
          uploads = change_upload row.id (complete_upload size files bytes now) s.uploads;
          logs =
              record {
                action = "source_upload";
                detail = sent_source app.name size;
                level = "info";
              }
              ∷ s.logs;
        },
        clean_up luck after,
      )
      | too_large ↦ (
        reply_after luck after (refuses upload_too_large),
        record s { uploads = change_upload row.id (fail_upload size too_large_text now) s.uploads },
        clean_up luck after,
      )
      | raised text ↦ (
        reply_after luck after (refuses (upload_failed text)),
        record s { uploads = change_upload row.id (fail_upload size text now) s.uploads },
        clean_up luck after,
      )
    ]
