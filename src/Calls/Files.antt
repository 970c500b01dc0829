-- ===== src/Calls/Files.antt =====
-- frontend/src/views/app-detail-view.tsx: the calls of `SourceTab`.
use nova_server_manager.Common.{ℕ, Text, codes, List, [], ◌∷◌, ◌++◌}
use nova_server_manager.Client.Json.{bool, str, arr, end, field, form, post, put, patch, delete}
use nova_server_manager.Client.Url.{encode_uri}
use nova_server_manager.Client.Request.{
  Request, list_files, read_file, delete_file, write_file, create_file, copy_file, move_file,
  compress_files, extract_file, upload_file,
}
use nova_server_manager.Calls.Shape.{Call, reads, bare, with_body, at_app, texts}

-- `` `?path=${encodeURIComponent(path)}` ``
abbrev pub query : Text → Text
query path = codes "path=" ++ encode_uri path

abbrev pub asking : (app_id : ℕ) (place path : Text) → Text
asking app_id place path = at_app app_id (place ++ b'?' ∷ query path)

unfoldable pub file_calls : Request → List Call
file_calls (list_files app_id path) = reads (asking app_id (codes "/files") path) ∷ []
file_calls (read_file app_id path) = reads (asking app_id (codes "/files/content") path) ∷ []
file_calls (write_file app_id document) =
    with_body put (at_app app_id (codes "/files/content")) (
      field (codes "path") (str document.path) (field (codes "content") (str document.content) end))
    ∷ []
file_calls (delete_file app_id path) = bare delete (asking app_id (codes "/files") path) ∷ []
file_calls (create_file app_id path directory) =
    with_body post (at_app app_id (codes "/files"))
      (field (codes "path") (str path) (field (codes "directory") (bool directory) end))
    ∷ []
file_calls (copy_file app_id source destination) =
    with_body post (at_app app_id (codes "/files/copy")) (
      field (codes "source_path") (str source)
        (field (codes "destination_path") (str destination) end))
    ∷ []
file_calls (move_file app_id source destination) =
    with_body patch (at_app app_id (codes "/files"))
      (field (codes "old_path") (str source) (field (codes "new_path") (str destination) end))
    ∷ []
file_calls (compress_files app_id paths destination) =
    with_body post (at_app app_id (codes "/files/compress")) (
      field (codes "paths") (arr (texts paths))
        (field (codes "destination_path") (str destination) end))
    ∷ []
file_calls (extract_file app_id archive destination) =
    with_body post (at_app app_id (codes "/files/extract")) (
      field (codes "archive_path") (str archive)
        (field (codes "destination_path") (str destination) end))
    ∷ []
file_calls (upload_file app_id path file) =
    record { method = post; url = asking app_id (codes "/files/upload") path; body = form file }
    ∷ []
file_calls _ = []
