-- ===== src/Tests/Sources.antt =====
-- Tests of the upload of a source to the server.
use nova_server_manager.Common.{◌≡◌, refl, true, false, text_eq, codes, none, some, [], ◌∷◌}
use nova_server_manager.Server.Rows.{UploadRow}
use nova_server_manager.Server.Replies.{answers, refuses, upload_failed}
use nova_server_manager.Server.Uploads.{
  Contents, file, folder, nothing, item, whole_archive, Luck, flatten, receive_chunks, attempt,
  stage_files, swap, remove_old, file_count, byte_count, reply_after, clean_up_fails, finish_upload,
  complete_upload,
}
use nova_server_manager.Server.Uploads.Outcomes.{IsKept}
use nova_server_manager.Server.Uploads.Keeping.{
  has_entry, uploaded, IsReplaced, finish_upload-keeps, finish_upload-replaces, finish_upload-twin,
}
use nova_server_manager.Tests.Servers.{shop_row, fresh}

abbrev entry : UploadRow
entry = record {
  id = 1;
  app_id = 12;
  filename = codes "shop.zip";
  size = 0;
  status = "processing";
  files_extracted = 0;
  extracted_size = 0;
  error = [];
  created_at = 4;
  completed_at = none;
}

-- A Django project in a folder: its inner_folder has the name of the folder.
abbrev inner_folder : Contents
inner_folder =
    item (codes "manage.py") (file 600)
      (item (codes "site") (folder (item (codes "urls.py") (file 20) nothing)) nothing)

abbrev project : Contents
project = item (codes "site") (folder inner_folder) nothing

abbrev page : Contents
page = item (codes "index.html") (file 90) nothing

abbrev lucky : Contents → Luck
lucky items = record {
  write = none;
  extraction = whole_archive items;
  set_aside = none;
  move_in = none;
  remove_old = none;
  unlinks = true;
  sweeps = true;
  puts_back = true;
  no_files_text = codes "no files";
  stuck_text = codes "Directory not empty";
}

abbrev unlucky : Luck
unlucky = record (lucky page) { move_in = some (codes "Permission denied") }

finish_upload-keeps_example :
    IsKept unlucky
      (some project)
      (uploaded 1000 [] unlucky 9 shop_row entry (90 ∷ []) fresh (some project)).2.source
finish_upload-keeps_example =
    finish_upload-keeps 1000 [] unlucky 9 shop_row entry (90 ∷ []) fresh (some project) refl refl

answered :
    (uploaded 1000 [] (lucky page) 9 shop_row entry (90 ∷ []) fresh (some project)).0
    ≡ answers (complete_upload 90 1 90 9 entry)
unfolding finish_upload reply_after clean_up_fails receive_chunks attempt stage_files flatten swap
    remove_old file_count byte_count
answered = refl

finish_upload-replaces_example :
    IsReplaced 1000 []
      (lucky page)
      9
      shop_row
      entry
      (90 ∷ [])
      fresh
      (some project)
      (uploaded 1000 [] (lucky page) 9 shop_row entry (90 ∷ []) fresh (some project)).2
finish_upload-replaces_example =
    finish_upload-replaces 1000 [] (lucky page) 9 shop_row entry (90 ∷ []) fresh (some project)
      (complete_upload 90 1 90 9 entry) answered

fits : (receive_chunks 1000 (640 ∷ []) 0).0 ≡ false
unfolding receive_chunks
fits = refl

twin : has_entry (codes "site") inner_folder ≡ true
unfolding text_eq
twin = refl

finish_upload-twin_example :
    ((uploaded 1000 [] (lucky project) 9 shop_row entry (640 ∷ []) fresh (some page)).0
      ≡ refuses (upload_failed (codes "Directory not empty")))
    × ((uploaded 1000 [] (lucky project) 9 shop_row entry (640 ∷ []) fresh (some page)).2.source
        ≡ some page)
finish_upload-twin_example =
    finish_upload-twin 1000 [] (lucky project) 9 shop_row entry (640 ∷ []) fresh (some page)
      (codes "site") inner_folder refl refl fits refl twin
