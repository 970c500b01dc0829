-- ===== src/Files/Edit/Keeps.antt =====
-- The handlers that change files set no state but through `load`: whatever `load` keeps, they keep.
use nova_server_manager.Common.{ℕ, Bool, true, false, Text, Option, none, some, List, [], ◌∷◌}
use nova_server_manager.Types.{FileItem}
use nova_server_manager.Client.Json.{File}
use nova_server_manager.Client.Error.{Result}
use nova_server_manager.Client.Request.{Request, Answer, copy_file, move_file}
use nova_server_manager.Client.Keeps.{Keeps, Keeps-request, keeps_rules}
use nova_server_manager.Files.State.{Manager}
use nova_server_manager.Files.{load}
use nova_server_manager.Files.Edit.{
  delete_all, remove_selected, create_named, create, move_request, move_to, move_selected,
  rename_or_move, compress_to, compress, zip_to_extract, extract_item, extract, upload_each, upload,
  download_selected, download,
}

module _ (app_id : ℕ) {Allowed : (q : Request) → Result (Answer q) → Type 0} {P : Manager → Type 0}
    (c : Manager) (load-Keeps : Keeps Allowed P (load app_id c.path)) where
  delete_all-Keeps : (paths : List Text) → Keeps Allowed P (delete_all app_id paths)
  unfolding delete_all
  delete_all-Keeps [] = search keeps_rules
  delete_all-Keeps (p ∷ ps) = search (keeps_rules, delete_all-Keeps ps)

  pub remove_selected-Keeps : Keeps Allowed P (remove_selected app_id c)
  unfolding remove_selected
  remove_selected-Keeps = search (keeps_rules, load-Keeps, delete_all-Keeps) depth 12

  create_named-Keeps : (d : Bool) (o : Option Text) → Keeps Allowed P (create_named app_id c d o)
  unfolding create_named
  create_named-Keeps d none = search keeps_rules
  create_named-Keeps d (some name) = search (keeps_rules, load-Keeps) depth 12

  pub create-Keeps : (d : Bool) → Keeps Allowed P (create app_id c d)
  unfolding create
  create-Keeps d = search (keeps_rules, create_named-Keeps) depth 12

  move_request-Keeps : (b : Bool) (x y : Text) → Keeps Allowed P (move_request app_id b x y)
  unfolding move_request
  move_request-Keeps true x y = Keeps-request (copy_file app_id x y)
  move_request-Keeps false x y = Keeps-request (move_file app_id x y)

  move_to-Keeps : (b : Bool) (x : Text) (o : Option Text) → Keeps Allowed P (move_to app_id c b x o)
  unfolding move_to
  move_to-Keeps b x none = search keeps_rules
  move_to-Keeps b x (some y) = search (keeps_rules, load-Keeps, move_request-Keeps) depth 12

  move_selected-Keeps :
      (b : Bool) (paths : List Text) → Keeps Allowed P (move_selected app_id c b paths)
  unfolding move_selected
  move_selected-Keeps b (x ∷ []) = search (keeps_rules, move_to-Keeps) depth 12
  move_selected-Keeps b _ = search keeps_rules

  pub rename_or_move-Keeps : (b : Bool) → Keeps Allowed P (rename_or_move app_id c b)
  unfolding rename_or_move
  rename_or_move-Keeps b = move_selected-Keeps b c.selected

  compress_to-Keeps : (o : Option Text) → Keeps Allowed P (compress_to app_id c o)
  unfolding compress_to
  compress_to-Keeps none = search keeps_rules
  compress_to-Keeps (some y) = search (keeps_rules, load-Keeps) depth 12

  pub compress-Keeps : Keeps Allowed P (compress app_id c)
  unfolding compress
  compress-Keeps = search (keeps_rules, compress_to-Keeps) depth 12

  extract_item-Keeps : (o : Option FileItem) → Keeps Allowed P (extract_item app_id c o)
  unfolding extract_item
  extract_item-Keeps none = search keeps_rules
  extract_item-Keeps (some y) = search (keeps_rules, load-Keeps) depth 12

  pub extract-Keeps : Keeps Allowed P (extract app_id c)
  unfolding extract
  extract-Keeps = extract_item-Keeps (zip_to_extract app_id c)

  upload_each-Keeps : (p : Text) (files : List File) → Keeps Allowed P (upload_each app_id p files)
  unfolding upload_each
  upload_each-Keeps p [] = search keeps_rules
  upload_each-Keeps p (f ∷ fs) = search (keeps_rules, upload_each-Keeps p fs)

  pub upload-Keeps : (files : Option (List File)) → Keeps Allowed P (upload app_id c files)
  unfolding upload
  upload-Keeps none = search keeps_rules
  upload-Keeps (some files) = search (keeps_rules, load-Keeps, upload_each-Keeps) depth 12

  download_selected-Keeps : (paths : List Text) → Keeps Allowed P (download_selected app_id paths)
  unfolding download_selected
  download_selected-Keeps (p ∷ []) = search keeps_rules
  download_selected-Keeps _ = search keeps_rules

  pub download-Keeps : Keeps Allowed P (download app_id c)
  unfolding download
  download-Keeps = download_selected-Keeps c.selected
