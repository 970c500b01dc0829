-- ===== src/Files/Edit.antt =====
-- frontend/src/views/app-detail-view.tsx: the handlers of `SourceTab` that change files: deleting,
-- creating, renaming, copying, packing, unpacking, uploading and downloading.
pub mod Keeps
use nova_server_manager.Common.{
  ℕ, suc, ◌-◌, ◌==◌, Bool, true, false, not, ◌&&◌, ◌||◌, Text, codes, text_eq, includes, has_part,
  join, Option, none, some, List, [], ◌∷◌, ◌++◌, length, get_elem?, take, keep, find_first,
  is_empty, leb, map, decimal, if◌then◌else◌,
}
use nova_server_manager.Types.{FileItem}
use nova_server_manager.Client.Message.{
  files_unavailable, file_not_editable, file_saved, save_failed, confirm_delete, selected_deleted,
  delete_failed, new_folder_name, new_file_name, folder_created, file_created, creation_failed,
  select_exactly_one, copy_path, new_path, copy_created, file_moved, operation_failed,
  select_at_least_one, zip_name, zip_created, compress_failed, select_zip, zip_extracted,
  extract_failed, files_uploaded, file_upload_failed, select_for_download,
}
use nova_server_manager.Client.Error.{message_of}
use nova_server_manager.Client.Json.{File}
use nova_server_manager.Client.Url.{encode_uri}
use nova_server_manager.Client.Request.{
  Document, list_files, read_file, write_file, delete_file, create_file, copy_file, move_file,
  compress_files, extract_file, upload_file, confirm, prompt,
}
use nova_server_manager.Client.Effect.{
  Prog, success, error, visited, request, choose, update, notify, signal, skip, catch, finally,
  ◌>>=◌, ◌>>◌,
}
use nova_server_manager.Files.State.{Manager}
use nova_server_manager.Files.{child_path, load}

module _ (app_id : ℕ) where
  -- `for (const item of selected) await api(…)`
  unfoldable pub delete_all : List Text → Prog Manager (Unit {0})
  delete_all [] = skip
  delete_all (item ∷ rest) = request (delete_file app_id item) >> delete_all rest

  unfoldable pub remove_selected : Manager → Prog Manager (Unit {0})
  unfolding delete_all
  remove_selected c = if is_empty c.selected then skip else do
    agreed ← choose (confirm (confirm_delete (length c.selected)))
    if not agreed
        then skip
        else catch (do delete_all c.selected; load app_id c.path; notify selected_deleted success)
            (λ e. notify (message_of e delete_failed) error)

  -- What `create` does with the user's answer, and `renameOrMove` and `compress` below.
  create_named : Manager → Bool → Option Text → Prog Manager (Unit {0})
  create_named c directory none = skip
  create_named c directory (some name) =
      if is_empty name || has_part name (codes "/") || has_part name (codes "\\")
      then skip
      else catch
          (do
            request (create_file app_id (child_path c.path name) directory)
            load app_id c.path
            notify (if directory then folder_created else file_created) success)
          (λ e. notify (message_of e creation_failed) error)

  unfoldable pub create : Manager → Bool → Prog Manager (Unit {0})
  unfolding create_named
  create c directory = do
    answer ← choose (prompt (if directory then new_folder_name else new_file_name) [])
    create_named c directory answer

  move_request : Bool → Text → Text → Prog Manager (Unit {0})
  move_request true source destination = request (copy_file app_id source destination)
  move_request false source destination = request (move_file app_id source destination)

  move_to : Manager → Bool → Text → Option Text → Prog Manager (Unit {0})
  move_to c copy source none = skip
  move_to c copy source (some destination) =
      if is_empty destination || text_eq destination source
      then skip
      else catch
          (do
            move_request copy source destination
            load app_id c.path
            notify (if copy then copy_created else file_moved) success)
          (λ e. notify (message_of e operation_failed) error)

  move_selected : Manager → Bool → List Text → Prog Manager (Unit {0})
  move_selected c copy (source ∷ []) = do
    answer ← choose (prompt (if copy then copy_path else new_path) source)
    move_to c copy source answer
  move_selected c copy _ = notify select_exactly_one error

  unfoldable pub rename_or_move : Manager → Bool → Prog Manager (Unit {0})
  unfolding move_selected move_to move_request
  rename_or_move c copy = move_selected c copy c.selected

  compress_to : Manager → Option Text → Prog Manager (Unit {0})
  compress_to c none = skip
  compress_to c (some destination) =
      if is_empty destination
      then skip
      else catch
          (do
            request (compress_files app_id c.selected destination)
            load app_id c.path
            notify zip_created success)
          (λ e. notify (message_of e compress_failed) error)

  unfoldable pub compress : Manager → Prog Manager (Unit {0})
  unfolding compress_to
  compress c = if is_empty c.selected then notify select_at_least_one error else do
    answer ← choose (prompt zip_name (child_path c.path (codes "archive.zip")))
    compress_to c answer

  -- `items.find((candidate) => selected[0] === candidate.path)`
  first_selected : List FileItem → List Text → Option FileItem
  first_selected items [] = none
  first_selected items (path ∷ _) = find_first (λ candidate. text_eq path candidate.path) items

  -- The guard of `extract`: exactly one path is selected, and it is that of a ZIP file.
  unfoldable pub zip_to_extract : Manager → Option FileItem
  unfolding first_selected
  zip_to_extract c = elim (first_selected c.items c.selected) [
    | none ↦ none
    | some item ↦
        if length c.selected == 1 && text_eq item.extension (codes ".zip") then some item else none
  ]

  extract_item : Manager → Option FileItem → Prog Manager (Unit {0})
  extract_item c none = notify select_zip error
  extract_item c (some item) =
      catch
        (do
          request (extract_file app_id item.path c.path)
          load app_id c.path
          notify zip_extracted success)
        (λ e. notify (message_of e extract_failed) error)

  unfoldable pub extract : Manager → Prog Manager (Unit {0})
  unfolding extract_item
  extract c = extract_item c (zip_to_extract c)

  -- `for (const file of Array.from(files)) …`
  unfoldable pub upload_each : Text → List File → Prog Manager (Unit {0})
  upload_each path [] = skip
  upload_each path (file ∷ rest) = request (upload_file app_id path file) >> upload_each path rest

  -- The reset of the file input, which is no state of the component, is left out.
  unfoldable pub upload : Manager → Option (List File) → Prog Manager (Unit {0})
  unfolding upload_each
  upload c none = skip
  upload c (some files) =
      if is_empty files
      then skip
      else catch
          (do
            upload_each c.path files
            load app_id c.path
            notify (files_uploaded (length files)) success)
          (λ e. notify (message_of e file_upload_failed) error)

  download_selected : List Text → Prog Manager (Unit {0})
  download_selected (path ∷ []) = signal (
      visited
        (codes "/api/apps/" ++ decimal app_id ++ codes "/files/download?path=" ++ encode_uri path))
  download_selected _ = notify select_for_download error

  unfoldable pub download : Manager → Prog Manager (Unit {0})
  unfolding download_selected
  download c = download_selected c.selected
