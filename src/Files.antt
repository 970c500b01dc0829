-- ===== src/Files.antt =====
-- frontend/src/views/app-detail-view.tsx: the state and the handlers of `SourceTab`, the file
-- manager. A handler's `c` is the state of the render that it closes over.
pub mod State
pub mod Listing
pub mod Edit
pub mod Session
mod Steps
pub mod History
pub mod Sync
pub mod Moves
pub mod Deleting
pub mod Paths
pub mod Selecting
pub mod Showing
pub mod Controls
pub mod Races
pub mod Rooted
pub mod Trail
pub mod Refinement
use nova_server_manager.Common.{
  ℕ, suc, ◌-◌, ◌==◌, Bool, true, false, not, ◌&&◌, ◌||◌, Text, codes, text_eq, includes, has_part,
  join, Option, none, some, List, [], ◌∷◌, ◌++◌, length, get_elem?, take, keep, find_first,
  is_empty, leb, map, decimal, if◌then◌else◌,
}
use nova_server_manager.Types.{FileItem}
use nova_server_manager.Client.Message.{
  files_unavailable, file_not_editable, file_saved, save_failed, confirm_delete, selected_deleted,
  delete_failed, new_folder_name, new_file_name, folder_created, file_created, creation_failed,
  select_exactly_one, copy_path, new_path, copy_created, file_moved, operation_failed,
  select_at_least_one, zip_name, zip_created, compress_failed, select_zip, zip_extracted,
  extract_failed, files_uploaded, file_upload_failed, select_for_download,
}
use nova_server_manager.Client.Error.{message_of}
use nova_server_manager.Client.Json.{File}
use nova_server_manager.Client.Url.{encode_uri}
use nova_server_manager.Client.Request.{
  Document, list_files, read_file, write_file, delete_file, create_file, copy_file, move_file,
  compress_files, extract_file, upload_file, confirm, prompt,
}
use nova_server_manager.Client.Effect.{
  Prog, success, error, visited, request, choose, update, notify, signal, skip, catch, finally,
  ◌>>=◌, ◌>>◌,
}
use nova_server_manager.Files.State.{Manager}

-- `[path, name].filter(Boolean).join("/")`
unfoldable pub child_path : Text → Text → Text
child_path path name = join (codes "/") (keep (λ t. not (is_empty t)) (path ∷ name ∷ []))

-- `current.includes(item) ? current.filter((value) => value !== item) : [...current, item]`
unfoldable pub toggle_path : Text → List Text → List Text
toggle_path item current =
    if includes current item
    then keep (λ value. not (text_eq value item)) current
    else current ++ item ∷ []

-- The handlers that set one field: the checkbox of a row, the one of the head, which takes the
-- visible items, and the editor's text.
unfoldable pub toggle : Text → Prog Manager (Unit {0})
unfolding toggle_path
toggle item = update (λ s. record s { selected = toggle_path item s.selected })

unfoldable pub toggle_all : List FileItem → Bool → Prog Manager (Unit {0})
toggle_all visible checked =
    update (λ s. record s { selected = if checked then map (λ item. item.path) visible else [] })

unfoldable pub edit : Option Document → Text → Prog Manager (Unit {0})
edit none content = skip
edit (some editor) content =
    update (λ s. record s { editor = some (record editor { content = content }) })

module _ (app_id : ℕ) where
  unfoldable pub load : Text → Prog Manager (Unit {0})
  load next_path = do
    update (λ s. record s { loading = true })
    finally
        (catch
          (do
            result ← request (list_files app_id next_path)
            update (λ s. record s { path = result.path; items = result.items; selected = [] }))
          (λ e. notify (message_of e files_unavailable) error))
        (λ p. update (λ s. record s { loading = false }) >> p)

  unfoldable pub navigate_path : Manager → Text → Prog Manager (Unit {0})
  navigate_path c next_path = do
    load next_path
    let next_history = take (suc c.history_index) c.history ++ next_path ∷ []
    update (λ s. record s { history = next_history; history_index = length next_history - 1 })

  pub travel_to : ℕ → Option Text → Prog Manager (Unit {0})
  travel_to next_index none = skip
  travel_to next_index (some target) = do
    load target
    update (λ s. record s { history_index = next_index })

  -- `none` stands for the index -1, the only negative one that a caller passes.
  unfoldable pub travel : Manager → Option ℕ → Prog Manager (Unit {0})
  unfolding travel_to
  travel c none = skip
  travel c (some next_index) = travel_to next_index (get_elem? c.history next_index)

  unfoldable pub open_item : Manager → FileItem → Prog Manager (Unit {0})
  open_item c item =
      if item.directory
      then navigate_path c item.path
      else catch
          (do
            document ← request (read_file app_id item.path)
            update (λ s. record s { editor = some document }))
          (λ e. notify (message_of e file_not_editable) error)

  save_document : Option Document → Prog Manager (Unit {0})
  save_document none = skip
  save_document (some document) =
      catch (do request (write_file app_id document); notify file_saved success)
        (λ e. notify (message_of e save_failed) error)

  unfoldable pub save : Manager → Prog Manager (Unit {0})
  unfolding save_document
  save c = save_document c.editor
