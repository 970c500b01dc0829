-- ===== src/Files/Session.antt =====
-- frontend/src/views/app-detail-view.tsx: what the user does in `SourceTab`, one command for each
-- control, and a session: commands one after another, each with the state of the last render.
use nova_server_manager.Common.{
  ℕ, suc, zero, Bool, Text, Option, none, some, Ordering, List, [], ◌∷◌,
}
use nova_server_manager.Types.{FileItem}
use nova_server_manager.Client.Json.{File}
use nova_server_manager.Client.Effect.{Prog, update, skip}
use nova_server_manager.Client.Run.{Env, Log, Run, run}
use nova_server_manager.Files.State.{Manager, SortKey, Layout}
use nova_server_manager.Files.{
  toggle, toggle_all, edit, load, navigate_path, travel, open_item, save,
}
use nova_server_manager.Files.Edit.{
  remove_selected, create, rename_or_move, compress, extract, upload, download,
}
use nova_server_manager.Files.Listing.{visible_items, crumb, parent}

pub data Command : Type 0 where
  go_root go_parent go_back go_forward refresh : Command
  go_crumb : (index : ℕ) → Command
  open_row : FileItem → Command
  toggle_row : FileItem → Command
  toggle_head : (checked : Bool) → Command
  save_editor close_editor remove pack unpack fetch : Command
  type_text : Text → Command
  make : (directory : Bool) → Command
  move : (copy : Bool) → Command
  send : Option (List File) → Command
  search : Text → Command
  order : SortKey → Command
  lay_out : Layout → Command

-- `historyIndex - 1`, where `none` is -1.
abbrev pub before : ℕ → Option ℕ
before zero = none
before (suc n) = some n

module _ (lower : Text → Text) (collate : Text → Text → Ordering) (app_id : ℕ) where
  -- The handler of each control, made at the render whose state is `c`.
  unfoldable pub handler : Manager → Command → Prog Manager (Unit {0})
  handler c go_root = navigate_path app_id c []
  handler c go_parent = navigate_path app_id c (parent c.path)
  handler c (go_crumb index) = navigate_path app_id c (crumb c.path index)
  handler c go_back = travel app_id c (before c.history_index)
  handler c go_forward = travel app_id c (some (suc c.history_index))
  handler c refresh = load app_id c.path
  handler c (open_row item) = open_item app_id c item
  handler c (toggle_row item) = toggle item.path
  handler c (toggle_head checked) =
      toggle_all (visible_items lower collate c.items c.query c.sort) checked
  handler c save_editor = save app_id c
  handler c close_editor = update (λ s. record s { editor = none })
  handler c (type_text content) = edit c.editor content
  handler c remove = remove_selected app_id c
  handler c pack = compress app_id c
  handler c unpack = extract app_id c
  handler c fetch = download app_id c
  handler c (make directory) = create app_id c directory
  handler c (move copy) = rename_or_move app_id c copy
  handler c (send files) = upload app_id c files
  handler c (search query) = update (λ s. record s { query = query })
  handler c (order sort) = update (λ s. record s { sort = sort })
  handler c (lay_out view) = update (λ s. record s { view = view })

  unfoldable pub session : Env → List Command → Manager → Log → Run Manager (Unit {0})
  session env [] s l = run env skip s l
  session env (command ∷ rest) s l =
      let next = run env (handler s command) s l in session env rest next.state next.log
