-- ===== src/Files/Steps.antt =====
-- The commands that stay in the folder: what holds of the history, of its index and of the path is
-- kept by every command that neither opens a folder nor moves through the history, if loading the
-- folder that is shown keeps it.
use nova_server_manager.Common.{ℕ, ◌≡◌, Bool, true, false, Text, Ordering, Option, none, some, List}
use nova_server_manager.Types.{FileItem}
use nova_server_manager.Client.Error.{Result}
use nova_server_manager.Client.Request.{Request, Answer, Document}
use nova_server_manager.Client.Keeps.{Keeps, keeps_rules}
use nova_server_manager.Files.State.{Manager}
use nova_server_manager.Files.{load, open_item, save, save_document, edit, toggle, toggle_all}
use nova_server_manager.Files.Edit.Keeps.{
  remove_selected-Keeps, create-Keeps, rename_or_move-Keeps, compress-Keeps, extract-Keeps,
  upload-Keeps, download-Keeps,
}
use nova_server_manager.Files.Session.{
  Command, go_root, go_parent, go_back, go_forward, refresh, go_crumb, open_row, toggle_row,
  toggle_head, save_editor, close_editor, type_text, remove, pack, unpack, fetch, make, move, send,
  search as search_for, order, lay_out, handler,
}

abbrev pub moves : Command → Bool
moves go_root = true
moves go_parent = true
moves (go_crumb index) = true
moves go_back = true
moves go_forward = true
moves (open_row item) = item.directory
moves _ = false

module _ (app_id : ℕ) {Allowed : (q : Request) → Result (Answer q) → Type 0}
    (Q : List Text → ℕ → Text → Type 0) (c : Manager)
    (load-Keeps : Keeps Allowed
      (λ s. Q s.history s.history_index s.path)
      (load app_id c.path)) where
  abbrev P : Manager → Type 0
  P s = Q s.history s.history_index s.path

  open_file-Keeps :
      (item : FileItem) → item.directory ≡ false → Keeps Allowed P (open_item app_id c item)
  unfolding open_item
  open_file-Keeps item file = rw file (search keeps_rules depth 12)

  save_document-Keeps : (o : Option Document) → Keeps Allowed P (save_document app_id o)
  unfolding save_document
  save_document-Keeps none = search keeps_rules
  save_document-Keeps (some d) = search keeps_rules depth 12

  save-Keeps : Keeps Allowed P (save app_id c)
  unfolding save
  save-Keeps = save_document-Keeps c.editor

  edit-Keeps : (o : Option Document) (t : Text) → Keeps Allowed P (edit o t)
  unfolding edit
  edit-Keeps none t = search keeps_rules
  edit-Keeps (some d) t = search keeps_rules

  toggle-Keeps : (p : Text) → Keeps Allowed P (toggle p)
  unfolding toggle
  toggle-Keeps p = search keeps_rules

  toggle_all-Keeps : (items : List FileItem) (b : Bool) → Keeps Allowed P (toggle_all items b)
  unfolding toggle_all
  toggle_all-Keeps items b = search keeps_rules

  pub handler-Keeps :
      (lower : Text → Text) (collate : Text → Text → Ordering) (command : Command)
      → moves command ≡ false
      → Keeps Allowed P (handler lower collate app_id c command)
  unfolding handler
  handler-Keeps lower collate refresh h = load-Keeps
  handler-Keeps lower collate (open_row item) h = open_file-Keeps item h
  handler-Keeps lower collate (toggle_row item) h = toggle-Keeps item.path
  handler-Keeps lower collate (toggle_head checked) h = toggle_all-Keeps _ checked
  handler-Keeps lower collate save_editor h = save-Keeps
  handler-Keeps lower collate close_editor h = search keeps_rules
  handler-Keeps lower collate (type_text content) h = edit-Keeps c.editor content
  handler-Keeps lower collate remove h = remove_selected-Keeps app_id c load-Keeps
  handler-Keeps lower collate pack h = compress-Keeps app_id c load-Keeps
  handler-Keeps lower collate unpack h = extract-Keeps app_id c load-Keeps
  handler-Keeps lower collate fetch h = download-Keeps app_id c load-Keeps
  handler-Keeps lower collate (make directory) h = create-Keeps app_id c load-Keeps directory
  handler-Keeps lower collate (move copy) h = rename_or_move-Keeps app_id c load-Keeps copy
  handler-Keeps lower collate (send files) h = upload-Keeps app_id c load-Keeps files
  handler-Keeps lower collate (search_for query) h = search keeps_rules
  handler-Keeps lower collate (order sort) h = search keeps_rules
  handler-Keeps lower collate (lay_out view) h = search keeps_rules
  handler-Keeps lower collate _ h = cc
