-- ===== src/Files/Controls.antt =====
-- frontend/src/views/app-detail-view.tsx: which controls of `SourceTab` are shown and not disabled. The
-- rows are shown only while nothing is being loaded.
use nova_server_manager.Common.{
  ℕ, ◌==◌, Bool, true, false, not, Option, none, some, length, is_empty, ltb, ◌-◌,
}
use nova_server_manager.Files.State.{Manager}
use nova_server_manager.Files.Edit.{zip_to_extract}
use nova_server_manager.Files.Session.{
  Command, go_parent, go_back, go_forward, open_row, toggle_row, save_editor, close_editor, remove,
  pack, unpack, fetch, type_text, move,
}

abbrev pub is_some {ℓ} : {A : Type ℓ} → Option A → Bool
is_some none = false
is_some (some a) = true

module _ (app_id : ℕ) where
  unfoldable pub enabled : Manager → Command → Bool
  enabled s go_parent = not (is_empty s.path)
  enabled s go_back = not (s.history_index == 0)
  enabled s go_forward = ltb s.history_index (length s.history - 1)
  enabled s (open_row item) = not s.loading
  enabled s (toggle_row item) = not s.loading
  enabled s save_editor = is_some s.editor
  enabled s close_editor = is_some s.editor
  enabled s (type_text content) = is_some s.editor
  enabled s remove = not (is_empty s.selected)
  enabled s pack = not (is_empty s.selected)
  enabled s unpack = is_some (zip_to_extract app_id s)
  enabled s fetch = length s.selected == 1
  enabled s (move copy) = length s.selected == 1
  enabled s _ = true
