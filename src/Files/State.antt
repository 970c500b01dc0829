-- ===== src/Files/State.antt =====
-- frontend/src/views/app-detail-view.tsx: the state of `SourceTab`, the file manager.
use nova_server_manager.Common.{ℕ, Bool, true, Text, Option, none, List, [], ◌∷◌}
use nova_server_manager.Types.{FileItem}
use nova_server_manager.Client.Request.{Document}

pub data SortKey : Type 0 where
  by_name by_size by_modified : SortKey

pub data Layout : Type 0 where
  list grid : Layout

pub record Manager : Type 0 where
  pub path : Text
  pub items : List FileItem
  pub editor : Option Document
  pub loading : Bool
  pub selected : List Text
  pub query : Text
  pub sort : SortKey
  pub view : Layout
  pub history : List Text
  pub history_index : ℕ

abbrev pub initial : Manager
initial = record {
  path = [];
  items = [];
  editor = none;
  loading = true;
  selected = [];
  query = [];
  sort = by_name;
  view = list;
  history = [] ∷ [];
  history_index = 0;
}
