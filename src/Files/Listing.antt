-- ===== src/Files/Listing.antt =====
-- frontend/src/views/app-detail-view.tsx: the items that `SourceTab` shows, and its paths.
use nova_server_manager.Common.{
  ℕ, suc, compare, Ordering, Bool, not, Text, codes, has_part, split, join, List, keep, sort_by,
  take, is_empty, length, sum, map, if◌then◌else◌, ◌-◌,
}
use nova_server_manager.Types.{FileItem}
use nova_server_manager.Files.State.{SortKey, by_name, by_size, by_modified}

-- `toLowerCase` and `localeCompare` of the browser are parameters.
module _ (lower : Text → Text) (collate : Text → Text → Ordering) where
  unfoldable pub matches : Text → FileItem → Bool
  matches query item = has_part (lower item.name) (lower query)

  -- Folders first, then the chosen key.
  by_key : SortKey → FileItem → FileItem → Ordering
  by_key by_name a b = collate a.name b.name
  by_key by_size a b = compare b.size a.size
  by_key by_modified a b = compare b.modified a.modified

  unfoldable pub compare_items : SortKey → FileItem → FileItem → Ordering
  unfolding by_key
  compare_items sort a b =
      if a.directory
      then (if b.directory then by_key sort a b else Ordering.lt)
      else (if b.directory then Ordering.gt else by_key sort a b)

  unfoldable pub visible_items : List FileItem → Text → SortKey → List FileItem
  visible_items items query sort = sort_by (compare_items sort) (keep (matches query) items)

-- `path.split("/").filter(Boolean)`
unfoldable pub parts : Text → List Text
parts path = keep (λ part. not (is_empty part)) (split b'/' path)

-- The target of the button of part number `index` in the row of folders.
unfoldable pub crumb : Text → ℕ → Text
unfolding parts
crumb path index = join (codes "/") (take (suc index) (parts path))

-- `path.split("/").slice(0, -1).join("/")`
unfoldable pub parent : Text → Text
parent path = let words = split b'/' path in join (codes "/") (take (length words - 1) words)

-- The count of files and of folders, and the size, in the line above the list.
unfoldable pub count_files : List FileItem → ℕ
count_files items = length (keep (λ item. not item.directory) items)

unfoldable pub count_folders : List FileItem → ℕ
count_folders items = length (keep (λ item. item.directory) items)

unfoldable pub total_size : List FileItem → ℕ
total_size items = sum (map (λ item. item.size) items)
