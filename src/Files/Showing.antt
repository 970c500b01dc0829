-- ===== src/Files/Showing.antt =====
-- The rows that `SourceTab` shows.
use nova_server_manager.Common.{
  ◌≤◌, Ordering, ◌≡◌, true, false, Text, ◌⊎◌, List, [], ◌∷◌, keep, sort_by-perm, sort_by-IsSorted,
  IsSorted, IsPreorder, not_after, All, arith,
}
use mathlib.Core.List.{Perm}
use nova_server_manager.Types.{FileItem}
use nova_server_manager.Files.State.{SortKey, by_name, by_size, by_modified}
use nova_server_manager.Files.Listing.{matches, compare_items, visible_items}

module _ (collate : Text → Text → Ordering) where
  -- `a` may stand before `b` under a key.
  abbrev pub InKeyOrder : SortKey → FileItem → FileItem → Type 0
  InKeyOrder by_name a b = not_after (collate a.name b.name) ≡ true
  InKeyOrder by_size a b = b.size ≤ a.size
  InKeyOrder by_modified a b = b.modified ≤ a.modified

  -- `a` may stand before `b`: a folder before a file, and two of a kind by the key.
  abbrev pub MayPrecede : SortKey → FileItem → FileItem → Type 0
  MayPrecede sort a b =
      ((a.directory ≡ true) × (b.directory ≡ false))
      ⊎ ((a.directory ≡ b.directory) × InKeyOrder sort a b)

  -- Every row may precede all rows below it.
  abbrev pub IsOrdered : SortKey → List FileItem → Type 0
  IsOrdered sort [] = Unit
  IsOrdered sort (x ∷ xs) = All (MayPrecede sort x) xs × IsOrdered sort xs

module _ (lower : Text → Text) (collate : Text → Text → Ordering) (o : IsPreorder collate) where
  compare_items-IsPreorder : (sort : SortKey) → IsPreorder (compare_items lower collate sort)
  unfolding compare_items
  compare_items-IsPreorder by_name = record {
    total = λ a b h. ground (arith, o.total a.name b.name);
    transitive = λ a b c h k. ground (arith, o.transitive a.name b.name c.name);
  }
  compare_items-IsPreorder by_size = record {
    total = λ a b h. ground arith;
    transitive = λ a b c h k. ground arith;
  }
  compare_items-IsPreorder by_modified = record {
    total = λ a b h. ground arith;
    transitive = λ a b c h k. ground arith;
  }

  MayPrecede-compare_items :
      (sort : SortKey) (a b : FileItem)
      → not_after (compare_items lower collate sort a b) ≡ true
      → MayPrecede collate sort a b
  unfolding compare_items
  MayPrecede-compare_items by_name a b h = ground arith
  MayPrecede-compare_items by_size a b h = ground arith
  MayPrecede-compare_items by_modified a b h = ground arith

  All-MayPrecede :
      (sort : SortKey) (x : FileItem) (xs : List FileItem)
      → All (λ y. not_after (compare_items lower collate sort x y) ≡ true) xs
      → All (MayPrecede collate sort x) xs
  All-MayPrecede sort x [] h = tt
  All-MayPrecede sort x (y ∷ ys) (h, hs) =
      (MayPrecede-compare_items sort x y h, All-MayPrecede sort x ys hs)

  IsOrdered-IsSorted :
      (sort : SortKey) (xs : List FileItem)
      → IsSorted (compare_items lower collate sort) xs
      → IsOrdered collate sort xs
  IsOrdered-IsSorted sort [] h = tt
  IsOrdered-IsSorted sort (x ∷ xs) (h, hs) =
      (All-MayPrecede sort x xs h, IsOrdered-IsSorted sort xs hs)

  -- Whatever is typed and whichever key is chosen, the rows are the items that match, each as
  -- often as it is listed, folders first and by the key among folders and among files, if the
  -- browser's comparison of texts is a preorder.
  pub visible_items-IsOrdered :
      (items : List FileItem) (query : Text) (sort : SortKey)
      → Perm
          (visible_items lower collate items query sort)
          (keep (matches lower collate query) items)
        × IsOrdered collate sort (visible_items lower collate items query sort)
  unfolding visible_items
  visible_items-IsOrdered items query sort =
      let matching : List FileItem = keep (matches lower collate query) items in
      (
        sort_by-perm (compare_items lower collate sort) matching,
        IsOrdered-IsSorted sort _ (
            sort_by-IsSorted (compare_items lower collate sort) (compare_items-IsPreorder sort)
              matching),
      )
