-- ===== src/Tests/Folders.antt =====
-- Tests of the file manager.
use nova_server_manager.Common.{◌≡◌, ◌≤◌, ◌⊎◌, refl, arith, codes, List, [], ◌∷◌, take, keep}
use Prim.Native.Nat.{ℕ}
use mathlib.Core.List.{Perm}
use nova_server_manager.Types.{FileItem}
use nova_server_manager.Client.Request.{Request, list_files}
use nova_server_manager.Client.Run.{Log, run, requests}
use nova_server_manager.Files.State.{Manager, initial, by_size}
use nova_server_manager.Files.Listing.{visible_items, matches}
use nova_server_manager.Files.Edit.{remove_selected}
use nova_server_manager.Files.Session.{
  Command, session, go_parent, go_back, go_forward, open_row, refresh, remove, toggle_row,
}
use nova_server_manager.Files.History.{InRange, session-InRange}
use nova_server_manager.Files.Sync.{InSync, Lists, session-InSync}
use nova_server_manager.Files.Deleting.{deletions, remove_selected_deletes}
use nova_server_manager.Files.Showing.{IsOrdered, visible_items-IsOrdered}
use nova_server_manager.Tests.{
  lower, collate, collate-IsPreorder, lively, refusing, folder, document,
}

-- Into a folder, into one of it, back twice, forward, up, and a deletion.
abbrev walk : List Command
walk =
    open_row (folder (codes "a"))
    ∷ open_row (folder (codes "a/b"))
    ∷ go_back
    ∷ go_back
    ∷ go_forward
    ∷ go_parent
    ∷ toggle_row (document (codes "c"))
    ∷ remove
    ∷ refresh
    ∷ []

-- The sample server lists every folder.
lively-Lists : (l : Log) (q : Request) → Lists q (lively.answer l q)
lively-Lists l (list_files app_id path) = refl
lively-Lists l _ = tt

session-InSync_example : InSync (session lower collate 12 lively walk initial []).state
session-InSync_example = session-InSync lower collate 12 lively lively-Lists walk initial [] refl

session-InRange_example : InRange (session lower collate 12 refusing walk initial []).state
session-InRange_example = session-InRange lower collate 12 refusing walk initial [] (omega arith)

abbrev picked : Manager
picked = record initial { selected = codes "a" ∷ codes "b" ∷ [] }

remove_selected_deletes_example :
    (n : ℕ) × (n ≤ 2)
    × ((requests (run lively (remove_selected 12 picked) picked []).log
          ≡ deletions 12 (take n picked.selected) [])
        ⊎ ((n ≡ 2)
            × (requests (run lively (remove_selected 12 picked) picked []).log
                ≡ list_files 12 [] ∷ deletions 12 (take n picked.selected) [])))
unfolding requests
remove_selected_deletes_example = remove_selected_deletes 12 lively picked picked [] refl refl

abbrev rows : List FileItem
rows = document (codes "x") ∷ folder (codes "yy") ∷ document (codes "zz") ∷ []

visible_items-IsOrdered_example :
    Perm (visible_items lower collate rows [] by_size) (keep (matches lower collate []) rows)
    × IsOrdered collate by_size (visible_items lower collate rows [] by_size)
visible_items-IsOrdered_example =
    visible_items-IsOrdered lower collate collate-IsPreorder rows [] by_size
