-- ===== src/Files/Rooted.antt =====
-- The first entry of the history of `SourceTab` while its handlers overlap.
use nova_server_manager.Common.{
  ℕ, suc, ◌≡◌, ap, true, Text, Ordering, Option, none, some, List, [], ◌∷◌, ◌++◌, get_elem?, take,
  Bool-cases, inl, inr,
}
use nova_server_manager.Types.{FileItem}
use nova_server_manager.Client.Keeps.{Keeps, Anything, keeps_rules, Keeps-bind, Keeps-update}
use nova_server_manager.Client.Machine.{Machine, idle, Reach}
use nova_server_manager.Client.Machine.Invariants.{Reach-Steady}
use nova_server_manager.Files.State.{Manager}
use nova_server_manager.Files.{load, navigate_path, travel, travel_to, open_item}
use nova_server_manager.Files.Listing.{crumb, parent}
use nova_server_manager.Files.Session.{
  Command, handler, go_root, go_parent, go_back, go_forward, go_crumb, open_row, before,
}
use nova_server_manager.Files.Steps.{moves, handler-Keeps}
use nova_server_manager.Files.Controls.{enabled}

-- The history begins with the root, and so is not empty.
abbrev pub IsRooted : Manager → Type 0
IsRooted s = (later : List Text) × (s.history ≡ [] ∷ later)

module _ (app_id : ℕ) where
  load-IsRooted : (p : Text) → Keeps Anything IsRooted (load app_id p)
  unfolding load
  load-IsRooted p = search keeps_rules depth 12

  navigate_path-IsRooted :
      (c : Manager) (p : Text) → IsRooted c → Keeps Anything IsRooted (navigate_path app_id c p)
  unfolding navigate_path
  navigate_path-IsRooted c p (later, e) = Keeps-bind (load-IsRooted p) λ _. Keeps-update _ (λ s _. (
    take c.history_index later ++ p ∷ [],
    ap (λ (h : List Text). take (suc c.history_index) h ++ p ∷ []) e,
  ))

  travel_to-IsRooted : (n : ℕ) (o : Option Text) → Keeps Anything IsRooted (travel_to app_id n o)
  unfolding travel_to
  travel_to-IsRooted n none = search keeps_rules
  travel_to-IsRooted n (some p) = search (keeps_rules, load-IsRooted) depth 12

  travel-IsRooted : (c : Manager) (o : Option ℕ) → Keeps Anything IsRooted (travel app_id c o)
  unfolding travel
  travel-IsRooted c none = search keeps_rules
  travel-IsRooted c (some n) = travel_to-IsRooted n (get_elem? c.history n)

  open_folder-IsRooted :
      (c : Manager) (item : FileItem)
      → IsRooted c
      → item.directory ≡ true
      → Keeps Anything IsRooted (open_item app_id c item)
  unfolding open_item
  open_folder-IsRooted c item h folder = rw folder (navigate_path-IsRooted c item.path h)

  module _ (lower : Text → Text) (collate : Text → Text → Ordering) (s : Manager)
      (h : IsRooted s) where
    moving-IsRooted :
        (command : Command)
        → moves command ≡ true
        → Keeps Anything IsRooted (handler lower collate app_id s command)
    unfolding handler
    moving-IsRooted go_root m = navigate_path-IsRooted s [] h
    moving-IsRooted go_parent m = navigate_path-IsRooted s (parent s.path) h
    moving-IsRooted (go_crumb index) m = navigate_path-IsRooted s (crumb s.path index) h
    moving-IsRooted go_back m = travel-IsRooted s (before s.history_index)
    moving-IsRooted go_forward m = travel-IsRooted s (some (suc s.history_index))
    moving-IsRooted (open_row item) m = open_folder-IsRooted s item h m
    moving-IsRooted _ m = cc

    command-IsRooted :
        (command : Command) → Keeps Anything IsRooted (handler lower collate app_id s command)
    command-IsRooted command = elim (Bool-cases (moves command)) [
      | inl away ↦ moving-IsRooted command away
      | inr stays ↦
          handler-Keeps app_id (λ history i p. (later : List Text) × (history ≡ [] ∷ later)) s
            (load-IsRooted s.path) lower collate command stays
    ]

-- However the controls of the file manager are used, also while others wait, in whatever order the server
-- answers and whatever it answers, the history begins with the root, if it does at first and nothing
-- waits then.
pub history-IsRooted :
    (lower : Text → Text) (collate : Text → Text → Ordering) (app_id : ℕ) (s : Manager)
    (m : Machine Manager Command)
    → IsRooted s
    → Reach (enabled app_id) (handler lower collate app_id) (idle s) m
    → IsRooted m.state
history-IsRooted lower collate app_id s m h r =
    (Reach-Steady IsRooted (enabled app_id) (handler lower collate app_id)
      (λ t c k. command-IsRooted app_id lower collate t k c) r (h, tt)).0
