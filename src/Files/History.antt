-- ===== src/Files/History.antt =====
-- The history of the folders that `SourceTab` has shown, over whole sessions.
use nova_server_manager.Common.{
  ℕ, suc, ◌-◌, ◌<◌, ◌≡◌, refl, true, Text, Ordering, Option, none, some, List, [], ◌∷◌, ◌++◌,
  length, get_elem?, take, arith, length-append, Bool-cases, inl, inr, lt-length_of_get_elem?,
}
use nova_server_manager.Types.{FileItem}
use nova_server_manager.Client.Run.{Env, Log, run, effects}
use nova_server_manager.Client.Keeps.{Keeps, Anything, Keeps-run, keeps_rules}
use nova_server_manager.Files.State.{Manager}
use nova_server_manager.Files.{load, navigate_path, travel, travel_to, open_item}
use nova_server_manager.Files.Listing.{crumb, parent}
use nova_server_manager.Files.Session.{
  Command, handler, session, go_root, go_parent, go_back, go_forward, go_crumb, open_row, before,
}
use nova_server_manager.Files.Steps.{moves, handler-Keeps}

-- What a navigation and a step through the history leave: what the load of the folder leaves, with
-- the new history or index.
module _ (app_id : ℕ) (env : Env) (s : Manager) (l : Log) where
  pub run-navigate_path :
      (c : Manager) (p : Text)
      → (run env (navigate_path app_id c p) s l).state
        ≡ record (run env (load app_id p) s l).state {
          history = take (suc c.history_index) c.history ++ p ∷ [];
          history_index = length (take (suc c.history_index) c.history ++ p ∷ []) - 1;
        }
  unfolding effects navigate_path load
  run-navigate_path c p = ground arith

  pub run-travel_to :
      (n : ℕ) (p : Text)
      → (run env (travel_to app_id n (some p)) s l).state
        ≡ record (run env (load app_id p) s l).state { history_index = n }
  unfolding effects travel_to load
  run-travel_to n p = ground arith

-- The index points into the history.
abbrev pub InRange : Manager → Type 0
InRange s = s.history_index < length s.history

pub load-history :
    (app_id : ℕ) (h : List Text) (p : Text) → Keeps Anything (λ s. s.history ≡ h) (load app_id p)
unfolding load
load-history app_id h p = search keeps_rules depth 12

load-InRange : (app_id : ℕ) (p : Text) → Keeps Anything InRange (load app_id p)
unfolding load
load-InRange app_id p = search keeps_rules depth 12

module _ (app_id : ℕ) (env : Env) (s : Manager) (l : Log) where
  navigate_path-InRange :
      (c : Manager) (p : Text) → InRange (run env (navigate_path app_id c p) s l).state
  navigate_path-InRange c p =
      rw run-navigate_path
        (omega (arith, length-append {0} (take (suc c.history_index) c.history) (p ∷ [])))

  travel_to-InRange :
      (n : ℕ) (o : Option Text)
      → get_elem? s.history n ≡ o
      → InRange s
      → InRange (run env (travel_to app_id n o) s l).state
  unfolding effects travel_to
  travel_to-InRange n none e h = h
  travel_to-InRange n (some p) e h =
      let same = Keeps-run (load-history app_id s.history p) env (λ _ _. tt) s l refl in
      rw run-travel_to (rw same (lt-length_of_get_elem? s.history n p e))

  travel-InRange : (o : Option ℕ) → InRange s → InRange (run env (travel app_id s o) s l).state
  unfolding effects travel
  travel-InRange none h = h
  travel-InRange (some n) h = travel_to-InRange n (get_elem? s.history n) refl h

  open_item-InRange :
      (item : FileItem)
      → item.directory ≡ true
      → InRange (run env (open_item app_id s item) s l).state
  unfolding open_item
  open_item-InRange item folder = rw folder (navigate_path-InRange s item.path)

  module _ (lower : Text → Text) (collate : Text → Text → Ordering) where
    moving-InRange :
        (command : Command)
        → moves command ≡ true
        → InRange s
        → InRange (run env (handler lower collate app_id s command) s l).state
    unfolding handler
    moving-InRange go_root m h = navigate_path-InRange s []
    moving-InRange go_parent m h = navigate_path-InRange s (parent s.path)
    moving-InRange (go_crumb index) m h = navigate_path-InRange s (crumb s.path index)
    moving-InRange go_back m h = travel-InRange (before s.history_index) h
    moving-InRange go_forward m h = travel-InRange (some (suc s.history_index)) h
    moving-InRange (open_row item) m h = open_item-InRange item m
    moving-InRange _ m h = cc

    handler-InRange :
        (command : Command)
        → InRange s
        → InRange (run env (handler lower collate app_id s command) s l).state
    handler-InRange command h = elim (Bool-cases (moves command)) [
      | inl away ↦ moving-InRange command away h
      | inr stays ↦
          let keeps =
            handler-Keeps app_id (λ h i p. i < length h) s (load-InRange app_id s.path) lower
              collate command stays in
          Keeps-run keeps env (λ _ _. tt) s l h
    ]

-- If the index points into the history, it does so again after any sequence of commands, each
-- of which ends before the next, whatever the server and the user answer.
pub session-InRange :
    (lower : Text → Text) (collate : Text → Text → Ordering) (app_id : ℕ) (env : Env)
    (commands : List Command) (s : Manager) (l : Log)
    → InRange s
    → InRange (session lower collate app_id env commands s l).state
unfolding session effects
session-InRange lower collate app_id env [] s l h = h
session-InRange lower collate app_id env (command ∷ rest) s l h =
    session-InRange lower collate app_id env rest _ _
      (handler-InRange app_id env s l lower collate command h)
