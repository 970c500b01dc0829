-- ===== src/Files/Sync.antt =====
-- The folder that `SourceTab` shows, against its history.
use nova_server_manager.Common.{
  ℕ, suc, ◌-◌, ◌≡◌, refl, true, Text, Ordering, Option, none, some, some, List, [], ◌∷◌, ◌++◌,
  length, get_elem?, take, arith, length-append, Bool-cases, inl, inr, get_elem?-append_length,
}
use nova_server_manager.Types.{FileItem}
use nova_server_manager.Client.Error.{Result, ok, err}
use nova_server_manager.Client.Request.{Request, Answer, list_files}
use nova_server_manager.Client.Run.{Env, Log, run, effects}
use nova_server_manager.Client.Keeps.{
  Keeps, Keeps-run, Keeps-answered, Keeps-bind, Keeps-update, Keeps-finally, Keeps-catch,
  Keeps-notify,
}
use nova_server_manager.Files.State.{Manager}
use nova_server_manager.Files.{load, navigate_path, travel, travel_to, open_item}
use nova_server_manager.Files.Listing.{crumb, parent}
use nova_server_manager.Files.History.{run-navigate_path, run-travel_to, load-history}
use nova_server_manager.Files.Session.{
  Command, handler, session, go_root, go_parent, go_back, go_forward, go_crumb, open_row, before,
}
use nova_server_manager.Files.Steps.{moves, handler-Keeps}

-- The folder that is shown is the entry of the history at the index.
abbrev pub InSync : Manager → Type 0
InSync s = get_elem? s.history s.history_index ≡ some s.path

-- Every listing succeeds, and names the folder that was asked for.
abbrev pub Lists : (q : Request) → Result (Answer q) → Type 0
Lists (list_files app_id path) (ok listing) = listing.path ≡ path
Lists (list_files app_id path) (err e) = ⊥
Lists _ _ = Unit

-- The history and the index are the given ones, and the given folder is shown.
abbrev pub Place : List Text → ℕ → Text → Manager → Type 0
Place h i p s = (s.history ≡ h) × (s.history_index ≡ i) × (s.path ≡ p)

-- A folder that is shown already is shown after it is loaded again.
pub reload-Place :
    (app_id : ℕ) (h : List Text) (i : ℕ) (p : Text) → Keeps Lists (Place h i p) (load app_id p)
unfolding load
reload-Place app_id h i p = Keeps-bind (Keeps-update _ (λ s k. k)) λ _.
    Keeps-finally
      (Keeps-catch
        (Keeps-answered (list_files app_id p) λ a e. Keeps-update _ (λ s k. (k.0, k.1, e)))
        (λ e. Keeps-notify _ _))
      (λ m k. Keeps-bind (Keeps-update _ (λ s k. k)) (λ _. k))

module _ (app_id : ℕ) (env : Env) (lists : (l : Log) (q : Request) → Lists q (env.answer l q))
    (s : Manager) (l : Log) where
  pub path-load : (p : Text) → (run env (load app_id p) s l).state.path ≡ p
  unfolding effects load
  path-load p = ground (arith, lists l (list_files app_id p))

  navigate_path-InSync :
      (c : Manager) (p : Text) → InSync (run env (navigate_path app_id c p) s l).state
  navigate_path-InSync c p =
      let kept : List Text = take (suc c.history_index) c.history in
      let last : length (kept ++ p ∷ []) - 1 ≡ length kept =
        omega (arith, length-append {0} kept (p ∷ [])) in
      rw run-navigate_path (rw (last, path-load p) (get_elem?-append_length kept p))

  travel_to-InSync :
      (n : ℕ) (o : Option Text)
      → get_elem? s.history n ≡ o
      → InSync s
      → InSync (run env (travel_to app_id n o) s l).state
  unfolding effects travel_to
  travel_to-InSync n none e h = h
  travel_to-InSync n (some p) e h =
      let same = Keeps-run (load-history app_id s.history p) env (λ _ _. tt) s l refl in
      rw run-travel_to (rw (same, path-load p) e)

  travel-InSync : (o : Option ℕ) → InSync s → InSync (run env (travel app_id s o) s l).state
  unfolding effects travel
  travel-InSync none h = h
  travel-InSync (some n) h = travel_to-InSync n (get_elem? s.history n) refl h

  open_item-InSync :
      (item : FileItem)
      → item.directory ≡ true
      → InSync (run env (open_item app_id s item) s l).state
  unfolding open_item
  open_item-InSync item folder = rw folder (navigate_path-InSync s item.path)

  module _ (lower : Text → Text) (collate : Text → Text → Ordering) where
    moving-InSync :
        (command : Command)
        → moves command ≡ true
        → InSync s
        → InSync (run env (handler lower collate app_id s command) s l).state
    unfolding handler
    moving-InSync go_root m h = navigate_path-InSync s []
    moving-InSync go_parent m h = navigate_path-InSync s (parent s.path)
    moving-InSync (go_crumb index) m h = navigate_path-InSync s (crumb s.path index)
    moving-InSync go_back m h = travel-InSync (before s.history_index) h
    moving-InSync go_forward m h = travel-InSync (some (suc s.history_index)) h
    moving-InSync (open_row item) m h = open_item-InSync item m
    moving-InSync _ m h = cc

    handler-InSync :
        (command : Command)
        → InSync s
        → InSync (run env (handler lower collate app_id s command) s l).state
    handler-InSync command h = elim (Bool-cases (moves command)) [
      | inl away ↦ moving-InSync command away h
      | inr stays ↦
          let keeps =
            handler-Keeps app_id (λ t i p. (t ≡ s.history) × (i ≡ s.history_index) × (p ≡ s.path)) s
              (reload-Place app_id s.history s.history_index s.path) lower collate command stays in
          let (t, i, p) = Keeps-run keeps env lists s l (refl, refl, refl) in rw (t, i, p) h
    ]

-- If the server lists every folder that it is asked for, and the folder that is shown is the
-- entry of the history at the index, then this holds again after any sequence of commands, each
-- of which ends before the next, whatever the server answers to the other requests and the user
-- to the dialogs.
pub session-InSync :
    (lower : Text → Text) (collate : Text → Text → Ordering) (app_id : ℕ) (env : Env)
    → ((l : Log) (q : Request) → Lists q (env.answer l q))
    → (commands : List Command) (s : Manager) (l : Log) → InSync s
    → InSync (session lower collate app_id env commands s l).state
unfolding session effects
session-InSync lower collate app_id env lists [] s l h = h
session-InSync lower collate app_id env lists (command ∷ rest) s l h =
    session-InSync lower collate app_id env lists rest _ _
      (handler-InSync app_id env lists s l lower collate command h)
