-- ===== src/Files/Refinement.antt =====
-- The history, the index and the shown folder of `SourceTab` against the abstract history of `Trail`.
use mathlib.Core.Path.{subst}
use nova_server_manager.Common.{
  ap₂, ℕ, suc, ◌-◌, ◌≡◌, refl, sym, ap, ◌∙◌, true, false, Text, Ordering, none, some, List, [], ◌∷◌,
  ◌++◌, length, get_elem?, take, arith, Bool-cases, inl, inr,
}
use nova_server_manager.Types.{FileItem}
use nova_server_manager.Client.Request.{Request}
use nova_server_manager.Client.Keeps.{Keeps-run}
use nova_server_manager.Client.Run.{Env, Log, run, effects}
use nova_server_manager.Files.State.{Manager}
use nova_server_manager.Files.{navigate_path, travel, travel_to, open_item}
use nova_server_manager.Files.Listing.{crumb, parent}
use nova_server_manager.Files.Session.{
  Command, handler, session, go_root, go_parent, go_back, go_forward, go_crumb, open_row, before,
}
use nova_server_manager.Files.Steps.{moves, handler-Keeps}
use nova_server_manager.Files.History.{run-navigate_path}
use nova_server_manager.Files.Sync.{Lists, reload-Place, path-load}
use nova_server_manager.Files.Moves.{travel_shows}
use nova_server_manager.Files.Trail.{
  Trail, visit, step_back, step_forward, follow, follow_all, unwind, Represents, length-unwind,
  here-unwind, next-unwind, visited_history,
}

module _ (app_id : ℕ) (env : Env) (lists : (l : Log) (q : Request) → Lists q (env.answer l q))
    (s : Manager) (l : Log) (t : Trail) (view : Represents s t) where
  visits : (p : Text) → Represents (run env (navigate_path app_id s p) s l).state (visit p t)
  visits p =
      let made : take (suc s.history_index) s.history ++ p ∷ []
          ≡ unwind (t.shown ∷ t.behind) (p ∷ []) =
        rw (view.0, view.1) (visited_history t.behind t.shown p t.ahead) in
      let last : length (take (suc s.history_index) s.history ++ p ∷ []) - 1
          ≡ suc (length t.behind) =
        omega (arith, ap length made, length-unwind (t.shown ∷ t.behind) (p ∷ [])) in
      rw run-navigate_path (made, last, path-load app_id env lists s l p)

  next_entry :
      (ps : List Text) → t.ahead ≡ ps → get_elem? s.history (suc s.history_index) ≡ get_elem? ps 0
  next_entry ps e =
      ap₂ get_elem? view.0 (ap suc view.1)
      ∙ (next-unwind t.behind t.shown t.ahead ∙ ap (λ (ahead : List Text). get_elem? ahead 0) e)

  goes_back :
      (bs : List Text)
      → t.behind ≡ bs
      → Represents (run env (travel app_id s (before s.history_index)) s l).state (step_back bs t)
  unfolding effects travel
  goes_back [] e =
      subst (λ n. Represents (run env (travel app_id s (before n)) s l).state t)
        (sym (view.1 ∙ ap length e)) view
  goes_back (b ∷ bs) e =
      let held : s.history ≡ unwind bs (b ∷ t.shown ∷ t.ahead) =
        view.0 ∙ ap (λ (behind : List Text). unwind behind (t.shown ∷ t.ahead)) e in
      let entry : get_elem? s.history (length bs) ≡ some b =
        ap (λ (h : List Text). get_elem? h (length bs)) held
        ∙ here-unwind bs b (t.shown ∷ t.ahead) in
      let (path, index, history) = travel_shows app_id env lists s l (length bs) b entry in
      subst
        (λ n. Represents (run env (travel app_id s (before n)) s l).state (step_back (b ∷ bs) t))
        (sym (view.1 ∙ ap length e)) (history ∙ held, index, path)

  goes_forward :
      (ps : List Text)
      → t.ahead ≡ ps
      → Represents
          (run env (travel app_id s (some (suc s.history_index))) s l).state
          (step_forward ps t)
  unfolding effects travel travel_to
  goes_forward [] e =
      let entry : get_elem? s.history (suc s.history_index) ≡ none = next_entry [] e in
      rw entry view
  goes_forward (p ∷ ps) e =
      let entry : get_elem? s.history (suc s.history_index) ≡ some p = next_entry (p ∷ ps) e in
      let (path, index, history) =
        travel_shows app_id env lists s l (suc s.history_index) p entry in
      (
        history ∙ view.0 ∙ ap (λ (ahead : List Text). unwind t.behind (t.shown ∷ ahead)) e,
        index ∙ ap suc view.1,
        path,
      )

  module _ (lower : Text → Text) (collate : Text → Text → Ordering) where
    open_item-follows :
        (item : FileItem)
        → item.directory ≡ true
        → Represents (run env (open_item app_id s item) s l).state (follow (open_row item) t)
    unfolding open_item
    open_item-follows item folder = rw folder (visits item.path)

    moving-follows :
        (command : Command)
        → moves command ≡ true
        → Represents (run env (handler lower collate app_id s command) s l).state (follow command t)
    unfolding handler
    moving-follows go_root m = visits []
    moving-follows go_parent m =
        subst
          (λ p.
            Represents (run env (navigate_path app_id s (parent s.path)) s l).state
              (visit (parent p) t))
          view.2 (visits (parent s.path))
    moving-follows (go_crumb index) m =
        subst
          (λ p.
            Represents (run env (navigate_path app_id s (crumb s.path index)) s l).state
              (visit (crumb p index) t))
          view.2 (visits (crumb s.path index))
    moving-follows go_back m = goes_back t.behind refl
    moving-follows go_forward m = goes_forward t.ahead refl
    moving-follows (open_row item) m = open_item-follows item m
    moving-follows _ m = cc

    staying-follows : (command : Command) → moves command ≡ false → follow command t ≡ t
    staying-follows (open_row item) m = rw m refl
    staying-follows go_root m = cc
    staying-follows go_parent m = cc
    staying-follows (go_crumb index) m = cc
    staying-follows go_back m = cc
    staying-follows go_forward m = cc
    staying-follows _ m = refl

    handler-follows :
        (command : Command)
        → Represents (run env (handler lower collate app_id s command) s l).state (follow command t)
    handler-follows command = elim (Bool-cases (moves command)) [
      | inl away ↦ moving-follows command away
      | inr stays ↦
          let keeps =
            handler-Keeps app_id (λ h i p. (h ≡ s.history) × (i ≡ s.history_index) × (p ≡ s.path)) s
              (reload-Place app_id s.history s.history_index s.path) lower collate command stays in
          let (h, i, p) = Keeps-run keeps env lists s l (refl, refl, refl) in
          rw (staying-follows command stays) (h ∙ view.0, i ∙ view.1, p ∙ view.2)
    ]

-- If the server lists every folder that it is asked for, and the history, the index and the shown
-- folder are those of an abstract history, then after any sequence of commands, each of which ends
-- before the next, they are those of the abstract history on which the same commands have acted.
pub session-follows :
    (lower : Text → Text) (collate : Text → Text → Ordering) (app_id : ℕ) (env : Env)
    → ((l : Log) (q : Request) → Lists q (env.answer l q))
    → (commands : List Command) (s : Manager) (l : Log) (t : Trail) → Represents s t
    → Represents (session lower collate app_id env commands s l).state (follow_all commands t)
unfolding session effects
session-follows lower collate app_id env lists [] s l t view = view
session-follows lower collate app_id env lists (command ∷ rest) s l t view =
    session-follows lower collate app_id env lists rest _ _ (follow command t)
      (handler-follows app_id env lists s l t view lower collate command)
