-- ===== src/Files/Moves.antt =====
-- Moving between folders in `SourceTab`: back and forward again, and a folder that cannot be listed.
use nova_server_manager.Common.{
  ℕ, suc, ◌-◌, ◌<◌, ◌≡◌, refl, sym, ap, ◌∙◌, Text, some, List, [], ◌∷◌, ◌++◌, length, get_elem?,
  take, arith, length-append, length-take, get_elem?-append_length, get_elem?-append_left,
  get_elem?-take,
}
use nova_server_manager.Client.Error.{Error, err}
use nova_server_manager.Client.Request.{Request, list_files}
use nova_server_manager.Client.Run.{Env, Log, Run, run, effects}
use nova_server_manager.Client.Keeps.{Keeps-run}
use nova_server_manager.Files.State.{Manager}
use nova_server_manager.Files.{load, navigate_path, travel}
use nova_server_manager.Files.History.{InRange, run-navigate_path, run-travel_to, load-history}
use nova_server_manager.Files.Session.{before}
use nova_server_manager.Files.Sync.{InSync, Lists, path-load}

module _ (app_id : ℕ) (env : Env) (s : Manager) (l : Log) (p : Text) where
  -- If the server refuses to list a folder, going there still ends the history with that folder
  -- and points the index at it, and the folder that was shown stays.
  navigate_path-failed :
      (e : Error)
      → env.answer l (list_files app_id p) ≡ err e
      → ((run env (navigate_path app_id s p) s l).state.path ≡ s.path)
        × (get_elem?
              (run env (navigate_path app_id s p) s l).state.history
              (run env (navigate_path app_id s p) s l).state.history_index
            ≡ some p)
  unfolding effects load
  navigate_path-failed e failed =
      let kept : List Text = take (suc s.history_index) s.history in
      let last : length (kept ++ p ∷ []) - 1 ≡ length kept =
        omega (arith, length-append {0} kept (p ∷ [])) in
      (
        rw run-navigate_path (ground arith),
        rw run-navigate_path (rw last (get_elem?-append_length kept p)),
      )

module _ (app_id : ℕ) (env : Env) (lists : (l : Log) (q : Request) → Lists q (env.answer l q))
    (s : Manager) (l : Log) where
  -- A step through the history shows the folder that stands there.
  pub travel_shows :
      (n : ℕ) (p : Text)
      → get_elem? s.history n ≡ some p
      → ((run env (travel app_id s (some n)) s l).state.path ≡ p)
        × ((run env (travel app_id s (some n)) s l).state.history_index ≡ n)
        × ((run env (travel app_id s (some n)) s l).state.history ≡ s.history)
  unfolding travel
  travel_shows n p e = rw e (
      rw run-travel_to (
        path-load app_id env lists s l p,
        refl,
        Keeps-run (load-history app_id s.history p) env (λ _ _. tt) s l refl,
      ))

module _ (app_id : ℕ) (env : Env) (lists : (l : Log) (q : Request) → Lists q (env.answer l q))
    (s : Manager) (l : Log) (range : InRange s) (p : Text) where
  abbrev pub moved : Run Manager (Unit {0})
  moved = run env (navigate_path app_id s p) s l

  abbrev pub returned : Run Manager (Unit {0})
  returned =
      run env (travel app_id moved.state (before moved.state.history_index)) moved.state moved.log

  abbrev pub advanced : Run Manager (Unit {0})
  advanced =
      run env (travel app_id returned.state (some (suc returned.state.history_index)))
        returned.state returned.log

  index-moved : moved.state.history_index ≡ suc s.history_index
  index-moved = rw run-navigate_path (
      omega (
        arith,
        length-append {0} (take (suc s.history_index) s.history) (p ∷ []),
        length-take (suc s.history_index) s.history range,
      ))

  entry-moved :
      (i : ℕ) → i < suc s.history_index → get_elem? moved.state.history i ≡ get_elem? s.history i
  entry-moved i h = rw run-navigate_path (
      get_elem?-append_left (take (suc s.history_index) s.history) (p ∷ []) i
        (omega (arith, length-take {0} (suc s.history_index) s.history range))
      ∙ get_elem?-take (suc s.history_index) s.history i h)

  last-moved : get_elem? moved.state.history (suc s.history_index) ≡ some p
  last-moved =
      let kept : List Text = take (suc s.history_index) s.history in
      let end : suc s.history_index ≡ length kept =
        sym (length-take (suc s.history_index) s.history range) in
      rw run-navigate_path (ap (get_elem? (kept ++ p ∷ [])) end ∙ get_elem?-append_length kept p)

  -- If every listing succeeds, the index points into the history and the shown folder stands
  -- there, then going to a folder and back shows the old folder again, at the old index, with
  -- the history that the move made.
  back_shows :
      InSync s
      → (returned.state.path ≡ s.path)
        × (returned.state.history_index ≡ s.history_index)
        × (returned.state.history ≡ moved.state.history)
  back_shows sync = rw index-moved (
      travel_shows app_id env lists moved.state moved.log s.history_index s.path
        (entry-moved s.history_index (omega arith) ∙ sync))

  -- If every listing succeeds, the index points into the history and the shown folder stands
  -- there, then going to a folder, back and forward again shows that folder, one index further
  -- than at first.
  forward_shows :
      InSync s → (advanced.state.path ≡ p) × (advanced.state.history_index ≡ suc s.history_index)
  forward_shows sync =
      let (_, index, history) = back_shows sync in
      let (shown, at, _) =
        travel_shows app_id env lists returned.state returned.log (suc returned.state.history_index)
          p (rw (history, index) last-moved) in
      (shown, at ∙ ap suc index)
