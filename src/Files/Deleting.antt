-- ===== src/Files/Deleting.antt =====
-- Deleting the selected files of `SourceTab`: which requests are made, in which order.
use nova_server_manager.Common.{
  ℕ, suc, ◌≤◌, ◌≡◌, ap, true, false, Text, ◌⊎◌, inl, inr, List, [], ◌∷◌, length, take, is_empty,
  arith,
}
use nova_server_manager.Client.Message.{confirm_delete, selected_deleted, delete_failed}
use nova_server_manager.Client.Error.{Result-cases, ok, message_of}
use nova_server_manager.Client.Request.{Request, delete_file, list_files, Dialog, confirm}
use nova_server_manager.Client.Effect.{Prog, sent, asked, success, error, notify, catch, ◌>>◌}
use nova_server_manager.Client.Run.{Env, Log, run, effects, requests}
use nova_server_manager.Files.State.{Manager}
use nova_server_manager.Files.{load}
use nova_server_manager.Files.Edit.{delete_all, remove_selected}

-- The requests that delete these paths one after another, put on top of earlier ones: the latest
-- stands first.
abbrev pub deletions : ℕ → List Text → List Request → List Request
deletions app_id [] earlier = earlier
deletions app_id (path ∷ paths) earlier = deletions app_id paths (delete_file app_id path ∷ earlier)

module _ (app_id : ℕ) (env : Env) (c s : Manager) where
  -- What `remove_selected` does once the user has agreed.
  abbrev deleting : List Text → Prog Manager (Unit {0})
  deleting paths =
      catch (do delete_all app_id paths; load app_id c.path; notify selected_deleted success)
        (λ e. notify (message_of e delete_failed) error)

  abbrev Deleted : List Text → Log → Type 0
  Deleted paths l =
      (n : ℕ) × (n ≤ length paths)
      × ((requests (run env (deleting paths) s l).log
            ≡ deletions app_id (take n paths) (requests l))
          ⊎ ((n ≡ length paths)
              × (requests (run env (deleting paths) s l).log
                  ≡ list_files app_id c.path ∷ deletions app_id (take n paths) (requests l))))

  deleting_step :
      (p : Text) (ps : List Text) (l : Log) (a : Unit {0})
      → env.answer l (delete_file app_id p) ≡ ok a
      → run env (deleting (p ∷ ps)) s l ≡ run env (deleting ps) s (sent (delete_file app_id p) ∷ l)
  unfolding effects delete_all
  deleting_step p ps l a fine = ground arith

  deleting_lem : (paths : List Text) (l : Log) → Deleted paths l
  unfolding effects delete_all load requests
  deleting_lem [] l = (0, omega arith, ground arith)
  deleting_lem (p ∷ ps) l = elim (Result-cases (env.answer l (delete_file app_id p))) [
    | inl (a, fine) ↦
        let (n, fits, shape) = deleting_lem ps (sent (delete_file app_id p) ∷ l) in
        (
          suc n,
          omega arith,
          rw (deleting_step p ps l a fine) (elim shape [
            | inl stopped ↦ inl stopped
            | inr (complete, requested) ↦ inr (ap suc complete, requested)
          ]),
        )
    | inr (e, failed) ↦ (1, omega arith, ground arith)
  ]

module _ (app_id : ℕ) (env : Env) (c s : Manager) (l : Log) where
  abbrev pub question : Dialog
  question = confirm (confirm_delete (length c.selected))

  remove_selected_declined :
      env.choice l question ≡ false
      → requests (run env (remove_selected app_id c) s l).log ≡ requests l
  unfolding effects remove_selected requests
  remove_selected_declined refused = ground arith

  remove_selected_agreed :
      is_empty c.selected ≡ false
      → env.choice l question ≡ true
      → run env (remove_selected app_id c) s l
        ≡ run env (deleting app_id env c s c.selected) s (asked question ∷ l)
  unfolding effects remove_selected
  remove_selected_agreed some agreed = ground arith

  -- If files are selected and the user agrees, the paths that are asked to be deleted are the
  -- first `n` of the selected ones, in order and one after another, for some `n`; nothing else
  -- is requested, but that the folder may be read again after all of them were.
  pub remove_selected_deletes :
      is_empty c.selected ≡ false
      → env.choice l question ≡ true
      → (n : ℕ) × (n ≤ length c.selected)
        × ((requests (run env (remove_selected app_id c) s l).log
              ≡ deletions app_id (take n c.selected) (requests l))
            ⊎ ((n ≡ length c.selected)
                × (requests (run env (remove_selected app_id c) s l).log
                    ≡ list_files app_id c.path
                      ∷ deletions app_id (take n c.selected) (requests l))))
  unfolding requests
  remove_selected_deletes some agreed =
      rw (remove_selected_agreed some agreed)
        (deleting_lem app_id env c s c.selected (asked question ∷ l))
