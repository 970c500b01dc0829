-- ===== src/Backups/Failing.antt =====
-- What `BackupsView` and its dialogs show and throw where the server refuses.
use nova_server_manager.Common.{
  ℕ, ◌≡◌, ◌⊎◌, inl, inr, Bool, true, false, ◌&&◌, Option, List, [], ◌∷◌, arith, if◌then◌else◌,
}
use nova_server_manager.Types.{BackupSchedule, Destination}
use nova_server_manager.Client.Message.{
  Message, confirm_delete_backup, backup_deleted, confirm_restore, backup_started, operation_failed,
}
use nova_server_manager.Client.Error.{Error, Result, ok, err, is_ok, message_of, Result-cases}
use nova_server_manager.Client.Request.{
  Request, delete_backup, restore_backup, load_backups, save_schedule, create_backup, confirm,
}
use nova_server_manager.Client.Effect.{sent, asked, notified, called, close, saved}
use nova_server_manager.Client.Run.{Env, Log, Run, run, effects}
use nova_server_manager.Backups.{Backups, load, create, remove, restore}
use nova_server_manager.Backups.Dialogs.{
  Busy, ScheduleForm, id_of, body_of, submit_schedule, submit_quick,
}

-- The messages that were shown, the latest first.
unfoldable pub notices : Log → List Message
notices [] = []
notices (notified m k ∷ l) = m ∷ notices l
notices (_ ∷ l) = notices l

module _ (id : ℕ) (env : Env) (s : Backups) (l : Log) where
  abbrev pub removing : Run Backups (Unit {0})
  removing = run env (remove id) s l

  -- The answers to the question, to the deletion and to the loading after it.
  abbrev pub agreed : Bool
  agreed = env.choice l (confirm confirm_delete_backup)

  abbrev pub deleted : Result (Unit {0})
  deleted = env.answer (asked (confirm confirm_delete_backup) ∷ l) (delete_backup id)

  abbrev pub reloaded : Bool
  reloaded = is_ok (
      env.answer (sent (delete_backup id) ∷ asked (confirm confirm_delete_backup) ∷ l) load_backups)

  -- A removal shows one message exactly if the user agrees, the server deletes the backup and the
  -- backups are loaded again, and else none, in particular no error; it throws if the user agrees and
  -- one of the two is refused.
  notices-remove :
      (notices removing.log
        ≡ (if agreed && is_ok deleted && reloaded then backup_deleted ∷ notices l else notices l))
      × (is_ok removing.result ≡ (if agreed then is_ok deleted && reloaded else true))
  unfolding effects remove load notices
  notices-remove = (ground arith, ground arith)

  abbrev pub restoring : Run Backups (Unit {0})
  restoring = run env (restore id) s l

  -- A restoration that the server refuses shows nothing and throws.
  restore_refused :
      (e : Error)
      → env.choice l (confirm confirm_restore) ≡ true
      → env.answer (asked (confirm confirm_restore) ∷ l) (restore_backup id) ≡ err e
      → (notices restoring.log ≡ notices l) × (restoring.result ≡ err e) × (restoring.state ≡ s)
  unfolding effects restore notices
  restore_refused e agrees refused = ground arith

module _ (env : Env) (s : Busy) (l : Log) where
  module _ (schedule : Option BackupSchedule) (form : ScheduleForm) where
    abbrev pub submitted : Run Busy (Unit {0})
    submitted = run env (submit_schedule schedule form) s l

    abbrev pub stored : Request
    stored = save_schedule (id_of schedule) (body_of schedule form)

    -- The form of a schedule is not busy in the end; either the server accepts, and the page is told
    -- first that it saved and then to close the dialog, or it refuses, and the error is thrown, with
    -- no message and the dialog open.
    submit_schedule_lem :
        (submitted.state.busy ≡ false)
        × (((a : Unit {0}) × (env.answer l stored ≡ ok a)
              × (submitted.result ≡ ok tt)
              × (submitted.log ≡ called close ∷ called saved ∷ sent stored ∷ l))
            ⊎ ((e : Error) × (env.answer l stored ≡ err e)
                × (submitted.result ≡ err e)
                × (submitted.log ≡ sent stored ∷ l)))
    unfolding effects submit_schedule
    submit_schedule_lem = elim (Result-cases (env.answer l stored)) [
      | inl (a, fine) ↦ (ground arith, inl (a, fine, ground arith, ground arith))
      | inr (e, refused) ↦ (ground arith, inr (e, refused, ground arith, ground arith))
    ]

  module _ (app_id : ℕ) (destination : Destination) where
    abbrev pub quick : Run Busy (Unit {0})
    quick = run env (submit_quick app_id destination) s l

    -- The dialog for a quick backup always ends, not busy, and is closed, also where the server
    -- refuses; an error is on the screen exactly then.
    submit_quick_lem :
        (quick.result ≡ ok tt)
        × (quick.state.busy ≡ false)
        × (notices quick.log
            ≡ (elim (env.answer l (create_backup app_id destination)) [
              | ok a ↦ backup_started
              | err e ↦ message_of e operation_failed
            ])
              ∷ notices l)
    unfolding effects submit_quick create notices
    submit_quick_lem = ground arith
