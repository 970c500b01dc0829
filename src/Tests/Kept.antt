-- ===== src/Tests/Kept.antt =====
-- Tests of the retention of backups on the server.
use nova_server_manager.Common.{ℕ, ◌≤◌, All, ◌≡◌, refl, not, codes, [], ◌∷◌, keep, take}
use Prim.Native.String.{String}
use nova_server_manager.Server.Retention.{
  BackupRow, ScheduleRow, BackupStore, is_completed, completed_backups, expired, enforce_retention,
}
use nova_server_manager.Server.Retention.Newest.{enforce_retention-newest}

abbrev backup : ℕ → String → ℕ → BackupRow
backup id status created_at = record {
  id = id;
  app_id = 12;
  filename = codes "a.tar.gz";
  path = codes "/var/a.tar.gz";
  size = 10;
  status = status;
  created_at = created_at;
}

abbrev before : BackupStore
before = record {
  rows = backup 1 "completed" 5 ∷ backup 2 "failed" 6 ∷ backup 3 "completed" 7 ∷ [];
  files = codes "/var/a.tar.gz" ∷ [];
}

abbrev nightly : ScheduleRow
nightly = record { id = 4; app_id = 12; retention = 1 }

enforce_retention-newest_example :
    (completed_backups 12 (enforce_retention nightly before).rows
      ≡ take 1 (completed_backups 12 before.rows))
    × (keep (λ b. not (is_completed 12 b)) (enforce_retention nightly before).rows
        ≡ keep (λ b. not (is_completed 12 b)) before.rows)
    × All
        (λ old.
          All (λ b. old.created_at ≤ b.created_at) (take 1 (completed_backups 12 before.rows)))
        (expired nightly before.rows)
enforce_retention-newest_example =
    enforce_retention-newest nightly before (refl, (refl, (refl, tt)))
