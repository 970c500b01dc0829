-- ===== src/Server/Retention.antt =====
-- app/services/backup_service.py: `enforce_retention`, which the scheduler runs after a backup. The
-- files can be removed.
pub mod Newest
use nova_server_manager.Common.{
  ℕ, compare, Ordering, Bool, not, ◌&&◌, ◌==◌, String, str_eq, Text, text_eq, List, keep, drop, any,
  sort_by,
}

pub record BackupRow : Type 0 where
  pub id : ℕ
  pub app_id : ℕ
  pub filename : Text
  pub path : Text
  pub size : ℕ
  pub status : String
  pub created_at : ℕ

pub record ScheduleRow : Type 0 where
  pub id : ℕ
  pub app_id : ℕ
  pub retention : ℕ

-- The rows of backups, and the paths of the files.
pub record BackupStore : Type 0 where
  pub rows : List BackupRow
  pub files : List Text

-- The query's condition, and its order.
abbrev pub is_completed : ℕ → BackupRow → Bool
is_completed app_id b = b.app_id == app_id && str_eq b.status "completed"

abbrev pub newer_first : BackupRow → BackupRow → Ordering
newer_first a b = compare b.created_at a.created_at

abbrev pub completed_backups : ℕ → List BackupRow → List BackupRow
completed_backups app_id rows = sort_by newer_first (keep (is_completed app_id) rows)

-- `records[schedule.retention:]`
abbrev pub expired : ScheduleRow → List BackupRow → List BackupRow
expired schedule rows = drop schedule.retention (completed_backups schedule.app_id rows)

abbrev pub has_id : List BackupRow → ℕ → Bool
has_id rows id = any (λ b. b.id == id) rows

unfoldable pub enforce_retention : ScheduleRow → BackupStore → BackupStore
enforce_retention schedule s = record {
  rows = keep (λ b. not (has_id (expired schedule s.rows) b.id)) s.rows;
  files = keep (λ f. not (any (λ b. text_eq b.path f) (expired schedule s.rows))) s.files;
}
