-- ===== src/Types/Backup.antt =====
-- The interface of crates/types/src/providers/backup.rs and its data.
use opengroupware.Prelude.{ℕ, String, Option, List}
use opengroupware.Db.World.{Uuid, Time}
use opengroupware.Types.Provider.{ProviderContext, Call}

pub data BackupStatus : Type 0 where
  pending running completed failed cancelled : BackupStatus

pub record BackupJob : Type 0 where
  pub id : Uuid
  pub tenant_id : Uuid
  pub account_id : Option Uuid
  pub status : BackupStatus
  pub progress_percent : ℕ
  pub message_count : ℕ
  pub message_progress : ℕ
  pub started_at : Time
  pub completed_at : Option Time

pub data ExportFormat : Type 0 where
  pst mbox eml : ExportFormat

-- `trait BackupProvider`: an operation takes and leaves the state of its backend.
pub record BackupProvider (S : Type 0) : Type 0 where
  pub start_backup : ProviderContext → Option Uuid → Call S Uuid
  pub cancel_backup : ProviderContext → Uuid → Call S Unit
  pub get_backup_status : ProviderContext → Uuid → Call S BackupJob
  pub start_restore : ProviderContext → Uuid → Uuid → Call S Uuid
  pub list_backups : ProviderContext → Call S (List BackupJob)
  pub export_mailbox : ProviderContext → Uuid → ExportFormat → Call S Uuid
  pub import_mailbox : ProviderContext → Uuid → String → Call S Uuid
