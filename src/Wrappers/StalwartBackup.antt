-- ===== src/Wrappers/StalwartBackup.antt =====
-- `StalwartBackupProvider` of crates/wrappers/src/stalwart_backup.rs.
use opengroupware.Prelude.{String, Option, List, []}
use opengroupware.Db.World.{Uuid}
use opengroupware.Types.Provider.{ProviderContext, Call}
use opengroupware.Types.Backup.{BackupJob, ExportFormat, BackupProvider}
use opengroupware.Wrappers.Stubs.{Fresh, answer, fresh, not_implemented}

pub record StalwartBackupProvider : Type 0 where
  pub client_url : String
  pub admin_api_key : String

abbrev pub start_backup : StalwartBackupProvider → ProviderContext → Option Uuid → Call Fresh Uuid
start_backup p ctx account_id = fresh

abbrev pub cancel_backup : StalwartBackupProvider → ProviderContext → Uuid → Call Fresh Unit
cancel_backup p ctx job_id = answer tt

abbrev pub get_backup_status :
    StalwartBackupProvider → ProviderContext → Uuid → Call Fresh BackupJob
get_backup_status p ctx job_id = not_implemented

abbrev pub start_restore : StalwartBackupProvider → ProviderContext → Uuid → Uuid → Call Fresh Uuid
start_restore p ctx account_id backup_job_id = fresh

abbrev pub list_backups : StalwartBackupProvider → ProviderContext → Call Fresh (List BackupJob)
list_backups p ctx = answer []

abbrev pub export_mailbox :
    StalwartBackupProvider → ProviderContext → Uuid → ExportFormat → Call Fresh Uuid
export_mailbox p ctx account_id format = fresh

abbrev pub import_mailbox :
    StalwartBackupProvider → ProviderContext → Uuid → String → Call Fresh Uuid
import_mailbox p ctx account_id source_blob_key = fresh

-- The provider.
abbrev pub stalwart_backup : StalwartBackupProvider → BackupProvider Fresh
stalwart_backup p = record {
  start_backup = start_backup p;
  cancel_backup = cancel_backup p;
  get_backup_status = get_backup_status p;
  start_restore = start_restore p;
  list_backups = list_backups p;
  export_mailbox = export_mailbox p;
  import_mailbox = import_mailbox p;
}
