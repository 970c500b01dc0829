-- ===== src/Client/Request.antt =====
-- What a handler waits for: each constructor is one awaited promise of frontend/src, and `Answer`
-- is the type that the call gives its payload. TypeScript checks nothing at run time, so an answer
-- of another shape is left out. Where the source passes several calls to `Promise.all`, which rejects
-- if any of them does, they are one request.
use nova_server_manager.Common.{ℕ, Bool, Text, Option, List}
use nova_server_manager.Types.{
  Entries, NovaApp, SystemMetrics, ActivityItem, Destination, IntervalUnit, Backup, BackupSchedule,
  UploadRecord, Deployment, FileItem,
}
use nova_server_manager.Client.Json.{File}
use nova_server_manager.Client.Message.{Message}

pub record User : Type 0 where
  pub id : ℕ
  pub username : Text

pub record Telegram : Type 0 where
  pub configured : Bool
  pub chat_id : Text
  pub token_hint : Text

-- The fields of the form of `CreateAppModal`, with the parsed environment.
pub record NewApp : Type 0 where
  pub name : Text
  pub display_name : Text
  pub app_type : Text
  pub internal_port : ℕ
  pub start_command : Text
  pub image : Text
  pub environment : Entries

-- The fields of the form of `SettingsTab`.
pub record AppSettings : Type 0 where
  pub display_name : Text
  pub internal_port : ℕ
  pub start_command : Text
  pub environment : Entries

-- The body of a schedule request.
pub record ScheduleBody : Type 0 where
  pub app_id : ℕ
  pub enabled : Bool
  pub destination : Destination
  pub interval_value : ℕ
  pub interval_unit : IntervalUnit
  pub retention : ℕ

pub record Uploaded : Type 0 where
  pub upload : UploadRecord
  pub files : ℕ
  pub size : ℕ

pub record Listing : Type 0 where
  pub path : Text
  pub items : List FileItem

pub record Document : Type 0 where
  pub path : Text
  pub content : Text

pub record ExecResult : Type 0 where
  pub output : Text
  pub exit_code : ℕ

pub data Operation : Type 0 where
  start stop restart : Operation

pub data Power : Type 0 where
  reboot shutdown : Power

pub data DnsMode : Type 0 where
  a cname wildcard : DnsMode

pub data Request : Type 0 where
  auth_status auth_me logout load_base get_telegram test_telegram load_backups : Request
  authenticate : (setup_required : Bool) (username password : Text) → Request
  save_telegram : (token chat_id : Text) → Request
  system_action : Power → Request
  create_app : NewApp → Request
  upload_source : (app_id : ℕ) → File → Request
  load_app : (app_id : ℕ) → Request
  app_action : (app_id : ℕ) → Operation → Request
  deploy_app : (app_id : ℕ) → Request
  update_app : (app_id : ℕ) → AppSettings → Request
  delete_app : (app_id : ℕ) (delete_data : Bool) → Request
  create_backup : (app_id : ℕ) → Destination → Request
  delete_backup restore_backup delete_schedule : (id : ℕ) → Request
  save_schedule : Option ℕ → ScheduleBody → Request
  list_files read_file delete_file : (app_id : ℕ) (path : Text) → Request
  write_file : (app_id : ℕ) → Document → Request
  create_file : (app_id : ℕ) (path : Text) (directory : Bool) → Request
  copy_file move_file : (app_id : ℕ) (source destination : Text) → Request
  compress_files : (app_id : ℕ) (paths : List Text) (destination : Text) → Request
  extract_file : (app_id : ℕ) (archive destination : Text) → Request
  upload_file : (app_id : ℕ) (path : Text) → File → Request
  app_logs : (app_id : ℕ) → Request
  exec_command : (app_id : ℕ) (command : Text) → Request
  add_domain : (app_id : ℕ) (domain : Text) (enable_ssl : Bool) → DnsMode → Request
  remove_domain : (app_id : ℕ) (domain : Text) → Request
  database_admin : (app_id : ℕ) (enabled : Bool) → Request
  database_access : (app_id : ℕ) (enabled : Bool) (cidrs : List Text) → Request
  -- `navigator.clipboard.writeText`, which is no call of the API
  copy_text : Text → Request

abbrev pub Answer : Request → Type 0
Answer auth_status = Bool
Answer auth_me = User
Answer load_base = List NovaApp × SystemMetrics × List ActivityItem × List Deployment
Answer get_telegram = Telegram
Answer load_backups = List Backup × List BackupSchedule × Telegram
Answer (authenticate s u p) = User
Answer (create_app n) = NovaApp
Answer (upload_source i f) = Uploaded
Answer (load_app i) = NovaApp × List UploadRecord × List Deployment × Entries
Answer (list_files i p) = Listing
Answer (read_file i p) = Document
Answer (app_logs i) = Text
Answer (exec_command i c) = ExecResult
Answer (add_domain i d e m) = Option Text
Answer _ = Unit

-- `confirm` and `prompt`, which stop the page until the user answers.
pub data Dialog : Type 0 where
  confirm : Message → Dialog
  prompt : Message → (preset : Text) → Dialog

abbrev pub Choice : Dialog → Type 0
Choice (confirm m) = Bool
Choice (prompt m d) = Option Text
