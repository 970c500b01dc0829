-- ===== src/Types.antt =====
-- frontend/src/lib/types.ts: the records that the panel's API returns. Tags (a status, a stage, an
-- application's type) are native strings, texts that the program walks or joins are `Text`,
-- identifiers, sizes and ports are natural numbers, percentages are fractions, and a field that may
-- be absent or `null` is an `Option`.
use nova_server_manager.Common.{ℕ, Bool, String, Text, Option, List, Fraction}

-- A `Record<string, string>`, in the order in which its keys are listed.
abbrev pub Entries : Type 0
Entries = List (Text × Text)

pub record ContainerRuntime : Type 0 where
  pub cpu : Text
  pub cpu_percent : Fraction
  pub memory : Text
  pub memory_used : ℕ
  pub memory_limit : ℕ
  pub memory_percent : Fraction
  pub network : Text
  pub block : Text
  pub block_read : ℕ
  pub block_write : ℕ

pub record DatabaseConnection : Type 0 where
  pub engine : String
  pub host : Text
  pub port : ℕ
  pub internal_host : Text
  pub internal_port : ℕ
  pub database : Text
  pub username : Text
  pub password : Text
  pub uri : Text
  pub internal_uri : Text
  pub volume : Text
  pub admin_enabled : Bool
  pub admin_url : Text
  pub public_enabled : Bool
  pub remote_host : Text
  pub remote_uri : Text
  pub allowed_cidrs : List Text

pub record NovaApp : Type 0 where
  pub id : ℕ
  pub name : Text
  pub display_name : Text
  pub app_type : String
  pub status : String
  pub domain : Text
  pub domains : List Text
  pub container_name : Text
  pub image : Text
  pub internal_port : ℕ
  pub host_port : ℕ
  pub start_command : Text
  pub source_dir : Text
  pub volume_name : Text
  pub database_admin_port : ℕ
  pub database_public : Bool
  pub database_allowed_cidrs : List Text
  pub last_error : Text
  pub environment : Option Entries
  pub database : Option DatabaseConnection
  pub runtime : Option ContainerRuntime
  pub last_upload_name : Text
  pub last_upload_size : ℕ
  pub last_upload_at : Option Text
  pub source_size : ℕ
  pub source_files : ℕ
  pub last_deployed_at : Option Text
  pub created_at : Text
  pub updated_at : Text

pub record SystemMetrics : Type 0 where
  pub cpu_percent : Fraction
  pub cpu_count : ℕ
  pub memory_percent : Fraction
  pub memory_used : ℕ
  pub memory_total : ℕ
  pub disk_percent : Fraction
  pub disk_used : ℕ
  pub disk_total : ℕ
  pub disk_free : ℕ
  pub network_sent : ℕ
  pub network_received : ℕ
  pub network_total : ℕ
  pub max_upload_bytes : ℕ
  pub load : List Fraction
  pub uptime_seconds : ℕ
  pub hostname : Text
  pub ip_addresses : List Text
  pub primary_ip : Text
  pub os : Text
  pub docker : Bool
  pub nginx : Bool

pub record ActivityItem : Type 0 where
  pub id : ℕ
  pub action : Text
  pub detail : Text
  pub level : String
  pub created_at : Text

-- `"local" | "telegram"` and the units of a schedule.
pub data Destination : Type 0 where
  local telegram : Destination

pub data IntervalUnit : Type 0 where
  minutes hours days : IntervalUnit

pub record Backup : Type 0 where
  pub id : ℕ
  pub app_id : ℕ
  pub filename : Text
  pub size : ℕ
  pub destination : Destination
  pub status : String
  pub error : Text
  pub created_at : Text

pub record BackupSchedule : Type 0 where
  pub id : ℕ
  pub app_id : ℕ
  pub enabled : Bool
  pub destination : Destination
  pub interval_value : ℕ
  pub interval_unit : IntervalUnit
  pub retention : ℕ
  pub last_run : Option Text
  pub next_run : Option Text

pub record UploadRecord : Type 0 where
  pub id : ℕ
  pub app_id : ℕ
  pub filename : Text
  pub size : ℕ
  pub status : String
  pub files_extracted : ℕ
  pub extracted_size : ℕ
  pub error : Text
  pub created_at : Text
  pub completed_at : Option Text

pub record Deployment : Type 0 where
  pub id : ℕ
  pub app_id : ℕ
  pub status : String
  pub stage : String
  pub progress : ℕ
  pub output : Text
  pub image : Text
  pub trigger : Text
  pub duration_seconds : Option ℕ
  pub created_at : Text
  pub started_at : Option Text
  pub finished_at : Option Text

-- A time of the file system: the float of seconds that the server sends, counted in steps of
-- 2 ^ -82 of a second. Every float that is made from nanoseconds since 1970 is a whole number of them.
abbrev pub FileTime : Type 0
FileTime = ℕ

pub record FileItem : Type 0 where
  pub name : Text
  pub path : Text
  pub directory : Bool
  pub size : ℕ
  pub modified : FileTime
  pub permissions : Text
  pub extension : Text

pub data Phase : Type 0 where
  uploading processing completed failed : Phase

pub record UploadProgress : Type 0 where
  pub loaded : ℕ
  pub total : ℕ
  pub percent : Fraction
  pub speed : Fraction
  pub remaining : ℕ
  pub eta : Option Fraction
  pub phase : Phase
