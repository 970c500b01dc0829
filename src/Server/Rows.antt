-- ===== src/Server/Rows.antt =====
-- app/models.py: the rows of the server's database that are modelled, with the columns that the
-- operations here read or write. A moment is a number of microseconds.
use nova_server_manager.Common.{ℕ, String, Text, Bool, Option}
use nova_server_manager.Client.Request.{DnsMode}

pub record AppRow : Type 0 where
  pub id : ℕ
  pub name : Text
  pub app_type : String
  pub status : String
  pub domain : Text
  pub domains_json : Text
  pub image : Text
  pub host_port : ℕ
  pub last_error : Text
  pub last_upload_name : Text
  pub last_upload_size : ℕ
  pub last_upload_at : Option ℕ
  pub source_size : ℕ
  pub source_files : ℕ
  pub last_deployed_at : Option ℕ

pub record UploadRow : Type 0 where
  pub id : ℕ
  pub app_id : ℕ
  pub filename : Text
  pub size : ℕ
  pub status : String
  pub files_extracted : ℕ
  pub extracted_size : ℕ
  pub error : Text
  pub created_at : ℕ
  pub completed_at : Option ℕ

pub record DeploymentRow : Type 0 where
  pub id : ℕ
  pub app_id : ℕ
  pub status : String
  pub stage : String
  pub progress : ℕ
  pub output : Text
  pub image : Text
  pub trigger : Text
  pub created_at : ℕ
  pub started_at : Option ℕ
  pub finished_at : Option ℕ

-- What the text of a row of the activity log tells, part of it in Persian.
pub data LogDetail : Type 0 where
  deployed : (name : Text) (ok : Bool) → LogDetail
  given_domain : (name domain : Text) (mode : DnsMode) → LogDetail
  lost_domain : (name domain : Text) → LogDetail
  sent_source : (name : Text) (size : ℕ) → LogDetail

pub record LogRow : Type 0 where
  pub action : String
  pub detail : LogDetail
  pub level : String

-- app/services/common.py: `CommandResult`.
pub record CommandResult : Type 0 where
  pub ok : Bool
  pub stdout : Text
  pub stderr : Text
  pub returncode : ℕ
