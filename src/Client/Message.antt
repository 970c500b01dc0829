-- ===== src/Client/Message.antt =====
-- The texts that the panel shows. The panel speaks Persian; each constructor stands for one text of
-- the source, with the values that the source puts into it, and `plain` for a text that comes from
-- the server, from the browser or from the user.
use nova_server_manager.Common.{ℕ, Text}

pub data Message : Type 0 where
  plain : Text → Message
  -- lib/api.ts
  error_status : (status : ℕ) → Message
  upload_refused : (status : ℕ) → Message
  upload_disconnected : Message
  -- app/page.tsx and components/auth-view.tsx
  server_unreachable data_unavailable telegram_saved login_failed : Message
  -- UploadModal and CreateAppModal
  only_zip upload_done upload_failed file_upload_failed : Message
  too_large : (limit : ℕ) → Message
  service_created app_created app_with_source_created app_creation_failed : Message
  -- OverviewTab
  copied admin_enabled admin_disabled admin_change_failed : Message
  address_required access_enabled access_closed access_change_failed : Message
  -- SourceTab
  files_unavailable file_not_editable file_saved save_failed : Message
  confirm_delete : (count : ℕ) → Message
  selected_deleted delete_failed new_folder_name new_file_name folder_created file_created : Message
  creation_failed select_exactly_one copy_path new_path copy_created file_moved : Message
  operation_failed select_at_least_one zip_name zip_created compress_failed : Message
  select_zip zip_extracted extract_failed select_for_download : Message
  files_uploaded : (count : ℕ) → Message
  -- LogsTab
  logs_unavailable unknown_error : Message
  -- DomainTab
  value_copied domain_without_ssl domain_with_https domain_with_http domain_failed : Message
  confirm_remove_domain : Text → Message
  domain_removed domain_remove_failed : Message
  -- SettingsTab
  settings_saved confirm_delete_app confirm_delete_data app_deleted : Message
  -- AppDetailView
  app_not_found operation_done source_required deploy_started deploy_failed : Message
  backup_started backup_failed : Message
  -- views/operations-views.tsx
  connection_failed confirm_delete_backup backup_deleted confirm_restore restore_started : Message
  test_sent send_failed schedule_paused schedule_resumed schedule_toggle_failed : Message
  confirm_delete_schedule : Text → Message
  schedule_deleted schedule_delete_failed schedule_edited schedule_created : Message
  telegram_connected system_command_sent command_failed : Message
  type_to_confirm : Text → Message
