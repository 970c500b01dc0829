-- ===== src/Calls/Tabs.antt =====
-- frontend/src/views/app-detail-view.tsx: the calls of `AppDetailView` and of its tabs but for the file
-- manager.
use nova_server_manager.Common.{Bool, true, false, Text, codes, List, [], ◌∷◌, ◌++◌}
use nova_server_manager.Client.Json.{bool, num, str, arr, obj, end, field, post, patch, delete}
use nova_server_manager.Client.Url.{encode_uri}
use nova_server_manager.Client.Request.{
  Request, Operation, DnsMode, load_app, app_action, deploy_app, update_app, delete_app, app_logs,
  exec_command, add_domain, remove_domain, database_admin, database_access,
}
use nova_server_manager.Calls.Shape.{Call, reads, bare, with_body, at_app, texts, fields_of}

abbrev pub operation_text : Operation → Text
operation_text Operation.start = codes "start"
operation_text Operation.stop = codes "stop"
operation_text Operation.restart = codes "restart"

abbrev pub mode_text : DnsMode → Text
mode_text DnsMode.a = codes "a"
mode_text DnsMode.cname = codes "cname"
mode_text DnsMode.wildcard = codes "wildcard"

abbrev pub truth_text : Bool → Text
truth_text true = codes "true"
truth_text false = codes "false"

-- `OverviewTab`
unfoldable pub access_calls : Request → List Call
access_calls (database_admin app_id enabled) =
    with_body post (at_app app_id (codes "/database-admin"))
      (field (codes "enabled") (bool enabled) end)
    ∷ []
access_calls (database_access app_id enabled cidrs) =
    with_body post (at_app app_id (codes "/database-access")) (
      field (codes "enabled") (bool enabled)
        (field (codes "allowed_cidrs") (arr (texts cidrs)) end))
    ∷ []
access_calls _ = []

-- `LogsTab`
unfoldable pub console_calls : Request → List Call
console_calls (app_logs app_id) = reads (at_app app_id (codes "/logs?tail=600")) ∷ []
console_calls (exec_command app_id command) =
    with_body post (at_app app_id (codes "/exec")) (field (codes "command") (str command) end) ∷ []
console_calls _ = []

-- `DomainTab`
unfoldable pub domain_calls : Request → List Call
domain_calls (add_domain app_id domain enable_ssl mode) =
    with_body post (at_app app_id (codes "/domain")) (
      field (codes "domain") (str domain) (
        field (codes "enable_ssl") (bool enable_ssl)
          (field (codes "dns_mode") (str (mode_text mode)) end)))
    ∷ []
domain_calls (remove_domain app_id domain) =
    bare delete (at_app app_id (codes "/domain/" ++ encode_uri domain)) ∷ []
domain_calls _ = []

-- `SettingsTab`
unfoldable pub settings_calls : Request → List Call
settings_calls (update_app app_id settings) =
    with_body patch (at_app app_id []) (
      field (codes "display_name") (str settings.display_name) (
        field (codes "internal_port") (num settings.internal_port) (
          field (codes "start_command") (str settings.start_command)
            (field (codes "environment") (obj (fields_of settings.environment)) end))))
    ∷ []
settings_calls (delete_app app_id delete_data) =
    bare delete (at_app app_id (codes "?delete_data=" ++ truth_text delete_data)) ∷ []
settings_calls _ = []

-- `AppDetailView` itself
unfoldable pub page_calls : Request → List Call
page_calls (load_app app_id) =
    reads (at_app app_id [])
    ∷ reads (at_app app_id (codes "/uploads"))
    ∷ reads (at_app app_id (codes "/deployments"))
    ∷ reads (at_app app_id (codes "/stats"))
    ∷ []
page_calls (app_action app_id operation) =
    bare post (at_app app_id (codes "/actions/" ++ operation_text operation)) ∷ []
page_calls (deploy_app app_id) = bare post (at_app app_id (codes "/deploy")) ∷ []
page_calls _ = []

abbrev pub tab_calls : Request → List Call
tab_calls q =
    access_calls q ++ console_calls q ++ domain_calls q ++ settings_calls q ++ page_calls q
