-- ===== src/Calls/Start.antt =====
-- frontend/src/app/page.tsx: the calls of `Home`; frontend/src/components/auth-view.tsx and
-- frontend/src/views/apps-view.tsx: the one call of each.
use nova_server_manager.Common.{Bool, true, false, codes, Text, List, [], ◌∷◌, ◌++◌}
use nova_server_manager.Client.Json.{num, str, obj, end, field, post}
use nova_server_manager.Client.Request.{
  Request, auth_status, auth_me, logout, load_base, get_telegram, authenticate, create_app,
}
use nova_server_manager.Calls.Shape.{Call, reads, bare, with_body, fields_of}

unfoldable pub home_calls : Request → List Call
home_calls auth_status = reads (codes "/api/auth/status") ∷ []
home_calls auth_me = reads (codes "/api/auth/me") ∷ []
home_calls logout = bare post (codes "/api/auth/logout") ∷ []
home_calls load_base =
    reads (codes "/api/apps")
    ∷ reads (codes "/api/system/metrics")
    ∷ reads (codes "/api/system/activity")
    ∷ reads (codes "/api/deployments?limit=60")
    ∷ []
home_calls get_telegram = reads (codes "/api/settings/telegram") ∷ []
home_calls _ = []

-- `setupRequired ? "setup" : "login"`
abbrev pub way_in : Bool → Text
way_in true = codes "setup"
way_in false = codes "login"

unfoldable pub sign_in_calls : Request → List Call
sign_in_calls (authenticate setup_required username password) =
    with_body post (codes "/api/auth/" ++ way_in setup_required)
      (field (codes "username") (str username) (field (codes "password") (str password) end))
    ∷ []
sign_in_calls _ = []

unfoldable pub creation_calls : Request → List Call
creation_calls (create_app new) =
    with_body post (codes "/api/apps") (
      field (codes "name") (str new.name) (
        field (codes "display_name") (str new.display_name) (
          field (codes "app_type") (str new.app_type) (
            field (codes "internal_port") (num new.internal_port) (
              field (codes "start_command") (str new.start_command) (
                field (codes "image") (str new.image)
                  (field (codes "environment") (obj (fields_of new.environment)) end)))))))
    ∷ []
creation_calls _ = []
