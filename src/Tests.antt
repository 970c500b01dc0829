-- ===== src/Tests.antt =====
-- What the tests share: a server that answers, a user who agrees, and sample data.
pub mod Folders
pub mod Forms
pub mod Server
pub mod Servers
pub mod Routes
pub mod Sources
pub mod Kept
pub mod Pages
pub mod Tabs
pub mod Access
pub mod Overlaps
pub mod Operations
use nova_server_manager.Common.{
  ℕ, ◌+◌, Bool, true, false, ◌&&◌, Text, codes, none, some, [], ◌∷◌, List, length, map, leb,
  compare, Ordering, if◌then◌else◌, Fraction, whole, not_after, IsPreorder, arith, Option,
}
use nova_server_manager.Types.{NovaApp, SystemMetrics, FileItem}
use nova_server_manager.Client.Json.{File}
use nova_server_manager.Client.Error.{Error, thrown, Result, ok, err}
use nova_server_manager.Client.Request.{
  User, Request, Answer, Dialog, Choice, confirm, prompt, auth_status, auth_me, load_base,
  create_app, load_app, list_files, delete_file, delete_app, authenticate, add_domain, app_action,
  deploy_app,
}
use nova_server_manager.Client.Run.{Log, Env}

-- `toLowerCase` on the letters of English.
abbrev pub lower : Text → Text
lower t = map (λ c. if leb 65 c && leb c 90 then c + 32 else c) t

-- An order of texts: the shorter one first.
abbrev pub collate : Text → Text → Ordering
collate a b = compare (length a) (length b)

pub collate-IsPreorder : IsPreorder collate
collate-IsPreorder = record {
  total = λ a b h. ground arith;
  transitive = λ a b c h k. ground arith;
}

abbrev pub admin : User
admin = record { id = 1; username = codes "admin" }

abbrev pub shop : NovaApp
shop = record {
  id = 12;
  name = codes "shop";
  display_name = codes "Shop";
  app_type = "nodejs";
  status = "running";
  domain = [];
  domains = [];
  container_name = codes "nova-shop";
  image = [];
  internal_port = 3000;
  host_port = 18000;
  start_command = [];
  source_dir = [];
  volume_name = [];
  database_admin_port = 0;
  database_public = false;
  database_allowed_cidrs = [];
  last_error = [];
  environment = none;
  database = none;
  runtime = none;
  last_upload_name = [];
  last_upload_size = 0;
  last_upload_at = none;
  source_size = 100;
  source_files = 3;
  last_deployed_at = none;
  created_at = codes "2026";
  updated_at = codes "2026";
}

abbrev pub idle : SystemMetrics
idle = record {
  cpu_percent = whole 1;
  cpu_count = 2;
  memory_percent = whole 10;
  memory_used = 1;
  memory_total = 10;
  disk_percent = whole 10;
  disk_used = 1;
  disk_total = 10;
  disk_free = 9;
  network_sent = 0;
  network_received = 0;
  network_total = 0;
  max_upload_bytes = 1000;
  load = [];
  uptime_seconds = 60;
  hostname = codes "nova";
  ip_addresses = [];
  primary_ip = [];
  os = [];
  docker = true;
  nginx = true;
}

abbrev pub answers : (q : Request) → Result (Answer q)
answers auth_status = ok false
answers auth_me = ok admin
answers load_base = ok (shop ∷ [], idle, [], [])
answers (create_app form) = ok shop
answers (load_app app_id) = ok (shop, [], [], [])
answers (list_files app_id path) = ok (record { path = path; items = [] })
answers (delete_file app_id path) = ok tt
answers (delete_app app_id delete_data) = ok tt
answers (authenticate setup username password) = ok admin
answers (add_domain app_id domain ssl mode) = ok none
answers (app_action app_id operation) = ok tt
answers (deploy_app app_id) = ok tt
answers _ = err thrown

abbrev pub agrees : (d : Dialog) → Choice d
agrees (confirm question) = true
agrees (prompt question preset) = some preset

-- A server that knows one application, and a user who says yes to everything.
abbrev pub lively : Env
lively = record { answer = λ l q. answers q; choice = λ l d. agrees d }

-- The same user with a server that refuses everything.
abbrev pub refusing : Env
refusing = record { answer = λ l q. err thrown; choice = λ l d. agrees d }

abbrev pub archive : File
archive = record { name = codes "site.ZIP"; size = 500 }

abbrev pub folder : Text → FileItem
folder path = record {
  name = path;
  path = path;
  directory = true;
  size = 0;
  modified = 1;
  permissions = [];
  extension = [];
}

abbrev pub document : Text → FileItem
document path = record {
  name = path;
  path = path;
  directory = false;
  size = 7;
  modified = 2;
  permissions = [];
  extension = [];
}
