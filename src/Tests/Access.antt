-- ===== src/Tests/Access.antt =====
-- Tests of the access to a database.
use nova_server_manager.Common.{refl, false, codes, trim, trim_start, is_space, some, [], ◌∷◌, All}
use nova_server_manager.Types.{NovaApp, DatabaseConnection}
use nova_server_manager.Overview.Access.{IsAddress}
use nova_server_manager.Tests.{shop}

abbrev store : DatabaseConnection
store = record {
  engine = "postgres";
  host = codes "127.0.0.1";
  port = 5432;
  internal_host = codes "nova-db";
  internal_port = 5432;
  database = codes "db";
  username = codes "nova";
  password = [];
  uri = [];
  internal_uri = [];
  volume = [];
  admin_enabled = false;
  admin_url = [];
  public_enabled = false;
  remote_host = [];
  remote_uri = [];
  allowed_cidrs = codes "10.0" ∷ codes "::1" ∷ [];
}

abbrev with_store : NovaApp
with_store = record shop { database = some store }

store-IsAddress : All IsAddress store.allowed_cidrs
unfolding trim trim_start is_space
store-IsAddress = (
  (refl, (refl, (refl, (refl, (refl, tt)))), (refl, (refl, (refl, (refl, tt)))), refl),
  ((refl, (refl, (refl, (refl, tt))), (refl, (refl, (refl, tt))), refl), tt),
)
