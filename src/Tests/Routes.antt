-- ===== src/Tests/Routes.antt =====
-- Tests of the domains of the server and of the files of nginx.
use nova_server_manager.Common.{
  ℕ, zero, suc, ◌≡◌, refl, ap, true, false, not, ◌&&◌, ◌||◌, is_empty, text_eq, starts_with,
  ends_with, Text, codes, none, some, Option, List, [], ◌∷◌,
}
use nova_server_manager.Client.Request.{cname}
use nova_server_manager.Server.Rows.{AppRow, CommandResult}
use nova_server_manager.Server.Proxy.{
  proxying, Sites, Tools, has_file, unlink, put_file, config_name, legacy_name, globbed, desired,
  create_configs, dropped, retire, configure_valid,
}
use nova_server_manager.Server.Proxy.Routing.{configure_valid-routes, configure_valid-rolls_back}
use nova_server_manager.Server.Domains.{Host, app_domains}
use nova_server_manager.Server.Domains.Requests.{
  DomainRequest, sets, deletes, exclusive, serve_all, domains-Exclusive,
}

abbrev row : ℕ → Text → AppRow
row id name = record {
  id = id;
  name = name;
  app_type = "nodejs";
  status = "running";
  domain = [];
  domains_json = [];
  image = [];
  host_port = 18000;
  last_error = [];
  last_deployed_at = none;
  last_upload_name = [];
  last_upload_size = 0;
  last_upload_at = none;
  source_size = 0;
  source_files = 0;
}

-- A way to write lists of texts as texts, for `json`.
abbrev spell : Text → Text → Text
spell [] rest = 1 ∷ rest
spell (c ∷ s) rest = 2 ∷ c ∷ spell s rest

abbrev dumps : List Text → Text
dumps [] = 0 ∷ []
dumps (d ∷ ds) = spell d (dumps ds)

abbrev longer : ℕ → Option (List Text) → Option (List Text)
longer c none = none
longer c (some []) = none
longer c (some (d ∷ ds)) = some ((c ∷ d) ∷ ds)

abbrev begun_with : Option (List Text) → Option (List Text)
begun_with none = none
begun_with (some ds) = some ([] ∷ ds)

abbrev loads : Text → Option (List Text)
loads [] = none
loads (zero ∷ s) = some []
loads (suc zero ∷ s) = begun_with (loads s)
loads (suc (suc k) ∷ []) = none
loads (suc (suc k) ∷ c ∷ s) = longer c (loads s)

loads-spell :
    (d : Text) (ds : List Text)
    → loads (dumps ds) ≡ some ds
    → loads (spell d (dumps ds)) ≡ some (d ∷ ds)
loads-spell [] ds h = ap begun_with h
loads-spell (c ∷ d) ds h = ap (longer c) (loads-spell d ds h)

loads-dumps : (ds : List Text) → loads (dumps ds) ≡ some ds
loads-dumps [] = refl
loads-dumps (d ∷ ds) = loads-spell d ds (loads-dumps ds)

spell-full : (d s : Text) → is_empty (spell d s) ≡ false
spell-full [] s = refl
spell-full (c ∷ d) s = refl

dumps-full : (ds : List Text) → is_empty (dumps ds) ≡ false
dumps-full [] = refl
dumps-full (d ∷ ds) = spell-full d (dumps ds)

abbrev fine : CommandResult
fine = record { ok = true; stdout = []; stderr = []; returncode = 0 }

abbrev broken : CommandResult
broken = record { ok = false; stdout = []; stderr = codes "emerg"; returncode = 1 }

abbrev accepting : Tools
accepting = record {
  installed = true;
  check = fine;
  reload = fine;
  certbot = λ d. fine;
  has_certificate = λ d. true;
}

abbrev refusing : Tools
refusing = record {
  installed = true;
  check = broken;
  reload = fine;
  certbot = λ d. fine;
  has_certificate = λ d. true;
}

abbrev shop_row : AppRow
shop_row = row 12 (codes "shop")

-- Its name is the first one's with two hyphens and more.
abbrev branch_row : AppRow
branch_row = row 13 (codes "shop--x")

abbrev routed : Sites
routed = record {
  available =
      (codes "nova-shop--old.ir.conf", proxying (codes "old.ir") 18000)
      ∷ (codes "nova-shop--x--b.ir.conf", proxying (codes "b.ir") 18001)
      ∷ [];
  enabled = codes "nova-shop--old.ir.conf" ∷ codes "nova-shop--x--b.ir.conf" ∷ [];
}

abbrev host : Host
host = record {
  panel = record { apps = shop_row ∷ branch_row ∷ []; jobs = []; uploads = []; logs = [] };
  sites = routed;
}

abbrev wishes : List DomainRequest
wishes =
    sets accepting 12 (codes "new.ir") true cname
    ∷ sets accepting 13 (codes "new.ir") true cname
    ∷ deletes refusing 12 (codes "new.ir")
    ∷ []

domains-Exclusive_example :
    exclusive (λ t. t) loads dumps (serve_all (λ t. t) loads dumps wishes host) ≡ true
unfolding app_domains
domains-Exclusive_example =
    domains-Exclusive (λ t. t) loads dumps (λ t. refl) (λ t h. refl) loads-dumps dumps-full wishes
      host refl

configure_valid-routes_example :
    has_file
      (configure_valid accepting shop_row (codes "new.ir" ∷ []) false routed).1.available
      (codes "nova-shop--x--b.ir.conf")
    ≡ (desired shop_row (codes "new.ir" ∷ []) (codes "nova-shop--x--b.ir.conf")
        || has_file routed.available (codes "nova-shop--x--b.ir.conf")
          && not (text_eq (codes "nova-shop--x--b.ir.conf") (legacy_name shop_row))
          && not (globbed shop_row (codes "nova-shop--x--b.ir.conf")))
configure_valid-routes_example =
    configure_valid-routes (codes "nova-shop--x--b.ir.conf") accepting shop_row
      (codes "new.ir" ∷ []) false routed refl refl

-- The files of another application are removed.
neighbour_lost :
    has_file
      (configure_valid accepting shop_row (codes "new.ir" ∷ []) false routed).1.available
      (config_name branch_row (codes "b.ir"))
    ≡ false
unfolding configure_valid config_name legacy_name globbed create_configs dropped retire unlink
    put_file text_eq starts_with ends_with
neighbour_lost = refl

apart : text_eq (codes "nova-shop--old.ir.conf") (legacy_name shop_row) ≡ false
unfolding text_eq legacy_name
apart = refl

configure_valid-rolls_back_example :
    has_file
      (configure_valid refusing shop_row (codes "new.ir" ∷ []) false routed).1.available
      (codes "nova-shop--old.ir.conf")
    ≡ (has_file routed.available (codes "nova-shop--old.ir.conf")
        && (desired shop_row (codes "new.ir" ∷ []) (codes "nova-shop--old.ir.conf")
            || not (globbed shop_row (codes "nova-shop--old.ir.conf"))))
configure_valid-rolls_back_example =
    configure_valid-rolls_back (codes "nova-shop--old.ir.conf") refusing shop_row
      (codes "new.ir" ∷ []) false routed refl refl apart
