-- ===== src/Server/Proxy.antt =====
-- app/services/proxy_service.py: the files that route domains to applications. What nginx, systemctl
-- and certbot answer during one call, and which certificates are there, is a record of its arguments.
pub mod Routing
use nova_server_manager.Common.{
  ℕ, Bool, true, false, not, ◌&&◌, ◌||◌, ◌==◌, leb, ltb, Text, codes, text_eq, starts_with,
  ends_with, split, join, includes, is_empty, length, Option, none, some, List, [], ◌∷◌, ◌++◌, map,
  keep, any, all, find_first, reverse, if◌then◌else◌,
}
use nova_server_manager.Server.Rows.{AppRow, CommandResult}
use nova_server_manager.Server.Python.{strip, rstrip}

-- `[a-z]` and `[a-z0-9]`
abbrev pub is_letter : ℕ → Bool
is_letter c = leb 97 c && leb c 122

abbrev pub is_alnum : ℕ → Bool
is_alnum c = is_letter c || leb 48 c && leb c 57

abbrev pub first_is : (ℕ → Bool) → Text → Bool
first_is p [] = false
first_is p (c ∷ s) = p c

-- `[a-z0-9](?:[a-z0-9-]{0,61}[a-z0-9])?`
abbrev pub is_label : Text → Bool
is_label s =
    first_is is_alnum s
    && first_is is_alnum (reverse s)
    && all (λ c. is_alnum c || c == 45) s
    && leb (length s) 63

-- `[a-z]{2,63}`
abbrev pub is_top : Text → Bool
is_top s = all is_letter s && leb 2 (length s) && leb (length s) 63

-- Labels, at least one, and the top-level domain.
abbrev pub is_path : List Text → Bool
is_path [] = false
is_path (top ∷ []) = false
is_path (label ∷ (top ∷ [])) = is_label label && is_top top
is_path (label ∷ (next ∷ (more ∷ rest))) = is_label label && is_path (next ∷ (more ∷ rest))

-- `list(dict.fromkeys(items))`
unfoldable pub unique : List Text → List Text
unfolding text_eq
unique [] = []
unique (x ∷ xs) = x ∷ keep (λ y. not (text_eq x y)) (unique xs)

-- A file of `sites-available`: one that `_config` writes, or any other.
pub data Content : Type 0 where
  proxying : (domain : Text) (host_port : ℕ) → Content
  other : Text → Content

-- The files of `sites-available` and the links of `sites-enabled`, by their names.
pub record Sites : Type 0 where
  pub available : List (Text × Content)
  pub enabled : List Text

-- What one call of `configure_domains` finds and is answered.
pub record Tools : Type 0 where
  pub installed : Bool
  pub check : CommandResult
  pub reload : CommandResult
  pub certbot : Text → CommandResult
  pub has_certificate : Text → Bool

abbrev pub has_file : List (Text × Content) → Text → Bool
has_file files name = any (λ f. text_eq f.0 name) files

abbrev pub content_of : List (Text × Content) → Text → Option Content
content_of files name = elim (find_first (λ f. text_eq f.0 name) files) [
  | none ↦ none
  | some f ↦ some f.1
]

-- `unlink(missing_ok=True)` of a file and of its link.
unfoldable pub unlink : Text → Sites → Sites
unlink name s = record {
  available = keep (λ f. not (text_eq f.0 name)) s.available;
  enabled = keep (λ n. not (text_eq n name)) s.enabled;
}

-- A file is written in place of any other of its name, and is linked unless a link is there.
unfoldable pub put_file : Text → Content → Sites → Sites
put_file name content s = record {
  available = (name, content) ∷ keep (λ f. not (text_eq f.0 name)) s.available;
  enabled = if includes s.enabled name then s.enabled else name ∷ s.enabled;
}

unfoldable pub config_name : AppRow → Text → Text
config_name app domain = codes "nova-" ++ app.name ++ codes "--" ++ domain ++ codes ".conf"

unfoldable pub legacy_name : AppRow → Text
legacy_name app = codes "nova-" ++ app.name ++ codes ".conf"

-- `NGINX_AVAILABLE.glob(f"nova-{app.name}--*.conf")`
unfoldable pub globbed : AppRow → Text → Bool
unfolding starts_with ends_with
globbed app name =
    starts_with name (codes "nova-" ++ app.name ++ codes "--") && ends_with name (codes ".conf")

abbrev pub desired : AppRow → List Text → Text → Bool
desired app domains name = any (λ d. text_eq (config_name app d) name) domains

-- The first loop, which returns the domains of the files that it makes.
unfoldable pub create_configs : AppRow → List Text → Sites → List Text × Sites
create_configs app [] s = ([], s)
create_configs app (d ∷ ds) s =
    let (made, after) = create_configs app ds (
      if has_file s.available (config_name app d)
      then s
      else put_file (config_name app d) (proxying d app.host_port) s) in
    (if has_file s.available (config_name app d) then made else d ∷ made, after)

-- What the second loop unlinks.
unfoldable pub dropped : AppRow → List Text → Text → Bool
dropped app domains name = globbed app name && not (desired app domains name)

unfoldable pub retire : AppRow → List Text → Sites → Sites
retire app domains s = record {
  available = keep (λ f. not (dropped app domains f.0)) s.available;
  enabled = keep (λ n. not (dropped app domains n && has_file s.available n)) s.enabled;
}

abbrev pub unlink_all : AppRow → List Text → Sites → Sites
unlink_all app [] s = s
unlink_all app (d ∷ ds) s = unlink_all app ds (unlink (config_name app d) s)

-- What follows when `nginx -t` fails.
unfoldable pub roll_back : AppRow → List Text → Option Content → Sites → Sites
roll_back app made legacy s = elim legacy [
  | none ↦ unlink_all app made s
  | some content ↦ put_file (legacy_name app) content (unlink_all app made s)
]

abbrev pub ok_result : List Text → Text → CommandResult
ok_result output warning = record {
  ok = true;
  stdout = join (10 ∷ []) output;
  stderr = warning;
  returncode = 0;
}

-- The loop that asks for certificates.
unfoldable pub certify : Tools → List Text → (output : List Text) → CommandResult
unfolding join
certify tools [] output = ok_result output []
certify tools (d ∷ ds) output =
    let told = output ++ ((tools.certbot d).stdout ++ (tools.certbot d).stderr) ∷ [] in
    let rest = certify tools ds told in
    if (tools.certbot d).ok
    then rest
    else ok_result told
        (codes "HTTPS activation failed for " ++ d ++ codes ". HTTP routing is active.")

-- From the reload on.
unfoldable pub secure : Tools → (domains made : List Text) → (enable_ssl : Bool) → CommandResult
unfolding certify text_eq
secure tools domains made enable_ssl =
    if not tools.reload.ok || not enable_ssl
    then tools.reload
    else certify tools (keep (λ d. includes made d || not (tools.has_certificate d)) domains) []

abbrev pub not_installed : CommandResult
not_installed = record {
  ok = false;
  stdout = [];
  stderr = codes "Nginx " ++ (1606 ∷ 1589 ∷ 1576 ∷ 32 ∷ 1606 ∷ 1740 ∷ 1587 ∷ 1578 ∷ []);
  returncode = 127;
}

-- `configure_domains` for domains that are valid.
unfoldable pub configure_valid :
    Tools → AppRow → List Text → (enable_ssl : Bool) → Sites → CommandResult × Sites
configure_valid tools app domains enable_ssl s =
    if not tools.installed
    then (not_installed, s)
    else let legacy = content_of s.available (legacy_name app) in
      let (made, filled) = create_configs app domains (unlink (legacy_name app) s) in
      let left = retire app domains filled in
      if not tools.check.ok
      then (tools.check, roll_back app made legacy left)
      else (secure tools domains made enable_ssl, left)

module _ (lower : Text → Text) where
  -- `validate_domain`, where `none` is a `ValueError`.
  unfoldable pub validate_domain : Text → Option Text
  unfolding strip split
  validate_domain domain =
      let name = rstrip (λ c. c == 46) (strip (lower domain)) in
      if is_path (split 46 name) then some name else none

  unfoldable pub validate_all : List Text → Option (List Text)
  unfolding validate_domain
  validate_all [] = some []
  validate_all (d ∷ ds) = elim (validate_domain d) [
    | none ↦ none
    | some valid ↦ elim (validate_all ds) [ none ↦ none | some rest ↦ some (valid ∷ rest) ]
  ]

  unfoldable pub configure_domains :
      Tools → AppRow → List Text → (enable_ssl : Bool) → Sites → Option (CommandResult × Sites)
  configure_domains tools app domains enable_ssl s = elim (validate_all domains) [
    | none ↦ none
    | some valid ↦ some (configure_valid tools app (unique valid) enable_ssl s)
  ]
