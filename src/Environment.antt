-- ===== src/Environment.antt =====
-- The environment variables of an application as the text of a form: `envText` and the parser in
-- `save` of `SettingsTab` (frontend/src/views/app-detail-view.tsx), and the same parser in `create` of
-- `CreateAppModal` (frontend/src/views/apps-view.tsx). A record of strings is a list of entries with
-- distinct keys; that JavaScript lists keys which are array indices first is left out.
pub mod Parsing
pub mod RoundTrip
pub mod Lookup
use nova_server_manager.Common.{
  ℕ, zero, suc, Bool, Text, codes, text_eq, Option, none, some, List, [], ◌∷◌, ◌++◌, map, take,
  drop, split, join, index_of, trim, if◌then◌else◌,
}
use nova_server_manager.Types.{Entries}

-- `` `${key}=${value}` ``
unfoldable pub print_entry : Text × Text → Text
print_entry (key, value) = key ++ (codes "=" ++ value)

-- `Object.entries(app.environment || {}).map(…).join("\n")`
unfoldable pub env_text : Option Entries → Text
unfolding print_entry
env_text none = []
env_text (some entries) = join (codes "\n") (map print_entry entries)

-- What a line assigns: nothing if `=` is not in it or stands first.
entry_at : Text → Option ℕ → Option (Text × Text)
entry_at line none = none
entry_at line (some zero) = none
entry_at line (some (suc i)) = some (trim (take (suc i) line), trim (drop (suc (suc i)) line))

unfoldable pub parse_line : Text → Option (Text × Text)
unfolding entry_at
parse_line line = entry_at line (index_of b'=' line)

-- `environment[key] = value`. To assign a string to `__proto__` does nothing.
unfoldable pub set_entry : Text → Text → Entries → Entries
set_entry key value [] = (key, value) ∷ []
set_entry key value ((k, v) ∷ entries) =
    let later = (k, v) ∷ set_entry key value entries in
    if text_eq k key then (key, value) ∷ entries else later

unfoldable pub assign : Option (Text × Text) → Entries → Entries
unfolding set_entry
assign none environment = environment
assign (some (key, value)) environment =
    if text_eq key (codes "__proto__") then environment else set_entry key value environment

-- `.forEach((line) => …)` over the lines.
unfoldable pub add_lines : Entries → List Text → Entries
add_lines environment [] = environment
add_lines environment (line ∷ lines) = add_lines (assign (parse_line line) environment) lines

unfoldable pub parse_environment : Text → Entries
unfolding add_lines
parse_environment text = add_lines [] (split b'\n' text)

-- `environment[key]`
unfoldable pub value_of : Text → Entries → Option Text
value_of key [] = none
value_of key ((k, v) ∷ entries) = if text_eq k key then some v else value_of key entries
