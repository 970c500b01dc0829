-- ===== src/Tests/Forms.antt =====
-- Tests of the forms: the environment variables, the upload of a ZIP file, a new application and the
-- filters of the list.
use mathlib.Core.List.{Perm}
use nova_server_manager.Common.{
  ◌≡◌, refl, codes, All, trim, trim_start, is_space, text_eq, some, [], ◌∷◌, keep,
}
use nova_server_manager.Types.{Entries}
use nova_server_manager.Environment.{parse_environment, env_text, value_of}
use nova_server_manager.Environment.RoundTrip.{IsClean, IsRecord, parse_environment-env_text}
use nova_server_manager.AppsView.{no_filters, matches, filtered}
use nova_server_manager.AppsView.Filtering.{IsOrdered, filtered-IsOrdered}
use nova_server_manager.AppsView.Creation.{Creation, AppForm, source, initial}
use nova_server_manager.Tests.{lower, collate, collate-IsPreorder, shop, archive}

abbrev pub variables : Entries
variables = (codes "ENV", codes "dev") ∷ (codes "KEY", codes "a=b") ∷ []

pub variables-IsClean : All IsClean variables
unfolding trim trim_start text_eq is_space
variables-IsClean = (
  (
    refl,
    (refl, (refl, (refl, tt))),
    (refl, (refl, (refl, tt))),
    (refl, (refl, (refl, tt))),
    refl,
    refl,
    refl,
  ),
  (
    (
      refl,
      (refl, (refl, (refl, tt))),
      (refl, (refl, (refl, tt))),
      (refl, (refl, (refl, tt))),
      refl,
      refl,
      refl,
    ),
    tt,
  ),
)

pub variables-IsRecord : IsRecord variables
unfolding value_of text_eq
variables-IsRecord = (refl, (refl, tt))

parse_environment-env_text_example :
    value_of (codes "KEY") (parse_environment (env_text (some variables)))
    ≡ value_of (codes "KEY") variables
parse_environment-env_text_example =
    parse_environment-env_text variables (codes "KEY") variables-IsClean variables-IsRecord

abbrev form : AppForm
form = record {
  name = codes "shop";
  display_name = codes "Shop";
  app_type = codes "nodejs";
  internal_port = 3000;
  start_command = [];
  image = [];
  environment = codes "NODE_ENV=production";
}

abbrev made : Creation
made = record initial { created = some shop; step = source; file = some archive }

filtered-IsOrdered_example :
    Perm
      (filtered lower collate (λ d. 0) no_filters (shop ∷ shop ∷ []))
      (keep (matches lower collate (λ d. 0) no_filters) (shop ∷ shop ∷ []))
    × IsOrdered collate
        (λ d. 0)
        no_filters.sort
        (filtered lower collate (λ d. 0) no_filters (shop ∷ shop ∷ []))
filtered-IsOrdered_example =
    filtered-IsOrdered lower collate (λ d. 0) collate-IsPreorder no_filters (shop ∷ shop ∷ [])
