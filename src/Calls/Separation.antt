-- ===== src/Calls/Separation.antt =====
-- The addresses of calls that carry what a user names, cut at the characters that structure an address.
use mathlib.Core.List.{append_assoc}
use nova_server_manager.Common.{
  any, ℕ, zero, suc, ◌+◌, ◌%◌, ◌/◌, ◌==◌, ◌≡◌, ◌⊎◌, ◌<◌, ◌≤◌, refl, ap, ap₂, ◌∙◌, sym, false, Text,
  codes, decimal, digits_from, Option, none, some, List, [], ◌∷◌, ◌++◌, map, split, split-append,
  split_lacking, split-join, join, Lacks, Lacks-append, Bool-cases, inl, inr, arith,
}
use nova_server_manager.Client.Request.{
  Request, list_files, read_file, delete_file, upload_file, remove_domain,
}
use nova_server_manager.Client.Url.{is_plain, encode_uri}
use nova_server_manager.Client.Url.Separators.{IsSeparator, encode_uri-Lacks}
use nova_server_manager.Calls.Shape.{at_app}
use nova_server_manager.Calls.Start.{home_calls, sign_in_calls, creation_calls}
use nova_server_manager.Calls.Tabs.{
  access_calls, console_calls, domain_calls, settings_calls, page_calls,
}
use nova_server_manager.Calls.Operations.{dialog_calls, backup_calls, power_calls}
use nova_server_manager.Calls.Files.{query, asking, file_calls}
use nova_server_manager.Calls.{calls}

-- No digit is the character.
abbrev IsNoDigit : ℕ → Type 0
IsNoDigit c = (c < 48) ⊎ (58 ≤ c)

digit-other : (c n : ℕ) → IsNoDigit c → ((n % 10 + 48) == c) ≡ false
digit-other c n (inl small) = ground arith
digit-other c n (inr large) = ground arith

digits_from-Lacks :
    (c : ℕ)
    → IsNoDigit c
    → (fuel n : ℕ) (acc : Text) → Lacks c acc
    → Lacks c (digits_from fuel n acc)
unfolding digits_from
digits_from-Lacks c h zero n acc k = k
digits_from-Lacks c h (suc fuel) n acc k =
    let last : Lacks c ((n % 10 + 48) ∷ acc) = (digit-other c n h, k) in
    elim (Bool-cases (n / 10 == 0)) [
      | inl ends ↦ rw ends last
      | inr goes_on ↦ rw goes_on (digits_from-Lacks c h fuel (n / 10) ((n % 10 + 48) ∷ acc) last)
    ]

decimal-Lacks : (c n : ℕ) → IsNoDigit c → Lacks c (decimal n)
unfolding decimal
decimal-Lacks c n h = digits_from-Lacks c h (suc n) n [] tt

-- A text is tested for a character.
Lacks-any : (c : ℕ) (s : Text) → any (λ x. x == c) s ≡ false → Lacks c s
Lacks-any c [] h = tt
Lacks-any c (x ∷ s) h = (ground arith, Lacks-any c s (ground arith))

question_mark : IsSeparator b'?'
unfolding is_plain
question_mark = (refl, refl, inr (omega arith, omega arith))

ampersand : IsSeparator b'&'
unfolding is_plain
ampersand = (refl, refl, inl (omega arith))

equals_sign : IsSeparator b'='
unfolding is_plain
equals_sign = (refl, refl, inr (omega arith, omega arith))

hash_sign : IsSeparator b'#'
unfolding is_plain
hash_sign = (refl, refl, inl (omega arith))

slash : IsSeparator b'/'
unfolding is_plain
slash = (refl, refl, inl (omega arith))

query-Lacks :
    (c : ℕ) (p : Text)
    → any (λ x. x == c) (codes "path=") ≡ false
    → IsSeparator c
    → Lacks c (query p)
query-Lacks c p h separates =
    Lacks-append c (codes "path=") (encode_uri p) (Lacks-any c (codes "path=") h)
      (encode_uri-Lacks c p separates)

asking-parts :
    (app_id : ℕ) (place p : Text)
    → Lacks b'?' place
    → split b'?' (asking app_id place p) ≡ at_app app_id place ∷ query p ∷ []
asking-parts app_id place p k =
    let front : Lacks b'?' (at_app app_id place) =
      Lacks-append b'?' (codes "/api/apps/") (decimal app_id ++ place)
        (Lacks-any b'?' (codes "/api/apps/") refl)
        (Lacks-append b'?' (decimal app_id) place (decimal-Lacks b'?' app_id (inr (omega arith)))
          k) in
    ap (λ (rest : Text). split b'?' (codes "/api/apps/" ++ rest))
      (sym (append_assoc (decimal app_id) place (b'?' ∷ query p)))
    ∙ split-append b'?' (at_app app_id place) (query p)
    ∙ ap₂ ◌++◌ (split_lacking b'?' (at_app app_id place) front)
        (split_lacking b'?' (query p) (query-Lacks b'?' p refl question_mark))

-- A query is one parameter, whose name is "path" and whose value is the encoded path.
abbrev pub IsParameter : Text → Type 0
IsParameter p =
    (split b'&' (query p) ≡ query p ∷ [])
    × (split b'=' (query p) ≡ codes "path" ∷ encode_uri p ∷ [])
    × Lacks b'#' (query p)

query-IsParameter : (p : Text) → IsParameter p
query-IsParameter p = (
  split_lacking b'&' (query p) (query-Lacks b'&' p refl ampersand),
  split-append b'=' (codes "path") (encode_uri p)
      ∙ ap₂ ◌++◌ (split_lacking b'=' (codes "path") (Lacks-any b'=' (codes "path") refl))
          (split_lacking b'=' (encode_uri p) (encode_uri-Lacks b'=' p equals_sign)),
  query-Lacks b'#' p refl hash_sign,
)

-- The requests whose address carries a path, with what stands before it.
abbrev pub place_of : Request → Option (ℕ × Text × Text)
place_of (list_files app_id path) = some (app_id, codes "/files", path)
place_of (read_file app_id path) = some (app_id, codes "/files/content", path)
place_of (delete_file app_id path) = some (app_id, codes "/files", path)
place_of (upload_file app_id path file) = some (app_id, codes "/files/upload", path)
place_of _ = none

-- An address in two parts around its question mark.
abbrev halves : Option (ℕ × Text × Text) → List (List Text)
halves none = []
halves (some (app_id, place, p)) = (at_app app_id place ∷ query p ∷ []) ∷ []

-- The addresses of the calls of a request, each cut at its question marks.
abbrev pub cut_calls : Request → List (List Text)
cut_calls q = map (λ call. split b'?' call.url) (calls q)

one_call :
    (app_id : ℕ) (place p : Text)
    → any (λ x. x == b'?') place ≡ false
    → split b'?' (asking app_id place p) ∷ [] ≡ halves (some (app_id, place, p))
one_call app_id place p h =
    ap (λ (parts : List Text). parts ∷ []) (asking-parts app_id place p (Lacks-any b'?' place h))

cut_calls-halves :
    (q : Request) (w : ℕ × Text × Text) → place_of q ≡ some w → cut_calls q ≡ halves (place_of q)
unfolding home_calls sign_in_calls creation_calls access_calls console_calls domain_calls
    settings_calls page_calls file_calls dialog_calls backup_calls power_calls
cut_calls-halves (list_files app_id path) w e = one_call app_id (codes "/files") path refl
cut_calls-halves (read_file app_id path) w e = one_call app_id (codes "/files/content") path refl
cut_calls-halves (delete_file app_id path) w e = one_call app_id (codes "/files") path refl
cut_calls-halves (upload_file app_id path file) w e =
    one_call app_id (codes "/files/upload") path refl
cut_calls-halves _ w e = cc

-- If the address of a request carries a path, then there is one call, whose address has one question
-- mark; in front of it stand the application and the place, and behind it one parameter, with no
-- fragment, whose name is "path" and whose value is the encoded path, whatever the path is.
pub calls-IsParameter :
    (q : Request) (app_id : ℕ) (place p : Text)
    → place_of q ≡ some (app_id, place, p)
    → (cut_calls q ≡ (at_app app_id place ∷ query p ∷ []) ∷ []) × IsParameter p
calls-IsParameter q app_id place p e =
    (cut_calls-halves q (app_id, place, p) e ∙ ap halves e, query-IsParameter p)

-- The address that removes a domain has six parts between its slashes, of which the last is the encoded
-- domain, whatever the domain is.
remove_domain-parts :
    (app_id : ℕ) (domain : Text)
    → map (λ call. split b'/' call.url) (calls (remove_domain app_id domain))
      ≡ ([] ∷ codes "api" ∷ codes "apps" ∷ decimal app_id ∷ codes "domain" ∷ encode_uri domain ∷ [])
        ∷ []
unfolding home_calls sign_in_calls creation_calls access_calls console_calls domain_calls
    settings_calls page_calls file_calls dialog_calls backup_calls power_calls join
remove_domain-parts app_id domain =
    ap (λ (parts : List Text). parts ∷ [])
      (split-join b'/' []
        (codes "api" ∷ codes "apps" ∷ decimal app_id ∷ codes "domain" ∷ encode_uri domain ∷ [])
        (
          tt,
          (
            Lacks-any b'/' (codes "api") refl,
            (
              Lacks-any b'/' (codes "apps") refl,
              (
                decimal-Lacks b'/' app_id (inl (omega arith)),
                (Lacks-any b'/' (codes "domain") refl, (encode_uri-Lacks b'/' domain slash, tt)),
              ),
            ),
          ),
        ))
