-- ===== src/Client/Url.antt =====
-- `encodeURIComponent` of ECMAScript, which the client puts paths and domains through.
pub mod Separators
use nova_server_manager.Common.{
  ℕ, ◌+◌, ◌/◌, ◌%◌, Bool, ◌&&◌, ◌||◌, Text, List, [], ◌∷◌, ◌++◌, leb, ltb, ◌==◌, if◌then◌else◌,
}

-- The bytes of a code point in UTF-8.
unfoldable pub utf8 : ℕ → List ℕ
utf8 c =
    if ltb c 128
    then c ∷ []
    else if ltb c 2048
    then (192 + c / 64) ∷ (128 + c % 64) ∷ []
    else if ltb c 65536
    then (224 + c / 4096) ∷ (128 + c / 64 % 64) ∷ (128 + c % 64) ∷ []
    else (240 + c / 262144) ∷ (128 + c / 4096 % 64) ∷ (128 + c / 64 % 64) ∷ (128 + c % 64) ∷ []

-- The letters, the digits and `- _ . ! ~ * ' ( )`.
unfoldable pub is_plain : ℕ → Bool
is_plain c =
    leb 97 c && leb c 122
    || leb 65 c && leb c 90
    || leb 48 c && leb c 57
    || leb 39 c && leb c 42
    || c == 45
    || c == 46
    || c == 95
    || c == 33
    || c == 126

hex_digit : ℕ → ℕ
hex_digit d = if ltb d 10 then 48 + d else 55 + d

unfoldable pub percent : List ℕ → Text
unfolding hex_digit
percent [] = []
percent (b ∷ bs) = 37 ∷ hex_digit (b / 16) ∷ hex_digit (b % 16) ∷ percent bs

unfoldable pub encode_uri : Text → Text
unfolding percent utf8 is_plain
encode_uri [] = []
encode_uri (c ∷ s) = (if is_plain c then c ∷ [] else percent (utf8 c)) ++ encode_uri s
