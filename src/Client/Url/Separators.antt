-- ===== src/Client/Url/Separators.antt =====
-- What `encodeURIComponent` leaves out of its results.
use nova_server_manager.Common.{
  ℕ, ◌==◌, ◌≡◌, ◌⊎◌, ◌<◌, ◌≤◌, false, Text, List, [], ◌∷◌, Lacks, Lacks-append, arith,
  if◌then◌else◌, Bool-cases, inl, inr, ==_iff,
}
use nova_server_manager.Client.Url.{utf8, is_plain, hex_digit, percent, encode_uri}

-- A character that is none of those that stand for themselves, no hexadecimal digit and not `%`.
abbrev pub IsSeparator : ℕ → Type 0
IsSeparator c = (is_plain c ≡ false) × ((37 == c) ≡ false) × ((c < 48) ⊎ ((58 ≤ c) × (c < 65)))

hex_digit-other : (c d : ℕ) → IsSeparator c → (hex_digit d == c) ≡ false
unfolding hex_digit
hex_digit-other c d (_, _, inl small) = ground arith
hex_digit-other c d (_, _, inr (large, small)) = ground arith

percent-Lacks : (c : ℕ) (bs : List ℕ) → IsSeparator c → Lacks c (percent bs)
unfolding percent
percent-Lacks c [] h = tt
percent-Lacks c (b ∷ bs) h =
    (h.1, (hex_digit-other c _ h, (hex_digit-other c _ h, percent-Lacks c bs h)))

encoded-Lacks :
    (c x : ℕ) → IsSeparator c → Lacks c (if is_plain x then x ∷ [] else percent (utf8 x))
encoded-Lacks c x h = elim (Bool-cases (is_plain x)) [
  | inl stands ↦ rw stands (
    (elim (Bool-cases (x == c)) [
      | inl same ↦ let e : x ≡ c = (==_iff x c).0 same in cc (stands, h.0, e)
      | inr other ↦ other
    ]),
    tt,
  )
  | inr coded ↦ rw coded (percent-Lacks c (utf8 x) h)
]

pub encode_uri-Lacks : (c : ℕ) (t : Text) → IsSeparator c → Lacks c (encode_uri t)
unfolding encode_uri
encode_uri-Lacks c [] h = tt
encode_uri-Lacks c (x ∷ t) h =
    Lacks-append c _ (encode_uri t) (encoded-Lacks c x h) (encode_uri-Lacks c t h)
