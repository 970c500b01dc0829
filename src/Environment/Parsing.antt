-- ===== src/Environment/Parsing.antt =====
-- What the parser of environment variables makes of any text.
use nova_server_manager.Common.{
  ℕ, suc, ◌≡◌, refl, ap, Text, text_eq, text_eq_iff, some, [], ◌∷◌, ◌++◌, take, drop, length,
  index_of, trim, Lacks, arith, if◌then◌else◌,
}
use nova_server_manager.Types.{Entries}
use nova_server_manager.Environment.{print_entry, parse_line, set_entry, value_of}

-- A later assignment to a key hides the earlier one and touches no other key.
pub value_of-set_entry :
    (j key value : Text) (entries : Entries)
    → value_of j (set_entry key value entries)
      ≡ (if text_eq key j then some value else value_of j entries)
unfolding value_of set_entry
value_of-set_entry j key value [] = refl
value_of-set_entry j key value ((k, v) ∷ entries) = ground (
  arith,
  value_of-set_entry j key value entries,
  text_eq_iff k key,
  text_eq_iff k j,
  text_eq_iff key j,
)

index_of-append : (c : ℕ) (s t : Text) → Lacks c s → index_of c (s ++ c ∷ t) ≡ some (length s)
unfolding index_of
index_of-append c [] t h = ground arith
index_of-append c (x ∷ s) t (other, h) = rw (other, index_of-append c s t h)

take-append : (s t : Text) → take (length s) (s ++ t) ≡ s
take-append [] t = refl
take-append (x ∷ s) t = ap (◌∷◌ x) (take-append s t)

drop-append : (c : ℕ) (s t : Text) → drop (suc (length s)) (s ++ c ∷ t) ≡ t
drop-append c [] t = refl
drop-append c (x ∷ s) t = drop-append c s t

-- A line that was printed is read as the entry that it was printed for.
pub parse_line-print_entry :
    (c : ℕ) (key value : Text)
    → Lacks b'=' (c ∷ key)
    → parse_line (print_entry (c ∷ key, value)) ≡ some (trim (c ∷ key), trim value)
unfolding parse_line print_entry
parse_line-print_entry c key value h =
    rw (index_of-append b'=' (c ∷ key) value h, take-append key, drop-append b'=' key value)
