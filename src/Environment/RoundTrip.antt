-- ===== src/Environment/RoundTrip.antt =====
-- The environment variables that the form shows are read back as they are.
use nova_server_manager.Common.{
  ◌≡◌, refl, ap, ◌∙◌, false, Text, codes, text_eq, text_eq_iff, Option, none, some, [], ◌∷◌, ◌++◌,
  map, is_empty, All, Lacks, Lacks-append, trim, split, join, split-join, index_of, arith,
}
use nova_server_manager.Types.{Entries}
use nova_server_manager.Environment.{
  print_entry, env_text, parse_line, set_entry, assign, add_lines, parse_environment, value_of,
}
use nova_server_manager.Environment.Parsing.{value_of-set_entry, parse_line-print_entry}

-- A name and a value that fit on a line: the name is not empty and has no `=`, neither has a line
-- end, nor white space at its ends, and the name is not the one that JavaScript treats apart.
abbrev pub IsClean : Text × Text → Type 0
IsClean (key, value) =
    (is_empty key ≡ false)
    × Lacks b'=' key
    × Lacks b'\n' key
    × Lacks b'\n' value
    × (trim key ≡ key)
    × (trim value ≡ value)
    × (text_eq key (codes "__proto__") ≡ false)

-- No key stands twice.
abbrev pub IsRecord : Entries → Type 0
IsRecord [] = Unit
IsRecord ((key, value) ∷ entries) = (value_of key entries ≡ none) × IsRecord entries

parse-print_entry :
    (key value : Text)
    → IsClean (key, value)
    → parse_line (print_entry (key, value)) ≡ some (key, value)
parse-print_entry [] value h = cc
parse-print_entry (c ∷ key) value (_, free, _, _, tk, tv, _) =
    parse_line-print_entry c key value free ∙ rw (tk, tv)

print_entry-Lacks : (e : Text × Text) → IsClean e → Lacks b'\n' (print_entry e)
unfolding print_entry
print_entry-Lacks (key, value) (_, _, hk, hv, _, _, _) =
    Lacks-append b'\n' key (codes "=" ++ value) hk (refl, hv)

lines-Lacks : (es : Entries) → All IsClean es → All (Lacks b'\n') (map print_entry es)
lines-Lacks [] h = tt
lines-Lacks (e ∷ es) (p, h) = (print_entry-Lacks e p, lines-Lacks es h)

assign-print_entry :
    (key value : Text) (found : Entries)
    → IsClean (key, value)
    → assign (parse_line (print_entry (key, value))) found ≡ set_entry key value found
unfolding assign
assign-print_entry key value found p =
    rw (parse-print_entry key value p) (let (_, _, _, _, _, _, plain) = p in rw plain)

abbrev pub or_else : Option Text → Option Text → Option Text
or_else none o = o
or_else (some v) o = some v

values_meet :
    (j key value : Text) (es found : Entries)
    → value_of key es ≡ none
    → or_else (value_of j es) (value_of j (set_entry key value found))
      ≡ or_else (value_of j ((key, value) ∷ es)) (value_of j found)
values_meet j key value es found fresh =
    rw (value_of-set_entry j key value found) (unfold value_of in ground (arith, text_eq_iff key j))

-- The values after the printed lines are read, where `found` was there before.
value_of-add_lines :
    (j : Text) (es found : Entries)
    → All IsClean es
    → IsRecord es
    → value_of j (add_lines found (map print_entry es)) ≡ or_else (value_of j es) (value_of j found)
unfolding add_lines
value_of-add_lines j [] found h r = unfold value_of in refl
value_of-add_lines j ((key, value) ∷ es) found (p, h) (fresh, r) =
    ap (λ env. value_of j (add_lines env (map print_entry es)))
      (assign-print_entry key value found p)
    ∙ (value_of-add_lines j es (set_entry key value found) h r
        ∙ values_meet j key value es found fresh)

pub or_else-none : (o : Option Text) → or_else o none ≡ o
or_else-none none = refl
or_else-none (some v) = refl

-- If no name stands twice, and each name is not empty, has no `=` and is not `__proto__`, and
-- neither a name nor a value has a line end, or white space at its ends, then the text that the
-- form shows is read back with the same value for every name.
pub parse_environment-env_text :
    (es : Entries) (j : Text)
    → All IsClean es
    → IsRecord es
    → value_of j (parse_environment (env_text (some es))) ≡ value_of j es
unfolding parse_environment env_text
parse_environment-env_text [] j h r = unfold join split add_lines parse_line index_of assign in refl
parse_environment-env_text (e ∷ es) j h r =
    rw (split-join b'\n' (print_entry e) (map print_entry es) (lines-Lacks (e ∷ es) h)) (
      value_of-add_lines j (e ∷ es) [] h r
      ∙ (unfold value_of in or_else-none (value_of j (e ∷ es))))
