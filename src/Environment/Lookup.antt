-- ===== src/Environment/Lookup.antt =====
-- The parser of environment variables against an independent reading of its text.
use nova_server_manager.Common.{
  ℕ, zero, suc, ◌==◌, take, drop, index_of, trim, ◌≡◌, refl, ap, ◌∙◌, false, Text, codes, text_eq,
  text_eq_iff, Option, none, some, List, [], ◌∷◌, split, arith, if◌then◌else◌, Bool-cases, inl, inr,
}
use mathlib.Core.Path.{sym}
use nova_server_manager.Types.{Entries}
use nova_server_manager.Environment.{
  entry_at, parse_line, assign, add_lines, parse_environment, value_of,
}
use nova_server_manager.Environment.Parsing.{value_of-set_entry}
use nova_server_manager.Environment.RoundTrip.{or_else, or_else-none}

-- What stands before the first `=` of a line, and what stands behind it.
abbrev pub halves : Text → Option (Text × Text)
halves [] = none
halves (c ∷ line) =
    let rest = halves line in
    if c == b'='
    then some ([], line)
    else elim rest [ none ↦ none | some (before, behind) ↦ some (c ∷ before, behind) ]

-- A line assigns if something stands before its first `=`: what stands there without white space at
-- its ends, and the same of all that stands behind.
abbrev pub assigned : Option (Text × Text) → Option (Text × Text)
assigned none = none
assigned (some ([], behind)) = none
assigned (some (c ∷ before, behind)) = some (trim (c ∷ before), trim behind)

-- What a line says of a name.
abbrev pub said : Text → Option (Text × Text) → Option Text
said j none = none
said j (some (key, value)) = if text_eq key j then some value else none

-- What the last line that assigns to a name says of it.
abbrev pub last_said : Text → List Text → Option Text
last_said j [] = none
last_said j (line ∷ lines) = or_else (last_said j lines) (said j (assigned (halves line)))

abbrev halves_at : Text → Option ℕ → Option (Text × Text)
halves_at line none = none
halves_at line (some i) = some (take i line, drop (suc i) line)

halves_at-cons :
    (c : ℕ) (line : Text) (i : Option ℕ)
    → (elim (halves_at line i) [ none ↦ none | some (before, behind) ↦ some (c ∷ before, behind) ])
      ≡ halves_at (c ∷ line) (elim i [ none ↦ none | some n ↦ some (suc n) ])
halves_at-cons c line none = refl
halves_at-cons c line (some n) = refl

halves-index_of : (line : Text) → halves line ≡ halves_at line (index_of b'=' line)
unfolding index_of
halves-index_of [] = refl
halves-index_of (c ∷ line) = elim (Bool-cases (c == b'=')) [
  | inl at ↦ rw at refl
  | inr other ↦ rw (other, halves-index_of line) (halves_at-cons c line (index_of b'=' line))
]

assigned-halves_at :
    (c : ℕ) (line : Text) (i : Option ℕ) → assigned (halves_at (c ∷ line) i) ≡ entry_at (c ∷ line) i
unfolding entry_at
assigned-halves_at c line none = refl
assigned-halves_at c line (some zero) = refl
assigned-halves_at c line (some (suc n)) = refl

-- The parser reads a line as the two halves say.
parse_line-halves : (line : Text) → parse_line line ≡ assigned (halves line)
unfolding parse_line
parse_line-halves [] = unfold index_of in unfold entry_at in refl
parse_line-halves (c ∷ line) =
    sym (assigned-halves_at c line (index_of b'=' (c ∷ line)))
    ∙ ap assigned (sym (halves-index_of (c ∷ line)))

or_else_assoc : (a b c : Option Text) → or_else a (or_else b c) ≡ or_else (or_else a b) c
or_else_assoc none b c = refl
or_else_assoc (some v) b c = refl

value_of-assign :
    (j : Text) (found : Entries) (entry : Option (Text × Text))
    → text_eq j (codes "__proto__") ≡ false
    → value_of j (assign entry found) ≡ or_else (said j entry) (value_of j found)
unfolding assign
value_of-assign j found none plain = refl
value_of-assign j found (some (key, value)) plain =
    elim (Bool-cases (text_eq key (codes "__proto__"))) [
      | inl proto ↦ elim (Bool-cases (text_eq key j)) [
        | inl same ↦ let e : key ≡ j = (text_eq_iff key j).0 same in cc (proto, plain, e)
        | inr no_match ↦ rw (proto, no_match) refl
      ]
      | inr other ↦ rw other (value_of-set_entry j key value found ∙ ground arith)
    ]

value_of-add_lines :
    (j : Text) (lines : List Text) (found : Entries)
    → text_eq j (codes "__proto__") ≡ false
    → value_of j (add_lines found lines) ≡ or_else (last_said j lines) (value_of j found)
unfolding add_lines
value_of-add_lines j [] found plain = refl
value_of-add_lines j (line ∷ lines) found plain =
    value_of-add_lines j lines (assign (parse_line line) found) plain
    ∙ ap (or_else (last_said j lines)) (value_of-assign j found (parse_line line) plain)
    ∙ or_else_assoc (last_said j lines) (said j (parse_line line)) (value_of j found)
    ∙ ap (λ o. or_else (or_else (last_said j lines) (said j o)) (value_of j found))
        (parse_line-halves line)

-- Except for the name that JavaScript treats apart, the value that the parser gives a name is what
-- the last line of the text that assigns to the name says, and it gives none if no line does. A line
-- assigns if something stands before its first `=`: to that name the text behind that `=`, with its
-- later ones, both without the white space at their ends.
pub parse_environment-last_said :
    (text j : Text)
    → text_eq j (codes "__proto__") ≡ false
    → value_of j (parse_environment text) ≡ last_said j (split b'\n' text)
unfolding parse_environment
parse_environment-last_said text j plain =
    value_of-add_lines j (split b'\n' text) [] plain
    ∙ (unfold value_of in or_else-none (last_said j (split b'\n' text)))
