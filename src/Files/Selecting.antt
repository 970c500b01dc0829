-- ===== src/Files/Selecting.antt =====
-- Selecting files in `SourceTab`.
use nova_server_manager.Common.{
  ◌≡◌, false, not, ◌||◌, Text, text_eq, text_eq_iff, includes, List, [], ◌∷◌, ◌++◌, keep, arith,
  if◌then◌else◌, Bool-cases, inl, inr, ◌∙◌,
}
use nova_server_manager.Files.{toggle_path}

includes-append :
    (x y : Text) (xs : List Text) → includes (xs ++ x ∷ []) y ≡ (includes xs y || text_eq y x)
includes-append x y [] = ground arith
includes-append x y (z ∷ xs) = ground (arith, includes-append x y xs)

includes-without :
    (x y : Text) (xs : List Text)
    → includes (keep (λ value. not (text_eq value x)) xs) y
      ≡ (if text_eq y x then false else includes xs y)
includes-without x y [] = ground arith
includes-without x y (z ∷ xs) =
    ground (arith, includes-without x y xs, text_eq_iff z x, text_eq_iff y z, text_eq_iff y x)

-- Toggling a path changes whether it is selected, and of no other path.
includes-toggle_path :
    (x y : Text) (xs : List Text)
    → includes (toggle_path x xs) y ≡ (if text_eq y x then not (includes xs x) else includes xs y)
unfolding toggle_path
includes-toggle_path x y xs = elim (Bool-cases (includes xs x)) [
  | inl old ↦ rw old (includes-without x y xs ∙ ground (arith, text_eq_iff y x))
  | inr new ↦ rw new (includes-append x y xs ∙ ground (arith, text_eq_iff y x))
]
