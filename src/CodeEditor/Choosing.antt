-- ===== src/CodeEditor/Choosing.antt =====
-- The language depends on what follows the last dot of the path only.
use nova_server_manager.Common.{
  Text, split, split-append, split_lacking, Lacks, List, [], ◌∷◌, ◌++◌, some, ◌≡◌, refl, ◌∙◌, ap,
}
use nova_server_manager.CodeEditor.{
  lowered, pop_last, extension, language_for, language_of, or_empty,
}

pop_last-append : {A : Type 0} (xs : List A) (y : A) → pop_last (xs ++ y ∷ []) ≡ some y
pop_last-append [] y = refl
pop_last-append (x ∷ []) y = refl
pop_last-append (x ∷ z ∷ xs) y = pop_last-append (z ∷ xs) y

-- The language of a path with a dot is decided by the text after its last dot.
language_for-append :
    (lower : Text → Text) (stem suffix : Text) (lacks : Lacks 46 suffix)
    → language_for lower (stem ++ 46 ∷ suffix) ≡ language_of (lower suffix)
unfolding language_for extension
language_for-append lower stem suffix lacks =
    ap (λ parts. language_of (or_empty (lowered lower (pop_last parts))))
      (split-append 46 stem suffix ∙ ap (◌++◌ (split 46 stem)) (split_lacking 46 suffix lacks))
    ∙ ap (λ found. language_of (or_empty (lowered lower found)))
        (pop_last-append (split 46 stem) suffix)

-- A path without a dot is its own extension.
language_for_lacking :
    (lower : Text → Text) (path : Text) (lacks : Lacks 46 path)
    → language_for lower path ≡ language_of (lower path)
unfolding language_for extension
language_for_lacking lower path lacks =
    ap (λ parts. language_of (or_empty (lowered lower (pop_last parts))))
      (split_lacking 46 path lacks)
