-- ===== src/CodeEditor.antt =====
-- frontend/src/components/code-editor.tsx: the language that the editor of a document chooses for its
-- path. `toLowerCase` is the browser's and a parameter.
pub mod Choosing
use nova_server_manager.Common.{
  Text, codes, text_eq, includes, split, List, [], ◌∷◌, Option, none, some, ◌||◌, if◌then◌else◌,
  Bool, map,
}

-- The extensions of the editor, with their options.
pub data Language : Type 0 where
  python javascript typescript json html css : Language

-- `pop()` of a list.
abbrev pub pop_last : {A : Type 0} → List A → Option A
pop_last [] = none
pop_last (x ∷ []) = some x
pop_last (x ∷ y ∷ xs) = pop_last (y ∷ xs)

-- `?.toLowerCase()`
abbrev pub lowered : (Text → Text) → Option Text → Option Text
lowered lower none = none
lowered lower (some text) = some (lower text)

-- `path.split(".").pop()?.toLowerCase()`
unfoldable pub extension : (lower : Text → Text) → Text → Option Text
extension lower path = lowered lower (pop_last (split 46 path))

-- `extension || ""`
abbrev pub or_empty : Option Text → Text
or_empty none = []
or_empty (some found) = found

abbrev pub one_of : List Text → Text → Bool
one_of names name = includes names name

-- The chain of tests: no language leaves the list of extensions empty.
unfoldable pub language_of : Text → Option Language
language_of found =
    if text_eq found (codes "py")
    then some python
    else if one_of (codes "js" ∷ codes "jsx" ∷ codes "mjs" ∷ codes "cjs" ∷ []) found
    then some javascript
    else if one_of (codes "ts" ∷ codes "tsx" ∷ []) found
    then some typescript
    else if text_eq found (codes "json")
    then some json
    else if one_of (codes "html" ∷ codes "htm" ∷ codes "vue" ∷ []) found
    then some html
    else if one_of (codes "css" ∷ codes "scss" ∷ codes "less" ∷ []) found
    then some css
    else none

unfoldable pub language_for : (lower : Text → Text) → Text → Option Language
language_for lower path = language_of (or_empty (extension lower path))
