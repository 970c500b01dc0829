-- ===== src/Files/Paths.antt =====
-- The paths that `SourceTab` builds: the path of a new entry, the folder above and the row of folders.
use nova_server_manager.Common.{
  ℕ, suc, ◌-◌, ◌≡◌, refl, ap, false, not, Text, codes, List, [], ◌∷◌, ◌++◌, length, length-append,
  take, keep, is_empty, join, All, Lacks, join-split, split_lacking, split-append, split-join,
  arith,
}
use nova_server_manager.Files.{child_path}
use nova_server_manager.Files.Listing.{parts, crumb, parent}

take-append_length : (xs ys : List Text) → take (length xs) (xs ++ ys) ≡ xs
take-append_length [] ys = refl
take-append_length (x ∷ xs) ys = ap (◌∷◌ x) (take-append_length xs ys)

take-append_one : (xs : List Text) (y : Text) → take (length (xs ++ y ∷ []) - 1) (xs ++ y ∷ []) ≡ xs
take-append_one xs y =
    let last : length (xs ++ y ∷ []) - 1 ≡ length xs =
      omega (arith, length-append {0} xs (y ∷ [])) in
    rw last (take-append_length xs (y ∷ []))

-- The folder above an entry whose name is not empty and has no slash is the folder it was made
-- in.
parent-child_path :
    (path name : Text)
    → is_empty name ≡ false
    → Lacks b'/' name
    → parent (child_path path name) ≡ path
unfolding parent child_path join
parent-child_path [] (n ∷ name) h free = rw (split_lacking b'/' (n ∷ name) free)
parent-child_path (p ∷ path) (n ∷ name) h free =
    rw
      (split-append b'/' (p ∷ path) (n ∷ name), split_lacking b'/' (n ∷ name) free, take-append_one)
      (join-split b'/' (p ∷ path))
parent-child_path path [] h free = cc

-- A proper part of a path.
abbrev pub IsPart : Text → Type 0
IsPart w = (is_empty w ≡ false) × Lacks b'/' w

pub keep_parts : (ws : List Text) → All IsPart ws → keep (λ part. not (is_empty part)) ws ≡ ws
keep_parts [] h = refl
keep_parts (w ∷ ws) ((full, _), hs) = rw (full, keep_parts ws hs)

pub All-Lacks : (ws : List Text) → All IsPart ws → All (Lacks b'/') ws
All-Lacks [] h = tt
All-Lacks (w ∷ ws) ((_, free), hs) = (free, All-Lacks ws hs)

parts-join :
    (w : Text) (ws : List Text) → All IsPart (w ∷ ws) → parts (join (codes "/") (w ∷ ws)) ≡ w ∷ ws
unfolding parts
parts-join w ws h = rw (split-join b'/' w ws (All-Lacks (w ∷ ws) h)) (keep_parts (w ∷ ws) h)

-- In a path of parts that are not empty and have no slash, the crumb at an index leads to the
-- path of the parts up to it.
crumb-join :
    (w : Text) (ws : List Text) (index : ℕ)
    → All IsPart (w ∷ ws)
    → crumb (join (codes "/") (w ∷ ws)) index ≡ join (codes "/") (take (suc index) (w ∷ ws))
unfolding crumb
crumb-join w ws index h = ap (λ ps. join (codes "/") (take (suc index) ps)) (parts-join w ws h)
