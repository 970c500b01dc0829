-- ===== src/Files/Trail.antt =====
-- The abstract history of `SourceTab`: a folder with the folders behind it and ahead of it, as in a
-- browser, and what the commands of a user do to it.
use nova_server_manager.Common.{
  ℕ, suc, ◌+◌, ◌≡◌, refl, ap, ◌∙◌, Text, some, List, [], ◌∷◌, ◌++◌, length, get_elem?, take, arith,
  if◌then◌else◌,
}
use nova_server_manager.Files.State.{Manager}
use nova_server_manager.Files.Listing.{crumb, parent}
use nova_server_manager.Files.Session.{
  Command, go_root, go_parent, go_back, go_forward, go_crumb, open_row,
}

-- The nearest folder stands first on both sides.
pub record Trail : Type 0 where
  pub behind : List Text
  pub shown : Text
  pub ahead : List Text

-- To visit a folder forgets what was ahead.
abbrev pub visit : Text → Trail → Trail
visit p t = record { behind = t.shown ∷ t.behind; shown = p; ahead = [] }

abbrev pub step_back : List Text → Trail → Trail
step_back [] t = t
step_back (p ∷ ps) t = record { behind = ps; shown = p; ahead = t.shown ∷ t.ahead }

abbrev pub step_forward : List Text → Trail → Trail
step_forward [] t = t
step_forward (p ∷ ps) t = record { behind = t.shown ∷ t.behind; shown = p; ahead = ps }

-- What a command does to it: only these commands do anything.
abbrev pub follow : Command → Trail → Trail
follow go_root t = visit [] t
follow go_parent t = visit (parent t.shown) t
follow (go_crumb index) t = visit (crumb t.shown index) t
follow (open_row item) t = if item.directory then visit item.path t else t
follow go_back t = step_back t.behind t
follow go_forward t = step_forward t.ahead t
follow _ t = t

abbrev pub follow_all : List Command → Trail → Trail
follow_all [] t = t
follow_all (command ∷ rest) t = follow_all rest (follow command t)

-- The folders behind, the furthest first, in front of others.
abbrev pub unwind : List Text → List Text → List Text
unwind [] ys = ys
unwind (b ∷ bs) ys = unwind bs (b ∷ ys)

abbrev pub Represents : Manager → Trail → Type 0
Represents s t =
    (s.history ≡ unwind t.behind (t.shown ∷ t.ahead))
    × (s.history_index ≡ length t.behind)
    × (s.path ≡ t.shown)

unwind-append : (bs ys zs : List Text) → unwind bs ys ++ zs ≡ unwind bs (ys ++ zs)
unwind-append [] ys zs = refl
unwind-append (b ∷ bs) ys zs = unwind-append bs (b ∷ ys) zs

take-unwind :
    (bs ys : List Text) (n : ℕ) → take (n + length bs) (unwind bs ys) ≡ unwind bs (take n ys)
take-unwind [] ys n = ap (λ (k : ℕ). take k ys) (omega arith)
take-unwind (b ∷ bs) ys n =
    ap (λ (k : ℕ). take k (unwind bs (b ∷ ys))) (omega arith) ∙ take-unwind bs (b ∷ ys) (suc n)

get_elem?-unwind :
    (bs ys : List Text) (n : ℕ) → get_elem? (unwind bs ys) (n + length bs) ≡ get_elem? ys n
get_elem?-unwind [] ys n = ap (get_elem? ys) (omega arith)
get_elem?-unwind (b ∷ bs) ys n =
    ap (get_elem? (unwind bs (b ∷ ys))) (omega arith) ∙ get_elem?-unwind bs (b ∷ ys) (suc n)

pub length-unwind : (bs ys : List Text) → length (unwind bs ys) ≡ length bs + length ys
length-unwind [] ys = omega arith
length-unwind (b ∷ bs) ys = omega (arith, length-unwind bs (b ∷ ys))

pub here-unwind :
    (bs : List Text) (x : Text) (ys : List Text)
    → get_elem? (unwind bs (x ∷ ys)) (length bs) ≡ some x
here-unwind bs x ys =
    let same : length bs ≡ 0 + length bs = omega arith in
    ap (get_elem? (unwind bs (x ∷ ys))) same ∙ get_elem?-unwind bs (x ∷ ys) 0

pub next-unwind :
    (bs : List Text) (x : Text) (ys : List Text)
    → get_elem? (unwind bs (x ∷ ys)) (suc (length bs)) ≡ get_elem? ys 0
next-unwind bs x ys =
    let one : suc (length bs) ≡ 1 + length bs = omega arith in
    ap (get_elem? (unwind bs (x ∷ ys))) one ∙ get_elem?-unwind bs (x ∷ ys) 1

-- What a navigation makes of the history.
pub visited_history :
    (bs : List Text) (x p : Text) (ys : List Text)
    → take (suc (length bs)) (unwind bs (x ∷ ys)) ++ p ∷ [] ≡ unwind (x ∷ bs) (p ∷ [])
visited_history bs x p ys =
    ap (λ (l : List Text). l ++ p ∷ [])
      (let one : suc (length bs) ≡ 1 + length bs = omega arith in
        ap (λ (k : ℕ). take k (unwind bs (x ∷ ys))) one ∙ take-unwind bs (x ∷ ys) 1)
    ∙ unwind-append bs (x ∷ []) (p ∷ [])
