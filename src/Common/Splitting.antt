-- ===== src/Common/Splitting.antt =====
-- Splitting a text at a separator and joining it again.
use Prim.Native.Nat.{ℕ}
use mathlib.Core.Path.{◌≡◌, refl, ap, ◌∙◌, sym}
use mathlib.Core.Logic.{inl, inr}
use mathlib.Core.Bool.{false}
use mathlib.Core.List.{List, [], ◌∷◌, ◌++◌}
use nova_server_manager.Common.Tests.{◌==◌, ==_iff, Bool-cases}
use nova_server_manager.Common.Lists.{All}
use nova_server_manager.Common.Texts.{Text, split, join}

-- The character does not occur in the text.
abbrev pub Lacks : ℕ → Text → Type 0
Lacks c s = All (λ x. (x == c) ≡ false) s

pub Lacks-append : (c : ℕ) (s t : Text) → Lacks c s → Lacks c t → Lacks c (s ++ t)
Lacks-append c [] t h k = k
Lacks-append c (x ∷ s) t (p, h) k = (p, Lacks-append c s t h k)

-- A split has a first part.
split-cons : (sep : ℕ) (s : Text) → (w : Text) × (ws : List Text) × (split sep s ≡ w ∷ ws)
unfolding split
split-cons sep [] = ([], [], refl)
split-cons sep (c ∷ s) =
    let (w, ws, e) = split-cons sep s in
    elim (Bool-cases (c == sep)) [
      | inl at ↦ ([], w ∷ ws, rw (at, e))
      | inr other ↦ (c ∷ w, ws, rw (other, e))
    ]

join-cons :
    (sep : Text) (c : ℕ) (w : Text) (ws : List Text)
    → join sep ((c ∷ w) ∷ ws) ≡ c ∷ join sep (w ∷ ws)
unfolding join
join-cons sep c w [] = refl
join-cons sep c w (v ∷ ws) = refl

-- Joining what a split gave restores the text.
pub join-split : (sep : ℕ) (s : Text) → join (sep ∷ []) (split sep s) ≡ s
unfolding split join
join-split sep [] = refl
join-split sep (c ∷ s) =
    let (w, ws, e) = split-cons sep s in
    let ih : join (sep ∷ []) (w ∷ ws) ≡ s = ap (join (sep ∷ [])) (sym e) ∙ join-split sep s in
    elim (Bool-cases (c == sep)) [
      | inl at ↦ rw (at, e) (cc (ih, (==_iff c sep).0 at))
      | inr other ↦ rw (other, e) (join-cons (sep ∷ []) c w ws ∙ ap (◌∷◌ c) ih)
    ]

-- A text without the separator is one part.
pub split_lacking : (sep : ℕ) (s : Text) → Lacks sep s → split sep s ≡ s ∷ []
unfolding split
split_lacking sep [] h = refl
split_lacking sep (c ∷ s) (other, h) = rw (other, split_lacking sep s h)

-- A split at a separator in the middle.
pub split-append : (sep : ℕ) (s t : Text) → split sep (s ++ sep ∷ t) ≡ split sep s ++ split sep t
unfolding split
split-append sep [] t = rw ((==_iff sep sep).1 refl)
split-append sep (c ∷ s) t =
    let (w, ws, e) = split-cons sep s in
    elim (Bool-cases (c == sep)) [
      | inl at ↦ rw (at, split-append sep s t)
      | inr other ↦ rw (other, split-append sep s t, e)
    ]

-- Splitting what was joined from parts without the separator restores the parts.
pub split-join :
    (sep : ℕ) (w : Text) (ws : List Text)
    → All (Lacks sep) (w ∷ ws)
    → split sep (join (sep ∷ []) (w ∷ ws)) ≡ w ∷ ws
unfolding join
split-join sep w [] (h, _) = split_lacking sep w h
split-join sep w (v ∷ ws) (h, hs) =
    split-append sep w (join (sep ∷ []) (v ∷ ws))
    ∙ rw (split_lacking sep w h, split-join sep v ws hs)
