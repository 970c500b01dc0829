-- ===== src/Common/Sorting.antt =====
-- `Array.prototype.sort` with a comparator, which is stable: the sign of a comparator is an
-- `Ordering`. For a comparator that is a total preorder the stable sorted permutation is unique, so
-- any stable sort stands for the browser's.
use Prim.Native.Nat.{Ordering}
use mathlib.Core.Path.{◌≡◌, refl, sym}
use native.Mathlib.Omega.{arith}
use mathlib.Core.Logic.{inl, inr}
use mathlib.Core.Bool.{Bool, true, false, ◌||◌}
use mathlib.Core.List.{List, [], ◌∷◌, Perm}
use mathlib.Core.List.Perm
use nova_server_manager.Common.Tests.{if◌then◌else◌, Bool-cases}
use nova_server_manager.Common.Lists.{All, All-keep, All-weaken, any, keep}

-- `comparator(a, b) <= 0`
abbrev pub not_after : Ordering → Bool
not_after Ordering.gt = false
not_after _ = true

module _ {ℓ} {A : Type ℓ} (comparator : A → A → Ordering) where
  insert : A → List A → List A
  insert x [] = x ∷ []
  insert x (y ∷ ys) =
      let later = insert x ys in if not_after (comparator x y) then x ∷ y ∷ ys else y ∷ later

  unfoldable pub sort_by : List A → List A
  unfolding insert
  sort_by [] = []
  sort_by (x ∷ xs) = insert x (sort_by xs)

  -- A comparator that orders any two items, consistently.
  pub record IsPreorder : Type ℓ where
    pub total : (a b : A) → not_after (comparator a b) ≡ false → not_after (comparator b a) ≡ true
    pub transitive :
        (a b c : A)
        → not_after (comparator a b) ≡ true
        → not_after (comparator b c) ≡ true
        → not_after (comparator a c) ≡ true

  abbrev pub IsSorted : List A → Type 0
  IsSorted [] = Unit
  IsSorted (x ∷ xs) = All (λ y. not_after (comparator x y) ≡ true) xs × IsSorted xs

  insert-perm : (x : A) (xs : List A) → Perm (insert x xs) (x ∷ xs)
  unfolding insert
  insert-perm x [] = Perm.refl _
  insert-perm x (y ∷ ys) = elim (Bool-cases (not_after (comparator x y))) [
    | inl first ↦ rw first (Perm.refl _)
    | inr later ↦ rw later (Perm.trans (Perm.cons y (insert-perm x ys)) (Perm.swap x y ys))
  ]

  pub sort_by-perm : (xs : List A) → Perm (sort_by xs) xs
  unfolding sort_by
  sort_by-perm [] = Perm.refl []
  sort_by-perm (x ∷ xs) = Perm.trans (insert-perm x (sort_by xs)) (Perm.cons x (sort_by-perm xs))

  insert-All {κ} : (P : A → Type κ) (x : A) (xs : List A) → P x → All P xs → All P (insert x xs)
  unfolding insert
  insert-All P x [] p h = (p, tt)
  insert-All P x (y ∷ ys) p (q, h) = elim (Bool-cases (not_after (comparator x y))) [
    | inl first ↦ rw first (p, (q, h))
    | inr later ↦ rw later (q, insert-All P x ys p h)
  ]

  insert-IsSorted : IsPreorder → (x : A) (xs : List A) → IsSorted xs → IsSorted (insert x xs)
  unfolding insert
  insert-IsSorted o x [] h = (tt, tt)
  insert-IsSorted o x (y ∷ ys) (first, h) = elim (Bool-cases (not_after (comparator x y))) [
    | inl le ↦ rw le (
      (
        le,
        All-weaken (λ z. not_after (comparator y z) ≡ true) _ (λ z. o.transitive x y z le) ys first,
      ),
      (first, h),
    )
    | inr gt ↦ rw gt (insert-All _ x ys (o.total x y gt) first, insert-IsSorted o x ys h)
  ]

  pub sort_by-IsSorted : IsPreorder → (xs : List A) → IsSorted (sort_by xs)
  unfolding sort_by
  sort_by-IsSorted o [] = tt
  sort_by-IsSorted o (x ∷ xs) = insert-IsSorted o x (sort_by xs) (sort_by-IsSorted o xs)

  pub sort_by-All {κ} : (P : A → Type κ) (xs : List A) → All P xs → All P (sort_by xs)
  unfolding sort_by
  sort_by-All P [] h = tt
  sort_by-All P (x ∷ xs) (p, h) = insert-All P x (sort_by xs) p (sort_by-All P xs h)

  any-insert : (p : A → Bool) (x : A) (ys : List A) → any p (insert x ys) ≡ (p x || any p ys)
  unfolding insert
  any-insert p x [] = refl
  any-insert p x (y ∷ ys) = elim (Bool-cases (not_after (comparator x y))) [
    | inl first ↦ rw first refl
    | inr later ↦ rw (later, any-insert p x ys) (ground arith)
  ]

  pub any-sort_by : (p : A → Bool) (xs : List A) → any p (sort_by xs) ≡ any p xs
  unfolding sort_by
  any-sort_by p [] = refl
  any-sort_by p (x ∷ xs) = rw (any-insert p x (sort_by xs), any-sort_by p xs) refl

  insert-first :
      (x : A) (ys : List A) → All (λ y. not_after (comparator x y) ≡ true) ys → insert x ys ≡ x ∷ ys
  unfolding insert
  insert-first x [] h = refl
  insert-first x (y ∷ ys) (first, h) = rw first refl

  -- To drop members and to insert one commute.
  keep-insert :
      IsPreorder
      → (q : A → Bool) (x : A) (ys : List A) → IsSorted ys
      → keep q (insert x ys) ≡ (if q x then insert x (keep q ys) else keep q ys)
  unfolding insert
  keep-insert o q x [] h = refl
  keep-insert o q x (y ∷ ys) (first, h) = elim (Bool-cases (not_after (comparator x y))) [
    | inl le ↦ elim (Bool-cases (q x)) [
      | inr gone ↦ rw (le, gone) refl
      | inl kept ↦ elim (Bool-cases (q y)) [
        | inl stays ↦ rw (le, kept, stays) (rw le refl)
        | inr goes ↦
            rw (le, kept, goes)
              (sym (
                insert-first x (keep q ys) (
                  All-keep _ q ys (
                    All-weaken (λ z. not_after (comparator y z) ≡ true) _
                      (λ z. o.transitive x y z le) ys first))))
      ]
    ]
    | inr gt ↦ elim (Bool-cases (q x)) [
      | inr gone ↦ rw (gt, gone) (rw (keep-insert o q x ys h) (rw gone refl))
      | inl kept ↦ elim (Bool-cases (q y)) [
        | inl stays ↦ rw (gt, kept, stays) (rw (keep-insert o q x ys h) (rw kept (rw gt refl)))
        | inr goes ↦ rw (gt, kept, goes) (rw (keep-insert o q x ys h) (rw kept refl))
      ]
    ]
  ]

  -- To sort and to drop members commute.
  pub sort_by-keep :
      IsPreorder → (q : A → Bool) (xs : List A) → sort_by (keep q xs) ≡ keep q (sort_by xs)
  unfolding sort_by
  sort_by-keep o q [] = refl
  sort_by-keep o q (x ∷ xs) = elim (Bool-cases (q x)) [
    | inl kept ↦
        rw (kept, keep-insert o q x (sort_by xs) (sort_by-IsSorted o xs))
          (rw kept (rw (sort_by-keep o q xs) refl))
    | inr gone ↦
        rw (gone, keep-insert o q x (sort_by xs) (sort_by-IsSorted o xs))
          (rw gone (sort_by-keep o q xs))
  ]

  module _ (same : A → A → Bool) where
    -- No two members are the same.
    abbrev pub IsUnlike : List A → Type 0
    IsUnlike [] = Unit
    IsUnlike (x ∷ xs) = (any (same x) xs ≡ false) × IsUnlike xs

    insert-IsUnlike :
        ((x y : A) → same x y ≡ same y x)
        → (x : A) (ys : List A) → any (same x) ys ≡ false
        → IsUnlike ys
        → IsUnlike (insert x ys)
    unfolding insert
    insert-IsUnlike symmetric x [] new h = (refl, tt)
    insert-IsUnlike symmetric x (y ∷ ys) new (other, h) =
        elim (Bool-cases (not_after (comparator x y))) [
          | inl first ↦ rw first (new, (other, h))
          | inr later ↦ rw later (
            rw (any-insert (same y) x ys, symmetric y x, other) (ground arith),
            insert-IsUnlike symmetric x ys (ground arith) h,
          )
        ]

    pub sort_by-IsUnlike :
        ((x y : A) → same x y ≡ same y x) → (xs : List A) → IsUnlike xs → IsUnlike (sort_by xs)
    unfolding sort_by
    sort_by-IsUnlike symmetric [] h = tt
    sort_by-IsUnlike symmetric (x ∷ xs) (new, h) =
        insert-IsUnlike symmetric x (sort_by xs) (rw (any-sort_by (same x) xs) new)
          (sort_by-IsUnlike symmetric xs h)
