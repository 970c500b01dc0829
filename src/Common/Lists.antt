-- ===== src/Common/Lists.antt =====
-- Lists, counted and indexed by the native numbers.
use Prim.Native.Nat.{ℕ, zero, suc, ◌+◌, ◌≤◌, ◌<◌}
use mathlib.Core.Path.{◌≡◌, refl, ap, subst}
use mathlib.Core.Logic.{inl, inr}
use mathlib.Core.Bool.{Bool, true, false, not, ◌&&◌, ◌||◌, and-eq-true_iff}
use mathlib.Core.List.{List, [], ◌∷◌, ◌++◌, map}
use mathlib.Core.Option.{Option, none, some, some_inj}
use native.Mathlib.Omega.{arith}
use nova_server_manager.Common.Tests.{if◌then◌else◌, Bool-cases}

module _ {ℓ} {A : Type ℓ} where
  abbrev pub length : List A → ℕ
  length [] = 0
  length (x ∷ xs) = suc (length xs)

  abbrev pub get_elem? : List A → ℕ → Option A
  get_elem? [] i = none
  get_elem? (x ∷ xs) zero = some x
  get_elem? (x ∷ xs) (suc i) = get_elem? xs i

  abbrev pub take : ℕ → List A → List A
  take zero xs = []
  take (suc n) [] = []
  take (suc n) (x ∷ xs) = x ∷ take n xs

  abbrev pub drop : ℕ → List A → List A
  drop zero xs = xs
  drop (suc n) [] = []
  drop (suc n) (x ∷ xs) = drop n xs

  -- `Array.prototype.filter` with a Boolean test.
  abbrev pub keep : (A → Bool) → List A → List A
  keep p [] = []
  keep p (x ∷ xs) = let rest = keep p xs in if p x then x ∷ rest else rest

  -- `Array.prototype.some`, `every` and `find`.
  abbrev pub any : (A → Bool) → List A → Bool
  any p [] = false
  any p (x ∷ xs) = p x || any p xs

  abbrev pub all : (A → Bool) → List A → Bool
  all p [] = true
  all p (x ∷ xs) = p x && all p xs

  abbrev pub find_first : (A → Bool) → List A → Option A
  find_first p [] = none
  find_first p (x ∷ xs) = let rest = find_first p xs in if p x then some x else rest

  abbrev pub is_empty : List A → Bool
  is_empty [] = true
  is_empty (x ∷ xs) = false

  pub length-append : (xs ys : List A) → length (xs ++ ys) ≡ length xs + length ys
  length-append [] ys = omega arith
  length-append (x ∷ xs) ys = omega (arith, length-append xs ys)

  pub length-keep : (p : A → Bool) (xs : List A) → length (keep p xs) ≤ length xs
  length-keep p [] = omega arith
  length-keep p (x ∷ xs) = ground (arith, length-keep p xs)

  pub keep-append : (p : A → Bool) (xs ys : List A) → keep p (xs ++ ys) ≡ keep p xs ++ keep p ys
  keep-append p [] ys = refl
  keep-append p (x ∷ xs) ys = ground (arith, keep-append p xs ys)

  pub take_all : (xs : List A) → take (length xs) xs ≡ xs
  take_all [] = refl
  take_all (x ∷ xs) = ap (◌∷◌ x) (take_all xs)

  pub length-take : (n : ℕ) (xs : List A) → n ≤ length xs → length (take n xs) ≡ n
  length-take zero xs h = refl
  length-take (suc n) [] h = omega arith
  length-take (suc n) (x ∷ xs) h = omega (arith, length-take n xs (omega arith))

  pub get_elem?-append_length :
      (xs : List A) (y : A) → get_elem? (xs ++ y ∷ []) (length xs) ≡ some y
  get_elem?-append_length [] y = refl
  get_elem?-append_length (x ∷ xs) y = get_elem?-append_length xs y

  pub get_elem?-append_left :
      (xs ys : List A) (i : ℕ) → i < length xs → get_elem? (xs ++ ys) i ≡ get_elem? xs i
  get_elem?-append_left [] ys i h = absurd (omega arith)
  get_elem?-append_left (x ∷ xs) ys zero h = refl
  get_elem?-append_left (x ∷ xs) ys (suc i) h = get_elem?-append_left xs ys i (omega arith)

  pub get_elem?-take :
      (n : ℕ) (xs : List A) (i : ℕ) → i < n → get_elem? (take n xs) i ≡ get_elem? xs i
  get_elem?-take zero xs i h = absurd (omega arith)
  get_elem?-take (suc n) [] i h = refl
  get_elem?-take (suc n) (x ∷ xs) zero h = refl
  get_elem?-take (suc n) (x ∷ xs) (suc i) h = get_elem?-take n xs i (omega arith)

  pub lt-length_of_get_elem? :
      (xs : List A) (i : ℕ) (a : A) → get_elem? xs i ≡ some a → i < length xs
  lt-length_of_get_elem? [] i a h = cc
  lt-length_of_get_elem? (x ∷ xs) zero a h = omega arith
  lt-length_of_get_elem? (x ∷ xs) (suc i) a h = omega (arith, lt-length_of_get_elem? xs i a h)

  pub get_elem?_of_lt : (xs : List A) (i : ℕ) → i < length xs → (a : A) × (get_elem? xs i ≡ some a)
  get_elem?_of_lt [] i h = absurd (omega arith)
  get_elem?_of_lt (x ∷ xs) zero h = (x, refl)
  get_elem?_of_lt (x ∷ xs) (suc i) h = get_elem?_of_lt xs i (omega arith)

abbrev pub sum : List ℕ → ℕ
sum [] = 0
sum (x ∷ xs) = x + sum xs

module _ {ℓ κ} {A : Type ℓ} (P : A → Type κ) where
  -- Every member of the list has the property.
  abbrev pub All : List A → Type κ
  All [] = Unit
  All (x ∷ xs) = P x × All xs

  pub All-keep : (p : A → Bool) (xs : List A) → All xs → All (keep p xs)
  All-keep p [] h = tt
  All-keep p (x ∷ xs) (q, h) = ground (arith, All-keep p xs h)

  pub All-take : (n : ℕ) (xs : List A) → All xs → All (take n xs)
  All-take zero xs h = tt
  All-take (suc n) [] h = tt
  All-take (suc n) (x ∷ xs) (q, h) = (q, All-take n xs h)

  pub All-map {μ} : {B : Type μ} (f : B → A) (xs : List B) → ((b : B) → P (f b)) → All (map f xs)
  All-map f [] h = tt
  All-map f (x ∷ xs) h = (h x, All-map f xs h)

  pub All-every : ((a : A) → P a) → (xs : List A) → All xs
  All-every h [] = tt
  All-every h (x ∷ xs) = (h x, All-every h xs)

module _ {ℓ} {A : Type ℓ} where
  pub any-All : (p : A → Bool) (xs : List A) → All (λ x. p x ≡ false) xs → any p xs ≡ false
  any-All p [] h = refl
  any-All p (x ∷ xs) (q, h) = rw (q, any-All p xs h) refl

  pub All-weaken {κ μ} :
      (P : A → Type κ) (Q : A → Type μ)
      → ((a : A) → P a → Q a)
      → (xs : List A) → All P xs
      → All Q xs
  All-weaken P Q f [] h = tt
  All-weaken P Q f (x ∷ xs) (p, h) = (f x p, All-weaken P Q f xs h)

module _ {ℓ} {A : Type ℓ} where
  pub any-map :
      (p : A → Bool) (f : A → A) (kept : (x : A) → p x ≡ true → p (f x) ≡ true) (xs : List A)
      → any p xs ≡ true
      → any p (map f xs) ≡ true
  any-map p f kept [] h = h
  any-map p f kept (x ∷ xs) h = elim (Bool-cases (p x)) [
    | inl here ↦ rw (kept x here) refl
    | inr later ↦ elim (Bool-cases (p (f x))) [
      | inl at_last ↦ rw at_last refl
      | inr still ↦ rw still (any-map p f kept xs (subst (λ b. (b || any p xs) ≡ true) later h))
    ]
  ]

  pub find_first-some :
      (p : A → Bool) (xs : List A)
      → any p xs ≡ true
      → (x : A) × ((find_first p xs ≡ some x) × (p x ≡ true))
  find_first-some p [] h = cc
  find_first-some p (x ∷ xs) h = elim (Bool-cases (p x)) [
    | inl here ↦ (x, (rw here refl, here))
    | inr later ↦ rw later (find_first-some p xs (subst (λ b. (b || any p xs) ≡ true) later h))
  ]

  pub find_first-any :
      (p : A → Bool) (xs : List A) (x : A)
      → find_first p xs ≡ some x
      → (any p xs ≡ true) × (p x ≡ true)
  find_first-any p [] x h = cc
  find_first-any p (y ∷ xs) x h = elim (Bool-cases (p y)) [
    | inl here ↦
        let is =
          some_inj.0 (subst (λ b. (if b then some y else find_first p xs) ≡ some x) here h) in
        (rw here refl, subst (λ z. p z ≡ true) is here)
    | inr later ↦
        let (there, holds) =
          find_first-any p xs x
            (subst (λ b. (if b then some y else find_first p xs) ≡ some x) later h) in
        (rw (later, there) refl, holds)
  ]

  pub any-later : (p : A → Bool) (x : A) (xs : List A) → any p xs ≡ true → any p (x ∷ xs) ≡ true
  any-later p x xs h = ground arith

  pub any-weaken :
      (p q : A → Bool)
      → ((x : A) → p x ≡ true → q x ≡ true)
      → (xs : List A) → any p xs ≡ true
      → any q xs ≡ true
  any-weaken p q f [] h = h
  any-weaken p q f (x ∷ xs) h = elim (Bool-cases (p x)) [
    | inl here ↦ rw (f x here) refl
    | inr later ↦
        any-later q x xs (any-weaken p q f xs (subst (λ b. (b || any p xs) ≡ true) later h))
  ]

  pub any-keep : (p q : A → Bool) (xs : List A) → any p (keep q xs) ≡ true → any p xs ≡ true
  any-keep p q [] h = h
  any-keep p q (x ∷ xs) h = ground (arith, any-keep p q xs)

  pub all-map :
      (p q : A → Bool) (g : A → A)
      → ((x : A) → p x ≡ true → q (g x) ≡ true)
      → (xs : List A) → all p xs ≡ true
      → all q (map g xs) ≡ true
  all-map p q g f [] h = refl
  all-map p q g f (x ∷ xs) h =
      let (here, there) = (and-eq-true_iff _ _).0 h in
      (and-eq-true_iff _ _).1 (f x here, all-map p q g f xs there)

  pub all-and :
      (p q : A → Bool) (xs : List A)
      → all p xs ≡ true
      → all q xs ≡ true
      → all (λ x. p x && q x) xs ≡ true
  all-and p q [] h k = refl
  all-and p q (x ∷ xs) h k = ground (arith, all-and p q xs)

  pub all-find_first :
      (p q : A → Bool) (xs : List A) (x : A)
      → all p xs ≡ true
      → find_first q xs ≡ some x
      → p x ≡ true
  all-find_first p q [] x h k = cc
  all-find_first p q (y ∷ xs) x h k =
      let (here, there) = (and-eq-true_iff _ _).0 h in
      elim (Bool-cases (q y)) [
        | inl it ↦
            subst (λ z. p z ≡ true)
              (some_inj.0 (subst (λ b. (if b then some y else find_first q xs) ≡ some x) it k)) here
        | inr later ↦
            all-find_first p q xs x there
              (subst (λ b. (if b then some y else find_first q xs) ≡ some x) later k)
      ]

  pub any-all : (p : A → Bool) (xs : List A) → any p xs ≡ false → all (λ x. not (p x)) xs ≡ true
  any-all p [] h = refl
  any-all p (x ∷ xs) h = ground (arith, any-all p xs)

  pub all-weaken :
      (p q : A → Bool)
      → ((x : A) → p x ≡ true → q x ≡ true)
      → (xs : List A) → all p xs ≡ true
      → all q xs ≡ true
  all-weaken p q f [] h = refl
  all-weaken p q f (x ∷ xs) h =
      let (here, there) = (and-eq-true_iff _ _).0 h in
      (and-eq-true_iff _ _).1 (f x here, all-weaken p q f xs there)
