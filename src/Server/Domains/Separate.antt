-- ===== src/Server/Domains/Separate.antt =====
-- No domain belongs to two applications.
use nova_server_manager.Common.{
  Bool, true, false, not, ◌&&◌, ◌||◌, ◌==◌, ==_iff, ◌≡◌, refl, sym, Text, includes, is_empty,
  text_eq, text_eq_iff, text_eq_refl, Option, some, List, [], ◌∷◌, ◌++◌, map, keep, any, all,
  if◌then◌else◌, Bool-cases, inl, inr, arith, any-later, any-keep, all-map, all-and, All, All-keep,
  All-map, ◌⊎◌,
}
use mathlib.Core.Bool.{and-eq-true_iff, true≢false, or-true}
use mathlib.Core.Path.{subst, ◌∙◌}
use nova_server_manager.Server.Rows.{AppRow}
use nova_server_manager.Server.Deploys.{change_app}
use nova_server_manager.Server.Proxy.{unique}
use nova_server_manager.Server.Domains.{head_or_empty, app_domains, listed, set_domains}

-- Whether the lists have a text in common.
abbrev pub share : List Text → List Text → Bool
share ds es = any (includes es) ds

includes-cases :
    (d x : Text) (ds : List Text) → includes (x ∷ ds) d ≡ true → (d ≡ x) ⊎ (includes ds d ≡ true)
includes-cases d x ds k = elim (Bool-cases (text_eq d x)) [
  | inl same ↦ inl ((text_eq_iff d x).0 same)
  | inr other ↦ inr (subst (λ b. (b || includes ds d) ≡ true) other k)
]

includes-here : (x : Text) (ds : List Text) → includes (x ∷ ds) x ≡ true
includes-here x ds = rw (text_eq_refl x) refl

includes-same : (d x : Text) (ds : List Text) → d ≡ x → includes (x ∷ ds) d ≡ true
includes-same d x ds e = subst (λ z. includes (x ∷ ds) z ≡ true) (sym e) (includes-here x ds)

pub includes-share :
    (d : Text) (ds es : List Text)
    → share ds es ≡ false
    → includes ds d ≡ true
    → includes es d ≡ false
includes-share d [] es h k = cc
includes-share d (x ∷ ds) es h k = elim (includes-cases d x ds k) [
  | inl same ↦ rw same (ground arith)
  | inr later ↦ includes-share d ds es (ground arith) later
]

pub share-unless :
    (ds es : List Text)
    → ((d : Text) → includes ds d ≡ true → includes es d ≡ false)
    → share ds es ≡ false
share-unless [] es h = refl
share-unless (x ∷ ds) es h =
    rw (h x (includes-here x ds), share-unless ds es (λ d k. h d (any-later (text_eq d) x ds k)))
      refl

includes-unique : (d : Text) (xs : List Text) → includes (unique xs) d ≡ true → includes xs d ≡ true
unfolding unique
includes-unique d [] h = h
includes-unique d (x ∷ xs) h = elim (includes-cases d x _ h) [
  | inl same ↦ includes-same d x xs same
  | inr later ↦
      any-later (text_eq d) x xs (includes-unique d xs (any-keep (text_eq d) _ (unique xs) later))
]

unique-All : (P : Text → Type 0) (xs : List Text) → All P xs → All P (unique xs)
unfolding unique
unique-All P [] h = tt
unique-All P (x ∷ xs) (p, h) = (p, All-keep P _ (unique xs) (unique-All P xs h))

pub append-cases :
    (d : Text) (ds : List Text) (e : Text)
    → includes (ds ++ e ∷ []) d ≡ true
    → (d ≡ e) ⊎ (includes ds d ≡ true)
append-cases d [] e h = includes-cases d e [] h
append-cases d (x ∷ ds) e h = elim (includes-cases d x _ h) [
  | inl same ↦ inr (includes-same d x ds same)
  | inr later ↦ elim (append-cases d ds e later) [
    | inl it ↦ inl it
    | inr there ↦ inr (any-later (text_eq d) x ds there)
  ]
]

map-lower : (lower : Text → Text) (ds : List Text) → All (λ d. lower d ≡ d) ds → map lower ds ≡ ds
map-lower lower [] h = refl
map-lower lower (d ∷ ds) (p, h) = rw (p, map-lower lower ds h) refl

head-includes :
    (ds : List Text)
    → not (is_empty (head_or_empty ds)) && not (includes ds (head_or_empty ds)) ≡ false
head-includes [] = refl
head-includes (d ∷ ds) = rw (text_eq_refl d) (ground arith)

module _ (lower : Text → Text) (loads : Text → Option (List Text)) (dumps : List Text → Text) where
  abbrev pub domains : AppRow → List Text
  domains a = app_domains lower loads dumps a

  -- Rows of different applications have no domain in common.
  abbrev pub apart : AppRow → AppRow → Bool
  apart a b = a.id == b.id || not (share (domains a) (domains b))

  abbrev pub separate : List AppRow → Bool
  separate apps = all (λ a. all (apart a) apps) apps

  -- These domains are not those of this other application.
  abbrev pub clear : AppRow → List Text → AppRow → Bool
  clear app ds b = b.id == app.id || not (share ds (domains b))

  module _ (idempotent : (t : Text) → lower (lower t) ≡ lower t)
      (round_trip : (ds : List Text) → loads (dumps ds) ≡ some ds)
      (written : (ds : List Text) → is_empty (dumps ds) ≡ false) where
    pub app_domains-lowered :
        (a : AppRow) → All (λ d. lower d ≡ d) (app_domains lower loads dumps a)
    unfolding app_domains
    app_domains-lowered a = unique-All _ _ (All-map _ lower _ idempotent)

    listed-set_domains :
        (ds : List Text) (a : AppRow)
        → listed lower loads dumps (set_domains lower loads dumps ds a) ≡ ds
    unfolding set_domains
    listed-set_domains ds a = rw (written ds, listed, set_domains) (rw (round_trip ds) refl)

    app_domains-store_lem :
        (ds : List Text) (a : AppRow)
        → app_domains lower loads dumps (set_domains lower loads dumps ds a)
          ≡ unique (map lower (keep (λ d. not (is_empty d)) ds))
    unfolding app_domains set_domains
    app_domains-store_lem ds a =
        rw (listed-set_domains ds a, app_domains) (rw (head-includes ds, set_domains) refl)

    -- What a row tells of its domains after they are stored.
    app_domains-set_domains :
        (ds : List Text) (a : AppRow) (d : Text)
        → All (λ d. lower d ≡ d) ds
        → includes (app_domains lower loads dumps (set_domains lower loads dumps ds a)) d ≡ true
        → includes ds d ≡ true
    app_domains-set_domains ds a d low h =
        let kept = keep (λ d. not (is_empty d)) ds in
        let there =
          includes-unique d _ (subst (λ xs. includes xs d ≡ true) (app_domains-store_lem ds a) h) in
        any-keep (text_eq d) _ ds
          (subst (λ xs. includes xs d ≡ true) (map-lower lower kept (All-keep _ _ ds low)) there)

    module _ (app : AppRow) (ds : List Text) (low : All (λ d. lower d ≡ d) ds) where
      abbrev new : AppRow → AppRow
      new a = set_domains lower loads dumps ds a

      abbrev renew : AppRow → AppRow
      renew a = if a.id == app.id then new a else a

      share-new :
          (b : List Text) (a : AppRow) → share ds b ≡ false → share (domains (new a)) b ≡ false
      share-new b a h =
          share-unless (domains (new a)) b
            (λ d k. includes-share d ds b h (app_domains-set_domains ds a d low k))

      new-share :
          (b : List Text) (a : AppRow) → share ds b ≡ false → share b (domains (new a)) ≡ false
      new-share b a h = share-unless b (domains (new a)) (λ d k.
          elim (Bool-cases (includes (domains (new a)) d)) [
            | inl there ↦ absurd (
                true≢false
                  (sym k ∙ includes-share d ds b h (app_domains-set_domains ds a d low there)))
            | inr free ↦ free
          ])

      clear-share :
          (b : AppRow)
          → (b.id == app.id) ≡ false
          → clear app ds b ≡ true
          → share ds (domains b) ≡ false
      clear-share b other h = ground arith

      new-apart :
          (a b : AppRow)
          → (a.id == app.id) ≡ true
          → clear app ds b ≡ true
          → apart (new a) (renew b) ≡ true
      unfolding set_domains
      new-apart a b mine h = elim (Bool-cases (b.id == app.id)) [
        | inl also ↦
            rw
              (
                also,
                (==_iff a.id b.id).1
                    ((==_iff a.id app.id).0 mine ∙ sym ((==_iff b.id app.id).0 also)),
              )
              refl
        | inr other ↦ rw (other, share-new (domains b) a (clear-share b other h)) (or-true _)
      ]

      old-apart :
          (a b : AppRow)
          → (a.id == app.id) ≡ false
          → clear app ds a ≡ true
          → apart a b ≡ true
          → apart a (renew b) ≡ true
      unfolding set_domains
      old-apart a b other h k = elim (Bool-cases (b.id == app.id)) [
        | inl mine ↦ rw (mine, new-share (domains a) b (clear-share a other h)) (or-true _)
        | inr both ↦ rw both k
      ]

      pub set_domains-separate :
          (apps : List AppRow)
          → separate apps ≡ true
          → all (clear app ds) apps ≡ true
          → separate (change_app app.id new apps) ≡ true
      unfolding change_app set_domains
      set_domains-separate apps sep free =
          all-map (λ a. all (apart a) apps && clear app ds a) _ renew
            (λ a h.
              let (away, mine) = (and-eq-true_iff _ _).0 h in
              elim (Bool-cases (a.id == app.id)) [
                | inl is ↦
                    rw is (all-map (clear app ds) _ renew (λ b k. new-apart a b is k) apps free)
                | inr other ↦
                    rw other
                      (all-map (apart a) _ renew (λ b k. old-apart a b other mine k) apps away)
              ])
            apps (all-and _ (clear app ds) apps sep free)
