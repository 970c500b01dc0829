-- ===== src/Page/Navigation.antt =====
-- Routes: what a navigation shows, and what an unknown route does.
use nova_server_manager.Common.{
  ℕ, zero, suc, ◌+◌, ◌/◌, ◌%◌, ◌<◌, ◌≡◌, refl, ap, sym, ◌↔◌, ◌==◌, false, Text, codes, decimal,
  digits_from, text_eq, Option, none, some, List, [], ◌∷◌, ◌++◌, join, split-join, All, arith,
  Bool-cases, inl, inr,
}
use mathlib.Core.Bool.{false≢true}
use nova_server_manager.Client.Request.{User}
use nova_server_manager.Page.{Home}
use nova_server_manager.Page.Routing.{
  RouteName, spelling, route_names, Route, parse_route, hash_of, strip_hash, title_in, title_of,
}
use nova_server_manager.Page.View.{
  FiniteNumber, natural, detail_of, screen, page, crash, dashboard, app_detail,
}
use nova_server_manager.Files.Paths.{IsPart, keep_parts, All-Lacks}

-- A route made of parts that are not empty and have no slash is read back as these parts, the
-- first of which is its name.
parse_route-hash_of :
    (w : Text) (ws : List Text)
    → All IsPart (w ∷ ws)
    → parse_route (hash_of (join (codes "/") (w ∷ ws))) ≡ record { name = w; parts = w ∷ ws }
unfolding parse_route hash_of strip_hash
parse_route-hash_of w ws h = rw (split-join b'/' w ws (All-Lacks (w ∷ ws) h), keep_parts (w ∷ ws) h)

-- The digits of a number are digits, and there is one.
abbrev AreDigits : Text → Type 0
AreDigits s = All (λ c. (c == b'/') ≡ false) s

digits_from-IsPart :
    (fuel n : ℕ) (acc : Text) → n < fuel → AreDigits acc → IsPart (digits_from fuel n acc)
unfolding digits_from
digits_from-IsPart zero n acc h d = absurd (omega arith)
digits_from-IsPart (suc fuel) n acc h d =
    let digit : ((n % 10 + 48) == b'/') ≡ false = ground arith in
    elim (Bool-cases (n / 10 == 0)) [
      | inl stop ↦ rw stop (refl, (digit, d))
      | inr more ↦ rw more (digits_from-IsPart fuel (n / 10) _ (ground arith) (digit, d))
    ]

decimal-IsPart : (n : ℕ) → IsPart (decimal n)
unfolding decimal
decimal-IsPart n = digits_from-IsPart (suc n) n [] (omega arith) tt

-- A name that is no `RouteName`.
abbrev pub IsUnknown : Text → Type 0
IsUnknown name = All (λ r. text_eq name (spelling r) ≡ false) route_names

module _ (number : Text → Option FiniteNumber) where
  -- If the browser reads the decimal digits of the id of an application as that id, the route
  -- of the application shows it.
  screen-app :
      (id : ℕ)
      → number (decimal id) ≡ some (natural id)
      → screen number (parse_route (hash_of (codes "app/" ++ decimal id))) ≡ app_detail (natural id)
  unfolding join
  screen-app id read =
      rw
        (parse_route-hash_of (codes "app") (decimal id ∷ [])
          ((refl, (refl, (refl, (refl, tt)))), (decimal-IsPart id, tt)))
        (unfold screen text_eq in ap detail_of read)

  title_in-eq-none_iff :
      (name : Text) (rs : List RouteName)
      → (title_in name rs ≡ none) ↔ All (λ r. text_eq name (spelling r) ≡ false) rs
  unfolding title_in
  title_in-eq-none_iff name [] = (λ _. tt, λ _. refl)
  title_in-eq-none_iff name (r ∷ rs) = elim (Bool-cases (text_eq name (spelling r))) [
    | inl same ↦ rw same (λ e. cc, λ h. absurd (false≢true (sym h.0)))
    | inr other ↦
        rw other (
          λ e. (refl, (title_in-eq-none_iff name rs).0 e),
          λ h. (title_in-eq-none_iff name rs).1 h.1,
        )
  ]

  title_of-eq-none_iff : (name : Text) → (title_of name ≡ none) ↔ IsUnknown name
  unfolding title_of
  title_of-eq-none_iff name = title_in-eq-none_iff name route_names

  crash_lem :
      (s : Home)
      → (page number s ≡ crash)
        ↔ ((s.booting ≡ false) × ((u : User) × (s.user ≡ some u)) × (title_of s.route.name ≡ none))
  unfolding page
  crash_lem s = ground arith

  -- The page fails to render exactly if it is not starting, a user is signed in and the name of
  -- the route is no known one.
  pub page-eq-crash_iff :
      (s : Home)
      → (page number s ≡ crash)
        ↔ ((s.booting ≡ false) × ((u : User) × (s.user ≡ some u)) × IsUnknown s.route.name)
  page-eq-crash_iff s =
      let (to, from) = title_of-eq-none_iff s.route.name in
      (
        λ e. let (awake, signed, untitled) = (crash_lem s).0 e in (awake, signed, to untitled),
        λ w. (crash_lem s).1 (w.0, w.1, from w.2),
      )

  -- For a name that is no known one, the page's own choice of a screen falls back to the
  -- dashboard.
  screen-unknown : (r : Route) → IsUnknown r.name → screen number r ≡ dashboard
  unfolding screen
  screen-unknown r (a, (b, (c, (d, (e, (f, (g, (h, (i, (j, (k, _))))))))))) =
      rw (b, c, d, e, f, g, h, i, j, k)
