-- ===== src/Overview/Access.antt =====
-- The addresses that may reach a database: what is shown is sent again as it is.
use nova_server_manager.Common.{
  ℕ, ◌≡◌, refl, ap, ◌∙◌, Bool, true, false, not, ◌&&◌, Text, codes, some, List, [], ◌∷◌, ◌++◌, map,
  keep, is_empty, join, trim, All, Lacks, split-join, arith, if◌then◌else◌,
}
use nova_server_manager.Types.{NovaApp, DatabaseConnection}
use nova_server_manager.Client.Error.{is_ok}
use nova_server_manager.Client.Request.{Request, load_app, database_access}
use nova_server_manager.Client.Run.{Env, Log, run, requests, effects}
use nova_server_manager.Overview.{Overview, cidrs, line_end, shown_cidrs, initial, save_access}

-- An address that fits on a line: it is not empty, has no separator, and no white space at its ends.
abbrev pub IsAddress : Text → Type 0
IsAddress value =
    (is_empty value ≡ false) × Lacks b',' value × Lacks b'\n' value × (trim value ≡ value)

map-line_end : (t : Text) → Lacks b',' t → map line_end t ≡ t
map-line_end [] h = refl
map-line_end (c ∷ t) (other, h) = rw (other, map-line_end t h) refl

map-line_end-append : (s t : Text) → Lacks b',' s → map line_end (s ++ t) ≡ s ++ map line_end t
map-line_end-append [] t h = refl
map-line_end-append (c ∷ s) t (other, h) = rw (other, map-line_end-append s t h) refl

map-line_end-join :
    (ws : List Text) → All IsAddress ws → map line_end (join (codes "\n") ws) ≡ join (codes "\n") ws
unfolding join
map-line_end-join [] h = refl
map-line_end-join (w ∷ []) ((_, free, _, _), h) = map-line_end w free
map-line_end-join (w ∷ v ∷ ws) ((_, free, _, _), h) =
    map-line_end-append w _ free ∙ ap (λ t. w ++ (b'\n' ∷ t)) (map-line_end-join (v ∷ ws) h)

All-Lacks : (ws : List Text) → All IsAddress ws → All (Lacks b'\n') ws
All-Lacks [] h = tt
All-Lacks (w ∷ ws) ((_, _, free, _), h) = (free, All-Lacks ws h)

keep-trim :
    (ws : List Text) → All IsAddress ws → keep (λ value. not (is_empty value)) (map trim ws) ≡ ws
keep-trim [] h = refl
keep-trim (w ∷ ws) ((full, _, _, same), h) = rw (same, full, keep-trim ws h) refl

cidrs-join :
    (w : Text) (ws : List Text)
    → All IsAddress (w ∷ ws)
    → cidrs (join (codes "\n") (w ∷ ws)) ≡ w ∷ ws
unfolding cidrs
cidrs-join w ws h =
    rw (map-line_end-join (w ∷ ws) h, split-join b'\n' w ws (All-Lacks (w ∷ ws) h))
      (keep-trim (w ∷ ws) h)

module _ (app_id : ℕ) (env : Env) (s : Overview) (l : Log) where
  -- The requests of a change that is accepted or refused.
  abbrev pub access_requests : Bool → List Text → List Request
  access_requests enabled addresses =
      if is_ok (env.answer l (database_access app_id enabled addresses))
      then load_app app_id ∷ database_access app_id enabled addresses ∷ requests l
      else database_access app_id enabled addresses ∷ requests l

  requests-save_access :
      (c : Overview) (enabled : Bool)
      → requests (run env (save_access app_id c enabled) s l).log ≡ (
          if enabled && is_empty (cidrs c.allowed_cidrs)
          then requests l
          else access_requests enabled (if enabled then cidrs c.allowed_cidrs else []))
  unfolding effects save_access requests
  requests-save_access c true = ground arith
  requests-save_access c false = ground arith

  -- If there are addresses that may reach a database, each not empty, without a comma or a line
  -- end and without white space at its ends, then to open the access as the page shows it asks
  -- the server for exactly these addresses, and for the application again if it accepts.
  save_access-initial :
      (app : NovaApp) (d : DatabaseConnection) (w : Text) (ws : List Text)
      → app.database ≡ some d
      → d.allowed_cidrs ≡ w ∷ ws
      → All IsAddress (w ∷ ws)
      → requests (run env (save_access app_id (initial app) true) s l).log
        ≡ access_requests true (w ∷ ws)
  unfolding shown_cidrs
  save_access-initial app d w ws same listed h =
      let text : shown_cidrs app ≡ join (codes "\n") (w ∷ ws) = rw (same, listed) refl in
      let read : cidrs (shown_cidrs app) ≡ w ∷ ws = ap cidrs text ∙ cidrs-join w ws h in
      requests-save_access (initial app) true ∙ rw read refl
