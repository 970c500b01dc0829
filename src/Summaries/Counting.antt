-- ===== src/Summaries/Counting.antt =====
-- The numbers of the summaries fit the lists that they summarise.
use nova_server_manager.Common.{
  ℕ, suc, ◌+◌, ◌≤◌, ◌≡◌, refl, sym, ◌∙◌, ap, ap₂, Bool, not, str_eq, Text, List, [], ◌∷◌, length,
  keep, keep-append, length-append, is_empty, arith, eq_iff, if◌then◌else◌, String, Bool-cases, inl,
  inr, ◌||◌,
}
use nova_server_manager.Types.{NovaApp, Deployment}
use nova_server_manager.Dashboard.{is_active}
use nova_server_manager.Summaries.{active, completed, failed, DomainRow, rows_from, domain_rows}

abbrev one : Bool → ℕ
one b = if b then 1 else 0

length-keep_step :
    {A : Type 0} (p : A → Bool) (x : A) (xs : List A)
    → length (keep p (x ∷ xs)) ≡ one (p x) + length (keep p xs)
length-keep_step p x xs = ground arith

-- A status passes at most one of the three tests.
statuses_exclude :
    (s : String)
    → one (str_eq s "queued" || str_eq s "running")
        + one (str_eq s "completed")
        + one (str_eq s "failed")
      ≤ 1
statuses_exclude s = elim (Bool-cases (str_eq s "completed")) [
  | inl e ↦ rw ((eq_iff s "completed").0 e) (omega arith)
  | inr n ↦ elim (Bool-cases (str_eq s "failed")) [
    | inl e ↦ rw ((eq_iff s "failed").0 e) (omega arith)
    | inr m ↦ rw (n, m) (ground arith)
  ]
]

-- No deployment is counted twice: active, completed and failed ones are at most all.
counts_fit : (ds : List Deployment) → active ds + completed ds + failed ds ≤ length ds
unfolding active completed failed
counts_fit [] = omega arith
counts_fit (d ∷ ds) = omega (
  arith,
  counts_fit ds,
  statuses_exclude d.status,
  length-keep_step is_active d ds,
  length-keep_step (λ item. str_eq item.status "completed") d ds,
  length-keep_step (λ item. str_eq item.status "failed") d ds,
)

abbrev pub primaries : List DomainRow → List DomainRow
primaries rows = keep (λ row. row.primary) rows

later_rows : (app : NovaApp) (n : ℕ) (ds : List Text) → primaries (rows_from app (suc n) ds) ≡ []
unfolding rows_from
later_rows app n [] = refl
later_rows app n (d ∷ ds) = ground (arith, later_rows app (suc n) ds)

length-primaries_of :
    (app : NovaApp) (domains : List Text)
    → length (primaries (rows_from app 0 domains)) ≡ one (not (is_empty domains))
unfolding rows_from
length-primaries_of app [] = refl
length-primaries_of app (d ∷ ds) = ap (λ rows. suc (length rows)) (later_rows app 0 ds)

-- Each application with domains has one primary row, and no other application has one.
primaries-domain_rows :
    (apps : List NovaApp)
    → length (primaries (domain_rows apps)) ≡ length (keep (λ app. not (is_empty app.domains)) apps)
unfolding domain_rows
primaries-domain_rows [] = refl
primaries-domain_rows (app ∷ apps) =
    ap length (keep-append (λ row. row.primary) (rows_from app 0 app.domains) (domain_rows apps))
    ∙ length-append (primaries (rows_from app 0 app.domains)) (primaries (domain_rows apps))
    ∙ ap₂ ◌+◌ (length-primaries_of app app.domains) (primaries-domain_rows apps)
    ∙ sym (length-keep_step (λ item. not (is_empty item.domains)) app apps)
