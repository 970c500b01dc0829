-- ===== src/Server/Retention/Newest.antt =====
-- Which backups the retention leaves.
use nova_server_manager.Common.{
  ℕ, zero, suc, ◌≡◌, refl, ap, sym, Bool, true, false, not, ◌&&◌, ◌==◌, ==_iff, List, [], ◌∷◌, keep,
  take, drop, any, Bool-cases, inl, inr, arith, any-later, any-sort_by, sort_by-keep, IsUnlike,
  sort_by-IsUnlike, IsPreorder, All, All-weaken, All-every, IsSorted, sort_by-IsSorted, not_after,
  ◌≤◌,
}
use mathlib.Core.Path.{◌∙◌, subst}
use nova_server_manager.Server.Retention.{
  BackupRow, ScheduleRow, BackupStore, is_completed, newer_first, completed_backups, expired,
  has_id, enforce_retention,
}

-- No two rows have the same identifier.
abbrev same_id : BackupRow → BackupRow → Bool
same_id a b = b.id == a.id

abbrev pub IsKeyed : List BackupRow → Type 0
IsKeyed rows = IsUnlike newer_first same_id rows

same_id_sym : (a b : BackupRow) → same_id a b ≡ same_id b a
same_id_sym a b = ground arith

newer_first-IsPreorder : IsPreorder newer_first
newer_first-IsPreorder = record {
  total = λ a b h. ground arith;
  transitive = λ a b c h k. ground arith;
}

any-keep-false :
    (p q : BackupRow → Bool) (xs : List BackupRow) → any p xs ≡ false → any p (keep q xs) ≡ false
any-keep-false p q [] h = refl
any-keep-false p q (x ∷ xs) h = ground (arith, any-keep-false p q xs)

any-drop :
    (p : BackupRow → Bool) (n : ℕ) (xs : List BackupRow)
    → any p xs ≡ false
    → any p (drop n xs) ≡ false
any-drop p zero xs h = h
any-drop p (suc n) [] h = h
any-drop p (suc n) (x ∷ xs) h = any-drop p n xs (ground arith)

-- Rows that are all among these, by their identifiers.
abbrev AreAmong : List BackupRow → List BackupRow → Type 0
AreAmong all_rows rows = All (λ b. has_id all_rows b.id ≡ true) rows

among_self : (rows : List BackupRow) → AreAmong rows rows
among_self [] = tt
among_self (b ∷ rows) = (
  rw ((==_iff b.id b.id).1 refl) refl,
  All-weaken _ _ (λ c h. any-later (λ x. x.id == c.id) b rows h) rows (among_self rows),
)

keep-none :
    (p : BackupRow → Bool) (rows : List BackupRow) → All (λ b. p b ≡ false) rows → keep p rows ≡ []
keep-none p [] h = refl
keep-none p (b ∷ rows) (q, h) = rw (q, keep-none p rows h) refl

gone-among : (rows : List BackupRow) → keep (λ b. not (has_id rows b.id)) rows ≡ []
gone-among rows = keep-none _ rows (All-weaken _ _ (λ b h. rw h refl) rows (among_self rows))

-- To leave out the last rows by their identifiers leaves the first ones.
keep-take :
    (n : ℕ) (rows : List BackupRow)
    → IsKeyed rows
    → keep (λ b. not (has_id (drop n rows) b.id)) rows ≡ take n rows
keep-take zero rows h = gone-among rows
keep-take (suc n) [] h = refl
keep-take (suc n) (b ∷ rows) (new, h) =
    rw (any-drop (λ c. c.id == b.id) n rows new) (ap (◌∷◌ b) (keep-take n rows h))

keep-swap :
    (p q : BackupRow → Bool) (rows : List BackupRow) → keep p (keep q rows) ≡ keep q (keep p rows)
keep-swap p q [] = refl
keep-swap p q (b ∷ rows) = ground (arith, keep-swap p q rows)

keep-IsKeyed : (p : BackupRow → Bool) (rows : List BackupRow) → IsKeyed rows → IsKeyed (keep p rows)
keep-IsKeyed p [] h = tt
keep-IsKeyed p (x ∷ rows) (new, h) = elim (Bool-cases (p x)) [
  | inl kept ↦ rw kept (any-keep-false (λ c. c.id == x.id) p rows new, keep-IsKeyed p rows h)
  | inr gone ↦ rw gone (keep-IsKeyed p rows h)
]

unlike-All :
    (b : BackupRow) (rows : List BackupRow)
    → has_id rows b.id ≡ false
    → All (λ c. (c.id == b.id) ≡ false) rows
unlike-All b [] h = tt
unlike-All b (c ∷ rows) h = (ground arith, unlike-All b rows (ground arith))

shift-free :
    (p : BackupRow → Bool) (x : BackupRow) (kept rows : List BackupRow)
    → All (λ c. (c.id == x.id) ≡ false) rows
    → All (λ b. (not (p b) && has_id kept b.id) ≡ false) rows
    → All (λ b. (not (p b) && has_id (x ∷ kept) b.id) ≡ false) rows
shift-free p x kept [] h k = tt
shift-free p x kept (b ∷ rows) (differs, h) (free, k) =
    (rw (same_id_sym b x, differs) free, shift-free p x kept rows h k)

-- A row that is not among the kept ones has not the identifier of one of them.
others-free :
    (p : BackupRow → Bool) (rows : List BackupRow)
    → IsKeyed rows
    → All (λ b. (not (p b) && has_id (keep p rows) b.id) ≡ false) rows
others-free p [] h = tt
others-free p (x ∷ rows) (new, h) = elim (Bool-cases (p x)) [
  | inl it ↦
      let all_kept : keep p (x ∷ rows) ≡ x ∷ keep p rows = rw it refl in
      (
        rw it refl,
        subst (λ kept. All (λ b. (not (p b) && has_id kept b.id) ≡ false) rows) (sym all_kept)
            (shift-free p x (keep p rows) rows (unlike-All x rows new) (others-free p rows h)),
      )
  | inr other ↦
      let all_kept : keep p (x ∷ rows) ≡ keep p rows = rw other refl in
      (
        rw other (any-keep-false (λ c. c.id == x.id) p rows new),
        subst (λ kept. All (λ b. (not (p b) && has_id kept b.id) ≡ false) rows) (sym all_kept)
            (others-free p rows h),
      )
]

keep-other :
    (p q : BackupRow → Bool) (rows : List BackupRow)
    → All (λ b. (not (p b) && q b) ≡ false) rows
    → keep (λ b. not (p b)) (keep (λ b. not (q b)) rows) ≡ keep (λ b. not (p b)) rows
keep-other p q [] h = refl
keep-other p q (x ∷ rows) (free, h) = ground (arith, keep-other p q rows h)

All-both :
    (P Q : BackupRow → Type 0) (rows : List BackupRow)
    → All P rows
    → All Q rows
    → All (λ b. P b × Q b) rows
All-both P Q [] h k = tt
All-both P Q (b ∷ rows) (p, h) (q, k) = ((p, q), All-both P Q rows h k)

All-drop :
    (P : BackupRow → Type 0) (n : ℕ) (rows : List BackupRow) → All P rows → All P (drop n rows)
All-drop P zero rows h = h
All-drop P (suc n) [] h = h
All-drop P (suc n) (b ∷ rows) (p, h) = All-drop P n rows h

no_older : (a b : BackupRow) → not_after (newer_first a b) ≡ true → b.created_at ≤ a.created_at
no_older a b h = ground arith

-- In sorted rows, those that are left out are not newer than those that are kept.
IsSorted-split :
    (n : ℕ) (rows : List BackupRow)
    → IsSorted newer_first rows
    → All (λ old. All (λ b. old.created_at ≤ b.created_at) (take n rows)) (drop n rows)
IsSorted-split zero rows h = All-every _ (λ old. tt) rows
IsSorted-split (suc n) [] h = tt
IsSorted-split (suc n) (b ∷ rows) (first, h) =
    All-both _ _ (drop n rows)
      (All-drop _ n rows (All-weaken _ _ (λ old. no_older b old) rows first))
      (IsSorted-split n rows h)

narrow : (a b c : Bool) → (a && b) ≡ false → b ≡ true → (a && c) ≡ false
narrow true b c h k = cc
narrow false b c h k = refl

expired-free :
    (schedule : ScheduleRow) (rows : List BackupRow) (b : BackupRow)
    → (not (is_completed schedule.app_id b)
        && has_id (keep (is_completed schedule.app_id) rows) b.id)
      ≡ false
    → (not (is_completed schedule.app_id b) && has_id (expired schedule rows) b.id) ≡ false
expired-free schedule rows b free =
    elim (Bool-cases (has_id (keep (is_completed schedule.app_id) rows) b.id)) [
      | inr no_one ↦
          rw
            (any-drop (λ c. c.id == b.id) schedule.retention
              (completed_backups schedule.app_id rows)
              (any-sort_by newer_first (λ c. c.id == b.id)
                  (keep (is_completed schedule.app_id) rows)
                ∙ no_one))
            (ground arith)
      | inl some_one ↦ narrow _ _ _ free some_one
    ]

-- Where no two rows have the same identifier, the completed_backups backups of the schedule's application that
-- are left are the newest ones, as many as the schedule says, or all that there are; every other
-- backup is left as it is. None of those that are removed is newer than one that is left.
pub enforce_retention-newest :
    (schedule : ScheduleRow) (s : BackupStore)
    → IsKeyed s.rows
    → (completed_backups schedule.app_id (enforce_retention schedule s).rows
        ≡ take schedule.retention (completed_backups schedule.app_id s.rows))
      × (keep (λ b. not (is_completed schedule.app_id b)) (enforce_retention schedule s).rows
          ≡ keep (λ b. not (is_completed schedule.app_id b)) s.rows)
      × All
          (λ old.
            All
              (λ b. old.created_at ≤ b.created_at)
              (take schedule.retention (completed_backups schedule.app_id s.rows)))
          (expired schedule s.rows)
unfolding enforce_retention
enforce_retention-newest schedule s h =
    let p = is_completed schedule.app_id in
    let keyed =
      sort_by-IsUnlike newer_first same_id same_id_sym (keep p s.rows) (keep-IsKeyed p s.rows h) in
    (
      rw
          (
            keep-swap p (λ b. not (has_id (expired schedule s.rows) b.id)) s.rows,
            sort_by-keep newer_first newer_first-IsPreorder
                (λ b. not (has_id (expired schedule s.rows) b.id)) (keep p s.rows),
          )
          (keep-take schedule.retention (completed_backups schedule.app_id s.rows) keyed),
      keep-other p (λ b. has_id (expired schedule s.rows) b.id) s.rows
          (All-weaken _ _ (λ b free. expired-free schedule s.rows b free) s.rows
            (others-free p s.rows h)),
      IsSorted-split schedule.retention (completed_backups schedule.app_id s.rows)
          (sort_by-IsSorted newer_first newer_first-IsPreorder (keep p s.rows)),
    )
