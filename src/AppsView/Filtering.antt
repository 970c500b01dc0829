-- ===== src/AppsView/Filtering.antt =====
-- Which applications the list shows, and in which order.
use nova_server_manager.Common.{
  ℕ, ◌≤◌, ◌≡◌, ◌≢◌, Ordering, true, eq_iff, Text, List, [], ◌∷◌, keep, All, sort_by-perm,
  sort_by-IsSorted, IsSorted, IsPreorder, not_after, arith,
}
use mathlib.Core.List.{Perm}
use nova_server_manager.Types.{NovaApp}
use nova_server_manager.AppsView.{
  Filters, AppSort, newest, by_name, by_usage, matches, memory_used, compare_apps, filtered,
}

module _ (collate : Text → Text → Ordering) (parse_date : Text → ℕ) where
  -- `a` may stand before `b`.
  abbrev pub InOrder : AppSort → NovaApp → NovaApp → Type 0
  InOrder by_name a b = not_after (collate a.display_name b.display_name) ≡ true
  InOrder by_usage a b = memory_used b ≤ memory_used a
  InOrder newest a b = parse_date b.created_at ≤ parse_date a.created_at

  abbrev pub IsOrdered : AppSort → List NovaApp → Type 0
  IsOrdered sort [] = Unit
  IsOrdered sort (x ∷ xs) = All (InOrder sort x) xs × IsOrdered sort xs

module _ (lower : Text → Text) (collate : Text → Text → Ordering) (parse_date : Text → ℕ)
    (o : IsPreorder collate) where
  compare_apps-IsPreorder :
      (sort : AppSort) → IsPreorder (compare_apps lower collate parse_date sort)
  unfolding compare_apps
  compare_apps-IsPreorder by_name = record {
    total = λ a b h. o.total a.display_name b.display_name h;
    transitive = λ a b c h k. o.transitive a.display_name b.display_name c.display_name h k;
  }
  compare_apps-IsPreorder by_usage = record {
    total = λ a b h. ground arith;
    transitive = λ a b c h k. ground arith;
  }
  compare_apps-IsPreorder newest = record {
    total = λ a b h. ground arith;
    transitive = λ a b c h k. ground arith;
  }

  InOrder-compare_apps :
      (sort : AppSort) (a b : NovaApp)
      → not_after (compare_apps lower collate parse_date sort a b) ≡ true
      → InOrder collate parse_date sort a b
  unfolding compare_apps
  InOrder-compare_apps by_name a b h = h
  InOrder-compare_apps by_usage a b h = ground arith
  InOrder-compare_apps newest a b h = ground arith

  All-InOrder :
      (sort : AppSort) (x : NovaApp) (xs : List NovaApp)
      → All (λ y. not_after (compare_apps lower collate parse_date sort x y) ≡ true) xs
      → All (InOrder collate parse_date sort x) xs
  All-InOrder sort x [] h = tt
  All-InOrder sort x (y ∷ ys) (h, hs) = (InOrder-compare_apps sort x y h, All-InOrder sort x ys hs)

  IsOrdered-IsSorted :
      (sort : AppSort) (xs : List NovaApp)
      → IsSorted (compare_apps lower collate parse_date sort) xs
      → IsOrdered collate parse_date sort xs
  IsOrdered-IsSorted sort [] h = tt
  IsOrdered-IsSorted sort (x ∷ xs) (h, hs) =
      (All-InOrder sort x xs h, IsOrdered-IsSorted sort xs hs)

  -- The list shows the applications that match, each as often as it is there, in the chosen
  -- order, if the browser's comparison of texts is a preorder.
  pub filtered-IsOrdered :
      (f : Filters) (apps : List NovaApp)
      → Perm
          (filtered lower collate parse_date f apps)
          (keep (matches lower collate parse_date f) apps)
        × IsOrdered collate parse_date f.sort (filtered lower collate parse_date f apps)
  unfolding filtered
  filtered-IsOrdered f apps =
      let matching : List NovaApp = keep (matches lower collate parse_date f) apps in
      (
        sort_by-perm (compare_apps lower collate parse_date f.sort) matching,
        IsOrdered-IsSorted f.sort _ (
            sort_by-IsSorted (compare_apps lower collate parse_date f.sort)
              (compare_apps-IsPreorder f.sort) matching),
      )

  -- What is shown under a filter for a status other than `all` has that status.
  matches-status :
      (f : Filters) (app : NovaApp)
      → f.status ≢ "all"
      → matches lower collate parse_date f app ≡ true
      → app.status ≡ f.status
  unfolding matches
  matches-status f app chosen h = ground (arith, eq_iff f.status "all", eq_iff app.status f.status)
