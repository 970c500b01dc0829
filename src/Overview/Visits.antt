-- ===== src/Overview/Visits.antt =====
-- frontend/src/views/app-detail-view.tsx: `tab === "overview" && <OverviewTab …/>`. To choose another tab
-- removes `OverviewTab`, and to come back makes a new one: each visit of the tab is a machine of its own,
-- and the tasks of an earlier visit wait on, with no control of theirs on the screen.
use nova_server_manager.Common.{
  ℕ, ◌≡◌, refl, Bool, true, false, List, [], ◌∷◌, ◌++◌, All, if◌then◌else◌,
}
use nova_server_manager.Types.{NovaApp}
use nova_server_manager.Client.Error.{Result}
use nova_server_manager.Client.Request.{Request, Answer}
use nova_server_manager.Client.Effect.{Prog}
use nova_server_manager.Client.Machine.{
  Task, waiting, Machine, idle, Choices, reached, left, Step, resume, Reach, here, later,
}
use nova_server_manager.Client.Machine.Exclusion.{holders}
use nova_server_manager.Overview.{Overview, initial}
use nova_server_manager.Overview.Commands.{Command, enabled, handler}
use nova_server_manager.Overview.Exclusion.{busy, changes_access, access-Exclusive}

abbrev pub Visit : Type 0
Visit = Machine Overview Command

-- Whether the tab is shown, and its visits, the newest first.
pub record Place : Type 0 where
  pub shown : Bool
  pub visits : List Visit

abbrev pub outset : Place
outset = record { shown = false; visits = [] }

-- To choose the tab, with the application that the page has by then.
unfoldable pub come : NovaApp → Place → Place
come app p = record { shown = true; visits = idle (initial app) ∷ p.visits }

-- To choose another tab.
unfoldable pub leave : Place → Place
leave p = record p { shown = false }

-- How many changes of the access a visit waits for.
abbrev pub changes : Visit → ℕ
changes m = holders busy changes_access m.tasks

abbrev pub IsGuarded : Visit → Type 0
IsGuarded m = changes m ≡ (if m.state.public_busy then 1 else 0)

module _ (app_id : ℕ) where
  pub data Move : Place → Place → Type 0 where
    comes : {p : Place} (app : NovaApp) → p.shown ≡ false → Move p (come app p)
    leaves : {p : Place} → p.shown ≡ true → Move p (leave p)
    -- anything on the tab that is shown
    acts :
        {m n : Visit} (ms : List Visit)
        → Step enabled (handler app_id) m n
        → Move (record { shown = true; visits = m ∷ ms }) (record { shown = true; visits = n ∷ ms })
    -- the answer to what a visit, shown or not, has sent
    hears :
        (b : Bool) (ms ns : List Visit) (s : Overview) (before after : List (Task Overview Command))
        (c : Command) (q : Request) (k : Result (Answer q) → Prog Overview (Unit {0}))
        (choices : Choices) (r : Result (Answer q))
        → Move
            (record {
              shown = b;
              visits = ms ++ record { state = s; tasks = before ++ waiting c q k ∷ after } ∷ ns;
            })
            (record {
              shown = b;
              visits =
                  ms
                  ++ record {
                    state = reached choices (k r) s;
                    tasks = before ++ (left c choices (k r) ++ after);
                  }
                    ∷ ns;
            })

  pub data Arrives : Place → Type 0 where
    at_outset : Arrives outset
    moves : {p q : Place} → Arrives p → Move p q → Arrives q

  -- A visit is what the controls and the answers have made of a new `OverviewTab`.
  abbrev IsVisit : Visit → Type 0
  IsVisit m = (app : NovaApp) × Reach enabled (handler app_id) (idle (initial app)) m

  one_changes :
      (ms ns : List Visit) (m n : Visit)
      → (IsVisit m → IsVisit n)
      → All IsVisit (ms ++ m ∷ ns)
      → All IsVisit (ms ++ n ∷ ns)
  one_changes [] ns m n f (h, hs) = (f h, hs)
  one_changes (v ∷ ms) ns m n f (h, hs) = (h, one_changes ms ns m n f hs)

  Move-IsVisit : {p q : Place} → Move p q → All IsVisit p.visits → All IsVisit q.visits
  unfolding come leave
  Move-IsVisit (comes app e) h = ((app, here), h)
  Move-IsVisit (leaves e) h = h
  Move-IsVisit (acts ms st) ((app, r), h) = ((app, later r st), h)
  Move-IsVisit (hears b ms ns s before after c q k choices r) h =
      one_changes ms ns _ _ (λ v. (v.0, later v.1 (resume before after c q k choices r))) h

  Arrives-IsVisit : {p : Place} → Arrives p → All IsVisit p.visits
  Arrives-IsVisit at_outset = tt
  Arrives-IsVisit (moves t m) = Move-IsVisit m (Arrives-IsVisit t)

  All-IsGuarded : (ms : List Visit) → All IsVisit ms → All IsGuarded ms
  All-IsGuarded [] h = tt
  All-IsGuarded (m ∷ ms) ((app, r), h) =
      (access-Exclusive app_id (initial app) m refl r, All-IsGuarded ms h)

  -- However the user comes to the tab, leaves it and uses its controls, in whatever order the server
  -- answers and whatever it answers, of each visit of the tab one change of the access waits for an
  -- answer while the flag that disables its button is set, and none while it is not; what an earlier
  -- visit waits for does not count for a later one.
  pub visits-IsGuarded : (p : Place) → Arrives p → All IsGuarded p.visits
  visits-IsGuarded p t = All-IsGuarded p.visits (Arrives-IsVisit t)
