-- ===== src/Overview/Exclusion.antt =====
-- How the flag `publicBusy` of `OverviewTab` guards the changes of the access to a database.
use nova_server_manager.Common.{
  ℕ, ◌≡◌, refl, Bool, true, false, ◌&&◌, is_empty, arith, Bool-cases, inl, inr, if◌then◌else◌,
}
use nova_server_manager.Client.Error.{Result}
use nova_server_manager.Client.Request.{Request, Answer}
use nova_server_manager.Client.Effect.{update, notify, ◌>>=◌}
use nova_server_manager.Client.Keeps.{Keeps, Anything, keeps_rules}
use nova_server_manager.Client.Machine.{Machine, idle, Choices, Reach, here, Reach-trans}
use nova_server_manager.Client.Machine.Exclusion.{Locks, Locks-finally, holders, Reach-Exclusive}
use nova_server_manager.Client.Machine.Draining.{drained, Reach-drained}
use nova_server_manager.Overview.{
  Overview, cidrs, toggle_password, copy_value, type_cidrs, refresh_cidrs, toggle_admin,
  save_access,
}
use nova_server_manager.Overview.Commands.{
  Command, save, switch_admin, copy, type_text, reveal, refresh, enabled, handler,
}

-- The commands that the flag `publicBusy` guards.
abbrev pub changes_access : Command → Bool
changes_access (save e) = true
changes_access _ = false

abbrev pub busy : Overview → Bool
busy s = s.public_busy

save_access-Locks :
    (app_id : ℕ) (s c : Overview) (e : Bool)
    → busy s ≡ false
    → Locks busy (save_access app_id c e) s
unfolding save_access update notify ◌>>=◌
save_access-Locks app_id s c e quiet = elim (Bool-cases (e && is_empty (cidrs c.allowed_cidrs))) [
  | inl refused ↦ rw refused quiet
  | inr sends ↦ rw sends (
      Locks-finally busy _ (λ t. refl) (search keeps_rules depth 12)
        (record s { public_busy = true }) refl)
]

module _ (app_id : ℕ) where
  disables :
      (s : Overview) (c : Command) → changes_access c ≡ true → enabled s c ≡ true → busy s ≡ false
  disables s (save e) g h = ground arith
  disables s _ g h = cc

  locks :
      (s : Overview) (c : Command)
      → changes_access c ≡ true
      → busy s ≡ false
      → Locks busy (handler app_id s c) s
  locks s (save e) g quiet = save_access-Locks app_id s s e quiet
  locks s (switch_admin e) g quiet = cc
  locks s (copy value) g quiet = cc
  locks s (type_text text) g quiet = cc
  locks s reveal g quiet = cc
  locks s (refresh app) g quiet = cc

  frees :
      (s : Overview) (c : Command)
      → changes_access c ≡ false
      → (b : Bool) → Keeps Anything (λ t. busy t ≡ b) (handler app_id s c)
  unfolding toggle_password copy_value type_cidrs refresh_cidrs toggle_admin
  frees s (save e) g b = cc
  frees s (switch_admin e) g b = search keeps_rules depth 12
  frees s (copy value) g b = search keeps_rules depth 12
  frees s (type_text text) g b = search keeps_rules depth 12
  frees s reveal g b = search keeps_rules depth 12
  frees s (refresh app) g b = search keeps_rules depth 12

  -- From a page where no change of the access is in flight, however the controls of one visit of the tab
  -- are used, in whatever order the server answers and whatever it answers, one such change waits for an answer while its
  -- button is disabled, and none while it is not.
  pub access-Exclusive :
      (s : Overview) (m : Machine Overview Command)
      → s.public_busy ≡ false
      → Reach enabled (handler app_id) (idle s) m
      → holders busy changes_access m.tasks ≡ (if m.state.public_busy then 1 else 0)
  access-Exclusive s m quiet r =
      (Reach-Exclusive busy changes_access enabled (handler app_id) disables locks frees quiet r).0

  -- The page after the tasks have run to their ends, one after another, on these answers.
  abbrev pub answered :
      Choices → ((q : Request) → Result (Answer q)) → Machine Overview Command → Overview
  answered choices reply m = drained enabled (handler app_id) choices reply m.tasks m.state

  -- As long as the tab is not left: from every page that its controls lead to from one where no change of the access is in flight, the
  -- answers to what waits, whatever the server and the user answer, lead by themselves to a page on
  -- which nothing waits and the button that changes the access is enabled again.
  pub access_drains :
      (choices : Choices) (reply : (q : Request) → Result (Answer q)) (s : Overview)
      (m : Machine Overview Command)
      → s.public_busy ≡ false
      → Reach enabled (handler app_id) (idle s) m
      → Reach enabled (handler app_id) m (idle (answered choices reply m))
        × ((answered choices reply m).public_busy ≡ false)
  access_drains choices reply s m quiet r =
      let down = Reach-drained enabled (handler app_id) choices reply m.state m.tasks here in
      let count = access-Exclusive s (idle (answered choices reply m)) quiet (Reach-trans r down) in
      (down, ground arith)
