-- ===== src/Console/Overlaps.antt =====
-- The console while its handlers overlap: the button that executes is disabled while a command runs, and
-- the logs may be read and a command be typed at any time.
use nova_server_manager.Common.{
  ℕ, ◌≡◌, refl, sym, ap, ◌∙◌, Bool, true, false, not, Text, is_empty, trim, codes, [], ◌++◌, arith,
  Bool-cases, inl, inr, if◌then◌else◌,
}
use mathlib.Core.List.{append_assoc, append-nil}
use nova_server_manager.Client.Message.{Message}
use nova_server_manager.Client.Effect.{Prog, update, skip, ◌>>=◌}
use nova_server_manager.Client.Keeps.{Keeps, Anything, keeps_rules}
use nova_server_manager.Client.Machine.{Machine, idle, Reach}
use nova_server_manager.Client.Machine.Invariants.{Reach-Steady}
use nova_server_manager.Client.Machine.Exclusion.{Locks, Locks-finally, holders, Reach-Exclusive}
use nova_server_manager.Console.{Shell, print, load, execute, type_command}

pub data Command : Type 0 where
  run read_logs : Command
  type : Text → Command

abbrev pub enabled : Shell → Command → Bool
enabled s run = not s.busy
enabled s _ = true

abbrev pub runs : Command → Bool
runs run = true
runs _ = false

abbrev pub at_work : Shell → Bool
at_work s = s.busy

-- The output begins with a text.
abbrev pub IsGrown : Text → Shell → Type 0
IsGrown first s = (more : Text) × (s.output ≡ first ++ more)

module _ (printed : Message → Text) (app_id : ℕ) where
  abbrev pub handler : Shell → Command → Prog Shell (Unit {0})
  handler s run = execute printed app_id s
  handler s read_logs = load printed app_id
  handler s (type text) = type_command text

  execute-Locks : (s c : Shell) → at_work s ≡ false → Locks at_work (execute printed app_id c) s
  unfolding execute update skip ◌>>=◌
  execute-Locks s c quiet = elim (Bool-cases (is_empty (trim c.command))) [
    | inl blank ↦ rw blank quiet
    | inr sends ↦
        rw sends (Locks-finally at_work _ (λ t. refl) (search keeps_rules depth 12) _ refl)
  ]

  disables : (s : Shell) (c : Command) → runs c ≡ true → enabled s c ≡ true → at_work s ≡ false
  disables s run g h = ground arith
  disables s _ g h = cc

  locks :
      (s : Shell) (c : Command) → runs c ≡ true → at_work s ≡ false → Locks at_work (handler s c) s
  locks s run g quiet = execute-Locks s s quiet
  locks s read_logs g quiet = cc
  locks s (type text) g quiet = cc

  frees :
      (s : Shell) (c : Command)
      → runs c ≡ false
      → (b : Bool) → Keeps Anything (λ t. at_work t ≡ b) (handler s c)
  unfolding load type_command
  frees s run g b = cc
  frees s read_logs g b = search keeps_rules depth 12
  frees s (type text) g b = search keeps_rules depth 12

  grows : (first text : Text) (s : Shell) → IsGrown first s → IsGrown first (print text s)
  grows first text s (more, e) = (
    more ++ (text ++ codes "\n"),
    ap (λ (t : Text). t ++ (text ++ codes "\n")) e ∙ append_assoc first more _,
  )

  handler-IsGrown :
      (first : Text) (s : Shell) (c : Command) → Keeps Anything (IsGrown first) (handler s c)
  unfolding execute load type_command
  handler-IsGrown first s run = search (keeps_rules, grows) depth 14
  handler-IsGrown first s read_logs = search keeps_rules depth 12
  handler-IsGrown first s (type text) = search keeps_rules depth 12

  -- As long as the tab is not left: from a console where no command runs, however its controls are
  -- used, in whatever order the server answers and whatever it answers, one command waits for its answer while the button is disabled,
  -- and none while it is not; and what was printed stays, with what comes after it.
  pub console-IsGrown :
      (s : Shell) (m : Machine Shell Command)
      → s.busy ≡ false
      → Reach enabled handler (idle s) m
      → (holders at_work runs m.tasks ≡ (if m.state.busy then 1 else 0)) × IsGrown s.output m.state
  console-IsGrown s m quiet r = (
    (Reach-Exclusive at_work runs enabled handler disables locks frees quiet r).0,
    (Reach-Steady (IsGrown s.output) enabled handler (λ t c _. handler-IsGrown s.output t c) r
        (([], sym (append-nil s.output)), tt)).0,
  )
