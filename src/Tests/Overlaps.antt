-- ===== src/Tests/Overlaps.antt =====
-- Tests of what is in flight at the same time, and of sessions of the file manager.
use nova_server_manager.Common.{
  ◌≡◌, refl, inl, inr, true, false, codes, Text, some, none, List, [], ◌∷◌, ◌++◌, get_elem?, All,
  if◌then◌else◌,
}
use nova_server_manager.Types.{BackupSchedule, hours, local}
use nova_server_manager.Client.Request.{Request, list_files, Listing, deploy_app}
use nova_server_manager.Client.Run.{Log}
use nova_server_manager.Client.Machine.{Machine, idle, Reach, here, later, start, reached, left}
use nova_server_manager.Client.Machine.Exclusion.{holders}
use nova_server_manager.Files.State.{Manager, initial}
use nova_server_manager.Files.Session.{
  Command, session, handler, go_root, go_parent, go_back, go_forward, open_row, refresh,
}
use nova_server_manager.Files.Controls.{enabled}
use nova_server_manager.Files.Sync.{Lists}
use nova_server_manager.Files.Trail.{Trail, follow_all, Represents}
use nova_server_manager.Files.Refinement.{session-follows}
use nova_server_manager.Files.Races.{forward_race}
use nova_server_manager.Files.Rooted.{IsRooted, history-IsRooted}
use nova_server_manager.Client.Message.{Message}
use nova_server_manager.Console.{Shell}
use nova_server_manager.Console.Overlaps as Terminal
use nova_server_manager.Overview.{Overview, initial as unopened}
use nova_server_manager.Overview.Exclusion.{answered, access_drains}
use nova_server_manager.Overview.Visits.{
  Place, come, leave, Arrives, at_outset, moves, comes, leaves, acts, IsGuarded, visits-IsGuarded,
}
use nova_server_manager.Backups
use nova_server_manager.Page
use nova_server_manager.Page.{Home, refresh_base}
use nova_server_manager.Page.Commands as Main
use nova_server_manager.Page.Overlaps.{IsMeasured, home-IsMeasured, logout_race}
use nova_server_manager.AppDetail
use nova_server_manager.AppDetail.{Detail}
use nova_server_manager.AppDetail.Commands as Controls
use nova_server_manager.AppDetail.Overlaps.{all_awaited, deploy_twice}
use nova_server_manager.Backups.{Backups}
use nova_server_manager.Backups.Scheduling as Operations
use nova_server_manager.Client.Effect.{update, request, ◌>>=◌}
use nova_server_manager.Overview.Commands as Access
use nova_server_manager.Tests.{
  lower, collate, lively, answers, agrees, folder, admin, shop, idle as metrics,
}

lively-Lists : (l : Log) (q : Request) → Lists q (lively.answer l q)
lively-Lists l (list_files app_id path) = refl
lively-Lists l _ = tt

-- Into a folder, into one of it, back twice, forward, and up.
abbrev steps : List Command
steps =
    open_row (folder (codes "a"))
    ∷ open_row (folder (codes "a/b"))
    ∷ go_back
    ∷ go_back
    ∷ go_forward
    ∷ refresh
    ∷ go_parent
    ∷ []

abbrev top : Trail
top = record { behind = []; shown = []; ahead = [] }

session-follows_example :
    Represents (session lower collate 12 lively steps initial []).state (follow_all steps top)
session-follows_example =
    session-follows lower collate 12 lively lively-Lists steps initial [] top (refl, refl, refl)

-- One folder is ahead.
abbrev gone_back : Manager
gone_back = record initial { history = [] ∷ codes "a" ∷ [] }

abbrev listing : Listing
listing = record { path = codes "a"; items = [] }

abbrev root_listing : Listing
root_listing = record { path = []; items = [] }

forward_race_example :
    (m : Machine Manager Command) × Reach (enabled 12) (handler lower collate 12) (idle gone_back) m
    × (m.tasks ≡ [])
    × (m.state.path ≡ codes "a")
    × (get_elem? m.state.history m.state.history_index ≡ some [])
forward_race_example =
    forward_race lower collate 12 agrees gone_back (codes "a") refl listing root_listing

abbrev quiet : Overview
quiet = record {
  show_password = false;
  admin_busy = false;
  public_busy = false;
  allowed_cidrs = codes "::1";
}

-- The access is being opened.
abbrev saving : Machine Overview Access.Command
saving = record {
  state = reached agrees (Access.handler 12 quiet (Access.save true)) quiet;
  tasks = left (Access.save true) agrees (Access.handler 12 quiet (Access.save true)) ++ [];
}

reach_saving : Reach Access.enabled (Access.handler 12) (idle quiet) saving
reach_saving = later here (start (Access.save true) agrees refl)

-- The access is being closed when the user leaves the tab and comes back.
abbrev returned : Place
returned = come shop (
    leave (record {
      shown = true;
      visits =
          record {
            state =
                reached agrees (Access.handler 12 (unopened shop) (Access.save false))
                  (unopened shop);
            tasks =
                left (Access.save false) agrees
                  (Access.handler 12 (unopened shop) (Access.save false))
                ++ [];
          }
          ∷ [];
    }))

arrives_back : Arrives 12 returned
unfolding come leave
arrives_back =
    moves
      (moves
        (moves (moves at_outset (comes shop refl))
          (acts [] (start (Access.save false) agrees refl)))
        (leaves refl))
      (comes shop refl)

visits-IsGuarded_example : All IsGuarded returned.visits
visits-IsGuarded_example = visits-IsGuarded 12 returned arrives_back

access_drains_example :
    Reach Access.enabled (Access.handler 12) saving (idle (answered 12 agrees answers saving))
    × ((answered 12 agrees answers saving).public_busy ≡ false)
access_drains_example = access_drains 12 agrees answers quiet saving refl reach_saving

-- The server stores every schedule.
abbrev every_night : BackupSchedule
every_night = record {
  id = 4;
  app_id = 12;
  enabled = true;
  destination = local;
  interval_value = 24;
  interval_unit = hours;
  retention = 7;
  last_run = none;
  next_run = none;
}

-- The dialog of a schedule is opened while the backups are loaded.
abbrev opening : Machine Backups Operations.Command
opening = record {
  state = record Backups.initial { editing_schedule = some every_night; schedule_open = true };
  tasks = [] ++ (left Operations.refresh agrees Backups.load ++ []);
}

reach_opening : Reach (λ t c. true) (Operations.handler []) (idle Backups.initial) opening
unfolding reached left Backups.load Backups.open_schedule update request ◌>>=◌
reach_opening =
    later (later here (start Operations.refresh agrees refl))
      (start (Operations.schedule (some every_night)) agrees refl)

schedule-IsConsistent_example : Operations.IsConsistent opening.state
schedule-IsConsistent_example =
    Operations.schedule-IsConsistent [] Backups.initial opening (inr refl) reach_opening

abbrev home : Home
home = record Page.initial { booting = false; user = some admin }

abbrev data_asked : Machine Home Main.Command
data_asked = record { state = home; tasks = left Main.tick agrees refresh_base ++ [] }

reach_data_asked : Reach Main.enabled Main.handler (idle home) data_asked
unfolding reached left refresh_base request ◌>>=◌
reach_data_asked = later here (start Main.tick agrees refl)

home-IsMeasured_example : IsMeasured data_asked.state
home-IsMeasured_example = home-IsMeasured home data_asked (inl refl) reach_data_asked

logout_race_example :
    (m : Machine Home Main.Command) × Reach Main.enabled Main.handler (idle home) m
    × (m.tasks ≡ [])
    × (m.state.user ≡ none)
    × (m.state.apps ≡ shop ∷ [])
    × (m.state.metrics ≡ some metrics)
logout_race_example = logout_race agrees home admin refl (shop ∷ []) metrics [] []

abbrev shown_shop : Detail
shown_shop = record AppDetail.initial { app = some shop }

deploy_twice_example :
    (m : Machine Detail Controls.Command) × Reach Controls.enabled
      (Controls.handler 12)
      (idle shown_shop)
      m
    × (all_awaited m.tasks ≡ deploy_app 12 ∷ deploy_app 12 ∷ [])
unfolding AppDetail.can_deploy
deploy_twice_example = deploy_twice 12 agrees shown_shop shop refl refl refl

-- The root is being listed.
abbrev at_root : Machine Manager Command
at_root = record {
  state = reached agrees (handler lower collate 12 gone_back go_root) gone_back;
  tasks = left go_root agrees (handler lower collate 12 gone_back go_root) ++ [];
}

reach_at_root : Reach (enabled 12) (handler lower collate 12) (idle gone_back) at_root
unfolding enabled
reach_at_root = later here (start go_root agrees refl)

history-IsRooted_example : IsRooted at_root.state
history-IsRooted_example =
    history-IsRooted lower collate 12 gone_back at_root (codes "a" ∷ [], refl) reach_at_root

abbrev typed_ls : Shell
typed_ls = record { logs = []; command = codes "ls"; output = codes "$"; busy = false }

abbrev printed : Message → Text
printed message = codes "error"

-- A command is running.
abbrev working : Machine Shell Terminal.Command
working = record {
  state = reached agrees (Terminal.handler printed 12 typed_ls Terminal.run) typed_ls;
  tasks = left Terminal.run agrees (Terminal.handler printed 12 typed_ls Terminal.run) ++ [];
}

reach_working : Reach Terminal.enabled (Terminal.handler printed 12) (idle typed_ls) working
reach_working = later here (start Terminal.run agrees refl)

console-IsGrown_example :
    (holders Terminal.at_work Terminal.runs working.tasks ≡ (if working.state.busy then 1 else 0))
    × Terminal.IsGrown (codes "$") working.state
console-IsGrown_example = Terminal.console-IsGrown printed 12 typed_ls working refl reach_working
