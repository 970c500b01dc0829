-- ===== src/Calls.antt =====
-- The calls of `api` that a request of a handler stands for: more than one where the source passes them
-- to `Promise.all`. `uploadSource` sends its own, and the clipboard is no call.
pub mod Shape
pub mod Files
pub mod Tabs
pub mod Operations
pub mod Start
pub mod Separation
use nova_server_manager.Common.{List, [], ◌++◌}
use nova_server_manager.Client.Request.{Request}
use nova_server_manager.Calls.Shape.{Call}
use nova_server_manager.Calls.Files.{file_calls}
use nova_server_manager.Calls.Tabs.{tab_calls}
use nova_server_manager.Calls.Operations.{operation_calls}
use nova_server_manager.Calls.Start.{home_calls, sign_in_calls, creation_calls}

abbrev pub calls : Request → List Call
calls q =
    home_calls q
    ++ sign_in_calls q
    ++ creation_calls q
    ++ tab_calls q
    ++ file_calls q
    ++ operation_calls q
