-- ===== src/Tests/Tabs.antt =====
-- Tests of the console, the settings and the domains of an application, of the sign-in form and of
-- amounts.
use nova_server_manager.Common.{arith, Text, codes, some, [], ◌∷◌, List, whole}
use nova_server_manager.Types.{NovaApp}
use nova_server_manager.Client.Message.{Message}
use nova_server_manager.Format.{bytes}
use nova_server_manager.Format.Scaling.{IsReadable, bytes-IsReadable}
use nova_server_manager.Tests.{shop}
use nova_server_manager.Tests.Forms.{variables}

abbrev printed : Message → Text
printed message = codes "failed"

abbrev typed : List Text
typed = codes "ls -la" ∷ codes "  " ∷ codes "pwd" ∷ []

abbrev stored : NovaApp
stored = record shop { environment = some variables }

bytes-IsReadable_example : IsReadable 5000000 1 4 (bytes (whole 5000000))
bytes-IsReadable_example = bytes-IsReadable (whole 5000000) (omega arith)
