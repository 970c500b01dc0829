-- ===== src/Tests/Server.antt =====
-- Tests of the calls of the panel's API and of an upload.
use nova_server_manager.Common.{
  text_eq, ◌≡◌, ◌↔◌, ◌<◌, ◌≤◌, ◌⊎◌, refl, arith, true, false, Text, codes, some, none, List, [],
  ◌∷◌, All, whole,
}
use nova_server_manager.Client.Message.{plain}
use nova_server_manager.Client.Error.{ok, err, api_error, thrown}
use nova_server_manager.Client.Json.{Json, num, str, obj, end, field, get, absent}
use nova_server_manager.Client.Fetch.{
  Sent, Response, Fetched, answered, empty, receive, property, detail, shown, api, failure,
}
use nova_server_manager.Client.Settling.{Delivers, api-ok_iff, api-error}
use nova_server_manager.Client.Upload.{UploadEvent, progressed, sent_all, responded, upload_steps}
use nova_server_manager.Client.Upload.Reports.{IsSound, upload_steps-IsSound}
use nova_server_manager.Tests.{archive}

abbrev print : Json → Text
print j = codes "{}"

-- A server that counts, and one that refuses with an explanation.
abbrev counting : Sent → Fetched
counting s = answered (record { status = 200; body = some (num 7) })

abbrev denial : Response
denial = record {
  status = 404;
  body = some (obj (field (codes "detail") (str (codes "gone")) end));
}

abbrev denying : Sent → Fetched
denying s = answered denial

api-ok_iff_example : (api print thrown counting get (codes "/api/n") absent ≡ ok (some (num 7))) ↔ (
    (r : Response) × (counting
        (record { method = get; url = codes "/api/n"; json_header = false; payload = empty })
      ≡ answered r)
    × Delivers print thrown r (some (num 7)))
api-ok_iff_example = api-ok_iff print thrown counting get (codes "/api/n") absent (some (num 7))

denied :
    api print thrown denying get (codes "/api/n") absent
    ≡ err (api_error (plain (codes "gone")) 404)
unfolding api receive property detail shown failure text_eq
denied = refl

api-error_example :
    (r : Response) × (answered denial ≡ answered r)
    × (404 ≡ r.status)
    × ((404 < 200) ⊎ (300 ≤ 404))
    × (plain (codes "gone") ≡ failure print r)
api-error_example =
    api-error print thrown denying get (codes "/api/n") absent (plain (codes "gone")) 404 tt
      (λ e h. cc) denied

abbrev transfer : List UploadEvent
transfer =
    progressed true 200 500 (whole 1)
    ∷ progressed true 500 500 (whole 2)
    ∷ sent_all (whole 2)
    ∷ responded 200 none
    ∷ []

upload_steps-IsSound_example : All IsSound (upload_steps print archive transfer)
upload_steps-IsSound_example = upload_steps-IsSound print archive transfer (
  (omega arith, omega arith, omega arith),
  ((omega arith, omega arith, omega arith), (omega arith, (tt, tt))),
)
