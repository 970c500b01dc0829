-- ===== src/Client/Fetch.antt =====
-- `api` of frontend/src/lib/api.ts: what is sent for a call, and what becomes of the response. The
-- browser's `fetch` is a parameter, and so is `JSON.stringify`.
use nova_server_manager.Common.{
  ℕ, ◌==◌, ◌&&◌, Bool, true, false, not, Text, codes, text_eq, Option, none, some, is_empty, leb,
  ltb, if◌then◌else◌,
}
use nova_server_manager.Client.Json.{
  Json, null, bool, num, str, arr, obj, Fields, end, field, File, Body, absent, text, form, json,
  Method,
}
use nova_server_manager.Client.Message.{Message, plain, error_status}
use nova_server_manager.Client.Error.{Error, api_error, Result, ok, err}

-- What goes to `fetch`, with `credentials: "same-origin"` in every call.
pub data Payload : Type 0 where
  empty : Payload
  content : Text → Payload
  form_data : File → Payload

pub record Sent : Type 0 where
  pub method : Method
  pub url : Text
  pub json_header : Bool
  pub payload : Payload

-- The body of a response is JSON or no JSON.
pub record Response : Type 0 where
  pub status : ℕ
  pub body : Option Json

-- `fetch` rejects where there is no response.
pub data Fetched : Type 0 where
  answered : Response → Fetched
  rejected : Error → Fetched

-- `response.ok`
abbrev pub is_success : ℕ → Bool
is_success status = leb 200 status && ltb status 300

-- `if (body && …)` on a value that is no string and no form.
truthy : Json → Bool
truthy null = false
truthy (bool b) = b
truthy (num n) = not (n == 0)
truthy (str t) = not (is_empty t)
truthy (arr items) = true
truthy (obj fields) = true

-- `fields[name]`: the last field of that name counts, as in `JSON.parse`.
abbrev or_field : Bool → Json → Option Json → Option Json
or_field same value (some v) = some v
or_field same value none = if same then some value else none

unfoldable pub property : Text → Fields → Option Json
property name end = none
property name (field key value rest) = or_field (text_eq key name) value (property name rest)

-- `payload.detail`, where reading it from `null` throws (the outer `none`).
unfoldable pub detail : Json → Option (Option Json)
unfolding property
detail null = none
detail (obj fields) = some (property (codes "detail") fields)
detail _ = some none

module _ (stringify : Json → Text) where
  -- The header and the body that are sent.
  prepare : Body → Bool × Payload
  prepare absent = (false, empty)
  prepare (text t) = (false, content t)
  prepare (form file) = (false, form_data file)
  prepare (json null) = (false, empty)
  prepare (json (str t)) = (false, content t)
  prepare (json j) = (truthy j, content (stringify j))

  -- `typeof payload.detail === "string" ? payload.detail : JSON.stringify(payload.detail ?? payload)`
  unfoldable pub shown : Json → Option Json → Text
  shown payload none = stringify payload
  shown payload (some (str t)) = t
  shown payload (some null) = stringify payload
  shown payload (some j) = stringify j

  explained : ℕ → Json → Option (Option Json) → Message
  explained status payload none = error_status status
  explained status payload (some d) = plain (shown payload d)

  -- The message of a refused call: the status, unless the body is JSON with something to show.
  unfoldable pub failure : Response → Message
  unfolding explained shown detail
  failure r = elim r.body [
    | none ↦ error_status r.status
    | some payload ↦ explained r.status payload (detail payload)
  ]

  -- What the promise of `api` settles to; `none` is `undefined`. `bad_json` is what
  -- `response.json()` rejects with.
  unfoldable pub receive : Error → Response → Result (Option Json)
  receive bad_json r =
      if not (is_success r.status)
      then err (api_error (failure r) r.status)
      else if r.status == 204
      then ok none
      else elim r.body [ none ↦ err bad_json | some payload ↦ ok (some payload) ]

  unfoldable pub settled : Error → Fetched → Result (Option Json)
  settled bad_json (answered r) = receive bad_json r
  settled bad_json (rejected e) = err e

  -- The request that `fetch` gets.
  unfoldable pub outgoing : Method → Text → Body → Sent
  unfolding prepare truthy
  outgoing method url body =
      let (header, payload) = prepare body in
      record { method = method; url = url; json_header = header; payload = payload }

  unfoldable pub api : Error → (Sent → Fetched) → Method → Text → Body → Result (Option Json)
  unfolding settled
  api bad_json fetch method url body = settled bad_json (fetch (outgoing method url body))
