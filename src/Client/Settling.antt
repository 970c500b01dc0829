-- ===== src/Client/Settling.antt =====
-- When a call of the panel's API succeeds, and what an error of it says.
use nova_server_manager.Common.{
  ℕ, ◌<◌, ◌≤◌, ◌≡◌, ◌≢◌, refl, ◌↔◌, ◌⊎◌, Text, Option, none, some, arith,
}
use nova_server_manager.Client.Json.{Json, null, Body, Method}
use nova_server_manager.Client.Message.{Message, error_status}
use nova_server_manager.Client.Error.{Error, api_error, ok, err}
use nova_server_manager.Client.Fetch.{
  Response, Fetched, answered, rejected, Sent, failure, receive, settled, outgoing, api,
}

-- No `ApiError`.
abbrev pub IsForeign : Error → Type 0
IsForeign (api_error message status) = ⊥
IsForeign _ = Unit

module _ (stringify : Json → Text) (bad_json : Error) where
  -- What a response with this status and body gives to the caller.
  abbrev pub Delivers : Response → Option Json → Type 0
  Delivers r v =
      (200 ≤ r.status)
      × (r.status < 300)
      × (((r.status ≡ 204) × (v ≡ none))
          ⊎ ((r.status ≢ 204) × ((j : Json) × (r.body ≡ some j) × (v ≡ some j))))

  receive-ok_iff :
      (r : Response) (v : Option Json) → (receive stringify bad_json r ≡ ok v) ↔ Delivers r v
  unfolding receive
  receive-ok_iff r v = ground arith

  receive-error :
      (r : Response) (m : Message) (status : ℕ)
      → IsForeign bad_json
      → receive stringify bad_json r ≡ err (api_error m status)
      → (status ≡ r.status) × ((status < 200) ⊎ (300 ≤ status)) × (m ≡ failure stringify r)
  unfolding receive
  receive-error r m status foreign e = ground arith

  settled-ok_iff :
      (f : Fetched) (v : Option Json)
      → (settled stringify bad_json f ≡ ok v) ↔ ((r : Response) × (f ≡ answered r) × Delivers r v)
  unfolding settled
  settled-ok_iff (answered r) v = (
    λ e. (r, refl, (receive-ok_iff r v).0 e),
    λ w. let (r', same, d) = w in cc (same, (receive-ok_iff r' v).1 d),
  )
  settled-ok_iff (rejected x) v = (λ e. cc, λ w. let (r', same, d) = w in cc same)

  settled-error :
      (f : Fetched) (m : Message) (status : ℕ)
      → IsForeign bad_json
      → ((e : Error) → f ≡ rejected e → IsForeign e)
      → settled stringify bad_json f ≡ err (api_error m status)
      → (r : Response) × (f ≡ answered r)
        × (status ≡ r.status)
        × ((status < 200) ⊎ (300 ≤ status))
        × (m ≡ failure stringify r)
  unfolding settled
  settled-error (answered r) m status foreign others e =
      let (same, outside, shown) = receive-error r m status foreign e in
      (r, refl, same, outside, shown)
  settled-error (rejected (api_error x y)) m status foreign others e = absurd (others _ refl)
  settled-error (rejected _) m status foreign others e = cc

  module _ (fetch : Sent → Fetched) (method : Method) (url : Text) (body : Body) where
    abbrev pub reply : Fetched
    reply = fetch (outgoing stringify method url body)

    -- A call of the API gives a value exactly if a response comes whose status is from 200 to
    -- 299, and the value is nothing for the status 204 and else the JSON of the body, which has
    -- to be JSON.
    pub api-ok_iff :
        (v : Option Json)
        → (api stringify bad_json fetch method url body ≡ ok v)
          ↔ ((r : Response) × (reply ≡ answered r) × Delivers r v)
    unfolding api
    api-ok_iff v = settled-ok_iff reply v

    -- If neither the browser nor the JSON parser rejects with an `ApiError`, then one that a
    -- call ends with comes from a response whose status is not from 200 to 299, has that
    -- status, and has the message made from its body.
    pub api-error :
        (m : Message) (status : ℕ)
        → IsForeign bad_json
        → ((e : Error) → reply ≡ rejected e → IsForeign e)
        → api stringify bad_json fetch method url body ≡ err (api_error m status)
        → (r : Response) × (reply ≡ answered r)
          × (status ≡ r.status)
          × ((status < 200) ⊎ (300 ≤ status))
          × (m ≡ failure stringify r)
    unfolding api
    api-error m status foreign others e = settled-error reply m status foreign others e

  -- The message of a refused call is the bare status exactly if the body is no JSON or `null`.
  failure-eq-error_status_iff :
      (r : Response)
      → (failure stringify r ≡ error_status r.status) ↔ ((r.body ≡ none) ⊎ (r.body ≡ some null))
  unfolding failure
  failure-eq-error_status_iff r = ground arith
