-- ===== src/Client/Error.antt =====
-- What a promise of the client rejects with, and the message that a handler shows for it.
use nova_server_manager.Common.{ℕ, ◌≡◌, refl, ◌⊎◌, inl, inr, Bool, true, false}
use nova_server_manager.Client.Message.{Message}

pub data Error : Type 0 where
  -- `ApiError` of api.ts, with its message and status
  api_error : Message → ℕ → Error
  -- any other `Error`, with its message
  js_error : Message → Error
  -- a thrown value that is no `Error`
  thrown : Error

pub data Result {ℓ} (A : Type ℓ) : Type ℓ where
  ok : A → Result A
  err : Error → Result A

-- `error instanceof Error ? error.message : fallback`
abbrev pub message_of : Error → Message → Message
message_of (api_error message status) fallback = message
message_of (js_error message) fallback = message
message_of thrown fallback = fallback

abbrev pub is_ok {ℓ} : {A : Type ℓ} → Result A → Bool
is_ok (ok a) = true
is_ok (err e) = false

pub Result-cases {ℓ} :
    {A : Type ℓ} (r : Result A) → ((a : A) × (r ≡ ok a)) ⊎ ((e : Error) × (r ≡ err e))
Result-cases (ok a) = inl (a, refl)
Result-cases (err e) = inr (e, refl)
