-- ===== src/Server/Replies.antt =====
-- What a request handler of the server does: it answers, or it raises an `HTTPException`, and it leaves
-- the state of the server.
use nova_server_manager.Common.{ℕ, ◌≡◌, Text}

-- The exceptions that the handlers here raise, named for what their Persian texts say.
pub data Refusal : Type 0 where
  no_such_app : Refusal
  docker_unavailable : Refusal
  deployment_active : Refusal
  -- a database has no HTTP domain
  no_http_domain : Refusal
  -- a `ValueError` that nothing catches
  invalid_domain : Refusal
  domain_taken : Refusal
  -- with what the failed command wrote
  proxy_failed : Text → Refusal
  no_zip_name : Refusal
  upload_active : Refusal
  upload_too_large : Refusal
  -- with the text of the exception
  upload_failed : Text → Refusal
  -- an exception of a `finally` block, which nothing catches
  clean_up_failed : Refusal

-- The status of the response.
abbrev pub status_code : Refusal → ℕ
status_code no_such_app = 404
status_code docker_unavailable = 503
status_code deployment_active = 409
status_code no_http_domain = 400
status_code invalid_domain = 500
status_code domain_taken = 409
status_code (proxy_failed text) = 500
status_code no_zip_name = 400
status_code upload_active = 409
status_code upload_too_large = 413
status_code (upload_failed text) = 400
status_code clean_up_failed = 500

pub data Reply {ℓ} (A : Type ℓ) : Type ℓ where
  answers : A → Reply A
  refuses : Refusal → Reply A

pub answers-inj {ℓ} : {A : Type ℓ} (a b : A) → answers a ≡ answers b → a ≡ b
answers-inj a b h = cc
