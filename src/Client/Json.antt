-- ===== src/Client/Json.antt =====
-- JSON values, and the requests and responses that `api` of frontend/src/lib/api.ts exchanges.
use nova_server_manager.Common.{ℕ, Bool, Text}

mutual
  pub data Json : Type 0 where
    null : Json
    bool : Bool → Json
    num : ℕ → Json
    str : Text → Json
    arr : Items → Json
    obj : Fields → Json

  pub data Items : Type 0 where
    nil : Items
    cons : Json → Items → Items

  pub data Fields : Type 0 where
    end : Fields
    field : Text → Json → Fields → Fields

-- `new FormData()` holds one file wherever the client builds one.
pub record File : Type 0 where
  pub name : Text
  pub size : ℕ

-- What is passed as `body`.
pub data Body : Type 0 where
  absent : Body
  text : Text → Body
  form : File → Body
  json : Json → Body

pub data Method : Type 0 where
  get post put patch delete : Method
