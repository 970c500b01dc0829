-- ===== src/Calls/Shape.antt =====
-- What a call of `api` is given, and how the client writes its addresses and bodies.
use nova_server_manager.Common.{ℕ, Text, codes, decimal, List, [], ◌∷◌, ◌++◌}
use nova_server_manager.Types.{
  Entries, Destination, local, telegram, IntervalUnit, minutes, hours, days,
}
use nova_server_manager.Client.Json.{
  str, obj, Items, nil, cons, Fields, end, field, Body, absent, json, Method, get,
}

pub record Call : Type 0 where
  pub method : Method
  pub url : Text
  pub body : Body

-- A call with no options, and calls with a method.
abbrev pub reads : Text → Call
reads url = record { method = get; url = url; body = absent }

abbrev pub bare : Method → Text → Call
bare method url = record { method = method; url = url; body = absent }

abbrev pub with_body : Method → Text → Fields → Call
with_body method url fields = record { method = method; url = url; body = json (obj fields) }

-- `` `/api/apps/${id}…` ``
abbrev pub at_app : ℕ → Text → Text
at_app app_id rest = codes "/api/apps/" ++ (decimal app_id ++ rest)

abbrev pub texts : List Text → Items
texts [] = nil
texts (t ∷ ts) = cons (str t) (texts ts)

abbrev pub fields_of : Entries → Fields
fields_of [] = end
fields_of ((key, value) ∷ entries) = field key (str value) (fields_of entries)

abbrev pub destination_text : Destination → Text
destination_text local = codes "local"
destination_text telegram = codes "telegram"

abbrev pub unit_text : IntervalUnit → Text
unit_text minutes = codes "minutes"
unit_text hours = codes "hours"
unit_text days = codes "days"
