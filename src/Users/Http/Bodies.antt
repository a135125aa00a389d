-- ===== src/Users/Http/Bodies.antt =====
-- The bodies that the handlers of user-service decode.
use cloudmini_reseller.Common.{String, Option, some}
use cloudmini_reseller.Web.Json.{Fields, text_field, ◌>>=◌}

pub record RegisterBody : Type 0 where
  pub email : String
  pub password : String
  pub full_name : String
  pub phone : String

abbrev pub register_body : Fields → Option RegisterBody
register_body fields = do
  email ← text_field "email" fields
  password ← text_field "password" fields
  name ← text_field "full_name" fields
  phone ← text_field "phone" fields
  some (record { email = email; password = password; full_name = name; phone = phone })

-- Two texts under the given keys.
abbrev pub pair_body : String → String → Fields → Option (String × String)
pair_body key key' fields = do a ← text_field key fields; b ← text_field key' fields; some (a, b)
