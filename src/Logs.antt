-- ===== src/Logs.antt =====
-- The log service, services/log-service/cmd/server/main.go: how an event of the bus becomes a row.
--
-- A row stands without its id and time, the latest row first. A payload is the fields of the JSON
-- object, and is empty where the data are none. The messages that are formatted stand as their
-- parts.
pub mod Hub
pub mod Queries
mod Tests
use Prim.Native.Char.{code}
use cloudmini_reseller.Common.{
  ℕ, suc, ◌/◌, ◌+◌, String, str_eq, Bool, true, false, not, ◌||◌, ◌&&◌, ◌==◌, Option, none, some,
  List, [], ◌∷◌, if◌then◌else◌,
}
use cloudmini_reseller.Common.Int.{ℤ, pos, negsuc, neg, leb_ℤ}
use cloudmini_reseller.Web.Json.{Value, text, whole, fraction, Fields}

pub data Level : Type 0 where
  info warn error : Level

pub data Actor : Type 0 where
  of_user of_system of_admin : Actor

-- "<method> <path> → <status> (<ms>ms)", a fixed text, "Event: <subject>", and a text with a reason.
pub data LogMessage : Type 0 where
  request : String → String → ℤ → ℤ → LogMessage
  fixed event : String → LogMessage
  with_reason : String → String → LogMessage

pub record LogEntry : Type 0 where
  pub service_name : String
  pub user_id : Option String
  pub actor_type : Actor
  pub action : String
  pub level : Level
  pub resource_type : Option String
  pub resource_id : Option String
  pub message : LogMessage
  pub request_id : Option String
  pub ip_address : Option String
  pub duration_ms : Option ℤ

-- Of a key that stands twice, the later value counts.
abbrev pub lookup : String → Fields → Option Value
lookup key [] = none
lookup key ((k, v) ∷ fields) = elim (lookup key fields) [
  | some v' ↦ some v'
  | none ↦ if str_eq k key then some v else none
]

abbrev text_of : Option Value → String
text_of (some (text s)) = s
text_of _ = ""

abbrev pub str_val : Fields → String → String
str_val payload key = text_of (lookup key payload)

-- int(v) of a float64, which cuts the fraction off.
abbrev truncated : ℤ → ℤ
truncated (pos n) = pos (n / 10000)
truncated (negsuc n) = neg (pos ((n + 1) / 10000))

abbrev number_of : Option Value → ℤ
number_of (some (whole n)) = n
number_of (some (fraction n)) = truncated n
number_of _ = pos 0

abbrev pub num_val : Fields → String → ℤ
num_val payload key = number_of (lookup key payload)

-- The local function str: a text that is not empty.
abbrev pub str : Fields → String → Option String
str payload key = let s = str_val payload key in if str_eq s "" then none else some s

-- What stands before the first dot.
abbrev pub service_from_subject : String → String
service_from_subject String.[] = ""
service_from_subject (String.◌∷◌ c s) =
    let rest = service_from_subject s in if code c == 46 then "" else String.◌∷◌ c rest

abbrev pub level_of : ℤ → Level
level_of status =
    if leb_ℤ (pos 500) status then error else if leb_ℤ (pos 400) status then warn else info

abbrev http_entry : Fields → LogEntry
http_entry payload = record {
  service_name = str_val payload "service_name";
  user_id = str payload "user_id";
  actor_type = of_user;
  action = "sys.http_request";
  level = level_of (num_val payload "status_code");
  resource_type = none;
  resource_id = none;
  message =
      request (str_val payload "method") (str_val payload "path") (num_val payload "status_code")
        (num_val payload "duration_ms");
  request_id = str payload "request_id";
  ip_address = str payload "ip_address";
  duration_ms = some (num_val payload "duration_ms");
}

abbrev is_some : {A : Type 0} → Option A → Bool
is_some none = false
is_some (some a) = true

-- The map of messages.
abbrev message_of : String → LogMessage
message_of s =
    if str_eq s "user.registered"
    then fixed "New user registered"
    else if str_eq s "user.verified"
    then fixed "Email verified"
    else if str_eq s "user.login"
    then fixed "User logged in"
    else if str_eq s "user.password_changed"
    then fixed "Password changed"
    else if str_eq s "user.suspended"
    then fixed "User suspended"
    else if str_eq s "user.2fa_enabled"
    then fixed "Two-factor authentication enabled"
    else if str_eq s "user.2fa_disabled"
    then fixed "Two-factor authentication disabled (by user)"
    else if str_eq s "user.2fa_admin_disabled"
    then fixed "Two-factor authentication force-disabled by admin"
    else if str_eq s "user.admin_updated"
    then fixed "User profile/role/status updated by admin"
    else event s

abbrev event_message : String → Fields → LogMessage
event_message subject payload =
    if str_eq subject "user.suspended" && not (str_eq (str_val payload "reason") "")
    then with_reason "User suspended" (str_val payload "reason")
    else message_of subject

abbrev event_entry : String → Fields → LogEntry
event_entry subject payload = record {
  service_name = service_from_subject subject;
  user_id = str payload "user_id";
  actor_type = if is_some (lookup "actor_id" payload) then of_admin else of_system;
  action = subject;
  level = info;
  resource_type = some "user";
  resource_id = str payload "user_id";
  message = event_message subject payload;
  request_id = none;
  ip_address = none;
  duration_ms = none;
}

unfoldable pub build_entry : String → Fields → LogEntry
build_entry subject payload =
    if str_eq subject "sys.http_request" then http_entry payload else event_entry subject payload
