-- ===== src/Logs/Hub.antt =====
-- The WebSocket subscribers, the consumer of the bus that feeds them, and what each of them may see.
use cloudmini_reseller.Common.{
  ℕ, ◌≤◌, String, str_eq, Bool, true, false, not, ◌||◌, ◌==◌, ◌≡◌, inl, inr, Option, none, some,
  List, [], ◌∷◌, ◌++◌, ltb, if◌then◌else◌, length, length-append, Bool-cases, select_where,
  update_where, All, arith,
}
use cloudmini_reseller.Logs.{LogEntry, build_entry}
use cloudmini_reseller.Web.{is_allowed, admins}
use cloudmini_reseller.Web.Json.{Fields}

-- A subscriber: the number of its connection, and what waits in its channel, the earliest first.
pub record Client : Type 0 where
  pub conn : ℕ
  pub user_id : String
  pub role : String
  pub send : List LogEntry

pub record World : Type 0 where
  pub entries : List LogEntry
  pub clients : List Client

-- make(chan []byte, 256)
abbrev pub capacity : ℕ
capacity = 256

-- `select { case c.send <- data: default: }`: a full channel takes nothing.
unfoldable pub offer : LogEntry → Client → Client
offer entry c = if ltb (length c.send) capacity then record c { send = c.send ++ entry ∷ [] } else c

abbrev pub is_own : Option String → String → Bool
is_own none user = false
is_own (some u) user = str_eq u user

abbrev pub may_see : Client → LogEntry → Bool
may_see c entry = is_allowed admins c.role || is_own entry.user_id c.user_id

unfoldable pub broadcast : LogEntry → List Client → List Client
broadcast entry cs = update_where (λ c. may_see c entry) (offer entry) cs

-- The endpoint /ws/events takes the user and the role from its query.
unfoldable pub connect : ℕ → String → String → World → World
connect conn user role w = record w {
  clients = record { conn = conn; user_id = user; role = role; send = [] } ∷ w.clients;
}

abbrev is_conn : ℕ → Client → Bool
is_conn conn c = c.conn == conn

unfoldable pub unregister : ℕ → World → World
unregister conn w = record w { clients = select_where (λ c. not (is_conn conn c)) w.clients }

abbrev rest_of : List LogEntry → List LogEntry
rest_of [] = []
rest_of (e ∷ es) = es

-- The write pump takes the next message out of the channel.
unfoldable pub write : ℕ → World → World
write conn w = record w {
  clients = update_where (is_conn conn) (λ c. record c { send = rest_of c.send }) w.clients;
}

-- The handler of the consumer: whether persistLog fails, the subject and the payload. True for an
-- event that is acknowledged.
unfoldable pub consume : Bool → String → Fields → World → Bool × World
consume fails subject payload w = if fails then (false, w) else (
  true,
  record w {
    entries = build_entry subject payload ∷ w.entries;
    clients = broadcast (build_entry subject payload) w.clients;
  },
)

-- What happens to the service.
pub data Event : Type 0 where
  connects : ℕ → String → String → Event
  unregisters writes : ℕ → Event
  consumes : Bool → String → Fields → Event

unfoldable pub run : Event → World → World
run (connects conn user role) w = connect conn user role w
run (unregisters conn) w = unregister conn w
run (writes conn) w = write conn w
run (consumes fails subject payload) w = (consume fails subject payload w).1

unfoldable pub run_all : List Event → World → World
run_all [] w = w
run_all (e ∷ es) w = run_all es (run e w)

-- What waits for a subscriber is at most its channel's capacity, and it may see all of it.
pub record IsServed (c : Client) : Type 0 where
  pub fits : length c.send ≤ capacity
  pub seen : All (λ e. may_see c e ≡ true) c.send

All-snoc :
    {A : Type 0} (P : A → Type 0) (xs : List A) (x : A) → All P xs → P x → All P (xs ++ x ∷ [])
All-snoc P [] x a p = (p, tt)
All-snoc P (y ∷ xs) x a p = (a.0, All-snoc P xs x a.1 p)

offer-IsServed :
    (entry : LogEntry) (c : Client) → may_see c entry ≡ true → IsServed c → IsServed (offer entry c)
unfolding offer
offer-IsServed entry c sees served = elim (Bool-cases (ltb (length c.send) capacity)) [
  | inl room ↦ rw room record {
    fits = ground (arith, room, length-append c.send (entry ∷ []));
    seen = All-snoc (λ e. may_see c e ≡ true) c.send entry served.seen sees;
  }
  | inr full ↦ rw full served
]

broadcast-IsServed :
    (entry : LogEntry) (cs : List Client) → All IsServed cs → All IsServed (broadcast entry cs)
unfolding broadcast
broadcast-IsServed entry [] a = tt
broadcast-IsServed entry (c ∷ cs) a = elim (Bool-cases (may_see c entry)) [
  | inl sees ↦ rw sees (offer-IsServed entry c sees a.0, broadcast-IsServed entry cs a.1)
  | inr not_sees ↦ rw not_sees (a.0, broadcast-IsServed entry cs a.1)
]

All-select_where :
    {A : Type 0} (P : A → Type 0) (p : A → Bool) (xs : List A)
    → All P xs
    → All P (select_where p xs)
All-select_where P p [] a = tt
All-select_where P p (x ∷ xs) a = ground (arith, All-select_where P p xs a.1)

rest-fits :
    (P : LogEntry → Type 0) (es : List LogEntry)
    → length es ≤ capacity
    → All P es
    → (length (rest_of es) ≤ capacity) × All P (rest_of es)
rest-fits P [] fits a = (fits, tt)
rest-fits P (e ∷ es) fits a = (omega (arith, fits), a.1)

rest-IsServed : (c : Client) → IsServed c → IsServed (record c { send = rest_of c.send })
rest-IsServed c served =
    let (fits, seen) = rest-fits (λ e. may_see c e ≡ true) c.send served.fits served.seen in
    record { fits = fits; seen = seen }

write-IsServed :
    (conn : ℕ) (cs : List Client)
    → All IsServed cs
    → All IsServed (update_where (is_conn conn) (λ c. record c { send = rest_of c.send }) cs)
write-IsServed conn [] a = tt
write-IsServed conn (c ∷ cs) a = ground (arith, a, rest-IsServed c a.0, write-IsServed conn cs a.1)

run-IsServed : (e : Event) (w : World) → All IsServed w.clients → All IsServed (run e w).clients
unfolding run connect unregister write consume
run-IsServed (connects conn user role) w a = (record { fits = omega arith; seen = tt }, a)
run-IsServed (unregisters conn) w a =
    All-select_where IsServed (λ c. not (is_conn conn c)) w.clients a
run-IsServed (writes conn) w a = write-IsServed conn w.clients a
run-IsServed (consumes true subject payload) w a = a
run-IsServed (consumes false subject payload) w a =
    broadcast-IsServed (build_entry subject payload) w.clients a

-- Whatever subscribers come and go and whatever events arrive, at most 256 messages wait for a
-- subscriber, and each of them is one that it may see: any if its role is that of an administrator,
-- otherwise those of its own user.
pub run_all-IsServed :
    (es : List Event) (w : World) → All IsServed w.clients → All IsServed (run_all es w).clients
unfolding run_all
run_all-IsServed [] w a = a
run_all-IsServed (e ∷ es) w a = run_all-IsServed es (run e w) (run-IsServed e w a)

-- The events of the bus, all of which are stored.
abbrev pub all_stored : List (String × Fields) → List Event
all_stored [] = []
all_stored ((subject, payload) ∷ es) = consumes false subject payload ∷ all_stored es

abbrev pub built : List (String × Fields) → List LogEntry
built [] = []
built ((subject, payload) ∷ es) = build_entry subject payload ∷ built es

-- What waits for the subscriber that came last.
abbrev pub newest : List Client → List LogEntry
newest [] = []
newest (c ∷ cs) = c.send
