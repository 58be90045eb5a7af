-- ===== src/Upstream.antt =====
-- src/upstream/: the connections of sessions to upstream MCP servers, their heartbeats and the
-- queues of notifications. Clients, transports, timers and the network are events: an operation
-- that waits is a step for each part between its waits, and the steps of all calls interleave.
pub mod Queue
pub mod Closing
pub mod Sharing
pub mod Notifications
pub mod Delivery
mod Tests
use mcp4openapi.Prelude.{
  ℕ, ◌+◌, ◌-◌, String, Bool, true, false, not, ◌&&◌, ◌||◌, Option, none, some, List, [], ◌∷◌, ◌++◌,
  Map, get, set, delete, delete_where, ltb, ◌==◌, if◌then◌else◌, str_eq,
}
use Prim.Native.String.{◌++◌ as joined}
use mcp4openapi.Upstream.Queue.{NotificationQueue, new_queue, push, drain, Entry}

pub data ConnectionState : Type 0 where
  connected : ConnectionState
  failed : ConnectionState

-- `id` is the identity of the client and of its transport.
pub record Connection : Type 0 where
  pub id : ℕ
  pub state : ConnectionState
  pub provider_name : String
  pub last_activity_at : ℕ
  pub token : Option String

-- An attempt to connect; `promise` is its identity and that of the client that it makes.
pub record Pending : Type 0 where
  pub promise : ℕ
  pub token : Option String
  pub settled : Bool

pub record Provider : Type 0 where
  pub name : String
  pub has_auth : Bool

-- `timers` holds, for each heartbeat that runs, the connection it was started for; `fired` are the
-- calls of the hooks for changed tools, and `sent` what went downstream, the last first.
pub record Manager : Type 0 where
  pub connections : Map (Map Connection)
  pub pending : Map Pending
  pub destroyed : Map ℕ
  pub queues : Map NotificationQueue
  pub timers : Map ℕ
  pub next_id : ℕ
  pub fired : List (String × String)
  pub sent : List (String × String)

abbrev pub new_manager : Manager
new_manager = record {
  connections = [];
  pending = [];
  destroyed = [];
  queues = [];
  timers = [];
  next_id = 0;
  fired = [];
  sent = [];
}

abbrev pub destroyed_session_ttl_ms : ℕ
destroyed_session_ttl_ms = 60000

abbrev pub dedup_key : String → String → String
dedup_key session provider = joined session (joined ":" provider)

abbrev pub has : {V : Type 0} → String → Map V → Bool
has k m = elim (get k m) [ none ↦ false | some v ↦ true ]

abbrev pub providers_of : String → Manager → Map Connection
providers_of session m = elim (get session m.connections) [ none ↦ [] | some cs ↦ cs ]

unfoldable pub get_connection : String → String → Manager → Option Connection
get_connection session provider m = get provider (providers_of session m)

-- A write into the map of a session that is there.
unfoldable pub put_connection : String → String → Connection → Manager → Manager
put_connection session provider c m = record m {
  connections = set session (set provider c (providers_of session m)) m.connections;
}

-- Stops the heartbeat and drops the connection.
unfoldable pub drop_connection : String → String → Manager → Manager
drop_connection session provider m = record m {
  timers = delete (dedup_key session provider) m.timers;
  connections = elim (get session m.connections) [
    | none ↦ m.connections
    | some cs ↦ set session (delete provider cs) m.connections
  ];
}

-- Idempotent: a heartbeat that runs is kept.
unfoldable pub start : String → ℕ → Map ℕ → Map ℕ
start key id timers = if has key timers then timers else set key id timers

abbrev pub token_eq : Option String → Option String → Bool
token_eq none none = true
token_eq none (some b) = false
token_eq (some a) none = false
token_eq (some a) (some b) = str_eq a b

abbrev pub is_connected : ConnectionState → Bool
is_connected connected = true
is_connected failed = false

-- What the first part of `getOrConnect` does: hands a client out, joins an attempt, waits for one
-- with another token and asks again, or makes one.
pub data Answer : Type 0 where
  reuse : ℕ → Answer
  join : ℕ → Answer
  wait : ℕ → Answer
  lead : ℕ → Answer

-- The attempt starts, and is there for the calls that come until it has ended.
unfoldable pub begin_connect : String → String → Option String → Manager → Manager × Answer
begin_connect session provider token m = (
  record m {
    pending =
        set (dedup_key session provider)
          (record { promise = m.next_id; token = token; settled = false }) m.pending;
    next_id = m.next_id + 1;
  },
  lead m.next_id,
)

-- From the test of the attempts in flight on; `stale` drops a connection that failed.
unfoldable pub join_or_lead :
    String → Provider → Option String → (Manager → Manager) → Manager → Manager × Answer
join_or_lead session provider token stale m =
    elim (get (dedup_key session provider.name) m.pending) [
      | none ↦ begin_connect session provider.name token (stale m)
      | some e ↦
          if not provider.has_auth || token_eq e.token token
          then (m, join e.promise)
          else (m, wait e.promise)
    ]

unfoldable pub fire_hooks : String → String → Manager → Manager
fire_hooks session provider m = record m { fired = (session, provider) ∷ m.fired }

-- What is done with the connection that is there.
unfoldable pub get_existing :
    String → Provider → Option String → ℕ → Connection → Manager → Manager × Answer
get_existing session provider token now c m =
    if is_connected c.state
    then (if provider.has_auth && not (token_eq c.token token)
        then join_or_lead session provider token (λ m. m)
            (fire_hooks session provider.name (drop_connection session provider.name m))
        else (
          put_connection session provider.name (record c { last_activity_at = now }) m,
          reuse c.id,
        ))
    else join_or_lead session provider token (drop_connection session provider.name) m

unfoldable pub get_or_connect : String → Provider → Option String → ℕ → Manager → Manager × Answer
get_or_connect session provider token now m = elim (get_connection session provider.name m) [
  | none ↦ join_or_lead session provider token (λ m. m) m
  | some c ↦ get_existing session provider token now c m
]

abbrev pub connection_of : String → ℕ → Pending → Connection
connection_of provider now e = record {
  id = e.promise;
  state = connected;
  provider_name = provider;
  last_activity_at = now;
  token = e.token;
}

-- The end of `createConnection` behind a client that has connected.
unfoldable pub store_connection : String → String → ℕ → Pending → Manager → Manager
store_connection session provider now e m =
    if has session m.destroyed
    then m
    else (let m' = put_connection session provider (connection_of provider now e) m in
        record m' { timers = start (dedup_key session provider) e.promise m'.timers })

-- The attempt ends: with a client, or with an error of the validation or of the connection.
unfoldable pub settle : String → String → Bool → ℕ → Manager → Manager
settle session provider works now m = elim (get (dedup_key session provider) m.pending) [
  | none ↦ m
  | some e ↦
      if e.settled
      then m
      else (let m' = if works then store_connection session provider now e m else m in
          record m' {
            pending = set (dedup_key session provider) (record e { settled = true }) m'.pending;
          })
]

-- The `finally` of the call that made the attempt.
unfoldable pub finish : String → String → Manager → Manager
finish session provider m = elim (get (dedup_key session provider) m.pending) [
  | none ↦ m
  | some e ↦
      if e.settled then record m { pending = delete (dedup_key session provider) m.pending } else m
]

-- The transport or the heartbeat of a connection fails, or its transport closes; one that was
-- replaced is ignored.
unfoldable pub fail_connection : String → String → ℕ → Manager → Manager
fail_connection session provider id m = elim (get_connection session provider m) [
  | none ↦ m
  | some c ↦
      if c.id == id
      then (let m' = put_connection session provider (record c { state = failed }) m in
          record m' { timers = delete (dedup_key session provider) m'.timers })
      else m
]

-- The failure of a ping is dropped where no heartbeat runs under the key.
unfoldable pub fail_heartbeat : String → String → ℕ → Manager → Manager
fail_heartbeat session provider id m =
    if has (dedup_key session provider) m.timers then fail_connection session provider id m else m

-- `closeAll` up to its first wait, for the attempts in flight.
unfoldable pub begin_close : String → ℕ → Manager → Manager
begin_close session now m = record m { destroyed = set session now m.destroyed }

unfoldable pub stop_each : String → Map Connection → Map ℕ → Map ℕ
stop_each session [] timers = timers
stop_each session ((p, c) ∷ cs) timers =
    stop_each session cs (delete (dedup_key session c.provider_name) timers)

-- Its second part, up to the wait for the connections to close.
unfoldable pub stop_all : String → Manager → Manager
stop_all session m = record m { timers = stop_each session (providers_of session m) m.timers }

-- Its end.
unfoldable pub end_close : String → ℕ → Manager → Manager
end_close session now m = record m {
  connections = delete session m.connections;
  queues = delete session m.queues;
  destroyed = delete_where (λ at. ltb at (now - destroyed_session_ttl_ms)) m.destroyed;
}

abbrev pub queue_of : String → Manager → NotificationQueue
queue_of session m = elim (get session m.queues) [ none ↦ new_queue | some q ↦ q ]

abbrev pub tools_list_changed : String
tools_list_changed = "notifications/tools/list_changed"

-- `active` tells whether there is a stream to the client.
unfoldable pub handle_upstream_notification :
    String → String → String → Bool → ℕ → Manager → Manager
handle_upstream_notification session provider method active now m =
    let m' = if str_eq method tools_list_changed then fire_hooks session provider m else m in
    if active
    then record m' { sent = (session, method) ∷ m'.sent }
    else record m' { queues = set session (push method now (queue_of session m')) m'.queues }

unfoldable pub drain_notifications : String → ℕ → Manager → Manager × List Entry
drain_notifications session now m = elim (get session m.queues) [
  | none ↦ (m, [])
  | some q ↦ (record m { queues = set session (drain now q).0 m.queues }, (drain now q).1)
]

pub data Event : Type 0 where
  call : String → Provider → Option String → ℕ → Event
  settled : String → String → Bool → ℕ → Event
  finished : String → String → Event
  transport_failed : String → String → ℕ → Event
  heartbeat_failed : String → String → ℕ → Event
  closing : String → ℕ → Event
  stopped : String → Event
  closed : String → ℕ → Event
  notified : String → String → String → Bool → ℕ → Event
  drained : String → ℕ → Event

unfoldable pub perform : Event → Manager → Manager
perform (call session provider token now) m = (get_or_connect session provider token now m).0
perform (settled session provider works now) m = settle session provider works now m
perform (finished session provider) m = finish session provider m
perform (transport_failed session provider id) m = fail_connection session provider id m
perform (heartbeat_failed session provider id) m = fail_heartbeat session provider id m
perform (closing session now) m = begin_close session now m
perform (stopped session) m = stop_all session m
perform (closed session now) m = end_close session now m
perform (notified session provider method active now) m =
    handle_upstream_notification session provider method active now m
perform (drained session now) m = (drain_notifications session now m).0

unfoldable pub perform_all : List Event → Manager → Manager
perform_all [] m = m
perform_all (e ∷ es) m = perform_all es (perform e m)
