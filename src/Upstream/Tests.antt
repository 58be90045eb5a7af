-- ===== src/Upstream/Tests.antt =====
-- The theorems at concrete inputs: a session that is called, closed and called too late.
use mcp4openapi.Prelude.{
  ◌≡◌, ℕ, refl, true, none, some, List, [], ◌∷◌, get, set, delete, delete_where, arith,
}
use mcp4openapi.Upstream.Queue.{new_queue}
use mcp4openapi.Upstream.{
  Manager, new_manager, Provider, lead, join, reuse, get_or_connect, settle, finish, perform,
  perform_all, Event, call, settled, finished, closing, stopped, closed, get_connection,
  put_connection, drop_connection, join_or_lead, begin_connect, get_existing, store_connection,
  start, begin_close, stop_all, stop_each, end_close, fire_hooks, drain_notifications,
}
use mcp4openapi.Upstream.Closing.{closed-no_connection}
use mcp4openapi.Upstream.Sharing.{one_connection}
use mcp4openapi.Upstream.Delivery.{Notification, notify_all, IsReplay, queued_delivered}

abbrev github : Provider
github = record { name = "github"; has_auth = true }

-- A connection is there, and an attempt with a new token is in flight, when the session closes.
abbrev before_close : List Event
before_close =
    call "s1" github (some "t1") 10
    ∷ settled "s1" "github" true 20
    ∷ finished "s1" "github"
    ∷ call "s1" github (some "t2") 30
    ∷ closing "s1" 40
    ∷ stopped "s1"
    ∷ []

abbrev late : List Event
late = settled "s1" "github" true 60 ∷ call "s1" github none 70 ∷ []

abbrev closed_manager : Manager
closed_manager = record new_manager { destroyed = ("s1", 40) ∷ [] }

closed-no_connection_example :
    get "s1"
      (perform_all (closed "s1" 50 ∷ late) (perform_all before_close new_manager)).connections
    ≡ none
unfolding perform perform_all get_or_connect get_existing join_or_lead begin_connect settle finish
    store_connection begin_close stop_all stop_each end_close get_connection put_connection
    drop_connection start fire_hooks get set delete delete_where
closed-no_connection_example =
    closed-no_connection "s1" 40 50 late (perform_all before_close new_manager) (omega arith)
      (omega arith)

-- Another token closes the connection, tells the hooks and makes an attempt of its own.
rotated_test :
    (let m =
        perform_all
          (call "s1" github (some "t1") 10
            ∷ settled "s1" "github" true 20
            ∷ finished "s1" "github"
            ∷ [])
          new_manager in
      let (m', a) = get_or_connect "s1" github (some "t2") 30 m in
      (a ≡ lead 1) × (get_connection "s1" "github" m' ≡ none) × (m'.fired ≡ ("s1", "github") ∷ []))
unfolding perform perform_all get_or_connect get_existing join_or_lead begin_connect settle finish
    store_connection get_connection put_connection drop_connection start fire_hooks get set delete
rotated_test = (refl, refl, refl)

one_connection_example :
    (let (m₁, first) = get_or_connect "s1" github (some "t1") 10 new_manager in
      let m₂ = settle "s1" "github" true 10 m₁ in
      (first ≡ lead 0)
      × ((at : ℕ) → get_or_connect "s1" github (some "t1") at m₁ ≡ (m₁, join 0))
      × ((at : ℕ) → (get_or_connect "s1" github (some "t1") at m₂).1 ≡ reuse 0)
      × ((at : ℕ)
          → (get_or_connect "s1" github (some "t1") at (finish "s1" "github" m₂)).1 ≡ reuse 0))
unfolding get_connection get
one_connection_example = one_connection "s1" github (some "t1") new_manager 10 refl refl refl

-- Two providers notify, one after the other.
abbrev tools_changed : Notification
tools_changed = record {
  provider = "github";
  method = "notifications/tools/list_changed";
  at = 100;
}

abbrev progress : Notification
progress = record { provider = "gitlab"; method = "notifications/progress"; at = 150 }

queued_delivered_example :
    (let m' = notify_all "s1" (tools_changed ∷ progress ∷ []) new_manager in
      let (m'', out) = drain_notifications "s1" 200 m' in
      IsReplay (tools_changed ∷ progress ∷ []) 200 new_queue out
      × (m'.sent ≡ [])
      × ((drain_notifications "s1" 300 m'').1 ≡ []))
unfolding get
queued_delivered_example =
    queued_delivered "s1" tools_changed (progress ∷ []) 0 200 300 new_manager (omega arith)
      (omega arith, omega arith) (omega arith) (omega arith)
      (record { room = omega arith; bounded = omega arith; ordered = tt })
