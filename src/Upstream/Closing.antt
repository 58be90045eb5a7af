-- ===== src/Upstream/Closing.antt =====
-- A session that was closed stays without connections to upstream servers.
use mcp4openapi.Prelude.{
  ℕ, ◌+◌, ◌-◌, ◌≤◌, ◌≡◌, ◌≢◌, refl, ap, sym, ◌∙◌, String, Bool, true, false, not, ◌&&◌, ◌||◌, ◌==◌,
  Option, none, some, List, [], ◌∷◌, Map, get, set, delete, delete_where, get-set, get-delete,
  get-delete_self, delete_where-kept, ltb, arith, eq_iff, Bool-cases, Option-cases, String-cases,
  inl, inr, All,
}
use mcp4openapi.Upstream.{
  Manager, Connection, Provider, Pending, failed, Event, call, settled, finished, transport_failed,
  heartbeat_failed, closing, stopped, closed, notified, drained, perform, perform_all,
  get_or_connect, get_existing, join_or_lead, begin_connect, settle, store_connection, finish,
  fail_connection, fail_heartbeat, begin_close, stop_all, end_close, handle_upstream_notification,
  drain_notifications, get_connection, put_connection, drop_connection, has, providers_of,
  destroyed_session_ttl_ms, fire_hooks, dedup_key, token_eq, connection_of, is_connected,
}

-- A marker that was set at `t` or later.
abbrev pub MarkedSince : ℕ → Option ℕ → Type 0
MarkedSince t none = ⊥
MarkedSince t (some at) = t ≤ at

pub record IsClosed (session : String) (t : ℕ) (m : Manager) : Type 0 where
  pub gone : get session m.connections ≡ none
  pub marked : MarkedSince t (get session m.destroyed)

-- The event is not before `t`, and no session's closing ends more than the time to live behind it.
abbrev pub InTime : ℕ → Event → Type 0
InTime t (closing session now) = t ≤ now
InTime t (closed session now) = now ≤ t + destroyed_session_ttl_ms
InTime t (call session provider token now) = Unit {0}
InTime t (settled session provider works now) = Unit {0}
InTime t (finished session provider) = Unit {0}
InTime t (transport_failed session provider id) = Unit {0}
InTime t (heartbeat_failed session provider id) = Unit {0}
InTime t (stopped session) = Unit {0}
InTime t (notified session provider method active now) = Unit {0}
InTime t (drained session now) = Unit {0}

not_marked :
    (t : ℕ) (o : Option ℕ) → MarkedSince t o → (elim o [ none ↦ false | some at ↦ true ]) ≢ false
not_marked t none h e = absurd h
not_marked t (some at) h e = cc

module _ (s : String) (t : ℕ) where
  like-IsClosed :
      (m m' : Manager)
      → m'.connections ≡ m.connections
      → m'.destroyed ≡ m.destroyed
      → IsClosed s t m
      → IsClosed s t m'
  like-IsClosed m m' same same' v = record {
    gone = ap (get s) same ∙ v.gone;
    marked = rw same' v.marked;
  }

  put-IsClosed :
      (session provider : String) (c : Connection) (m : Manager)
      → session ≢ s
      → IsClosed s t m
      → IsClosed s t (put_connection session provider c m)
  unfolding put_connection
  put-IsClosed session provider c m other v = record {
    gone = ground (
      arith,
      get-set session s (set provider c (providers_of session m)) m.connections,
      eq_iff session s,
      v.gone,
    );
    marked = v.marked;
  }

  drop-IsClosed :
      (session provider : String) (m : Manager)
      → IsClosed s t m
      → IsClosed s t (drop_connection session provider m)
  unfolding drop_connection
  drop-IsClosed session provider m v = elim (Option-cases (get session m.connections)) [
    | inl none_there ↦ record { gone = rw (none_there, drop_connection) v.gone; marked = v.marked }
    | inr (cs, there) ↦ record {
      gone =
          rw (there, drop_connection)
            (ground (
              arith,
              get-set session s (delete provider cs) m.connections,
              eq_iff session s,
              v.gone,
            ));
      marked = v.marked;
    }
  ]

  -- A session with a connection is another one.
  other_session :
      (session provider : String) (c : Connection) (m : Manager)
      → get_connection session provider m ≡ some c
      → IsClosed s t m
      → session ≢ s
  unfolding get_connection get
  other_session session provider c m there v e =
      let empty : get session m.connections ≡ none = ap (λ x. get x m.connections) e ∙ v.gone in
      ground arith

  join-IsClosed :
      (session : String) (provider : Provider) (token : Option String) (stale : Manager → Manager)
      (m : Manager)
      → IsClosed s t m
      → IsClosed s t (stale m)
      → IsClosed s t (join_or_lead session provider token stale m).0
  unfolding join_or_lead begin_connect
  join-IsClosed session provider token stale m v w =
      elim (Option-cases (get (dedup_key session provider.name) m.pending)) [
        | inl free ↦ rw (free, join_or_lead) (record { gone = w.gone; marked = w.marked })
        | inr (e, there) ↦ elim (Bool-cases (not provider.has_auth || token_eq e.token token)) [
          | inl same ↦ rw (there, join_or_lead, same) v
          | inr other ↦ rw (there, join_or_lead, other) v
        ]
      ]

  existing-IsClosed :
      (session : String) (provider : Provider) (token : Option String) (now : ℕ) (c : Connection)
      (m : Manager)
      → session ≢ s
      → IsClosed s t m
      → IsClosed s t (get_existing session provider token now c m).0
  unfolding get_existing fire_hooks
  existing-IsClosed session provider token now c m other v =
      elim (Bool-cases (is_connected c.state)) [
        | inl live ↦ elim (Bool-cases (provider.has_auth && not (token_eq c.token token))) [
          | inl rotated ↦
              let dropped = drop-IsClosed session provider.name m v in
              let fired = like-IsClosed _ (fire_hooks session provider.name _) refl refl dropped in
              rw (live, get_existing, rotated)
                (join-IsClosed session provider token (λ x. x) _ fired fired)
          | inr same ↦
              rw (live, get_existing, same) (put-IsClosed session provider.name _ m other v)
        ]
        | inr stale ↦
            rw (stale, get_existing)
              (join-IsClosed session provider token (drop_connection session provider.name) m v
                (drop-IsClosed session provider.name m v))
      ]

  call-IsClosed :
      (session : String) (provider : Provider) (token : Option String) (now : ℕ) (m : Manager)
      → IsClosed s t m
      → IsClosed s t (get_or_connect session provider token now m).0
  unfolding get_or_connect
  call-IsClosed session provider token now m v =
      elim (Option-cases (get_connection session provider.name m)) [
        | inl absent ↦
            rw (absent, get_or_connect) (join-IsClosed session provider token (λ x. x) m v v)
        | inr (c, there) ↦
            rw (there, get_or_connect)
              (existing-IsClosed session provider token now c m
                (other_session session provider.name c m there v) v)
      ]

  -- The marker keeps a client that connected too late from being stored.
  store-IsClosed :
      (session provider : String) (now : ℕ) (e : Pending) (m : Manager)
      → IsClosed s t m
      → IsClosed s t (store_connection session provider now e m)
  unfolding store_connection
  store-IsClosed session provider now e m v = elim (Bool-cases (has session m.destroyed)) [
    | inl over ↦ rw (over, store_connection) v
    | inr open_ ↦
        let c = connection_of provider now e in
        let other : session ≢ s = λ same.
          not_marked t (get s m.destroyed) v.marked
            (ap (λ x. has x m.destroyed) (sym same) ∙ open_) in
        rw (open_, store_connection)
          (like-IsClosed (put_connection session provider c m) _ refl refl
            (put-IsClosed session provider c m other v))
  ]

  settle-IsClosed :
      (session provider : String) (works : Bool) (now : ℕ) (m : Manager)
      → IsClosed s t m
      → IsClosed s t (settle session provider works now m)
  unfolding settle store_connection set
  settle-IsClosed session provider works now m v =
      elim (Option-cases (get (dedup_key session provider) m.pending)) [
        | inl absent ↦ rw (absent, settle) v
        | inr (e, there) ↦ elim (Bool-cases e.settled) [
          | inl over ↦ rw (there, settle, over) v
          | inr open_ ↦ elim (Bool-cases works) [
            | inl good ↦
                rw (there, settle, open_, good)
                  (like-IsClosed (store_connection session provider now e m) _ refl refl
                    (store-IsClosed session provider now e m v))
            | inr bad ↦ rw (there, settle, open_, bad) (like-IsClosed m _ refl refl v)
          ]
        ]
      ]

  fail-IsClosed :
      (session provider : String) (id : ℕ) (m : Manager)
      → IsClosed s t m
      → IsClosed s t (fail_connection session provider id m)
  unfolding fail_connection
  fail-IsClosed session provider id m v = elim (Option-cases (get_connection session provider m)) [
    | inl absent ↦ rw (absent, fail_connection) v
    | inr (c, there) ↦ elim (Bool-cases (c.id == id)) [
      | inl mine ↦
          let failing = record c { state = failed } in
          rw (there, fail_connection, mine)
            (like-IsClosed (put_connection session provider failing m) _ refl refl (
              put-IsClosed session provider failing m (other_session session provider c m there v)
                v))
      | inr other ↦ rw (there, fail_connection, other) v
    ]
  ]

  end_close-marked :
      (now : ℕ) (destroyed : Map ℕ)
      → now ≤ t + destroyed_session_ttl_ms
      → MarkedSince t (get s destroyed)
      → MarkedSince t
          (get s (delete_where (λ at. ltb at (now - destroyed_session_ttl_ms)) destroyed))
  end_close-marked now destroyed soon marked = elim (Option-cases (get s destroyed)) [
    | inl absent ↦ absurd (rw absent at marked)
    | inr (at, there) ↦
        let since : t ≤ at = rw there at marked in
        let kept =
          delete_where-kept (λ x. ltb x (now - destroyed_session_ttl_ms)) s at destroyed there
            (ground arith) in
        rw kept.0 since
  ]

  marked_again :
      (session : String) (now : ℕ) (destroyed : Map ℕ)
      → t ≤ now
      → MarkedSince t (get s destroyed)
      → MarkedSince t (get s (set session now destroyed))
  marked_again session now destroyed h marked = elim (String-cases session s) [
    | inl (same, eq) ↦ rw (get-set session s now destroyed, eq) h
    | inr (other, ne) ↦ rw (get-set session s now destroyed, ne) marked
  ]

  finish-IsClosed :
      (session provider : String) (m : Manager)
      → IsClosed s t m
      → IsClosed s t (finish session provider m)
  unfolding finish
  finish-IsClosed session provider m v =
      elim (Option-cases (get (dedup_key session provider) m.pending)) [
        | inl absent ↦ rw (absent, finish) v
        | inr (e, there) ↦ elim (Bool-cases e.settled) [
          | inl over ↦ rw (there, finish, over) (like-IsClosed m _ refl refl v)
          | inr open_ ↦ rw (there, finish, open_) v
        ]
      ]

  notified-IsClosed :
      (session provider method : String) (active : Bool) (now : ℕ) (m : Manager)
      → IsClosed s t m
      → IsClosed s t (handle_upstream_notification session provider method active now m)
  unfolding handle_upstream_notification fire_hooks
  notified-IsClosed session provider method true now m v =
      like-IsClosed m _ (ground arith) (ground arith) v
  notified-IsClosed session provider method false now m v =
      like-IsClosed m _ (ground arith) (ground arith) v

  perform-IsClosed :
      (e : Event) (m : Manager) → InTime t e → IsClosed s t m → IsClosed s t (perform e m)
  unfolding perform begin_close stop_all end_close finish fail_heartbeat
      handle_upstream_notification drain_notifications
  perform-IsClosed (call session provider token now) m h v =
      call-IsClosed session provider token now m v
  perform-IsClosed (settled session provider works now) m h v =
      settle-IsClosed session provider works now m v
  perform-IsClosed (finished session provider) m h v = finish-IsClosed session provider m v
  perform-IsClosed (transport_failed session provider id) m h v =
      fail-IsClosed session provider id m v
  perform-IsClosed (heartbeat_failed session provider id) m h v =
      elim (Bool-cases (has (dedup_key session provider) m.timers)) [
        | inl running ↦
            rw (running, perform, fail_heartbeat) (fail-IsClosed session provider id m v)
        | inr off ↦ rw (off, perform, fail_heartbeat) v
      ]
  perform-IsClosed (closing session now) m h v = record {
    gone = v.gone;
    marked = marked_again session now m.destroyed h v.marked;
  }
  perform-IsClosed (stopped session) m h v = like-IsClosed m _ refl refl v
  perform-IsClosed (closed session now) m h v = record {
    gone = ground (arith, get-delete session s m.connections, v.gone);
    marked = end_close-marked now m.destroyed h v.marked;
  }
  perform-IsClosed (notified session provider method active now) m h v =
      notified-IsClosed session provider method active now m v
  perform-IsClosed (drained session now) m h v = elim (Option-cases (get session m.queues)) [
    | inl absent ↦ rw (absent, perform, drain_notifications) v
    | inr (q, there) ↦ rw (there, perform, drain_notifications) (like-IsClosed m _ refl refl v)
  ]

  -- From the end of the closing of a session on, for as long as its marker is kept, no connection of
  -- the session is there, whatever calls and attempts in flight do.
  pub perform_all-IsClosed :
      (es : List Event) (m : Manager)
      → All (InTime t) es
      → IsClosed s t m
      → IsClosed s t (perform_all es m)
  unfolding perform_all
  perform_all-IsClosed [] m h v = v
  perform_all-IsClosed (e ∷ es) m (first, h) v =
      perform_all-IsClosed es (perform e m) h (perform-IsClosed e m first v)

-- The end of the closing of a session, while its marker is there, leaves it without connections to
-- upstream servers, and none is stored for it afterwards as long as the marker is kept.
pub closed-no_connection :
    (s : String) (t now : ℕ) (es : List Event) (m : Manager)
    → MarkedSince t (get s m.destroyed)
    → All (InTime t) (closed s now ∷ es)
    → get s (perform_all (closed s now ∷ es) m).connections ≡ none
unfolding perform_all perform end_close
closed-no_connection s t now es m marked (soon, h) =
    (perform_all-IsClosed s t es (end_close s now m) h (record {
      gone = get-delete_self s m.connections;
      marked = end_close-marked s t now m.destroyed soon marked;
    })).gone
