-- ===== src/Upstream/Notifications.antt =====
-- The queue of notifications is bounded and in order, and holds nothing too old.
use mcp4openapi.Prelude.{
  ℕ, ◌-◌, ◌≤◌, ◌<◌, ◌≡◌, refl, String, Bool, false, List, [], ◌∷◌, ◌++◌, length, length-append,
  keep, All, not_leb→lt, ltb→lt, leb, arith, Bool-cases, inl, inr, get, set, get-set_self, some,
  str_eq,
}
use mcp4openapi.Upstream.{
  Manager, handle_upstream_notification, drain_notifications, queue_of, fire_hooks,
  tools_list_changed,
}
use mcp4openapi.Upstream.Queue.{Entry, NotificationQueue, push, drain, is_fresh, shift}

-- No entry is younger than those behind it, nor than `now`.
abbrev pub InOrder : ℕ → List Entry → Type 0
InOrder now [] = Unit
InOrder now (e ∷ es) =
    (e.timestamp ≤ now) × All (λ d. e.timestamp ≤ d.timestamp) es × InOrder now es

pub record IsValid (now : ℕ) (q : NotificationQueue) : Type 0 where
  pub room : 0 < q.max_size
  pub bounded : length q.entries ≤ q.max_size
  pub ordered : InOrder now q.entries

pub length-keep-le : (p : Entry → Bool) (es : List Entry) → length (keep p es) ≤ length es
length-keep-le p [] = omega arith
length-keep-le p (e ∷ es) = ground (arith, length-keep-le p es)

keep_below :
    (p : Entry → Bool) (t : ℕ) (es : List Entry)
    → All (λ d. t ≤ d.timestamp) es
    → All (λ d. t ≤ d.timestamp) (keep p es)
keep_below p t [] h = tt
keep_below p t (e ∷ es) (first, h) = ground (arith, keep_below p t es)

pub keep-InOrder :
    (p : Entry → Bool) (now : ℕ) (es : List Entry) → InOrder now es → InOrder now (keep p es)
keep-InOrder p now [] h = tt
keep-InOrder p now (e ∷ es) (young, first, h) = elim (Bool-cases (p e)) [
  | inl kept ↦ rw kept (young, keep_below p e.timestamp es first, keep-InOrder p now es h)
  | inr dropped ↦ rw dropped (keep-InOrder p now es h)
]

snoc_below :
    (t : ℕ) (es : List Entry) (e : Entry)
    → All (λ d. t ≤ d.timestamp) es
    → t ≤ e.timestamp
    → All (λ d. t ≤ d.timestamp) (es ++ e ∷ [])
snoc_below t [] e h k = (k, tt)
snoc_below t (d ∷ es) e (first, h) k = (first, snoc_below t es e h k)

snoc-InOrder :
    (before now : ℕ) (es : List Entry) (e : Entry)
    → InOrder before es
    → before ≤ now
    → e.timestamp ≡ now
    → InOrder now (es ++ e ∷ [])
snoc-InOrder before now [] e h later_ at = (omega arith, tt, tt)
snoc-InOrder before now (d ∷ es) e (young, first, h) later_ at = (
  omega arith,
  snoc_below d.timestamp es e first (omega arith),
  snoc-InOrder before now es e h later_ at,
)

shift-InOrder : (now : ℕ) (es : List Entry) → InOrder now es → InOrder now (shift es)
shift-InOrder now [] h = tt
shift-InOrder now (e ∷ es) (young, first, h) = h

pub length-shift : (es : List Entry) → length (shift es) ≡ length es - 1
length-shift [] = refl
length-shift (e ∷ es) = omega arith

-- A push keeps the bound and the order of the queue, where the clock does not go back, and the new
-- entry is the last one.
pub push-IsValid :
    (method : String) (before now : ℕ) (q : NotificationQueue)
    → before ≤ now
    → IsValid before q
    → IsValid now (push method now q)
unfolding push
push-IsValid method before now q later_ v =
    let kept = keep (is_fresh now q.ttl_ms) q.entries in
    let e : Entry = record { method = method; timestamp = now } in
    let small = length-keep-le (is_fresh now q.ttl_ms) q.entries in
    let sorted = keep-InOrder (is_fresh now q.ttl_ms) before q.entries v.ordered in
    elim (Bool-cases (leb q.max_size (length kept))) [
      | inl full ↦ rw full (record {
        room = v.room;
        bounded = omega (
          arith,
          length-append (shift kept) (e ∷ []),
          length-shift kept,
          small,
          v.bounded,
          v.room,
        );
        ordered =
            snoc-InOrder before now (shift kept) e (shift-InOrder before kept sorted) later_ refl;
      })
      | inr free ↦ rw free (record {
        room = v.room;
        bounded =
            omega (arith, length-append kept (e ∷ []), not_leb→lt q.max_size (length kept) free);
        ordered = snoc-InOrder before now kept e sorted later_ refl;
      })
    ]

-- An entry that is kept is not too old.
pub keep-Recent :
    (now ttl : ℕ) (es : List Entry)
    → All (λ e. now - e.timestamp < ttl) (keep (is_fresh now ttl) es)
keep-Recent now ttl [] = tt
keep-Recent now ttl (e ∷ es) = elim (Bool-cases (is_fresh now ttl e)) [
  | inl fresh ↦ rw fresh (ltb→lt (now - e.timestamp) ttl fresh, keep-Recent now ttl es)
  | inr old ↦ rw old (keep-Recent now ttl es)
]

pub handled_queue :
    (session provider method : String) (now : ℕ) (m : Manager)
    → (get session (handle_upstream_notification session provider method false now m).queues
        ≡ some (push method now (queue_of session m)))
      × ((handle_upstream_notification session provider method false now m).sent ≡ m.sent)
unfolding handle_upstream_notification fire_hooks
handled_queue session provider method now m = elim (Bool-cases (str_eq method tools_list_changed)) [
  | inl tools ↦
      rw (tools, handle_upstream_notification)
        (get-set_self session (push method now (queue_of session m)) m.queues, refl)
  | inr other ↦
      rw (other, handle_upstream_notification)
        (get-set_self session (push method now (queue_of session m)) m.queues, refl)
]

pub drained_queue :
    (session : String) (at : ℕ) (m : Manager) (q : NotificationQueue)
    → get session m.queues ≡ some q
    → drain_notifications session at m
      ≡ (record m { queues = set session (drain at q).0 m.queues }, (drain at q).1)
unfolding drain_notifications
drained_queue session at m q e = rw (e, drain_notifications) refl
